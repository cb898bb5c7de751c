-- ===== src/TcpNmeaSession/Delivering.antt =====
-- From the bytes of the UART to those on the wire: the lines that come in during a session, through
-- the receiver, the bridge and the session's loop.
use esp_nmea_bridge_zephyr.Base.{
  ℕ, ◌+◌, ◌-◌, ◌<◌, ◌≡◌, refl, ap, sym, ◌∙◌, Bool, true, false, Option, none, some, List, [], ◌∷◌,
  ◌++◌, arith, append_assoc, append-nil, flatten, flatten-append, length, length-append,
  length-drop, take, drop, All, subst, String,
}
use esp_nmea_bridge_zephyr.Zephyr.{Msgq}
use esp_nmea_bridge_zephyr.Config.{Config, InRange}
use esp_nmea_bridge_zephyr.NmeaBridge.{Frame, Sink, Bridge}
use esp_nmea_bridge_zephyr.NmeaBridge.Sinks.{sink_open}
use esp_nmea_bridge_zephyr.NmeaBridge.Slots.{count_active}
use esp_nmea_bridge_zephyr.NmeaBridge.Invariant.{IsValid}
use esp_nmea_bridge_zephyr.NmeaBridge.Handles.{Opened, sink_open-ok}
use esp_nmea_bridge_zephyr.NmeaBridge.Keeping.{sink_open-IsValid}
use esp_nmea_bridge_zephyr.UartNmea.Framing.{frames_of, skip_after}
use esp_nmea_bridge_zephyr.TcpNmeaSession.{
  Shared, Turn, Next, Outcome, turn, loop, after_loop, after_open, finish, after_drain, with_wire,
  proceed, SessionResult, run, drain_socket_rx, started,
}
use esp_nmea_bridge_zephyr.TcpNmeaSession.Arriving.{Waiting, frames_of-append}
use esp_nmea_bridge_zephyr.TcpNmeaSession.Visits.{
  Visit, lines_of, frames_in, Good, backlog, Room, turns, Goes, turn-Goes,
}

module _ {Q : Type 0} ⦃m : Msgq Frame Q⦄ (cfg : Config) where
  -- The loop has sent the first of these lines, in order, and leaves the last `rest` of them.
  record Delivers (i : ℕ) (r : SessionResult) (lines : List (List ℕ)) (rest : ℕ)
      (o : Option (SessionResult × Shared Q × List ℕ)) : Type 0 where
    pub left : Shared Q
    pub sent : List (List ℕ)
    pub kept : List (List ℕ)
    pub returns : o ≡ some (r, left, flatten sent)
    pub split : lines ≡ sent ++ kept
    pub remains : length kept ≡ rest

  -- A round before the loop.
  proceed-Delivers :
      (i rest : ℕ) (r : SessionResult) (pending more : List (List ℕ))
      (o : Option (Next × Shared Q × List ℕ))
      (loop_on : Shared Q → Option (SessionResult × Shared Q × List ℕ)) (g : Goes cfg i pending o)
      → Delivers i r (drop 1 pending ++ more) rest (loop_on g.left)
      → Delivers i r (pending ++ more) rest (proceed cfg o loop_on)
  unfolding proceed with_wire
  proceed-Delivers i rest r pending more o loop_on g d =
      let first : List (List ℕ) = take 1 pending in
      record {
        left = d.left;
        sent = first ++ d.sent;
        kept = d.kept;
        returns = rw (g.goes, d.returns, flatten-append first d.sent) refl;
        split =
            ap (λ xs. xs ++ more) (sym (take-drop pending))
            ∙ append_assoc first (drop 1 pending) more
            ∙ ap (λ xs. first ++ xs) d.split
            ∙ sym (append_assoc first d.sent d.kept);
        remains = d.remains;
      }
    where
      take-drop : (xs : List (List ℕ)) → take 1 xs ++ drop 1 xs ≡ xs
      take-drop [] = refl
      take-drop (x ∷ xs) = refl

  loop-Delivers :
      (vs : List Visit) (w : Shared Q) (i : ℕ) (skip : Bool) (last : Turn Q) (r : SessionResult)
      (pending : List (List ℕ))
      → InRange cfg
      → All (Good cfg) vs
      → Room cfg (length pending) skip vs
      → drain_socket_rx last.rx_before ≡ some (some r)
      → Waiting cfg i pending w.bridge
      → Delivers i r
          (pending ++ frames_of cfg.nmea_frame_max_len skip (lines_of vs))
          (backlog cfg (length pending) skip vs)
          (loop cfg w (record { id = some i }) (turns cfg skip vs last))
  unfolding loop turns turn after_drain proceed frames_of flatten
  loop-Delivers [] w i skip last r pending range good room ends h = record {
    left = w;
    sent = [];
    kept = pending;
    returns = rw ends refl;
    split = no_more skip;
    remains = refl;
  }
    where
      no_more : (b : Bool) → pending ++ frames_of cfg.nmea_frame_max_len b [] ≡ pending
      no_more true = append-nil pending
      no_more false = append-nil pending
  loop-Delivers (v ∷ vs) w i skip last r pending range good room ends h =
      let frames : List (List ℕ) = frames_in cfg skip v in
      let all : List (List ℕ) = pending ++ frames in
      let skip' : Bool = skip_after cfg.nmea_frame_max_len skip v.lines in
      let more : List (List ℕ) = frames_of cfg.nmea_frame_max_len skip' (lines_of vs) in
      let g = turn-Goes cfg w i skip v pending range good.0 room.0 room.1 h in
      let len : length (drop 1 all) ≡ length pending + length frames - 1 =
        omega (arith, length-drop 1 all, length-append pending frames) in
      let rest =
        loop-Delivers vs g.left i skip' last r (drop 1 all) range good.1
          (subst (λ n. Room cfg n skip' vs) (sym len) room.2) ends g.waiting in
      let whole : all ++ more
          ≡ pending ++ frames_of cfg.nmea_frame_max_len skip (v.lines ++ lines_of vs) =
        append_assoc pending frames more
        ∙ ap (λ xs. pending ++ xs)
            (sym (frames_of-append cfg.nmea_frame_max_len skip v.lines (lines_of vs))) in
      let out =
        proceed-Delivers i (backlog cfg (length (drop 1 all)) skip' vs) r all more _
          (λ w'. loop cfg w' (record { id = some i }) (turns cfg skip' vs last)) g rest in
      subst
        (λ xs.
          Delivers i r xs (backlog cfg (length pending + length frames - 1) skip' vs)
            (loop cfg w (record { id = some i }) (turns cfg skip (v ∷ vs) last)))
        whole
        (subst
          (λ n.
            Delivers i r (all ++ more) (backlog cfg n skip' vs)
              (loop cfg w (record { id = some i }) (turns cfg skip (v ∷ vs) last)))
          len out)

  started-bridge : (w : Shared Q) → (started cfg w).bridge ≡ w.bridge
  unfolding started
  started-bridge w = refl

  open-Waiting :
      (b c : Bridge Q) (name : Option String) (i : ℕ)
      → m.contents b.ingest_msgq ≡ []
      → IsValid cfg c
      → Opened b name i c
      → Waiting cfg i [] c
  open-Waiting b c name i empty valid o = record {
    valid = valid;
    empty = ap m.contents o.ingest_msgq ∙ empty;
    slot = o.new;
    at = o.now;
    active = o.active;
    contents = o.empty;
    fit = tt;
  }

  -- The session returns `r`; it has sent the first of these lines, in order, and the last `rest` of
  -- them are not sent; its socket alone is closed.
  pub record RunDelivers (r : SessionResult) (lines : List (List ℕ)) (rest : ℕ) (fd : ℕ)
      (o : Option (Outcome Q)) : Type 0 where
    pub outcome : Outcome Q
    pub sent : List (List ℕ)
    pub kept : List (List ℕ)
    pub returns : o ≡ some outcome
    pub result : outcome.result ≡ r
    pub wire : outcome.wire ≡ flatten sent
    pub split : lines ≡ sent ++ kept
    pub remains : length kept ≡ rest
    pub closed : outcome.closed ≡ fd ∷ []

  after_loop-Delivers :
      (i fd rest : ℕ) (r : SessionResult) (lines : List (List ℕ))
      (o : Option (SessionResult × Shared Q × List ℕ))
      → Delivers i r lines rest o
      → RunDelivers r lines rest fd (after_loop cfg fd (record { id = some i }) o)
  unfolding after_loop
  after_loop-Delivers i fd rest r lines o d = record {
    outcome = record {
      result = r;
      shared = finish cfg d.left (record { id = some i });
      wire = flatten d.sent;
      closed = fd ∷ [];
    };
    sent = d.sent;
    kept = d.kept;
    returns = rw d.returns refl;
    result = refl;
    wire = refl;
    split = d.split;
    remains = d.remains;
    closed = refl;
  }

  -- With settings in their ranges, a valid bridge with a free sink and nothing on its way to the
  -- sinks: if lines come in on the UART during the rounds of a session, of any length, which in
  -- each wait the receiver handles and the dispatcher then passes on, if in every round the queues
  -- have room for the frames that come in, and if the socket works until the session finds that it
  -- has to end, then the session returns the reason found and has closed its socket, and the bytes
  -- on the wire are those of the frames that the reference framing makes of the lines, whole, once
  -- each and in order, but for the last ones, as many as are left over if each round sends one
  -- frame.
  pub run-Delivers :
      (w : Shared Q) (fd : ℕ) (name : Option String) (skip : Bool) (vs : List Visit) (last : Turn Q)
      (r : SessionResult)
      → InRange cfg
      → IsValid cfg w.bridge
      → m.contents w.bridge.ingest_msgq ≡ []
      → count_active w.bridge.sinks < length w.bridge.sinks
      → All (Good cfg) vs
      → Room cfg 0 skip vs
      → drain_socket_rx last.rx_before ≡ some (some r)
      → RunDelivers r
          (frames_of cfg.nmea_frame_max_len skip (lines_of vs))
          (backlog cfg 0 skip vs)
          fd
          (run cfg w fd name (turns cfg skip vs last))
  unfolding run after_open
  run-Delivers w fd name skip vs last r range valid empty free good room ends =
      let closed : Sink = record { id = none } in
      let (i, ret, sink, o) = sink_open-ok w.bridge closed name free in
      let c : Bridge Q = (sink_open w.bridge (some closed) name).2 in
      let s : Shared Q = started cfg (record w { bridge = c }) in
      let h =
        open-Waiting w.bridge c name i empty
          (sink_open-IsValid cfg w.bridge (some closed) name valid) o in
      rw (ret, sink)
        (after_loop-Delivers i fd _ r _ _ (
          loop-Delivers vs s i skip last r [] range good room ends
            (subst (Waiting cfg i []) (sym (started-bridge (record w { bridge = c }))) h)))
