-- ===== src/TcpNmeaSession/Visits.antt =====
-- A round of a session's loop in which whole lines come in and the socket works.
use esp_nmea_bridge_zephyr.Base.{
  ℕ, ◌+◌, ◌-◌, ◌≤◌, ◌≡◌, refl, ap, ◌∙◌, Bool, true, false, Option, none, some, List, [], ◌∷◌, ◌++◌,
  arith, append-nil, flatten, ltb, map, length, take, drop, take-all, All, inl,
}
use esp_nmea_bridge_zephyr.Zephyr.{Status, SockResult, msec, Msgq}
use esp_nmea_bridge_zephyr.Config.{Config, InRange}
use esp_nmea_bridge_zephyr.NmeaBridge.{Frame, Sink, Bridge}
use esp_nmea_bridge_zephyr.NmeaBridge.Sinks.{sink_take}
use esp_nmea_bridge_zephyr.NmeaBridge.Invariant.{IsValid}
use esp_nmea_bridge_zephyr.NmeaBridge.Delivery.{frame_of}
use esp_nmea_bridge_zephyr.NmeaBridge.Handles.{
  Took, read_status, read_frame, rest_of, sink_take_lem,
}
use esp_nmea_bridge_zephyr.NmeaBridge.Keeping.{sink_take-IsValid}
use esp_nmea_bridge_zephyr.UartNmea.Framing.{NoNewline, Line, frames_of, skip_after}
use esp_nmea_bridge_zephyr.StatusLed
use esp_nmea_bridge_zephyr.TcpNmeaSession.{
  Shared, Turn, Next, go, after_send, after_take, turn, last_drain, after_drain, drain_socket_rx,
}
use esp_nmea_bridge_zephyr.TcpNmeaSession.Sending.{progress, send_all_lem}
use esp_nmea_bridge_zephyr.TcpNmeaSession.Arriving.{arrive, Waiting, arrive-Waiting}

-- A round of a session that goes on: the lines that come in during its wait, and what its socket
-- calls return.
pub record Visit : Type 0 where
  pub lines : List Line
  pub rx_before : List SockResult
  pub tx : List SockResult
  pub uptime_ms : ℕ
  pub rx_after : List SockResult

abbrev pub lines_of : List Visit → List Line
lines_of [] = []
lines_of (v ∷ vs) = v.lines ++ lines_of vs

module _ (cfg : Config) where
  abbrev pub frames_in : Bool → Visit → List (List ℕ)
  frames_in skip v = frames_of cfg.nmea_frame_max_len skip v.lines

  -- The lines are whole, the peer is there, and the calls of `send_all` move a frame of any size.
  pub record Good (v : Visit) : Type 0 where
    pub whole : All (λ l. NoNewline l.body) v.lines
    pub before : drain_socket_rx v.rx_before ≡ some none
    pub sends : cfg.nmea_frame_max_len ≤ progress v.tx
    pub after : drain_socket_rx v.rx_after ≡ some none

  -- The frames that are left in the sink behind these rounds, each of which sends one if there is one.
  abbrev pub backlog : ℕ → Bool → List Visit → ℕ
  backlog n skip [] = n
  backlog n skip (v ∷ vs) =
      backlog (n + length (frames_in skip v) - 1) (skip_after cfg.nmea_frame_max_len skip v.lines)
        vs

  -- In every round the queues have room for the frames that come in.
  abbrev pub Room : ℕ → Bool → List Visit → Type 0
  Room n skip [] = Unit
  Room n skip (v ∷ vs) =
      (length (frames_in skip v) ≤ cfg.ingest_queue_depth)
      × (n + length (frames_in skip v) ≤ cfg.sink_queue_depth)
      × Room (n + length (frames_in skip v) - 1) (skip_after cfg.nmea_frame_max_len skip v.lines) vs

module _ {Q : Type 0} ⦃m : Msgq Frame Q⦄ (cfg : Config) where
  unfoldable pub to_turn : Bool → Visit → Turn Q
  to_turn skip v = record {
    rx_before = v.rx_before;
    others = arrive cfg skip v.lines;
    tx = v.tx;
    uptime_ms = v.uptime_ms;
    rx_after = v.rx_after;
  }

  -- The rounds, then one in which the session finds that it has to end.
  unfoldable pub turns : Bool → List Visit → Turn Q → List (Turn Q)
  turns skip [] last = last ∷ []
  turns skip (v ∷ vs) last =
      to_turn skip v ∷ turns (skip_after cfg.nmea_frame_max_len skip v.lines) vs last

  -- The first line is taken from the sink.
  Took-Waiting :
      (i : ℕ) (pending : List (List ℕ)) (c : Bridge Q) (h : Waiting cfg i pending c)
      (r : Status × Option Frame × Bridge Q)
      → Took c i h.slot (msec 250) r
      → IsValid cfg r.2
      → Waiting cfg i (drop 1 pending) r.2
  Took-Waiting i pending c h r took valid = record {
    valid = valid;
    empty = ap (λ b. m.contents b.ingest_msgq) took.bridge ∙ h.empty;
    slot = took.new;
    at = took.now;
    active = took.active ∙ h.active;
    contents = took.contents ∙ ap rest_of h.contents ∙ rest-map pending;
    fit = All-drop pending h.fit;
  }
    where
      rest-map : (ls : List (List ℕ)) → rest_of (map frame_of ls) ≡ map frame_of (drop 1 ls)
      rest-map [] = refl
      rest-map (l ∷ ls) = refl

      All-drop :
          (ls : List (List ℕ))
          → All (λ line. length line ≤ cfg.nmea_frame_max_len) ls
          → All (λ line. length line ≤ cfg.nmea_frame_max_len) (drop 1 ls)
      All-drop [] k = k
      All-drop (l ∷ ls) k = k.1

  -- A round that goes on has sent the first of these lines, if there is one, and leaves the others.
  pub record Goes (i : ℕ) (pending : List (List ℕ)) (o : Option (Next × Shared Q × List ℕ))
      : Type 0 where
    pub left : Shared Q
    pub goes : o ≡ some (go, left, flatten (take 1 pending))
    pub waiting : Waiting cfg i (drop 1 pending) left.bridge

  take-Goes :
      (w : Shared Q) (i : ℕ) (skip : Bool) (v : Visit) (pending : List (List ℕ))
      (r : Status × Option Frame × Bridge Q)
      → All (λ line. length line ≤ cfg.nmea_frame_max_len) pending
      → Good cfg v
      → r.0 ≡ read_status (map frame_of pending) (msec 250)
      → r.1 ≡ read_frame (map frame_of pending)
      → Waiting cfg i (drop 1 pending) r.2
      → Goes i pending (after_take cfg w (to_turn skip v) r.0 r.1 r.2)
  unfolding after_take after_send last_drain to_turn flatten
  take-Goes w i skip v [] r fit good status frame h = record {
    left = record (arrive cfg skip v.lines w) { bridge = r.2 };
    goes = rw status refl;
    waiting = h;
  }
  take-Goes w i skip v (l ∷ ls) r fit good status frame h =
      let all_sent : ltb (progress v.tx) (length l) ≡ false = ground (arith, fit.0, good.sends) in
      let sent = send_all_lem (frame_of l) v.tx refl (inl (omega (arith, fit.0, good.sends))) in
      let whole : take (progress v.tx) l ≡ l =
        take-all (progress v.tx) l (omega (arith, fit.0, good.sends)) in
      record {
        left = record (arrive cfg skip v.lines w) {
          bridge = r.2;
          led = StatusLed.nmea_frame_forwarded cfg (arrive cfg skip v.lines w).led v.uptime_ms;
        };
        goes = rw (status, frame, sent, all_sent, whole, good.after, append-nil) refl;
        waiting = h;
      }

  pub turn-Goes :
      (w : Shared Q) (i : ℕ) (skip : Bool) (v : Visit) (pending : List (List ℕ))
      → InRange cfg
      → Good cfg v
      → length (frames_in cfg skip v) ≤ cfg.ingest_queue_depth
      → length pending + length (frames_in cfg skip v) ≤ cfg.sink_queue_depth
      → Waiting cfg i pending w.bridge
      → Goes i
          (pending ++ frames_in cfg skip v)
          (turn cfg w (record { id = some i }) (to_turn skip v))
  unfolding turn after_drain to_turn
  turn-Goes w i skip v pending range good few room h =
      let pending' : List (List ℕ) = pending ++ frames_in cfg skip v in
      let c : Bridge Q = (arrive cfg skip v.lines w).bridge in
      let h' : Waiting cfg i pending' c =
        arrive-Waiting cfg skip v.lines w i pending range good.whole few room h in
      let sink : Sink = record { id = some i } in
      let r = sink_take w.bridge (some sink) true (msec 250) (λ _. c) in
      let took =
        sink_take_lem w.bridge sink i h.slot h'.slot (msec 250) (λ _. c) refl h.at h.active h'.at in
      let valid =
        sink_take-IsValid cfg w.bridge (some sink) true (msec 250) (λ _. c) h.valid h'.valid in
      rw good.before (
        take-Goes w i skip v pending' r h'.fit good
          (took.status ∙ ap (λ fs. read_status fs (msec 250)) h'.contents)
          (took.frame ∙ ap read_frame h'.contents) (Took-Waiting i pending' c h' r took valid))
