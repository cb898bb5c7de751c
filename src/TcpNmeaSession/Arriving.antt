-- ===== src/TcpNmeaSession/Arriving.antt =====
-- What reaches a session's sink while the session waits: the receiving thread of src/uart_nmea.c
-- handles whole lines of input, and then the dispatcher of src/nmea_bridge.c empties its queue.
use esp_nmea_bridge_zephyr.Base.{
  ℕ, zero, suc, ◌+◌, ◌≤◌, ◌<◌, ◌≡◌, refl, ap, ap₂, sym, ◌∙◌, Bool, true, false, some, List, [], ◌∷◌,
  ◌++◌, arith, ◌==◌, map, length, length-append, length-map, get_elem?, All, All-append, All-imp,
  map-append, subst,
}
use esp_nmea_bridge_zephyr.Zephyr.{Msgq}
use esp_nmea_bridge_zephyr.Config.{Config, InRange}
use esp_nmea_bridge_zephyr.NmeaBridge.{Frame, SinkSlot, Bridge, dispatch}
use esp_nmea_bridge_zephyr.NmeaBridge.Queueing.{keep_newest, keep_newest-eq_self}
use esp_nmea_bridge_zephyr.NmeaBridge.Invariant.{IsValid, dispatch-IsValid}
use esp_nmea_bridge_zephyr.NmeaBridge.Delivery.{
  frame_of, rounds, rounds-Received, publish_all, publish_all-Queued,
}
use esp_nmea_bridge_zephyr.UartNmea.{Uart, no_uart_stats, newline, rx_burst}
use esp_nmea_bridge_zephyr.UartNmea.Framing.{text, NoNewline, Line, stream, frames_of, skip_after}
use esp_nmea_bridge_zephyr.UartNmea.Lines.{rx_burst-Framed}
use esp_nmea_bridge_zephyr.TcpNmeaSession.{Shared}

-- Every line of the reference framing fits a frame.
pub frames_of-fit :
    (max_len : ℕ) (skip : Bool) (ls : List Line)
    → All (λ line. (0 < length line) × (length line ≤ max_len)) (frames_of max_len skip ls)
unfolding frames_of
frames_of-fit max_len skip [] = tt
frames_of-fit max_len true (l ∷ ls) = frames_of-fit max_len false ls
frames_of-fit max_len false (l ∷ ls) = ground (
  arith,
  frames_of-fit max_len (length l.body == max_len) ls,
  length-append (text l.body) (newline ∷ []),
  length-map l.body (λ (c : ℕ × ℕ). c.0),
)

-- The framing of a stream in two parts.
pub frames_of-append :
    (max_len : ℕ) (skip : Bool) (ls rest : List Line)
    → frames_of max_len skip (ls ++ rest)
      ≡ frames_of max_len skip ls ++ frames_of max_len (skip_after max_len skip ls) rest
unfolding frames_of skip_after
frames_of-append max_len true [] rest = refl
frames_of-append max_len false [] rest = refl
frames_of-append max_len true (l ∷ ls) rest = frames_of-append max_len false ls rest
frames_of-append max_len false (l ∷ ls) rest =
    ground (arith, frames_of-append max_len (length l.body == max_len) ls rest)

module _ {Q : Type 0} ⦃m : Msgq Frame Q⦄ (cfg : Config) where
  -- The receiver starts at the start of a line, or of one that it drops; no frame depends on its
  -- counters, which start from 0.
  unfoldable pub arrive : Bool → List Line → Shared Q → Shared Q
  arrive skip ls w =
      let u : Uart Q = record {
        line = [];
        dropping_overlong = skip;
        uart_stats = no_uart_stats;
        bridge = w.bridge;
        led = w.led;
      } in
      let v = rx_burst cfg u (stream ls) in
      record w { bridge = rounds (length (m.contents v.bridge.ingest_msgq)) v.bridge; led = v.led }

  -- A valid bridge with nothing on its way to the sinks, whose sink `i` is open and holds these lines.
  pub record Waiting (i : ℕ) (pending : List (List ℕ)) (b : Bridge Q) : Type 0 where
    pub valid : IsValid cfg b
    pub empty : m.contents b.ingest_msgq ≡ []
    pub slot : SinkSlot Q
    pub at : get_elem? b.sinks i ≡ some slot
    pub active : slot.active ≡ true
    pub contents : m.contents slot.msgq ≡ map frame_of pending
    pub fit : All (λ line. length line ≤ cfg.nmea_frame_max_len) pending

  rounds-IsValid : (n : ℕ) (b : Bridge Q) → IsValid cfg b → IsValid cfg (rounds n b)
  unfolding rounds
  rounds-IsValid zero b v = v
  rounds-IsValid (suc n) b v = rounds-IsValid n (dispatch b) (dispatch-IsValid cfg b v)

  -- The frames of the lines that came in are in the sink behind those that it held, if they fit there
  -- and in the ingest queue.
  pub arrive-Waiting :
      (skip : Bool) (ls : List Line) (w : Shared Q) (i : ℕ) (pending : List (List ℕ))
      → InRange cfg
      → All (λ l. NoNewline l.body) ls
      → let frames = frames_of cfg.nmea_frame_max_len skip ls in
        length frames ≤ cfg.ingest_queue_depth
        → length pending + length frames ≤ cfg.sink_queue_depth
        → Waiting i pending w.bridge
        → Waiting i (pending ++ frames) (arrive skip ls w).bridge
  unfolding arrive
  arrive-Waiting skip ls w i pending range nl few room h =
      let max_len : ℕ = cfg.nmea_frame_max_len in
      let frames : List (List ℕ) = frames_of max_len skip ls in
      let u : Uart Q = record {
        line = [];
        dropping_overlong = skip;
        uart_stats = no_uart_stats;
        bridge = w.bridge;
        led = w.led;
      } in
      let b : Bridge Q = (rx_burst cfg u (stream ls)).bridge in
      let framed =
        rx_burst-Framed cfg ls skip 0 0 w.bridge u nl (omega arith) (omega arith) (record {
          line_is = refl;
          dropping_is = refl;
          lines_is = refl;
          overlong_is = refl;
          bridge_is = refl;
        }) in
      let queued =
        publish_all-Queued cfg frames w.bridge range h.valid (frames_of-fit max_len skip ls) in
      let published : b ≡ publish_all cfg w.bridge frames = framed.bridge_is in
      let valid : IsValid cfg b = subst (IsValid cfg) (sym published) queued.valid in
      let inside : m.contents b.ingest_msgq ≡ map frame_of frames =
        ap (λ c. m.contents c.ingest_msgq) published
        ∙ queued.contents
        ∙ ap (λ fs. keep_newest cfg.ingest_queue_depth (fs ++ map frame_of frames)) h.empty
        ∙ keep_newest-eq_self cfg.ingest_queue_depth (map frame_of frames)
            (omega (arith, few, length-map frames frame_of)) in
      let at_b : get_elem? b.sinks i ≡ some h.slot =
        ap (λ c. get_elem? c.sinks i) published ∙ ap (λ xs. get_elem? xs i) queued.sinks ∙ h.at in
      let (empty, (s, at_i, got)) =
        rounds-Received (m.contents b.ingest_msgq) cfg b i h.slot valid refl at_b h.active in
      record {
        valid = rounds-IsValid (length (m.contents b.ingest_msgq)) b valid;
        empty = empty;
        slot = s;
        at = at_i;
        active = got.active;
        contents =
            got.contents
            ∙ ap₂ (λ xs ys. keep_newest cfg.sink_queue_depth (xs ++ ys)) h.contents inside
            ∙ ap (keep_newest cfg.sink_queue_depth) (sym (map-append frame_of pending frames))
            ∙ keep_newest-eq_self cfg.sink_queue_depth (map frame_of (pending ++ frames)) (
                omega (
                  arith,
                  room,
                  length-map (pending ++ frames) frame_of,
                  length-append pending frames,
                ));
        fit =
            All-append _ pending frames h.fit
              (All-imp _ _ frames (λ l p. p.1) (frames_of-fit max_len skip ls));
      }
