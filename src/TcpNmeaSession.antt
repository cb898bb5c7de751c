-- ===== src/TcpNmeaSession.antt =====
-- src/tcp_nmea_session.h and src/tcp_nmea_session.c: one connected socket and its sink. The results
-- of the socket calls are lists, one for each call site and round; where such a list ends before the
-- code is done with it, the code is still running and the result is `none`.
pub mod Sending
pub mod Counting
pub mod Rounds
pub mod Running
pub mod Arriving
pub mod Visits
pub mod Delivering
mod Tests
use esp_nmea_bridge_zephyr.Base.{
  ℕ, zero, suc, ◌+◌, Bool, true, false, Option, none, some, List, [], ◌∷◌, ◌++◌, String,
  if◌then◌else◌, leb, take, drop, u32, sub32,
}
use esp_nmea_bridge_zephyr.Zephyr.{
  Errno, einval, enotconn, eagain, eintr, Status, ok, err, SockResult, got, fault, Timeout, msec,
  Msgq,
}
use esp_nmea_bridge_zephyr.Config.{Config}
use esp_nmea_bridge_zephyr.NmeaBridge.{Frame, Sink, Bridge}
use esp_nmea_bridge_zephyr.NmeaBridge.Sinks.{sink_open, sink_close, sink_take}
use esp_nmea_bridge_zephyr.StatusLed
use esp_nmea_bridge_zephyr.StatusLed.{StatusLed}

-- `enum tcp_nmea_session_result`
pub data SessionResult : Type 0 where
  peer_closed send_failed sink_unavailable rx_failed : SessionResult

-- What the sessions share: the bridge, the LED and `active_sessions`, an atomic of 32 bits.
pub record Shared (Q : Type 0) : Type 0 where
  pub bridge : Bridge Q
  pub led : StatusLed
  pub active_sessions : ℕ

would_block : Errno → Bool
would_block eagain = true
would_block _ = false

-- The loop of `drain_socket_rx`: nothing, or the result that ends the session.
unfoldable pub drain_socket_rx : List SockResult → Option (Option SessionResult)
unfolding would_block
drain_socket_rx [] = none
drain_socket_rx (got zero ∷ rs) = some (some peer_closed)
drain_socket_rx (got (suc n) ∷ rs) = drain_socket_rx rs
drain_socket_rx (fault e ∷ rs) = some (if would_block e then none else some rx_failed)

pub retries : Errno → Bool
retries eagain = true
retries eintr = true
retries _ = false

-- Bytes on the wire before those of the rest of a loop.
abbrev pub behind {ℓ} : {A : Type ℓ} → List ℕ → Option (A × List ℕ) → Option (A × List ℕ)
behind wire none = none
behind wire (some (a, more)) = some (a, wire ++ more)

-- The loop of `send_all` from `sent_total` on: whether sending failed, and the bytes sent.
pub send_loop : Frame → ℕ → List SockResult → Option (Bool × List ℕ)
unfolding retries
send_loop frame sent_total [] = if leb frame.len sent_total then some (false, []) else none
send_loop frame sent_total (got zero ∷ rs) =
    if leb frame.len sent_total then some (false, []) else some (true, [])
send_loop frame sent_total (got (suc n) ∷ rs) =
    let rest = send_loop frame (sent_total + suc n) rs in
    if leb frame.len sent_total
    then some (false, [])
    else behind (take (suc n) (drop sent_total frame.bytes)) rest
send_loop frame sent_total (fault e ∷ rs) =
    let rest = send_loop frame sent_total rs in
    if leb frame.len sent_total
    then some (false, [])
    else if retries e
    then rest
    else some (true, [])

pub send_all : Frame → List SockResult → Option (Bool × List ℕ)
unfolding send_loop
send_all frame rs = send_loop frame 0 rs

-- What a round of the session's loop meets: the results of the socket calls, what the other threads do
-- while it waits for a frame, and the uptime after sending.
pub record Turn (Q : Type 0) : Type 0 where
  pub rx_before : List SockResult
  pub others : Shared Q → Shared Q
  pub tx : List SockResult
  pub uptime_ms : ℕ
  pub rx_after : List SockResult

-- Whether the loop goes round again.
pub data Next : Type 0 where
  go : Next
  stop : SessionResult → Next

-- What a session leaves: its result, the shared state, the bytes sent and the sockets it closed.
pub record Outcome (Q : Type 0) : Type 0 where
  pub result : SessionResult
  pub shared : Shared Q
  pub wire : List ℕ
  pub closed : List ℕ

module _ {Q : Type 0} ⦃m : Msgq Frame Q⦄ (cfg : Config) where
  -- The end of a round, with what `drain_socket_rx` returns.
  pub last_drain :
      Shared Q → List ℕ → Option (Option SessionResult) → Option (Next × Shared Q × List ℕ)
  last_drain w wire none = none
  last_drain w wire (some none) = some (go, w, wire)
  last_drain w wire (some (some r)) = some (stop r, w, wire)

  -- The round from where `send_all` returns.
  pub after_send : Shared Q → Turn Q → Option (Bool × List ℕ) → Option (Next × Shared Q × List ℕ)
  unfolding last_drain
  after_send w e none = none
  after_send w e (some (true, wire)) =
      let led = StatusLed.nmea_send_failed cfg w.led e.uptime_ms in
      some (stop send_failed, record w { led = led }, wire)
  after_send w e (some (false, wire)) =
      let led = StatusLed.nmea_frame_forwarded cfg w.led e.uptime_ms in
      last_drain (record w { led = led }) wire (drain_socket_rx e.rx_after)

  -- A round once `nmea_bridge_sink_take` has returned; `w` is the state before its wait. It returns 0
  -- with a frame only.
  pub after_take :
      Shared Q → Turn Q → Status → Option Frame → Bridge Q → Option (Next × Shared Q × List ℕ)
  after_take w e ok none b = none
  after_take w e ok (some frame) b =
      after_send (record (e.others w) { bridge = b }) e (send_all frame e.tx)
  after_take w e (err enotconn) frame b = some (stop peer_closed, record w { bridge = b }, [])
  after_take w e (err einval) frame b = some (go, record w { bridge = b }, [])
  after_take w e (err _) frame b = some (go, record (e.others w) { bridge = b }, [])

  -- A round with what its first `drain_socket_rx` returns.
  pub after_drain :
      Shared Q → Sink → Turn Q → Option (Option SessionResult) → Option (Next × Shared Q × List ℕ)
  unfolding after_take after_send
  after_drain w sink e none = none
  after_drain w sink e (some (some r)) = some (stop r, w, [])
  after_drain w sink e (some none) =
      let (ret, frame, b) =
        sink_take w.bridge (some sink) true (msec 250) (λ _. (e.others w).bridge) in
      after_take w e ret frame b

  -- The body of the loop of `tcp_nmea_session_run`.
  pub turn : Shared Q → Sink → Turn Q → Option (Next × Shared Q × List ℕ)
  unfolding after_drain
  turn w sink e = after_drain w sink e (drain_socket_rx e.rx_before)

  pub with_wire :
      List ℕ
      → Option (SessionResult × Shared Q × List ℕ)
      → Option (SessionResult × Shared Q × List ℕ)
  with_wire wire none = none
  with_wire wire (some (r, w, more)) = some (r, w, wire ++ more)

  -- What comes behind a round: the rest of the loop, or its end.
  pub proceed :
      Option (Next × Shared Q × List ℕ)
      → (Shared Q → Option (SessionResult × Shared Q × List ℕ))
      → Option (SessionResult × Shared Q × List ℕ)
  unfolding with_wire
  proceed none rest = none
  proceed (some (stop r, w, wire)) rest = some (r, w, wire)
  proceed (some (go, w, wire)) rest = with_wire wire (rest w)

  -- The loop, with the result, the shared state and the bytes on the wire when it ends.
  pub loop : Shared Q → Sink → List (Turn Q) → Option (SessionResult × Shared Q × List ℕ)
  unfolding turn proceed
  loop w sink [] = none
  loop w sink (e ∷ es) = proceed (turn w sink e) (λ w'. loop w' sink es)

  -- `tcp_nmea_session_run` from where the sink is open to its loop.
  unfoldable pub started : Shared Q → Shared Q
  started w = record w {
    active_sessions = u32 (w.active_sessions + 1);
    led = StatusLed.tcp_nmea_session_started cfg w.led;
  }

  -- The end of `tcp_nmea_session_run` behind its loop.
  unfoldable pub finish : Shared Q → Sink → Shared Q
  finish w sink = record {
    led = StatusLed.tcp_nmea_session_ended cfg w.led;
    active_sessions = sub32 w.active_sessions 1;
    bridge = (sink_close w.bridge (some sink)).1;
  }

  pub after_loop : ℕ → Sink → Option (SessionResult × Shared Q × List ℕ) → Option (Outcome Q)
  unfolding finish
  after_loop fd sink none = none
  after_loop fd sink (some (r, w, wire)) =
      some (record { result = r; shared = finish w sink; wire = wire; closed = fd ∷ [] })

  -- The function from where `nmea_bridge_sink_open` returns.
  pub after_open : Shared Q → ℕ → List (Turn Q) → Status → Option Sink → Option (Outcome Q)
  unfolding after_loop loop started
  after_open w fd es ok none = none
  after_open w fd es ok (some sink) = after_loop fd sink (loop (started w) sink es)
  after_open w fd es (err _) sink =
      some (record { result = sink_unavailable; shared = w; wire = []; closed = fd ∷ [] })

  unfoldable pub run : Shared Q → ℕ → Option String → List (Turn Q) → Option (Outcome Q)
  unfolding after_open
  run w fd sink_name es =
      let (ret, sink, b) = sink_open w.bridge (some (record { id = none })) sink_name in
      after_open (record w { bridge = b }) fd es ret sink

-- `tcp_nmea_session_get_stats`; `none` is a null pointer.
unfoldable pub get_stats : {Q : Type 0} → Shared Q → Option ℕ → Option ℕ
get_stats w none = none
get_stats w (some _) = some w.active_sessions
