-- ===== src/Threads.antt =====
-- The threads of the firmware on what they share: src/uart_nmea.c's thread, the dispatcher of
-- src/nmea_bridge.c, any number of sessions of src/tcp_nmea_session.c, and the client's reports to
-- src/status_led.c, one call at a time and in any order. The server's and the client's threads
-- touch these variables only in their sessions and reports.
pub mod Holders
pub mod Invariant
pub mod Opening
pub mod Reachable
pub mod Course
pub mod Sessions
pub mod Owners
pub mod Fitting
pub mod Enough
mod Tests
use esp_nmea_bridge_zephyr.Base.{
  ℕ, ◌+◌, ◌≡◌, Bool, true, false, Option, none, some, List, [], String, get_elem?, set, replicate,
  u32, sub32,
}
use esp_nmea_bridge_zephyr.Zephyr.{ok, Timeout, Msgq}
use esp_nmea_bridge_zephyr.Config.{Config}
use esp_nmea_bridge_zephyr.NmeaBridge.{Frame, Sink, Bridge, dispatch, init, statics}
use esp_nmea_bridge_zephyr.NmeaBridge.Sinks.{sink_open, sink_close, sink_take}
use esp_nmea_bridge_zephyr.StatusLed
use esp_nmea_bridge_zephyr.StatusLed.{StatusLed, not_started}
use esp_nmea_bridge_zephyr.UartNmea.{UartStats, no_uart_stats, Uart, rx_byte}
use esp_nmea_bridge_zephyr.TcpNmeaSession.{Shared}

-- Where a session stands in `tcp_nmea_session_run`: behind the opening of its sink, behind
-- `atomic_inc`, in its loop, behind `status_led_tcp_nmea_session_ended`, behind `atomic_dec`.
pub data Phase : Type 0 where
  opened counted running dimmed leaving : Phase

-- What the threads share, the local variables of the UART's thread, and for each sink the session
-- that holds its handle, if there is one.
pub record World (Q : Type 0) : Type 0 where
  pub shared : Shared Q
  pub line : List ℕ
  pub dropping_overlong : Bool
  pub uart_stats : UartStats
  pub holders : List (Option Phase)

abbrev pub uart_of : {Q : Type 0} → World Q → Uart Q
uart_of w = record {
  line = w.line;
  dropping_overlong = w.dropping_overlong;
  uart_stats = w.uart_stats;
  bridge = w.shared.bridge;
  led = w.shared.led;
}

abbrev pub with_uart : {Q : Type 0} → World Q → Uart Q → World Q
with_uart w u = record w {
  shared = record w.shared { bridge = u.bridge; led = u.led };
  line = u.line;
  dropping_overlong = u.dropping_overlong;
  uart_stats = u.uart_stats;
}

abbrev pub with_bridge : {Q : Type 0} → World Q → Bridge Q → World Q
with_bridge w b = record w { shared = record w.shared { bridge = b } }

abbrev pub with_led : {Q : Type 0} → World Q → StatusLed → World Q
with_led w led = record w { shared = record w.shared { led = led } }

abbrev pub at_phase : {Q : Type 0} → World Q → ℕ → Option Phase → World Q
at_phase w i p = record w { holders = set w.holders i p }

module _ {Q : Type 0} ⦃m : Msgq Frame Q⦄ (cfg : Config) where
  -- Boot: `nmea_bridge_init` has run, and no session is there.
  abbrev pub boot : Q → World Q
  boot raw = record {
    shared = record { bridge = init cfg (statics cfg raw); led = not_started; active_sessions = 0 };
    line = [];
    dropping_overlong = false;
    uart_stats = no_uart_stats;
    holders = replicate cfg.nmea_sinks_max none;
  }

  -- A call of one of the threads. The steps of a session are those of `tcp_nmea_session_run`, in its
  -- order; as no step but its own closes the sink that it holds, the check of `nmea_bridge_sink_take`
  -- before the wait still holds behind it, where the frame is read.
  pub data Step : World Q → World Q → Type 0 where
    receive : (w : World Q) (ch t : ℕ) → Step w (with_uart w (rx_byte cfg (uart_of w) (ch, t)))
    fan_out : (w : World Q) → Step w (with_bridge w (dispatch w.shared.bridge))
    report :
        (w : World Q) (on : Bool)
        → Step w (with_led w (StatusLed.tcp_nmea_client_connecting cfg w.shared.led on))
    start_led :
        (w : World Q) (has_strip strip_ready : Bool) (t : ℕ)
        → Step w (with_led w (StatusLed.start w.shared.led has_strip strip_ready t).0)
    open_sink :
        (w : World Q) (name : Option String) (i : ℕ) (b : Bridge Q)
        → sink_open w.shared.bridge (some (record { id = none })) name
          ≡ (ok, some (record { id = some i }), b)
        → Step w (at_phase (with_bridge w b) i (some opened))
    count_session :
        (w : World Q) (i : ℕ)
        → get_elem? w.holders i ≡ some (some opened)
        → Step w (
            at_phase
              (record w {
                shared = record w.shared { active_sessions = u32 (w.shared.active_sessions + 1) };
              })
              i
              (some counted))
    light :
        (w : World Q) (i : ℕ)
        → get_elem? w.holders i ≡ some (some counted)
        → Step w (
            at_phase
              (with_led w (StatusLed.tcp_nmea_session_started cfg w.shared.led))
              i
              (some running))
    take_frame :
        (w : World Q) (i : ℕ) (t : Timeout)
        → get_elem? w.holders i ≡ some (some running)
        → Step w (
            with_bridge w
              (sink_take w.shared.bridge (some (record { id = some i })) true t (λ b. b)).2)
    forwarded :
        (w : World Q) (i t : ℕ)
        → get_elem? w.holders i ≡ some (some running)
        → Step w (with_led w (StatusLed.nmea_frame_forwarded cfg w.shared.led t))
    send_failed :
        (w : World Q) (i t : ℕ)
        → get_elem? w.holders i ≡ some (some running)
        → Step w (with_led w (StatusLed.nmea_send_failed cfg w.shared.led t))
    dim :
        (w : World Q) (i : ℕ)
        → get_elem? w.holders i ≡ some (some running)
        → Step w (
            at_phase
              (with_led w (StatusLed.tcp_nmea_session_ended cfg w.shared.led))
              i
              (some dimmed))
    uncount :
        (w : World Q) (i : ℕ)
        → get_elem? w.holders i ≡ some (some dimmed)
        → Step w (
            at_phase
              (record w {
                shared = record w.shared { active_sessions = sub32 w.shared.active_sessions 1 };
              })
              i
              (some leaving))
    close_sink :
        (w : World Q) (i : ℕ)
        → get_elem? w.holders i ≡ some (some leaving)
        → Step w (
            at_phase
              (with_bridge w (sink_close w.shared.bridge (some (record { id = some i }))).1)
              i
              none)

  pub data Reach (w : World Q) : World Q → Type 0 where
    here : Reach w w
    next : {u v : World Q} → Reach w u → Step u v → Reach w v
