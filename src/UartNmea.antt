-- ===== src/UartNmea.antt =====
-- src/uart_nmea.h and src/uart_nmea.c: the thread that cuts the bytes of the UART into lines. The
-- driver's `uart_poll_in` is the list of bytes that it delivers, each with the uptime at which the
-- thread handles it.
pub mod Framing
pub mod Lines
pub mod Publishing
mod Tests
use esp_nmea_bridge_zephyr.Base.{
  ℕ, ◌+◌, Bool, true, false, Option, none, some, List, [], ◌∷◌, ◌++◌, if◌then◌else◌, ltb, ◌==◌,
  length, u32,
}
use esp_nmea_bridge_zephyr.Zephyr.{Status, ok, err, enodev, Msgq}
use esp_nmea_bridge_zephyr.Config.{Config}
use esp_nmea_bridge_zephyr.NmeaBridge.{Frame, Bridge, publish_frame}
use esp_nmea_bridge_zephyr.StatusLed
use esp_nmea_bridge_zephyr.StatusLed.{StatusLed}

-- `struct uart_nmea_stats`
pub record UartStats : Type 0 where
  pub bytes_rx : ℕ
  pub lines_rx : ℕ
  pub overlong_lines : ℕ

abbrev pub no_uart_stats : UartStats
no_uart_stats = record { bytes_rx = 0; lines_rx = 0; overlong_lines = 0 }

-- The thread's variables, `line` being `line[0 .. line_len)`, with what it updates elsewhere.
pub record Uart (Q : Type 0) : Type 0 where
  pub line : List ℕ
  pub dropping_overlong : Bool
  pub uart_stats : UartStats
  pub bridge : Bridge Q
  pub led : StatusLed

abbrev pub newline : ℕ
newline = b'\n'

module _ {Q : Type 0} ⦃m : Msgq Frame Q⦄ (cfg : Config) where
  -- The line is complete.
  deliver : Uart Q → ℕ → Uart Q
  deliver u uptime_ms = record u {
    bridge = (publish_frame cfg u.bridge (some u.line) (length u.line)).1;
    led = StatusLed.nmea_frame_received cfg u.led uptime_ms;
    uart_stats = record u.uart_stats { lines_rx = u32 (u.uart_stats.lines_rx + 1) };
    line = [];
  }

  -- The body of the inner loop after the count of the byte.
  classify : Uart Q → ℕ → ℕ → Uart Q
  unfolding deliver
  classify u ch uptime_ms =
      if u.dropping_overlong
      then (if ch == newline then record u { dropping_overlong = false; line = [] } else u)
      else if ltb (length u.line) cfg.nmea_frame_max_len
      then (let stored = record u { line = u.line ++ ch ∷ [] } in
          if ch == newline then deliver stored uptime_ms else stored)
      else record u {
        uart_stats = record u.uart_stats { overlong_lines = u32 (u.uart_stats.overlong_lines + 1) };
        dropping_overlong = true;
        line = [];
      }

  pub rx_byte : Uart Q → ℕ × ℕ → Uart Q
  unfolding classify
  rx_byte u (ch, uptime_ms) =
      classify
        (record u {
          uart_stats = record u.uart_stats { bytes_rx = u32 (u.uart_stats.bytes_rx + 1) };
        })
        ch uptime_ms

  -- The inner loop: the bytes that are there.
  pub rx_burst : Uart Q → List (ℕ × ℕ) → Uart Q
  rx_burst u [] = u
  rx_burst u (c ∷ cs) = rx_burst (rx_byte u c) cs

  -- The outer loop, which sleeps after a round that found no byte.
  pub rx_bursts : Uart Q → List (List (ℕ × ℕ)) → Uart Q
  rx_bursts u [] = u
  rx_bursts u (burst ∷ bursts) = rx_bursts (rx_burst u burst) bursts

-- `uart_nmea_start`, with `started`: its result, whether the thread is created, and `started` after it.
unfoldable pub start : Bool → Bool → Status × Bool × Bool
start device_ready started =
    if device_ready
    then (if started then (ok, false, true) else (ok, true, true))
    else (err enodev, false, started)

-- `uart_nmea_get_stats`; `none` is a null pointer.
unfoldable pub get_stats : UartStats → Option UartStats → Option UartStats
get_stats uart_stats none = none
get_stats uart_stats (some _) = some uart_stats
