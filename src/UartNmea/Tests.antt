-- ===== src/UartNmea/Tests.antt =====
-- The receiving thread on concrete input.
use esp_nmea_bridge_zephyr.Base.{ℕ, ◌≡◌, refl, true, false, none, some, [], ◌∷◌, arith, replicate}
use esp_nmea_bridge_zephyr.Fixtures.{ListQueue, list_msgq, small, small-InRange}
use esp_nmea_bridge_zephyr.Zephyr.{ok, err, enodev}
use esp_nmea_bridge_zephyr.NmeaBridge.{Bridge, no_bridge_stats, no_sink_stats}
use esp_nmea_bridge_zephyr.StatusLed.{not_started}
use esp_nmea_bridge_zephyr.UartNmea.{Uart, no_uart_stats, rx_burst, rx_byte, start, get_stats}
use esp_nmea_bridge_zephyr.UartNmea.Framing.{Line, Is, stream, frames_of}
use esp_nmea_bridge_zephyr.UartNmea.Lines.{Framed, rx_burst-Framed}
use esp_nmea_bridge_zephyr.UartNmea.Publishing.{Fits, Receives, rx_burst-Receives}

abbrev empty_bridge : Bridge ListQueue
empty_bridge = record {
  ingest_msgq = record { items = []; depth = 3 };
  sinks = replicate 3 (record {
    active = false;
    name = none;
    msgq = record { items = []; depth = 2 };
    stats = no_sink_stats;
  });
  bridge_stats = no_bridge_stats;
}

abbrev waiting : Uart ListQueue
waiting = record {
  line = [];
  dropping_overlong = false;
  uart_stats = no_uart_stats;
  bridge = empty_bridge;
  led = not_started;
}

-- A line of `n` times the letter A.
abbrev line_of : ℕ → Line
line_of n = record { body = replicate n (b'A', 5); end_ms = 6 }

waiting-Is : Is small [] false 0 0 empty_bridge waiting
waiting-Is = record {
  line_is = refl;
  dropping_is = refl;
  lines_is = refl;
  overlong_is = refl;
  bridge_is = refl;
}

waiting-Fits : Fits small waiting
waiting-Fits = omega arith

-- Of a short line, one of 33 bytes and two more short ones the first and the last get through.
frames_run :
    frames_of 32 false (line_of 1 ∷ line_of 32 ∷ line_of 2 ∷ line_of 3 ∷ [])
    ≡ (65 ∷ 10 ∷ []) ∷ (65 ∷ 65 ∷ 65 ∷ 10 ∷ []) ∷ []
unfolding frames_of
frames_run = refl

rx_run :
    (rx_burst small waiting (stream (line_of 1 ∷ line_of 32 ∷ line_of 2 ∷ []))).uart_stats
    ≡ record { bytes_rx = 38; lines_rx = 1; overlong_lines = 1 }
unfolding rx_burst rx_byte
rx_run = refl

rx_burst-Framed_example :
    Framed small false 0 0 empty_bridge
      (line_of 1 ∷ line_of 32 ∷ line_of 2 ∷ [])
      (rx_burst small waiting (stream (line_of 1 ∷ line_of 32 ∷ line_of 2 ∷ [])))
rx_burst-Framed_example =
    rx_burst-Framed small (line_of 1 ∷ line_of 32 ∷ line_of 2 ∷ []) false 0 0 empty_bridge waiting
      (omega arith) (omega arith) (omega arith) waiting-Is

rx_burst-Receives_example :
    Receives small 5 waiting (rx_burst small waiting (stream (line_of 1 ∷ line_of 2 ∷ [])))
rx_burst-Receives_example =
    rx_burst-Receives small (stream (line_of 1 ∷ line_of 2 ∷ [])) waiting small-InRange waiting-Fits

start_runs : start true false ≡ (ok, true, true)
unfolding start
start_runs = refl

start_fails : start false false ≡ (err enodev, false, false)
unfolding start
start_fails = refl

get_stats_runs : get_stats no_uart_stats (some no_uart_stats) ≡ some no_uart_stats
unfolding get_stats
get_stats_runs = refl
