-- ===== src/BridgeTelemetry.antt =====
-- src/bridge_telemetry.h and src/bridge_telemetry.c: the snapshot of the bridge's health. A pointer
-- argument is an `Option`, with `none` for null. int64_t times are integers; those of `k_uptime_get`
-- are not negative.
pub mod Snapshots
pub mod Polling
pub mod Live
mod Tests
use esp_nmea_bridge_zephyr.Base.{
  ℕ, ◌-◌, ◌^◌, Bool, true, false, not, ◌||◌, Option, none, some, if◌then◌else◌, ltb, ◌==◌,
}
use esp_nmea_bridge_zephyr.Base.Int.{ℤ, pos, negsuc, ◌-ℤ◌, leb_ℤ, eqb_ℤ}
use esp_nmea_bridge_zephyr.NmeaBridge.{BridgeStats}
use esp_nmea_bridge_zephyr.UartNmea.{UartStats}

pub data ConnectionState : Type 0 where
  disconnected connected : ConnectionState

pub data InputState : Type 0 where
  idle active : InputState

-- `struct bridge_telemetry_counters`
pub record Counters : Type 0 where
  pub uart_bytes_rx : ℕ
  pub uart_lines_rx : ℕ
  pub uart_overlong_lines : ℕ
  pub bridge_frames_in : ℕ
  pub bridge_ingest_dropped_oldest : ℕ
  pub bridge_sink_dropped_oldest : ℕ
  pub bridge_publish_no_sinks : ℕ
  pub bridge_publish_invalid : ℕ
  pub bridge_publish_oversize : ℕ
  pub tcp_nmea_active_sessions : ℕ
  pub tcp_server_active_clients : ℕ
  pub tcp_server_max_clients : ℕ

pub record Warnings : Type 0 where
  pub data_quality : Bool
  pub frame_loss : Bool

-- `struct bridge_telemetry_snapshot`
pub record Snapshot : Type 0 where
  pub connection_state : ConnectionState
  pub input_state : InputState
  pub warnings : Warnings
  pub sta_ready : Bool
  pub counters : Counters

-- `struct bridge_telemetry_inputs`
pub record Inputs : Type 0 where
  pub uart_bytes_rx : ℕ
  pub uart_lines_rx : ℕ
  pub uart_overlong_lines : ℕ
  pub bridge_frames_in : ℕ
  pub bridge_ingest_dropped_oldest : ℕ
  pub bridge_sink_dropped_oldest : ℕ
  pub bridge_publish_no_sinks : ℕ
  pub bridge_publish_invalid : ℕ
  pub bridge_publish_oversize : ℕ
  pub tcp_nmea_active_sessions : ℕ
  pub tcp_server_active_clients : ℕ
  pub tcp_server_max_clients : ℕ
  pub sta_ready : Bool

-- `struct bridge_telemetry_state`
pub record TelemetryState : Type 0 where
  pub last_bridge_frames_in : ℕ
  pub last_bridge_frame_ms : ℤ
  pub initialized : Bool

abbrev pub int64_min : ℤ
int64_min = negsuc (2 ^ 63 - 1)

abbrev pub nmea_input_window_ms : ℕ
nmea_input_window_ms = 5000

-- The static variable before the first snapshot.
abbrev pub no_state : TelemetryState
no_state = record { last_bridge_frames_in = 0; last_bridge_frame_ms = pos 0; initialized = false }

unfoldable pub copy_counters : Inputs → Counters
copy_counters i = record {
  uart_bytes_rx = i.uart_bytes_rx;
  uart_lines_rx = i.uart_lines_rx;
  uart_overlong_lines = i.uart_overlong_lines;
  bridge_frames_in = i.bridge_frames_in;
  bridge_ingest_dropped_oldest = i.bridge_ingest_dropped_oldest;
  bridge_sink_dropped_oldest = i.bridge_sink_dropped_oldest;
  bridge_publish_no_sinks = i.bridge_publish_no_sinks;
  bridge_publish_invalid = i.bridge_publish_invalid;
  bridge_publish_oversize = i.bridge_publish_oversize;
  tcp_nmea_active_sessions = i.tcp_nmea_active_sessions;
  tcp_server_active_clients = i.tcp_server_active_clients;
  tcp_server_max_clients = i.tcp_server_max_clients;
}

-- The statistics of the other parts, as `collect_inputs` copies them.
unfoldable pub collect_inputs : UartStats → BridgeStats → ℕ → ℕ → ℕ → Bool → Inputs
collect_inputs uart bridge active_clients max_clients active_sessions sta_ready = record {
  uart_bytes_rx = uart.bytes_rx;
  uart_lines_rx = uart.lines_rx;
  uart_overlong_lines = uart.overlong_lines;
  bridge_frames_in = bridge.frames_in;
  bridge_ingest_dropped_oldest = bridge.ingest_dropped_oldest;
  bridge_sink_dropped_oldest = bridge.sink_dropped_oldest;
  bridge_publish_no_sinks = bridge.publish_no_sinks;
  bridge_publish_invalid = bridge.publish_invalid;
  bridge_publish_oversize = bridge.publish_oversize;
  tcp_nmea_active_sessions = active_sessions;
  tcp_server_active_clients = active_clients;
  tcp_server_max_clients = max_clients;
  sta_ready = sta_ready;
}

-- The update of `*state`, the first half of `bridge_telemetry_build_snapshot`.
unfoldable pub note_frames : TelemetryState → Inputs → ℤ → TelemetryState
note_frames state inputs now_ms =
    if not state.initialized
    then record {
      last_bridge_frames_in = inputs.bridge_frames_in;
      last_bridge_frame_ms = if ltb 0 inputs.bridge_frames_in then now_ms else int64_min;
      initialized = true;
    }
    else if not (inputs.bridge_frames_in == state.last_bridge_frames_in)
    then record state {
      last_bridge_frames_in = inputs.bridge_frames_in;
      last_bridge_frame_ms = now_ms;
    }
    else state

-- What it writes to `*snapshot`, from the updated state.
unfoldable pub snapshot_of : TelemetryState → Inputs → ℤ → Snapshot
unfolding copy_counters
snapshot_of state inputs now_ms = record {
  connection_state = if ltb 0 inputs.tcp_nmea_active_sessions then connected else disconnected;
  input_state =
      if eqb_ℤ state.last_bridge_frame_ms int64_min
      then idle
      else if leb_ℤ (now_ms -ℤ state.last_bridge_frame_ms) (pos nmea_input_window_ms)
      then active
      else idle;
  warnings = record {
    data_quality =
        ltb 0 inputs.uart_overlong_lines
        || ltb 0 inputs.bridge_publish_invalid
        || ltb 0 inputs.bridge_publish_oversize;
    frame_loss =
        ltb 0 inputs.bridge_ingest_dropped_oldest || ltb 0 inputs.bridge_sink_dropped_oldest;
  };
  sta_ready = inputs.sta_ready;
  counters = copy_counters inputs;
}

-- The last clause stands for the null pointers.
unfoldable pub build_snapshot :
    Option TelemetryState
    → Option Inputs
    → ℤ
    → Option Snapshot
    → Option TelemetryState × Option Snapshot
unfolding note_frames snapshot_of
build_snapshot (some state) (some inputs) now_ms (some snapshot) =
    let state' = note_frames state inputs now_ms in
    (some state', some (snapshot_of state' inputs now_ms))
build_snapshot state inputs now_ms snapshot = (state, snapshot)
