-- ===== src/BridgeTelemetry/Tests.antt =====
-- Snapshots of concrete inputs.
use esp_nmea_bridge_zephyr.Base.{ℕ, ◌≡◌, true, none, some, [], ◌∷◌}
use esp_nmea_bridge_zephyr.Base.Int.{pos}
use esp_nmea_bridge_zephyr.BridgeTelemetry.{idle, Snapshot, Inputs, TelemetryState, build_snapshot}
use esp_nmea_bridge_zephyr.BridgeTelemetry.Live.{Shows, get_snapshot, get_snapshot-Shows}
use esp_nmea_bridge_zephyr.Fixtures.{firmware, no_snapshot}
use esp_nmea_bridge_zephyr.WifiManager.{sta_ready}
use esp_nmea_bridge_zephyr.BridgeTelemetry.Polling.{
  Polls, after_polls, last_change, input_state-polls,
}

abbrev inputs : ℕ → Inputs
inputs frames = record {
  uart_bytes_rx = 80;
  uart_lines_rx = 2;
  uart_overlong_lines = 0;
  bridge_frames_in = frames;
  bridge_ingest_dropped_oldest = 0;
  bridge_sink_dropped_oldest = 1;
  bridge_publish_no_sinks = 3;
  bridge_publish_invalid = 0;
  bridge_publish_oversize = 0;
  tcp_nmea_active_sessions = 1;
  tcp_server_active_clients = 1;
  tcp_server_max_clients = 3;
  sta_ready = true;
}

-- Two frames were there at the first snapshot, an hour after start; none came since.
abbrev polls : Polls
polls = (inputs 2, 3_605_000) ∷ (inputs 2, 3_600_000) ∷ []

input_state-polls_example :
    (s : Snapshot) × (build_snapshot
        (some (after_polls polls))
        (some (inputs 2))
        (pos 3_605_001)
        (some no_snapshot)
      ≡ (some (after_polls ((inputs 2, 3_605_001) ∷ polls)), some s))
    × (s.input_state ≡ idle)
unfolding last_change
input_state-polls_example = input_state-polls polls (inputs 2) 3_605_001 no_snapshot

get_snapshot-Shows_example :
    (state : TelemetryState) × (s : Snapshot) × (get_snapshot firmware 7 (some no_snapshot) ≡ (
      record firmware { telemetry = state; wifi = (sta_ready firmware.wifi firmware.net).0 },
      some s,
    ))
    × Shows firmware s
    × (get_snapshot firmware 7 none ≡ (firmware, none))
get_snapshot-Shows_example = get_snapshot-Shows firmware 7 no_snapshot
