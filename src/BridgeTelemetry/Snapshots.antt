-- ===== src/BridgeTelemetry/Snapshots.antt =====
-- The parts of a snapshot that depend on the current inputs alone.
use esp_nmea_bridge_zephyr.Base.{◌+◌, ◌≡◌, refl, some, arith, if◌then◌else◌, ltb}
use esp_nmea_bridge_zephyr.Base.Int.{ℤ}
use esp_nmea_bridge_zephyr.BridgeTelemetry.{
  connected, disconnected, Snapshot, Inputs, TelemetryState, copy_counters, build_snapshot,
}

-- What the rest of a snapshot must be, for these inputs. `publish_no_sinks` is no warning.
pub record Reports (i : Inputs) (s : Snapshot) : Type 0 where
  pub connection_state :
      s.connection_state ≡ (if ltb 0 i.tcp_nmea_active_sessions then connected else disconnected)
  pub data_quality :
      s.warnings.data_quality
      ≡ ltb 0 (i.uart_overlong_lines + i.bridge_publish_invalid + i.bridge_publish_oversize)
  pub frame_loss :
      s.warnings.frame_loss ≡ ltb 0 (i.bridge_ingest_dropped_oldest + i.bridge_sink_dropped_oldest)
  pub sta_ready : s.sta_ready ≡ i.sta_ready
  pub counters : s.counters ≡ copy_counters i

-- Every snapshot, at any time and from any earlier state, reports the connection by the number of
-- active sessions, the two warnings by the counters of bad and of lost frames, and the station
-- state and the twelve counters as they are.
pub build_snapshot-Reports :
    (state : TelemetryState) (i : Inputs) (now_ms : ℤ) (old : Snapshot)
    → (state' : TelemetryState) × (s : Snapshot) × (build_snapshot
          (some state)
          (some i)
          now_ms
          (some old)
        ≡ (some state', some s))
      × Reports i s
unfolding build_snapshot
build_snapshot-Reports state i now_ms old = (_, _, refl, ground arith)
