-- ===== src/BridgeTelemetry/Live.antt =====
-- `collect_inputs` and `bridge_telemetry_get_snapshot` on the variables of the other parts.
use esp_nmea_bridge_zephyr.Base.{
  ℕ, ◌+◌, ◌≡◌, refl, ap, Bool, Option, none, some, List, [], ◌∷◌, arith, if◌then◌else◌, ltb, u32,
  length,
}
use esp_nmea_bridge_zephyr.Base.Int.{ℤ, pos}
use esp_nmea_bridge_zephyr.NmeaBridge
use esp_nmea_bridge_zephyr.NmeaBridge.{Bridge, BridgeStats, no_bridge_stats}
use esp_nmea_bridge_zephyr.UartNmea
use esp_nmea_bridge_zephyr.UartNmea.{UartStats, no_uart_stats}
use esp_nmea_bridge_zephyr.TcpNmeaServer.{
  Server, ServerStats, Client, get_server_stats, count_clients,
}
use esp_nmea_bridge_zephyr.TcpNmeaSession
use esp_nmea_bridge_zephyr.TcpNmeaSession.{Shared}
use esp_nmea_bridge_zephyr.WifiManager.{Wifi, Iface, sta_ready}
use esp_nmea_bridge_zephyr.BridgeTelemetry.{
  connected, disconnected, Snapshot, Inputs, TelemetryState, collect_inputs, copy_counters,
  note_frames, snapshot_of, build_snapshot,
}

-- The static variables of the parts, with what the station's interface shows.
pub record Firmware (Q : Type 0) : Type 0 where
  pub uart_stats : UartStats
  pub shared : Shared Q
  pub server : Server
  pub wifi : Wifi
  pub net : Iface
  pub telemetry : TelemetryState

-- The inputs of what the four calls have written, all of which write something.
gathered :
    Option UartStats → Option BridgeStats → Option ServerStats → Option ℕ → Bool → Option Inputs
unfolding collect_inputs
gathered (some uart) (some bridge) (some server) (some sessions) ready =
    some (collect_inputs uart bridge server.active_clients server.max_clients sessions ready)
gathered _ _ _ _ _ = none

abbrev no_server_stats : ServerStats
no_server_stats = record { active_clients = 0; max_clients = 0 }

module _ {Q : Type 0} where
  -- `collect_inputs`; the local structures are not set before the calls write to them.
  pub collect_live : Firmware Q → Wifi × Option Inputs
  unfolding gathered sta_ready
  collect_live fw =
      let inputs =
        gathered (UartNmea.get_stats fw.uart_stats (some no_uart_stats))
          (NmeaBridge.get_stats fw.shared.bridge (some no_bridge_stats))
          (get_server_stats fw.server (some no_server_stats))
          (TcpNmeaSession.get_stats fw.shared (some 0)) (sta_ready fw.wifi fw.net).1 in
      ((sta_ready fw.wifi fw.net).0, inputs)

  built : Firmware Q → Option TelemetryState × Option Snapshot → Firmware Q × Option Snapshot
  built fw (none, s) = (fw, s)
  built fw (some state, s) = (record fw { telemetry = state }, s)

  -- `bridge_telemetry_get_snapshot`; the last argument is what `snapshot` points to.
  unfoldable pub get_snapshot : Firmware Q → ℕ → Option Snapshot → Firmware Q × Option Snapshot
  unfolding collect_live built build_snapshot
  get_snapshot fw now_ms none = (fw, none)
  get_snapshot fw now_ms (some old) =
      built (record fw { wifi = (collect_live fw).0 })
        (build_snapshot (some fw.telemetry) (collect_live fw).1 (pos now_ms) (some old))

-- The number of active slots.
abbrev pub active_slots : List Client → ℕ
active_slots [] = 0
active_slots (c ∷ cs) = (if c.active then 1 else 0) + active_slots cs

-- What a snapshot shows of the parts.
pub record Shows {Q : Type 0} (fw : Firmware Q) (s : Snapshot) : Type 0 where
  pub connection_state :
      s.connection_state ≡ (if ltb 0 fw.shared.active_sessions then connected else disconnected)
  pub data_quality :
      s.warnings.data_quality
      ≡ ltb 0 (
          fw.uart_stats.overlong_lines + fw.shared.bridge.bridge_stats.publish_invalid
          + fw.shared.bridge.bridge_stats.publish_oversize)
  pub frame_loss :
      s.warnings.frame_loss
      ≡ ltb 0 (
          fw.shared.bridge.bridge_stats.ingest_dropped_oldest
          + fw.shared.bridge.bridge_stats.sink_dropped_oldest)
  pub sta_ready : s.sta_ready ≡ (sta_ready fw.wifi fw.net).1
  pub counters : s.counters ≡ record {
    uart_bytes_rx = fw.uart_stats.bytes_rx;
    uart_lines_rx = fw.uart_stats.lines_rx;
    uart_overlong_lines = fw.uart_stats.overlong_lines;
    bridge_frames_in = fw.shared.bridge.bridge_stats.frames_in;
    bridge_ingest_dropped_oldest = fw.shared.bridge.bridge_stats.ingest_dropped_oldest;
    bridge_sink_dropped_oldest = fw.shared.bridge.bridge_stats.sink_dropped_oldest;
    bridge_publish_no_sinks = fw.shared.bridge.bridge_stats.publish_no_sinks;
    bridge_publish_invalid = fw.shared.bridge.bridge_stats.publish_invalid;
    bridge_publish_oversize = fw.shared.bridge.bridge_stats.publish_oversize;
    tcp_nmea_active_sessions = fw.shared.active_sessions;
    tcp_server_active_clients = u32 (active_slots fw.server.clients);
    tcp_server_max_clients = length fw.server.clients;
  }

count_clients_lem :
    (cs : List Client) (n : ℕ) → n ≡ u32 n → count_clients cs n ≡ u32 (n + active_slots cs)
unfolding count_clients
count_clients_lem [] n fit = omega (arith, fit)
count_clients_lem (c ∷ cs) n fit =
    ground (arith, count_clients_lem cs (if c.active then u32 (n + 1) else n) (ground (arith, fit)))

-- The inputs that `collect_inputs` gathers.
collected : {Q : Type 0} → Firmware Q → Inputs
unfolding collect_inputs
collected fw =
    collect_inputs fw.uart_stats fw.shared.bridge.bridge_stats (count_clients fw.server.clients 0)
      (length fw.server.clients) fw.shared.active_sessions (sta_ready fw.wifi fw.net).1

snapshot_of-Shows :
    {Q : Type 0} (fw : Firmware Q) (state : TelemetryState) (now : ℤ)
    → Shows fw (snapshot_of state (collected fw) now)
unfolding collected snapshot_of copy_counters
snapshot_of-Shows fw state now =
    let count = count_clients_lem fw.server.clients 0 (omega arith) in
    let active : count_clients fw.server.clients 0 ≡ u32 (active_slots fw.server.clients) =
      omega (arith, count) in
    record {
      connection_state = refl;
      data_quality = ground arith;
      frame_loss = ground arith;
      sta_ready = refl;
      counters =
          ap (λ n. record (copy_counters (collected fw)) { tcp_server_active_clients = n }) active;
    }

-- `bridge_telemetry_get_snapshot` writes a snapshot that shows the parts as they are: connected exactly
-- if a session is active, each warning exactly if one of its counters is not 0, the answer of the
-- Wi-Fi manager, and the twelve counters, each of its own part. It changes no other variable than its
-- own state and, by that question, those of the Wi-Fi manager; for a null pointer it changes nothing.
pub get_snapshot-Shows :
    {Q : Type 0} (fw : Firmware Q) (now_ms : ℕ) (old : Snapshot)
    → (state : TelemetryState) × (s : Snapshot) × (get_snapshot fw now_ms (some old)
        ≡ (record fw { telemetry = state; wifi = (sta_ready fw.wifi fw.net).0 }, some s))
      × Shows fw s
      × (get_snapshot fw now_ms none ≡ (fw, none))
unfolding get_snapshot collect_live built gathered get_server_stats UartNmea.get_stats
    NmeaBridge.get_stats TcpNmeaSession.get_stats build_snapshot collected
get_snapshot-Shows fw now_ms old =
    let i = collected fw in
    let state = note_frames fw.telemetry i (pos now_ms) in
    (state, snapshot_of state i (pos now_ms), refl, snapshot_of-Shows fw state (pos now_ms), refl)
