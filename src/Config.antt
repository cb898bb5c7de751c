-- ===== src/Config.antt =====
-- Kconfig: the build-time settings, and the ranges that Kconfig and `BUILD_ASSERT` hold them to.
use esp_nmea_bridge_zephyr.Base.{ℕ, ◌+◌, ◌≤◌, Bool, if◌then◌else◌}

-- Each field is CONFIG_ESP_NMEA_BRIDGE_ with its name in capitals.
pub record Config : Type 0 where
  pub tcp_nmea_server_enable : Bool
  pub tcp_nmea_client_enable : Bool
  pub status_led_enable : Bool
  pub tcp_nmea_server_max_clients : ℕ
  pub nmea_sinks_max : ℕ
  pub nmea_frame_max_len : ℕ
  pub ingest_queue_depth : ℕ
  pub sink_queue_depth : ℕ

-- Sessions that can be open at a time: the server's clients and the outbound client.
abbrev pub sessions_max : Config → ℕ
sessions_max c =
    (if c.tcp_nmea_server_enable then c.tcp_nmea_server_max_clients else 0)
    + (if c.tcp_nmea_client_enable then 1 else 0)

pub record InRange (c : Config) : Type 0 where
  pub clients_low : 1 ≤ c.tcp_nmea_server_max_clients
  pub clients_high : c.tcp_nmea_server_max_clients ≤ 8
  pub sinks_low : 1 ≤ c.nmea_sinks_max
  pub sinks_high : c.nmea_sinks_max ≤ 9
  pub frame_low : 32 ≤ c.nmea_frame_max_len
  pub frame_high : c.nmea_frame_max_len ≤ 512
  pub ingest_low : 2 ≤ c.ingest_queue_depth
  pub ingest_high : c.ingest_queue_depth ≤ 256
  pub sink_low : 2 ≤ c.sink_queue_depth
  pub sink_high : c.sink_queue_depth ≤ 128
  -- The BUILD_ASSERT of nmea_bridge.c.
  pub sinks_cover : sessions_max c ≤ c.nmea_sinks_max
