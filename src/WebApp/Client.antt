-- ===== src/WebApp/Client.antt =====
-- `handle_client`: how the request of an accepted connection is answered.
pub mod Answers
pub mod Routes
use esp_nmea_bridge_zephyr.Base.{
  ℕ, zero, ◌-◌, Bool, ◌&&◌, not, Option, none, some, List, [], ◌∷◌, if◌then◌else◌, ◌==◌, length,
  take, drop,
}
use esp_nmea_bridge_zephyr.Zephyr.{Errno, SockResult}
use esp_nmea_bridge_zephyr.Text.{Bytes, bytes, c_string, strncmp_equal, strchr}
use esp_nmea_bridge_zephyr.BridgeTelemetry.{Snapshot}
use esp_nmea_bridge_zephyr.BridgeTelemetry.Live.{Firmware, get_snapshot}
use esp_nmea_bridge_zephyr.WebApp.{
  Sending, Sent, WebAsset, Site, assets, write_text_response, write_asset_response, find_asset,
}
use esp_nmea_bridge_zephyr.WebApp.Json.{write_status_json}

-- What `zsock_recv` finds: the bytes that have arrived, no byte where the peer has closed, or an error.
pub data Received : Type 0 where
  arrived : Bytes → Received
  recv_failed : Errno → Received

-- What the handling of a connection meets: what the socket calls give, the uptime, what the local
-- variables hold before they are set, and what memory holds behind the texts in the buffers.
pub record Connection : Type 0 where
  pub received : Received
  pub calls : List SockResult
  pub now_ms : ℕ
  pub stale : Snapshot
  pub behind_header : Bytes
  pub behind_body : Bytes

abbrev pub rx_buf_size : ℕ
rx_buf_size = 384

-- The text at `request`, if anything is received.
unfoldable pub read_request : Received → Option Bytes
read_request (arrived []) = none
read_request (arrived (c ∷ more)) = some (c_string (take (rx_buf_size - 1) (c ∷ more)))
read_request (recv_failed e) = none

pub plain : Connection → Bytes → Bytes → Option Sent
plain conn status body =
    write_text_response status (bytes "text/plain; charset=utf-8") body conn.behind_header
      conn.calls

pub reply_asset : Connection → Option WebAsset → Option Sent
unfolding plain
reply_asset conn none = plain conn (bytes "404 Not Found") (bytes "not found\n")
reply_asset conn (some asset) = write_asset_response asset conn.behind_header conn.calls

module _ {Q : Type 0} where
  abbrev pub with_firmware : Firmware Q → Option Sent → Option (Firmware Q × Sent)
  with_firmware fw none = none
  with_firmware fw (some s) = some (fw, s)

  -- What follows on `bridge_telemetry_get_snapshot`.
  pub reply_status : Connection → Firmware Q × Option Snapshot → Option (Firmware Q × Sent)
  reply_status conn (fw, none) =
      with_firmware fw (write_status_json conn.stale conn.behind_body conn.behind_header conn.calls)
  reply_status conn (fw, some s) =
      with_firmware fw (write_status_json s conn.behind_body conn.behind_header conn.calls)

module _ {Q : Type 0} (site : Site) where
  -- From `path_end` on; it is the offset from `path`.
  reply_path : Firmware Q → Connection → Bytes → Option ℕ → Option (Firmware Q × Sent)
  unfolding plain reply_status reply_asset
  reply_path fw conn path none =
      with_firmware fw (plain conn (bytes "400 Bad Request") (bytes "bad request\n"))
  reply_path fw conn path (some path_len) =
      if strncmp_equal path (bytes "/api/status") path_len
        && path_len == length (bytes "/api/status")
      then reply_status conn (get_snapshot fw conn.now_ms (some conn.stale))
      else with_firmware fw (reply_asset conn (find_asset (assets site) path path_len))

  reply : Firmware Q → Connection → Bytes → Option (Firmware Q × Sent)
  unfolding plain reply_path
  reply fw conn request =
      let path = drop 4 request in
      if not (strncmp_equal request (bytes "GET ") 4)
      then with_firmware fw
          (plain conn (bytes "405 Method Not Allowed") (bytes "method not allowed\n"))
      else reply_path fw conn path (strchr path b' ')

  reply_to : Firmware Q → Connection → Option Bytes → Option (Firmware Q × Sent)
  unfolding reply
  reply_to fw conn none =
      some (fw, record { result = Sending.all_sent; wire = []; calls = conn.calls })
  reply_to fw conn (some request) = reply fw conn request

  pub handle_client : Firmware Q → Connection → Option (Firmware Q × Sent)
  unfolding reply_to
  handle_client fw conn = reply_to fw conn (read_request conn.received)
