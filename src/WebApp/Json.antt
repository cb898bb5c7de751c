-- ===== src/WebApp/Json.antt =====
-- `write_status_json` of src/web_app.c: the status document and its buffer.
use esp_nmea_bridge_zephyr.Base.{Bool, Option, List, [], ◌∷◌, if◌then◌else◌, ℕ}
use esp_nmea_bridge_zephyr.Zephyr.{SockResult}
use esp_nmea_bridge_zephyr.Text.{
  Bytes, bytes, Directive, literal, str, uint, Arg, text, number, format, snprintk, c_string,
}
use esp_nmea_bridge_zephyr.BridgeTelemetry.{
  ConnectionState, connected, disconnected, InputState, active, idle, Snapshot,
}
use esp_nmea_bridge_zephyr.WebApp.{Sent, write_text_response}

abbrev pub json_buf_size : ℕ
json_buf_size = 1024

abbrev pub connection_word : ConnectionState → Bytes
connection_word connected = bytes "connected"
connection_word disconnected = bytes "disconnected"

abbrev pub input_word : InputState → Bytes
input_word active = bytes "active"
input_word idle = bytes "idle"

abbrev pub bool_word : Bool → Bytes
bool_word b = if b then bytes "true" else bytes "false"

abbrev pub status_format : List Directive
status_format =
    literal (bytes "{\"connection_state\":\"")
    ∷ str
    ∷ literal (bytes "\",\"input_state\":\"")
    ∷ str
    ∷ literal (bytes "\",\"warnings\":{\"data_quality\":")
    ∷ str
    ∷ literal (bytes ",\"frame_loss\":")
    ∷ str
    ∷ literal (bytes "},\"wifi\":{\"sta_ready\":")
    ∷ str
    ∷ literal (bytes "},\"uart\":{\"bytes_rx\":")
    ∷ uint
    ∷ literal (bytes ",\"lines_rx\":")
    ∷ uint
    ∷ literal (bytes ",\"overlong_lines\":")
    ∷ uint
    ∷ literal (bytes "},\"bridge\":{\"frames_in\":")
    ∷ uint
    ∷ literal (bytes ",\"ingest_dropped_oldest\":")
    ∷ uint
    ∷ literal (bytes ",\"sink_dropped_oldest\":")
    ∷ uint
    ∷ literal (bytes ",\"publish_no_sinks\":")
    ∷ uint
    ∷ literal (bytes ",\"publish_invalid\":")
    ∷ uint
    ∷ literal (bytes ",\"publish_oversize\":")
    ∷ uint
    ∷ literal (bytes "},\"tcp\":{\"active_sessions\":")
    ∷ uint
    ∷ literal (bytes "},\"tcp_server\":{\"active_clients\":")
    ∷ uint
    ∷ literal (bytes ",\"max_clients\":")
    ∷ uint
    ∷ literal (bytes "}}")
    ∷ []

abbrev pub status_args : Snapshot → List Arg
status_args s =
    text (connection_word s.connection_state)
    ∷ text (input_word s.input_state)
    ∷ text (bool_word s.warnings.data_quality)
    ∷ text (bool_word s.warnings.frame_loss)
    ∷ text (bool_word s.sta_ready)
    ∷ number s.counters.uart_bytes_rx
    ∷ number s.counters.uart_lines_rx
    ∷ number s.counters.uart_overlong_lines
    ∷ number s.counters.bridge_frames_in
    ∷ number s.counters.bridge_ingest_dropped_oldest
    ∷ number s.counters.bridge_sink_dropped_oldest
    ∷ number s.counters.bridge_publish_no_sinks
    ∷ number s.counters.bridge_publish_invalid
    ∷ number s.counters.bridge_publish_oversize
    ∷ number s.counters.tcp_nmea_active_sessions
    ∷ number s.counters.tcp_server_active_clients
    ∷ number s.counters.tcp_server_max_clients
    ∷ []

-- The text that `write_status_json` prints, and the text that its buffer then shows.
unfoldable pub status_json : Snapshot → Bytes
status_json s = format status_format (status_args s)

unfoldable pub status_body : Snapshot → Bytes → Bytes
unfolding status_json
status_body s memory = c_string (snprintk json_buf_size (status_json s) memory)

unfoldable pub write_status_json : Snapshot → Bytes → Bytes → List SockResult → Option Sent
unfolding status_json
write_status_json s body_memory memory rs =
    write_text_response (bytes "200 OK") (bytes "application/json")
      (snprintk json_buf_size (status_json s) body_memory) memory rs
