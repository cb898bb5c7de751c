-- ===== src/WebApp/Document.antt =====
-- What a client of src/web_app.c reads in the status document, as src/web_assets/app.js does: a JSON
-- object with members by name, some in groups, written without white space.
use esp_nmea_bridge_zephyr.Base.{ℕ, Bool, if◌then◌else◌, List, [], ◌∷◌, ◌++◌, ◌≡◌, refl}
use esp_nmea_bridge_zephyr.Text.{Bytes, bytes, decimal, format}
use esp_nmea_bridge_zephyr.BridgeTelemetry.{
  ConnectionState, connected, disconnected, InputState, active, idle, Snapshot,
}
use esp_nmea_bridge_zephyr.WebApp.Json.{connection_word, input_word, status_json}

-- A text of small letters, a truth value, or a number.
pub data Value : Type 0 where
  word : Bytes → Value
  flag : Bool → Value
  count : ℕ → Value

pub record Named (A : Type 0) : Type 0 where
  pub key : Bytes
  pub value : A

pub data Member : Type 0 where
  single : Named Value → Member
  group : Named (List (Named Value)) → Member

-- Each is written in front of the text that follows.
abbrev pub write_value : Value → Bytes → Bytes
write_value (word w) rest = b'"' ∷ w ++ b'"' ∷ rest
write_value (flag b) rest = (if b then bytes "true" else bytes "false") ++ rest
write_value (count n) rest = decimal n ++ rest

abbrev pub write_key : Bytes → Bytes → Bytes
write_key key rest = b'"' ∷ key ++ b'"' ∷ b':' ∷ rest

abbrev pub write_named : Named Value → Bytes → Bytes
write_named n rest = write_key n.key (write_value n.value rest)

-- Members with commas between, up to the brace that ends their object.
abbrev pub write_fields : List (Named Value) → Bytes → Bytes
write_fields [] rest = b'}' ∷ rest
write_fields (n ∷ []) rest = write_named n (b'}' ∷ rest)
write_fields (n ∷ k ∷ ns) rest = write_named n (b',' ∷ write_fields (k ∷ ns) rest)

abbrev pub write_member : Member → Bytes → Bytes
write_member (single n) rest = write_named n rest
write_member (group g) rest = write_key g.key (b'{' ∷ write_fields g.value rest)

abbrev pub write_members : List Member → Bytes
write_members [] = b'}' ∷ []
write_members (x ∷ []) = write_member x (b'}' ∷ [])
write_members (x ∷ y ∷ xs) = write_member x (b',' ∷ write_members (y ∷ xs))

abbrev pub write_object : List Member → Bytes
write_object xs = b'{' ∷ write_members xs

abbrev pub named : {A : Type 0} → Bytes → A → Named A
named key value = record { key = key; value = value }

abbrev pub connection_name : ConnectionState → Bytes
connection_name connected = bytes "connected"
connection_name disconnected = bytes "disconnected"

abbrev pub input_name : InputState → Bytes
input_name active = bytes "active"
input_name idle = bytes "idle"

-- The members that the page shows.
abbrev pub document : Snapshot → List Member
document s =
    single (named (bytes "connection_state") (word (connection_name s.connection_state)))
    ∷ single (named (bytes "input_state") (word (input_name s.input_state)))
    ∷ group (
        named (bytes "warnings") (
          named (bytes "data_quality") (flag s.warnings.data_quality)
          ∷ named (bytes "frame_loss") (flag s.warnings.frame_loss)
          ∷ []))
    ∷ group (named (bytes "wifi") (named (bytes "sta_ready") (flag s.sta_ready) ∷ []))
    ∷ group (
        named (bytes "uart") (
          named (bytes "bytes_rx") (count s.counters.uart_bytes_rx)
          ∷ named (bytes "lines_rx") (count s.counters.uart_lines_rx)
          ∷ named (bytes "overlong_lines") (count s.counters.uart_overlong_lines)
          ∷ []))
    ∷ group (
        named (bytes "bridge") (
          named (bytes "frames_in") (count s.counters.bridge_frames_in)
          ∷ named (bytes "ingest_dropped_oldest") (count s.counters.bridge_ingest_dropped_oldest)
          ∷ named (bytes "sink_dropped_oldest") (count s.counters.bridge_sink_dropped_oldest)
          ∷ named (bytes "publish_no_sinks") (count s.counters.bridge_publish_no_sinks)
          ∷ named (bytes "publish_invalid") (count s.counters.bridge_publish_invalid)
          ∷ named (bytes "publish_oversize") (count s.counters.bridge_publish_oversize)
          ∷ []))
    ∷ group (
        named (bytes "tcp")
          (named (bytes "active_sessions") (count s.counters.tcp_nmea_active_sessions) ∷ []))
    ∷ group (
        named (bytes "tcp_server") (
          named (bytes "active_clients") (count s.counters.tcp_server_active_clients)
          ∷ named (bytes "max_clients") (count s.counters.tcp_server_max_clients)
          ∷ []))
    ∷ []

connection_word-name : (c : ConnectionState) → connection_word c ≡ connection_name c
connection_word-name connected = refl
connection_word-name disconnected = refl

input_word-name : (i : InputState) → input_word i ≡ input_name i
input_word-name active = refl
input_word-name idle = refl

-- What is printed is that object.
pub status_json-document : (s : Snapshot) → status_json s ≡ write_object (document s)
unfolding status_json format
status_json-document s =
    rw (connection_word-name s.connection_state, input_word-name s.input_state) refl
