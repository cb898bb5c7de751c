-- ===== src/WebApp/Status.antt =====
-- The status document of src/web_app.c: that it fits its buffer, what it says, and that a reader gets
-- the snapshot's values back.
use esp_nmea_bridge_zephyr.Base.{
  ◌^◌, ◌<◌, ◌≤◌, ◌≡◌, refl, Bool, true, false, ◌&&◌, some, [], ◌∷◌, arith, length, All,
}
use esp_nmea_bridge_zephyr.Text.{Bytes}
use esp_nmea_bridge_zephyr.Text.CString.{no_nul, c_string-snprintk, no_nul-format}
use esp_nmea_bridge_zephyr.Text.Format.{
  is_letter, ArgsFit, read_format, read_format-format, length-format,
}
use esp_nmea_bridge_zephyr.BridgeTelemetry.{
  ConnectionState, connected, disconnected, InputState, active, idle, Counters, Snapshot,
}
use esp_nmea_bridge_zephyr.WebApp.Json.{
  json_buf_size, connection_word, input_word, bool_word, status_format, status_args, status_json,
  status_body,
}
use esp_nmea_bridge_zephyr.WebApp.Document.{document, write_object, status_json-document}

abbrev are_letters : Bytes → Bool
are_letters [] = true
are_letters (c ∷ b) = is_letter c && are_letters b

All-letters : (b : Bytes) → are_letters b ≡ true → All (λ c. is_letter c ≡ true) b
All-letters [] h = tt
All-letters (c ∷ b) h = (ground arith, All-letters b (ground arith))

-- A word of small letters, of at most 12.
IsWord : Bytes → Type 0
IsWord b = (length b ≤ 12) × (no_nul b ≡ true) × All (λ c. is_letter c ≡ true) b

connection_word-IsWord : (c : ConnectionState) → IsWord (connection_word c)
unfolding IsWord
connection_word-IsWord connected = (omega arith, refl, All-letters (connection_word connected) refl)
connection_word-IsWord disconnected =
    (omega arith, refl, All-letters (connection_word disconnected) refl)

input_word-IsWord : (i : InputState) → IsWord (input_word i)
unfolding IsWord
input_word-IsWord active = (omega arith, refl, All-letters (input_word active) refl)
input_word-IsWord idle = (omega arith, refl, All-letters (input_word idle) refl)

bool_word-IsWord : (b : Bool) → IsWord (bool_word b)
unfolding IsWord
bool_word-IsWord true = (omega arith, refl, All-letters (bool_word true) refl)
bool_word-IsWord false = (omega arith, refl, All-letters (bool_word false) refl)

-- The five words of a document.
Words : Snapshot → Type 0
Words s =
    IsWord (connection_word s.connection_state)
    × IsWord (input_word s.input_state)
    × IsWord (bool_word s.warnings.data_quality)
    × IsWord (bool_word s.warnings.frame_loss)
    × IsWord (bool_word s.sta_ready)

words : (s : Snapshot) → Words s
unfolding Words
words s = (
  connection_word-IsWord s.connection_state,
  input_word-IsWord s.input_state,
  bool_word-IsWord s.warnings.data_quality,
  bool_word-IsWord s.warnings.frame_loss,
  bool_word-IsWord s.sta_ready,
)

pub length-status_json : (s : Snapshot) → length (status_json s) ≤ 600
unfolding status_json IsWord Words
length-status_json s =
    let (c, i, q, f, r) = words s in
    let bound = length-format status_format (status_args s) in
    omega (arith, bound, c.0, i.0, q.0, f.0, r.0)

no_nul-status_json : (s : Snapshot) → no_nul (status_json s) ≡ true
unfolding status_json IsWord Words
no_nul-status_json s =
    let (c, i, q, f, r) = words s in
    no_nul-format status_format (status_args s) (rw (c.1, i.1, q.1, f.1, r.1) refl)

-- The buffer shows the whole document.
pub status_body_lem : (s : Snapshot) (memory : Bytes) → status_body s memory ≡ status_json s
unfolding status_body status_json
status_body_lem s memory =
    c_string-snprintk json_buf_size (status_json s) memory (omega (arith, length-status_json s))
      (no_nul-status_json s)

-- The counters are numbers of 32 bits.
abbrev pub Fits : Counters → Type 0
Fits c =
    (c.uart_bytes_rx < 2 ^ 32)
    × (c.uart_lines_rx < 2 ^ 32)
    × (c.uart_overlong_lines < 2 ^ 32)
    × (c.bridge_frames_in < 2 ^ 32)
    × (c.bridge_ingest_dropped_oldest < 2 ^ 32)
    × (c.bridge_sink_dropped_oldest < 2 ^ 32)
    × (c.bridge_publish_no_sinks < 2 ^ 32)
    × (c.bridge_publish_invalid < 2 ^ 32)
    × (c.bridge_publish_oversize < 2 ^ 32)
    × (c.tcp_nmea_active_sessions < 2 ^ 32)
    × (c.tcp_server_active_clients < 2 ^ 32)
    × (c.tcp_server_max_clients < 2 ^ 32)

args_fit : (s : Snapshot) → Fits s.counters → ArgsFit status_format (status_args s)
unfolding IsWord Words
args_fit s (a0, a1, a2, a3, a4, a5, a6, a7, a8, a9, a10, a11) =
    let (c, i, q, f, r) = words s in
    (
      c.2,
      (
        i.2,
        (
          q.2,
          (
            f.2,
            (r.2, (a0, (a1, (a2, (a3, (a4, (a5, (a6, (a7, (a8, (a9, (a10, (a11, tt))))))))))))),
          ),
        ),
      ),
    )

-- The document of any snapshot fits the buffer of 1024 bytes, whatever memory holds behind it, and
-- it is the JSON object that the page reads: `document s` lists its members by name and group, each
-- with the value of the snapshot that belongs to it. Where the counters are numbers of 32 bits, a
-- reader that knows the format gets the five words and the twelve counters back from it.
pub read_format-status_body :
    (s : Snapshot) (memory : Bytes)
    → Fits s.counters
    → (length (status_body s memory) < json_buf_size)
      × (status_body s memory ≡ write_object (document s))
      × (read_format status_format (status_body s memory) ≡ some (status_args s))
unfolding status_json
read_format-status_body s memory fit = rw (status_body_lem s memory) (
  omega (arith, length-status_json s),
  status_json-document s,
  read_format-format status_format (status_args s) refl (args_fit s fit),
)
