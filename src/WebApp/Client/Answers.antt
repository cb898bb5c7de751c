-- ===== src/WebApp/Client/Answers.antt =====
-- What is answered to which request, and that `handle_client` answers so.
use esp_nmea_bridge_zephyr.Base.{
  ℕ, ◌+◌, ◌≤◌, ◌≡◌, ◌≢◌, refl, ap, ◌∙◌, true, Option, none, some, List, ◌∷◌, ◌++◌, arith, length,
  All, All-get_elem?, get_elem?,
}
use esp_nmea_bridge_zephyr.Zephyr.{SockResult}
use esp_nmea_bridge_zephyr.Text.{Bytes, bytes, snprintk}
use esp_nmea_bridge_zephyr.Text.CString.{c_string_self, no_nul}
use esp_nmea_bridge_zephyr.BridgeTelemetry.{Snapshot}
use esp_nmea_bridge_zephyr.BridgeTelemetry.Live.{Firmware, get_snapshot, get_snapshot-Shows}
use esp_nmea_bridge_zephyr.WebApp.{all_sent, Sent, WebAsset, Site, assets}
use esp_nmea_bridge_zephyr.WebApp.Json.{status_json, json_buf_size, status_body, write_status_json}
use esp_nmea_bridge_zephyr.WebApp.Assets.{Serves}
use esp_nmea_bridge_zephyr.WebApp.Client.{
  Connection, with_firmware, plain, reply_status, reply_asset, reply,
}
use esp_nmea_bridge_zephyr.WebApp.Replies.{
  moving, Delivers, response, write_text_response-Delivers, write_asset_response-Delivers,
  length-response,
}
use esp_nmea_bridge_zephyr.WebApp.Status.{status_body_lem, length-status_json}

abbrev pub plain_type : Bytes
plain_type = bytes "text/plain; charset=utf-8"

-- The answers to a request: the variables after it, and the bytes of the response.
pub data Answers {Q : Type 0} (site : Site) (conn : Connection) (fw : Firmware Q)
    : Bytes → Firmware Q → Bytes → Type 0 where
  wrong_method :
      (request : Bytes)
      → ((path : Bytes) → request ≢ bytes "GET " ++ path)
      → Answers site conn fw request fw
          (response (bytes "405 Method Not Allowed") plain_type (bytes "method not allowed\n"))
  no_path_end :
      (request path : Bytes)
      → request ≡ bytes "GET " ++ path
      → All (λ c. c ≢ b' ') path
      → Answers site conn fw request fw
          (response (bytes "400 Bad Request") plain_type (bytes "bad request\n"))
  status_page :
      (request rest : Bytes) (fw' : Firmware Q) (s : Snapshot)
      → request ≡ bytes "GET " ++ bytes "/api/status" ++ b' ' ∷ rest
      → get_snapshot fw conn.now_ms (some conn.stale) ≡ (fw', some s)
      → Answers site conn fw request fw'
          (response (bytes "200 OK") (bytes "application/json") (status_json s))
  asset_page :
      (request rest : Bytes) (i : ℕ) (a : WebAsset)
      → get_elem? (assets site) i ≡ some a
      → request ≡ bytes "GET " ++ a.path ++ b' ' ∷ rest
      → Answers site conn fw request fw (response (bytes "200 OK") a.content_type a.content)
  not_found :
      (request path rest : Bytes)
      → request ≡ bytes "GET " ++ path ++ b' ' ∷ rest
      → All (λ c. c ≢ b' ') path
      → path ≢ bytes "/api/status"
      → All (λ a. path ≢ a.path) (assets site)
      → Answers site conn fw request fw
          (response (bytes "404 Not Found") plain_type (bytes "not found\n"))

-- An answer is on the wire as a whole, and the variables are as it leaves them.
unfoldable pub Answered :
    {Q : Type 0} → Site → Connection → Firmware Q → Bytes → Option (Firmware Q × Sent) → Type 0
Answered {Q} site conn fw request reply =
    (fw' : Firmware Q) × (wire : Bytes) × (rest : List SockResult) × (reply
      ≡ some (fw', record { result = all_sent; wire = wire; calls = rest }))
    × Answers site conn fw request fw' wire

-- Enough moving calls for any response.
abbrev pub HasRoom : Site → Connection → Type 0
HasRoom site conn =
    1000 + length site.index_html + length site.app_js + length site.style_css ≤ moving conn.calls

module _ {Q : Type 0} (site : Site) (conn : Connection) (fw : Firmware Q)
    (room : HasRoom site conn) where
  delivered :
      (request wire : Bytes) (fw' : Firmware Q) (sent : Option Sent)
      → Answers site conn fw request fw' wire
      → Delivers sent wire conn.calls
      → Answered site conn fw request (with_firmware fw' sent)
  unfolding Answered Delivers
  delivered request wire fw' sent a (rest, e, few) = (fw', wire, rest, rw e refl, a)

  plain-Delivers :
      (status body : Bytes)
      → length status ≤ 22
      → length body ≤ 100
      → no_nul body ≡ true
      → Delivers (plain conn status body) (response status plain_type body) conn.calls
  unfolding plain
  plain-Delivers status body h h' clean =
      write_text_response-Delivers status plain_type body body conn.behind_header conn.calls h
        (omega arith) (c_string_self body clean)
        (omega (arith, room, length-response status plain_type body h (omega arith), h'))

  pub plain-Answered :
      (request status body : Bytes)
      → Answers site conn fw request fw (response status plain_type body)
      → length status ≤ 22
      → length body ≤ 100
      → no_nul body ≡ true
      → Answered site conn fw request (with_firmware fw (plain conn status body))
  plain-Answered request status body a h h' clean =
      delivered request _ fw _ a (plain-Delivers status body h h' clean)

  write_status_json-Delivers :
      (s : Snapshot)
      → Delivers
          (write_status_json s conn.behind_body conn.behind_header conn.calls)
          (response (bytes "200 OK") (bytes "application/json") (status_json s))
          conn.calls
  unfolding write_status_json status_body
  write_status_json-Delivers s =
      let size =
        length-response (bytes "200 OK") (bytes "application/json") (status_json s) (omega arith)
          (omega arith) in
      write_text_response-Delivers (bytes "200 OK") (bytes "application/json")
        (snprintk json_buf_size (status_json s) conn.behind_body) (status_json s) conn.behind_header
        conn.calls (omega arith) (omega arith) (status_body_lem s conn.behind_body)
        (omega (arith, room, size, length-status_json s))

  pub status-Answered :
      (request rest : Bytes)
      → request ≡ bytes "GET " ++ bytes "/api/status" ++ b' ' ∷ rest
      → Answered site conn fw request
          (reply_status conn (get_snapshot fw conn.now_ms (some conn.stale)))
  unfolding reply_status
  status-Answered request rest e =
      let (state, s, taken, shows, null) = get_snapshot-Shows fw conn.now_ms conn.stale in
      rw taken (
        delivered request _ _ _ (status_page request rest _ s e taken)
          (write_status_json-Delivers s))

  -- The assets' types and sizes are within the bounds.
  Bounded : WebAsset → Type 0
  Bounded a =
      (length a.content_type ≤ 25)
      × (length a.content ≤ length site.index_html + length site.app_js + length site.style_css)

  assets-Bounded : All Bounded (assets site)
  unfolding Bounded
  assets-Bounded =
      let page : Bounded (record {
        path = bytes "/";
        content_type = bytes "text/html; charset=utf-8";
        content = site.index_html;
      }) =
        (omega arith, omega arith) in
      (page, (page, ((omega arith, omega arith), ((omega arith, omega arith), tt))))

  pub asset-Answered :
      (request path rest : Bytes) (found : Option WebAsset)
      → request ≡ bytes "GET " ++ path ++ b' ' ∷ rest
      → All (λ c. c ≢ b' ') path
      → path ≢ bytes "/api/status"
      → Serves (assets site) path found
      → Answered site conn fw request (with_firmware fw (reply_asset conn found))
  unfolding reply_asset Serves Bounded
  asset-Answered request path rest none e absent other h =
      plain-Answered request (bytes "404 Not Found") (bytes "not found\n")
        (not_found request path rest e absent other h) (omega arith) (omega arith) refl
  asset-Answered request path rest (some a) e absent other (i, at, same) =
      let bounds = All-get_elem? Bounded (assets site) i a assets-Bounded at in
      let size = length-response (bytes "200 OK") a.content_type a.content (omega arith) bounds.0 in
      delivered request _ fw _
        (asset_page request rest i a at (e ∙ ap (λ p. bytes "GET " ++ p ++ b' ' ∷ rest) same))
        (write_asset_response-Delivers a conn.behind_header conn.calls bounds.0
          (omega (arith, room, size, bounds.1)))
