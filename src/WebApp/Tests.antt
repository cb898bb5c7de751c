-- ===== src/WebApp/Tests.antt =====
-- The web app on concrete inputs: runs of its functions, and theorems applied.
use esp_nmea_bridge_zephyr.Base.{
  ℕ, suc, ◌<◌, ◌≡◌, refl, ap, true, false, none, some, List, [], ◌∷◌, arith, length, replicate,
  take,
}
use esp_nmea_bridge_zephyr.Zephyr.{Listening, eintr, econnreset, eagain, SockResult, got, fault}
use esp_nmea_bridge_zephyr.Text.{
  Bytes, bytes, c_string, strncmp_equal, strchr, last_digits, decimal, format, text, number,
}
use esp_nmea_bridge_zephyr.Text.Format.{read_format}
use esp_nmea_bridge_zephyr.Fixtures.{ListQueue, firmware, no_snapshot}
use esp_nmea_bridge_zephyr.BridgeTelemetry.Live.{Firmware}
use esp_nmea_bridge_zephyr.WebApp.{
  all_sent, stopped, Site, assets, send_all, is_eintr, find_asset, write_text_response, WebAsset,
  write_asset_response, header_format,
}
use esp_nmea_bridge_zephyr.WebApp.Json.{json_buf_size, status_format, status_args, status_body}
use esp_nmea_bridge_zephyr.WebApp.Replies.{moving, Delivers, write_response-headless}
use esp_nmea_bridge_zephyr.WebApp.Document.{document, write_object}
use esp_nmea_bridge_zephyr.WebApp.Status.{read_format-status_body}
use esp_nmea_bridge_zephyr.WebApp.Client.{
  Connection, arrived, recv_failed, read_request, handle_client,
}
use esp_nmea_bridge_zephyr.WebApp.Client.Answers.{Answered}
use esp_nmea_bridge_zephyr.WebApp.Client.Routes.{handle_client-Answered}
use esp_nmea_bridge_zephyr.WebApp.Listener.{
  Accepted, accepted, accept_failed, web_app_thread, web_app_start,
}
use esp_nmea_bridge_zephyr.WebApp.Listener.Serving.{Goes, web_app_thread-Goes}

decimal_runs : decimal 4294967295 ≡ bytes "4294967295"
unfolding decimal last_digits
decimal_runs = refl

header_runs :
    format header_format (text (bytes "200 OK") ∷ text (bytes "text/html") ∷ number 1205 ∷ [])
    ≡ bytes
        "HTTP/1.1 200 OK\r\nContent-Type: text/html\r\nContent-Length: 1205\r\nConnection: close\r\nCache-Control: no-store\r\n\r\n"
unfolding format decimal last_digits
header_runs = refl

-- Interrupted once, sent in parts.
send_all_runs :
    send_all (1 ∷ 2 ∷ 3 ∷ 4 ∷ []) (got 3 ∷ fault eintr ∷ got 5 ∷ got 1 ∷ [])
    ≡ some (record { result = all_sent; wire = 1 ∷ 2 ∷ 3 ∷ 4 ∷ []; calls = got 1 ∷ [] })
unfolding send_all is_eintr
send_all_runs = refl

-- Another error than EINTR ends it, EAGAIN as well.
send_all_stops :
    send_all (1 ∷ 2 ∷ 3 ∷ []) (got 2 ∷ fault eagain ∷ got 1 ∷ [])
    ≡ some (record { result = stopped (some eagain); wire = 1 ∷ 2 ∷ []; calls = got 1 ∷ [] })
unfolding send_all is_eintr
send_all_stops = refl

abbrev site : Site
site = record { index_html = 60 ∷ 62 ∷ []; app_js = 59 ∷ []; style_css = [] }

-- A path that goes on is not the asset's.
find_asset_runs : find_asset (assets site) (bytes "/app.js?v=1 HTTP/1.1") 11 ≡ none
unfolding find_asset strncmp_equal
find_asset_runs = refl

strchr_runs : strchr (bytes "/app.js HTTP/1.1") b' ' ≡ some 7
unfolding strchr
strchr_runs = refl

read_request_empty : read_request (recv_failed econnreset) ≡ none
unfolding read_request
read_request_empty = refl

web_app_start_twice : web_app_start true true ≡ (true, false)
unfolding web_app_start
web_app_start_twice = refl

moving-replicate : (n k : ℕ) → moving (replicate n (got (suc k))) ≡ n
moving-replicate ℕ.zero k = refl
moving-replicate (suc n) k = ap suc (moving-replicate n k)

-- Calls that send seven bytes each.
abbrev calls : List SockResult
calls = replicate 1100 (got 7)

abbrev conn : Bytes → Connection
conn request = record {
  received = arrived request;
  calls = calls;
  now_ms = 60_000;
  stale = no_snapshot;
  behind_header = [];
  behind_body = [];
}

abbrev request : Bytes
request = bytes "GET /api/status HTTP/1.1"

handle_client-Answered_example :
    Answered site
      (conn request)
      firmware
      (c_string (take 383 request))
      (handle_client site firmware (conn request))
handle_client-Answered_example =
    handle_client-Answered site (conn request) firmware b'G' (bytes "ET /api/status HTTP/1.1")
      (omega (arith, moving-replicate 1100 6)) refl

read_format-status_body_example :
    (length (status_body no_snapshot []) < json_buf_size)
    × (status_body no_snapshot [] ≡ write_object (document no_snapshot))
    × (read_format status_format (status_body no_snapshot []) ≡ some (status_args no_snapshot))
read_format-status_body_example = read_format-status_body no_snapshot [] (omega arith)

abbrev page : WebAsset
page = record { path = bytes "/"; content_type = bytes "text/html"; content = bytes "hi" }

write_response-headless_example :
    Delivers
      (write_text_response
        (bytes "400 Bad Request")
        (bytes "text/plain")
        (bytes "no")
        []
        (got 0 ∷ got 1 ∷ got 1 ∷ []))
      (bytes "no")
      (got 1 ∷ got 1 ∷ [])
    × Delivers
        (write_asset_response page [] (got 0 ∷ got 1 ∷ got 1 ∷ []))
        (bytes "hi")
        (got 1 ∷ got 1 ∷ [])
write_response-headless_example =
    write_response-headless (bytes "400 Bad Request") (bytes "text/plain") (bytes "no") [] page
      (got 0) (got 1 ∷ got 1 ∷ []) refl refl (omega arith) (omega arith)

abbrev connections : List ((Firmware ListQueue → Firmware ListQueue) × Accepted)
connections = ((λ fw. fw), accept_failed) ∷ ((λ fw. fw), accepted 4 (conn request)) ∷ []

abbrev listening : Listening
listening = record { socket = some 3; bind_ok = true; listen_ok = true }

web_app_thread-Goes_example :
    Goes site firmware connections
      (web_app_thread site firmware listening connections)
      (some 3)
      true
      true
web_app_thread-Goes_example =
    web_app_thread-Goes site firmware listening connections
      (tt, (omega (arith, moving-replicate 1100 6), tt))
