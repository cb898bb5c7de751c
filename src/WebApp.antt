-- ===== src/WebApp.antt =====
-- src/web_app.c: the pages of the web app and how they are sent. A socket call that sends `n` bytes or
-- more of those asked for is `got n`; where a list of such calls ends before the code is done with it,
-- the code is still running and the result is `none`.
pub mod Client
pub mod Json
pub mod Listener
pub mod Replies
pub mod Assets
pub mod Document
pub mod Status
-- pub mod Pages
mod Tests
use esp_nmea_bridge_zephyr.Base.{
  ℕ, zero, suc, Bool, true, false, ◌&&◌, Option, none, some, List, [], ◌∷◌, ◌++◌, if◌then◌else◌,
  ltb, ltb, ◌==◌, length, take, drop,
}
use esp_nmea_bridge_zephyr.Zephyr.{Errno, eintr, SockResult, got, fault}
use esp_nmea_bridge_zephyr.Text.{
  Bytes, bytes, Directive, literal, str, uint, text, number, format, snprintk, c_string,
  strncmp_equal, Arg,
}

-- The result of `send_all`: 0, or minus `errno`, which is of an earlier call (`none`) where
-- `zsock_send` has returned 0.
pub data Sending : Type 0 where
  all_sent : Sending
  stopped : Option Errno → Sending

-- What a sending function leaves: the bytes on the wire, and the calls that are not made yet.
pub record Sent : Type 0 where
  pub result : Sending
  pub wire : Bytes
  pub calls : List SockResult

pub is_eintr : Errno → Bool
is_eintr eintr = true
is_eintr _ = false

abbrev pub behind : Bytes → Option Sent → Option Sent
behind b none = none
behind b (some s) = some (record s { wire = b ++ s.wire })

-- `send_all`, on the bytes that are left.
unfoldable pub send_all : Bytes → List SockResult → Option Sent
unfolding is_eintr
send_all [] rs = some (record { result = all_sent; wire = []; calls = rs })
send_all (c ∷ more) [] = none
send_all (c ∷ more) (got zero ∷ rs) = some (record { result = stopped none; wire = []; calls = rs })
send_all (c ∷ more) (got (suc n) ∷ rs) = behind (c ∷ take n more) (send_all (drop n more) rs)
send_all (c ∷ more) (fault e ∷ rs) =
    let again = send_all (c ∷ more) rs in
    if is_eintr e then again else some (record { result = stopped (some e); wire = []; calls = rs })

-- Two sending functions, one after the other; the result of the first is ignored.
abbrev pub then_send : Option Sent → (List SockResult → Option Sent) → Option Sent
then_send none next = none
then_send (some s) next = behind s.wire (next s.calls)

abbrev pub header_size : ℕ
header_size = 192

abbrev pub header_format : List Directive
header_format =
    literal (bytes "HTTP/1.1 ")
    ∷ str
    ∷ literal (bytes "\r\nContent-Type: ")
    ∷ str
    ∷ literal (bytes "\r\nContent-Length: ")
    ∷ uint
    ∷ literal (bytes "\r\nConnection: close\r\nCache-Control: no-store\r\n\r\n")
    ∷ []

-- `write_response_header`, with what memory holds behind the header that is printed: as `snprintk`
-- returns the length of the whole text, a longer one is sent with bytes from behind the buffer.
unfoldable pub write_response_header : Bytes → Bytes → ℕ → Bytes → List SockResult → Option Sent
write_response_header status content_type content_len memory rs =
    let header = format header_format (text status ∷ text content_type ∷ number content_len ∷ []) in
    let header_len = length header in
    let sent = send_all (take header_len (snprintk header_size header memory)) rs in
    if ltb 0 header_len then sent else some (record { result = all_sent; wire = []; calls = rs })

unfoldable pub write_text_response : Bytes → Bytes → Bytes → Bytes → List SockResult → Option Sent
write_text_response status content_type body memory rs =
    let shown = c_string body in
    then_send (write_response_header status content_type (length shown) memory rs) (send_all shown)

-- `struct web_asset`, with the bytes from `start` to `end`.
pub record WebAsset : Type 0 where
  pub path : Bytes
  pub content_type : Bytes
  pub content : Bytes

-- The files that the build links in.
pub record Site : Type 0 where
  pub index_html : Bytes
  pub app_js : Bytes
  pub style_css : Bytes

abbrev pub assets : Site → List WebAsset
assets site =
    record {
      path = bytes "/";
      content_type = bytes "text/html; charset=utf-8";
      content = site.index_html;
    }
    ∷ record {
      path = bytes "/index.html";
      content_type = bytes "text/html; charset=utf-8";
      content = site.index_html;
    }
    ∷ record {
      path = bytes "/app.js";
      content_type = bytes "application/javascript";
      content = site.app_js;
    }
    ∷ record {
      path = bytes "/style.css";
      content_type = bytes "text/css; charset=utf-8";
      content = site.style_css;
    }
    ∷ []

unfoldable pub write_asset_response : WebAsset → Bytes → List SockResult → Option Sent
write_asset_response asset memory rs =
    let header =
      write_response_header (bytes "200 OK") asset.content_type (length asset.content) memory rs in
    then_send header (send_all asset.content)

-- The loop of `find_asset`.
unfoldable pub find_asset : List WebAsset → Bytes → ℕ → Option WebAsset
find_asset [] path path_len = none
find_asset (a ∷ rest) path path_len =
    let found = find_asset rest path path_len in
    if (length a.path == path_len) && strncmp_equal path a.path path_len then some a else found
