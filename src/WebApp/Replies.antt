-- ===== src/WebApp/Replies.antt =====
-- Sending a response: with enough calls that move something, the wire holds all of it.
use esp_nmea_bridge_zephyr.Base.{
  ltb, lt→ltb, ◌<◌, ℕ, zero, suc, ◌+◌, ◌≤◌, ◌<◌, ◌≡◌, refl, ap, Bool, not, true, false, Option,
  none, some, List, [], ◌∷◌, ◌++◌, arith, if◌then◌else◌, length, length-append, length-drop, take,
  drop, Bool-cases, inl, inr,
}
use esp_nmea_bridge_zephyr.Zephyr.{SockResult, got, fault}
use esp_nmea_bridge_zephyr.Text.{Bytes, bytes, text, number, format, snprintk, c_string}
use esp_nmea_bridge_zephyr.Text.Format.{length-format}
use esp_nmea_bridge_zephyr.Text.CString.{take-snprintk, c_string_self, no_nul}
use esp_nmea_bridge_zephyr.WebApp.{
  all_sent, Sending, stopped, Sent, is_eintr, send_all, then_send, header_size, header_format,
  write_response_header, write_text_response, WebAsset, write_asset_response,
}

-- The calls that move something, before the first that ends the sending.
abbrev pub moving : List SockResult → ℕ
moving [] = 0
moving (got zero ∷ rs) = 0
moving (got (suc n) ∷ rs) = suc (moving rs)
moving (fault e ∷ rs) = if is_eintr e then moving rs else 0

-- The header of a response, and the whole of it.
abbrev pub header_text : Bytes → Bytes → ℕ → Bytes
header_text status content_type n =
    format header_format (text status ∷ text content_type ∷ number n ∷ [])

abbrev pub response : Bytes → Bytes → Bytes → Bytes
response status content_type body = header_text status content_type (length body) ++ body

-- All of `b` is sent, in at most as many moving calls as it has bytes.
unfoldable pub Delivers : Option Sent → Bytes → List SockResult → Type 0
Delivers sent b rs =
    (rest : List SockResult) × (sent ≡ some (record { result = all_sent; wire = b; calls = rest }))
    × (moving rs ≤ moving rest + length b)

take-drop-append : (n : ℕ) (b : Bytes) → take n b ++ drop n b ≡ b
take-drop-append zero b = refl
take-drop-append (suc n) [] = refl
take-drop-append (suc n) (c ∷ b) = ap (λ t. c ∷ t) (take-drop-append n b)

pub send_all-Delivers :
    (b : Bytes) (rs : List SockResult) → length b ≤ moving rs → Delivers (send_all b rs) b rs
unfolding Delivers send_all
send_all-Delivers [] rs h = (rs, refl, omega arith)
send_all-Delivers (c ∷ b) [] h = absurd (omega arith)
send_all-Delivers (c ∷ b) (got zero ∷ rs) h = absurd (omega arith)
send_all-Delivers (c ∷ b) (got (suc n) ∷ rs) h =
    let (rest, e, few) = send_all-Delivers (drop n b) rs (omega (arith, length-drop n b)) in
    (rest, rw (e, take-drop-append n b) refl, omega (arith, few, length-drop n b))
send_all-Delivers (c ∷ b) (fault err ∷ rs) h = elim (Bool-cases (is_eintr err)) [
  | inl again ↦ simp again (send_all-Delivers (c ∷ b) rs (ground (arith, h)))
  | inr ends ↦ absurd (ground arith)
]

pub then_send-Delivers :
    (first : Option Sent) (next : List SockResult → Option Sent) (a b : Bytes)
    (rs : List SockResult)
    → length a + length b ≤ moving rs
    → Delivers first a rs
    → ((calls : List SockResult) → length b ≤ moving calls → Delivers (next calls) b calls)
    → Delivers (then_send first next) (a ++ b) rs
unfolding Delivers
then_send-Delivers first next a b rs h (calls, e, few) later =
    let (rest, e', few') = later calls (omega (arith, few)) in
    (rest, rw (e, e') refl, omega (arith, few, few', length-append a b))

header_text-pos :
    (status content_type : Bytes) (n : ℕ) → 0 < length (header_text status content_type n)
unfolding format
header_text-pos status content_type n = omega arith

-- A header that fits its buffer is sent as it is printed.
pub write_response_header-Delivers :
    (status content_type memory : Bytes) (n : ℕ) (rs : List SockResult)
    → length (header_text status content_type n) < header_size
    → length (header_text status content_type n) ≤ moving rs
    → Delivers
        (write_response_header status content_type n memory rs)
        (header_text status content_type n)
        rs
unfolding write_response_header
write_response_header-Delivers status content_type memory n rs fits h =
    let header = header_text status content_type n in
    let some_text : ltb 0 (length header) ≡ true =
      lt→ltb 0 (length header) (header_text-pos status content_type n) in
    rw (take-snprintk header_size header memory fits, some_text) (send_all-Delivers header rs h)

length-header_text :
    (status content_type : Bytes) (n : ℕ)
    → length status ≤ 22
    → length content_type ≤ 25
    → length (header_text status content_type n) < header_size
length-header_text status content_type n h h' =
    omega
      (arith, h, h', length-format header_format (text status ∷ text content_type ∷ number n ∷ []))

pub length-response :
    (status content_type body : Bytes)
    → length status ≤ 22
    → length content_type ≤ 25
    → length (response status content_type body) ≤ 191 + length body
length-response status content_type body h h' = omega (
  arith,
  length-header_text status content_type (length body) h h',
  length-append (header_text status content_type (length body)) body,
)

-- A whole response: the header, with the length of the body, and the body.
pub write_text_response-Delivers :
    (status content_type buffer body memory : Bytes) (rs : List SockResult)
    → length status ≤ 22
    → length content_type ≤ 25
    → c_string buffer ≡ body
    → length (response status content_type body) ≤ moving rs
    → Delivers
        (write_text_response status content_type buffer memory rs)
        (response status content_type body)
        rs
unfolding write_text_response
write_text_response-Delivers status content_type buffer body memory rs ws wc shown h =
    let header = header_text status content_type (length body) in
    let fits = length-header_text status content_type (length body) ws wc in
    let parts = length-append header body in
    rw shown (
      then_send-Delivers (write_response_header status content_type (length body) memory rs)
        (send_all body) header body rs (omega (arith, h, parts))
        (write_response_header-Delivers status content_type memory (length body) rs fits
          (omega (arith, h, parts)))
        (send_all-Delivers body))

pub write_asset_response-Delivers :
    (asset : WebAsset) (memory : Bytes) (rs : List SockResult)
    → length asset.content_type ≤ 25
    → length (response (bytes "200 OK") asset.content_type asset.content) ≤ moving rs
    → Delivers
        (write_asset_response asset memory rs)
        (response (bytes "200 OK") asset.content_type asset.content)
        rs
unfolding write_asset_response
write_asset_response-Delivers asset memory rs wc h =
    let header = header_text (bytes "200 OK") asset.content_type (length asset.content) in
    let fits =
      length-header_text (bytes "200 OK") asset.content_type (length asset.content) (omega arith)
        wc in
    let parts = length-append header asset.content in
    then_send-Delivers
      (write_response_header (bytes "200 OK") asset.content_type (length asset.content) memory rs)
      (send_all asset.content) header asset.content rs (omega (arith, h, parts))
      (write_response_header-Delivers (bytes "200 OK") asset.content_type memory
        (length asset.content) rs fits (omega (arith, h, parts)))
      (send_all-Delivers asset.content)

-- Whether a sending call ends the sending: it fails, not just interrupted, or it moves nothing.
abbrev pub ends_sending : SockResult → Bool
ends_sending (got zero) = true
ends_sending (got (suc n)) = false
ends_sending (fault e) = not (is_eintr e)

-- A header whose first sending call ends the sending is not sent at all.
unfoldable pub NotSent : Option Sent → List SockResult → Type 0
NotSent sent rs = (why : Sending) × (sent ≡ some (record { result = why; wire = []; calls = rs }))

write_response_header-NotSent :
    (status content_type memory : Bytes) (n : ℕ) (r : SockResult) (rs : List SockResult)
    → ends_sending r ≡ true
    → NotSent (write_response_header status content_type n memory (r ∷ rs)) rs
unfolding write_response_header send_all snprintk format NotSent
write_response_header-NotSent status content_type memory n (got zero) rs ends =
    let some_text : ltb 0 (length (header_text status content_type n)) ≡ true =
      lt→ltb 0 _ (header_text-pos status content_type n) in
    (stopped none, rw some_text refl)
write_response_header-NotSent status content_type memory n (got (suc k)) rs ends = cc
write_response_header-NotSent status content_type memory n (fault e) rs ends =
    let some_text : ltb 0 (length (header_text status content_type n)) ≡ true =
      lt→ltb 0 _ (header_text-pos status content_type n) in
    let fatal : is_eintr e ≡ false = ground arith in (stopped (some e), rw (some_text, fatal) refl)

-- The body follows a header that is not sent.
then_send-body :
    (first : Option Sent) (body : Bytes) (rs : List SockResult)
    → NotSent first rs
    → length body ≤ moving rs
    → Delivers (then_send first (send_all body)) body rs
unfolding NotSent Delivers
then_send-body first body rs (why, e) h =
    let (rest, sent, few) = send_all-Delivers body rs h in (rest, rw (e, sent) refl, few)

-- Where the first sending call of a response ends the sending of its header, because it fails or moves
-- nothing, the body is still sent: with enough calls that move something, the wire holds the body and
-- no header. That is so of both kinds of response, a text and an asset.
pub write_response-headless :
    (status content_type body memory : Bytes) (asset : WebAsset) (r : SockResult)
    (rs : List SockResult)
    → ends_sending r ≡ true
    → no_nul body ≡ true
    → length body ≤ moving rs
    → length asset.content ≤ moving rs
    → Delivers (write_text_response status content_type body memory (r ∷ rs)) body rs
      × Delivers (write_asset_response asset memory (r ∷ rs)) asset.content rs
unfolding write_text_response write_asset_response
write_response-headless status content_type body memory asset r rs ends clean h h' = (
  rw (c_string_self body clean) (
      then_send-body _ body rs
        (write_response_header-NotSent status content_type memory (length body) r rs ends) h),
  then_send-body _ asset.content rs
      (write_response_header-NotSent (bytes "200 OK") asset.content_type memory
        (length asset.content) r rs ends)
      h',
)
