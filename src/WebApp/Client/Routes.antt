-- ===== src/WebApp/Client/Routes.antt =====
-- `handle_client` answers every request that it receives as `Answers` says.
use esp_nmea_bridge_zephyr.Base.{
  ℕ, ◌≡◌, ◌≢◌, refl, ap, ◌∙◌, true, false, ◌&&◌, Option, none, some, [], ◌∷◌, ◌++◌, arith, ◌==◌,
  length, All, inl, inr, Bool-cases, take, drop,
}
use esp_nmea_bridge_zephyr.Text.{Bytes, bytes, c_string, strncmp_equal, strchr}
use esp_nmea_bridge_zephyr.Text.Compare.{strncmp_prefix, strncmp-append, Finds, strchr-Finds}
use esp_nmea_bridge_zephyr.BridgeTelemetry.Live.{Firmware, get_snapshot}
use esp_nmea_bridge_zephyr.WebApp.{all_sent, Sent, Site, assets, find_asset}
use esp_nmea_bridge_zephyr.WebApp.Assets.{is_path, is_path-eq, is_path-ne, find_asset-Serves}
use esp_nmea_bridge_zephyr.WebApp.Client.{
  Connection, Received, arrived, recv_failed, with_firmware, reply_status, reply_asset, reply_path,
  reply, reply_to, read_request, handle_client,
}
use esp_nmea_bridge_zephyr.WebApp.Client.Answers.{
  Answers, wrong_method, no_path_end, Answered, HasRoom, plain-Answered, status-Answered,
  asset-Answered,
}

module _ {Q : Type 0} (site : Site) (conn : Connection) (fw : Firmware Q)
    (room : HasRoom site conn) where
  routed : Bytes → Bytes → Option (Firmware Q × Sent)
  routed p rest = reply_path site fw conn (p ++ b' ' ∷ rest) (some (length p))

  routed-status :
      (p rest : Bytes)
      → is_path p (b' ' ∷ rest) (bytes "/api/status") ≡ true
      → routed p rest ≡ reply_status conn (get_snapshot fw conn.now_ms (some conn.stale))
  unfolding routed reply_path is_path
  routed-status p rest h =
      let same : strncmp_equal (p ++ b' ' ∷ rest) (bytes "/api/status") (length p) ≡ true =
        ground arith in
      let size : (length p == 11) ≡ true = ground arith in rw (same, size) refl

  routed-asset :
      (p rest : Bytes)
      → is_path p (b' ' ∷ rest) (bytes "/api/status") ≡ false
      → routed p rest
        ≡ with_firmware fw
            (reply_asset conn (find_asset (assets site) (p ++ b' ' ∷ rest) (length p)))
  unfolding routed reply_path is_path
  routed-asset p rest h =
      let test : (strncmp_equal (p ++ b' ' ∷ rest) (bytes "/api/status") (length p)
            && length p == 11)
          ≡ false =
        ground arith in
      rw test refl

  routed-Answered :
      (request p rest : Bytes)
      → request ≡ bytes "GET " ++ p ++ b' ' ∷ rest
      → All (λ c. c ≢ b' ') p
      → Answered site conn fw request (routed p rest)
  routed-Answered request p rest e absent =
      elim (Bool-cases (is_path p (b' ' ∷ rest) (bytes "/api/status"))) [
        | inl hit ↦
            let same = is_path-eq p (b' ' ∷ rest) (bytes "/api/status") hit in
            rw (routed-status p rest hit) (
              status-Answered site conn fw room request rest
                (e ∙ ap (λ q. bytes "GET " ++ q ++ b' ' ∷ rest) same))
        | inr other ↦ rw (routed-asset p rest other) (
            asset-Answered site conn fw room request p rest _ e absent
              (is_path-ne p (b' ' ∷ rest) (bytes "/api/status") other)
              (find_asset-Serves (assets site) p (b' ' ∷ rest)))
      ]

  path-Answered :
      (request path : Bytes) (o : Option ℕ)
      → request ≡ bytes "GET " ++ path
      → Finds path b' ' o
      → Answered site conn fw request (reply_path site fw conn path o)
  unfolding Finds reply_path routed
  path-Answered request path none e absent =
      plain-Answered site conn fw room request (bytes "400 Bad Request") (bytes "bad request\n")
        (no_path_end request path e absent) (omega arith) (omega arith) refl
  path-Answered request path (some n) e (p, rest, split, at, absent) =
      rw (split, at) (routed-Answered request p rest (e ∙ ap (λ q. bytes "GET " ++ q) split) absent)

  starts_otherwise :
      (request path : Bytes)
      → strncmp_equal request (bytes "GET ") 4 ≡ false
      → request ≢ bytes "GET " ++ path
  starts_otherwise request path other e =
      let get : strncmp_equal request (bytes "GET ") 4 ≡ true =
        ap (λ r. strncmp_equal r (bytes "GET ") 4) e ∙ strncmp-append (bytes "GET ") path in
      cc

  reply-Answered : (request : Bytes) → Answered site conn fw request (reply site fw conn request)
  unfolding reply
  reply-Answered request = elim (Bool-cases (strncmp_equal request (bytes "GET ") 4)) [
    | inl get ↦
        let e = strncmp_prefix (bytes "GET ") request get in
        simp get (
          path-Answered request (drop 4 request) (strchr (drop 4 request) b' ') e
            (strchr-Finds (drop 4 request) b' '))
    | inr other ↦ simp other (
        plain-Answered site conn fw room request (bytes "405 Method Not Allowed")
          (bytes "method not allowed\n")
          (wrong_method request (λ path e. starts_otherwise request path other e)) (omega arith)
          (omega arith) refl)
  ]

-- Every request is answered: where a connection has received something and enough of its sending calls
-- move something, `handle_client` returns with all of one response on the wire. The response is that
-- of the text received, which is what fits the buffer, up to the first zero byte: method not allowed
-- if it does not begin with "GET "; bad request if no space ends the path; for the path /api/status
-- the status document of a snapshot taken now; for the path of an asset that asset, with its type; and
-- not found for any other path. Each response is a header with the length of its body, and the body,
-- whatever the memory behind the buffers holds. Only the status document changes any variable.
pub handle_client-Answered :
    {Q : Type 0} (site : Site) (conn : Connection) (fw : Firmware Q) (c : ℕ) (more : Bytes)
    → HasRoom site conn
    → conn.received ≡ arrived (c ∷ more)
    → Answered site conn fw (c_string (take 383 (c ∷ more))) (handle_client site fw conn)
unfolding handle_client reply_to read_request
handle_client-Answered site conn fw c more room got =
    simp got (reply-Answered site conn fw room (c_string (take 383 (c ∷ more))))

module _ {Q : Type 0} (site : Site) where
  -- What a connection gets: the answer to its request, or nothing if no request comes.
  abbrev pub Gets : Connection → Received → Firmware Q → Firmware Q → Bytes → Type 0
  Gets conn (arrived []) fw fw' wire = (wire ≡ []) × (fw' ≡ fw)
  Gets conn (recv_failed e) fw fw' wire = (wire ≡ []) × (fw' ≡ fw)
  Gets conn (arrived (c ∷ more)) fw fw' wire =
      Answers site conn fw (c_string (take 383 (c ∷ more))) fw' wire

  pub handle_client-Gets :
      (conn : Connection) (fw : Firmware Q) (r : Received)
      → HasRoom site conn
      → conn.received ≡ r
      → (next : Firmware Q) × (s : Sent) × (handle_client site fw conn ≡ some (next, s))
        × Gets conn r fw next s.wire
  unfolding handle_client reply_to read_request Answered
  handle_client-Gets conn fw (arrived []) room got =
      (fw, record { result = all_sent; wire = []; calls = conn.calls }, simp got refl, (refl, refl))
  handle_client-Gets conn fw (recv_failed e) room got =
      (fw, record { result = all_sent; wire = []; calls = conn.calls }, simp got refl, (refl, refl))
  handle_client-Gets conn fw (arrived (c ∷ more)) room got =
      let (next, wire, rest, e, a) = handle_client-Answered site conn fw c more room got in
      (next, record { result = all_sent; wire = wire; calls = rest }, e, a)
