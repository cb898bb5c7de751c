-- ===== src/TcpNmeaSession/Sending.antt =====
-- `send_all` over calls that send less than asked for: what is on the wire, and when it returns.
use esp_nmea_bridge_zephyr.Base.{
  ℕ, zero, suc, ◌+◌, ◌-◌, ◌≤◌, ◌≡◌, ◌⊎◌, refl, ap, Bool, true, false, some, List, [], ◌∷◌, ◌++◌,
  arith, ltb, length, take, drop, if◌then◌else◌, drop-drop,
}
use esp_nmea_bridge_zephyr.Zephyr.{Errno, SockResult, got, fault}
use esp_nmea_bridge_zephyr.NmeaBridge.{Frame}
use esp_nmea_bridge_zephyr.TcpNmeaSession.{retries, send_loop, send_all}

-- The bytes that the calls move before the first that ends the sending.
abbrev pub progress : List SockResult → ℕ
progress [] = 0
progress (got zero ∷ rs) = 0
progress (got (suc n) ∷ rs) = suc n + progress rs
progress (fault e ∷ rs) = if retries e then progress rs else 0

-- Whether a call ends the sending.
abbrev pub fails : List SockResult → Bool
fails [] = false
fails (got zero ∷ rs) = true
fails (got (suc n) ∷ rs) = fails rs
fails (fault e ∷ rs) = if retries e then fails rs else true

take-nil {ℓ} : (A : Type ℓ) (n : ℕ) → take {A = A} n [] ≡ []
take-nil A zero = refl
take-nil A (suc n) = refl

take-add {ℓ} :
    {A : Type ℓ} (n k : ℕ) (xs : List A) → take n xs ++ take k (drop n xs) ≡ take (n + k) xs
take-add zero k xs = let e : k ≡ 0 + k = omega arith in ap (λ j. take j xs) e
take-add {A} (suc n) k [] = rw (take-nil A k, take-nil A (suc n + k))
take-add (suc n) k (x ∷ xs) =
    let e : suc n + k ≡ suc (n + k) = omega arith in rw e (ap (λ t. x ∷ t) (take-add n k xs))

drop-all {ℓ} : {A : Type ℓ} (n : ℕ) (xs : List A) → length xs ≤ n → drop n xs ≡ []
drop-all zero [] h = refl
drop-all zero (x ∷ xs) h = absurd (omega arith)
drop-all (suc n) [] h = refl
drop-all (suc n) (x ∷ xs) h = drop-all n xs (omega arith)

module _ (frame : Frame) (whole : frame.len ≡ length frame.bytes) where
  Ended : ℕ → List SockResult → Type 0
  Ended s rs = (frame.len - s ≤ progress rs) ⊎ (fails rs ≡ true)

  Sends : ℕ → List SockResult → Type 0
  unfolding send_loop
  Sends s rs =
      send_loop frame s rs
      ≡ some (ltb (progress rs) (frame.len - s), take (progress rs) (drop s frame.bytes))

  nothing_left : (s k : ℕ) → frame.len ≤ s → take k (drop s frame.bytes) ≡ []
  nothing_left s k h = rw (drop-all s frame.bytes (omega arith), take-nil ℕ k)

  got-Sends :
      (n : ℕ) (rs : List SockResult) (s : ℕ) → Sends (s + suc n) rs → Sends s (got (suc n) ∷ rs)
  unfolding Sends send_loop
  got-Sends n rs s h = ground (
    arith,
    h,
    nothing_left s (suc n + progress rs),
    take-add (suc n) (progress rs) (drop s frame.bytes),
    drop-drop (suc n) s frame.bytes,
  )

  fault-Sends :
      (e : Errno) (rs : List SockResult) (s : ℕ)
      → (retries e ≡ true → Sends s rs)
      → Sends s (fault e ∷ rs)
  unfolding Sends send_loop
  fault-Sends e rs s h = ground (arith, h, nothing_left s (progress rs))

  send_loop_lem : (rs : List SockResult) (s : ℕ) → Ended s rs → Sends s rs
  unfolding Sends Ended send_loop
  send_loop_lem [] s h = ground arith
  send_loop_lem (got zero ∷ rs) s h = ground arith
  send_loop_lem (got (suc n) ∷ rs) s h =
      got-Sends n rs s (send_loop_lem rs (s + suc n) (ground arith))
  send_loop_lem (fault e ∷ rs) s h = fault-Sends e rs s (λ again. send_loop_lem rs s (ground arith))

-- `send_all` returns once its calls have moved the whole frame or one of them has failed for good.
-- The bytes on the wire are then the first ones of the frame, each once and in order, as many as the
-- calls moved, and it reports a failure exactly if that is less than the frame.
pub send_all_lem :
    (frame : Frame) (rs : List SockResult)
    → frame.len ≡ length frame.bytes
    → (frame.len ≤ progress rs) ⊎ (fails rs ≡ true)
    → send_all frame rs ≡ some (ltb (progress rs) frame.len, take (progress rs) frame.bytes)
unfolding send_all Ended Sends
send_all_lem frame rs whole h = ground (arith, send_loop_lem frame whole rs 0)
