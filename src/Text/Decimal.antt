-- ===== src/Text/Decimal.antt =====
-- Decimal numbers: their length, and how a reader gets them back.
use native.Mathlib.Nat.{pow-suc}
use esp_nmea_bridge_zephyr.Base.{
  Bool-cases, inl, inr, ℕ, zero, suc, ◌+◌, ◌*◌, ◌-◌, ◌/◌, ◌%◌, ◌^◌, ◌≤◌, ◌<◌, ◌≡◌, refl, Bool,
  false, ◌&&◌, [], ◌∷◌, ◌++◌, append_assoc, arith, length, length-append, if◌then◌else◌, ltb, leb,
}
use esp_nmea_bridge_zephyr.Text.{Bytes, last_digits, decimal}

abbrev pub is_digit : ℕ → Bool
is_digit c = leb b'0' c && leb c b'9'

-- The number at the head of a text, behind the digits of `n`, and the text behind it.
pub read_digits : ℕ → Bytes → ℕ × Bytes
read_digits n [] = (n, [])
read_digits n (c ∷ s) =
    let rest = read_digits (n * 10 + (c - b'0')) s in if is_digit c then rest else (n, c ∷ s)

read_digits-digit :
    (n d : ℕ) (s : Bytes) → d < 10 → read_digits n ((b'0' + d) ∷ s) ≡ read_digits (n * 10 + d) s
unfolding read_digits
read_digits-digit n d s h = ground arith

pow_step : (k : ℕ) → 10 ^ suc k ≡ 10 ^ k * 10
pow_step k = pow-suc 10 k

read_digits-last_digits :
    (k n : ℕ) (s : Bytes) → n < 10 ^ k → read_digits 0 (last_digits k n ++ s) ≡ read_digits n s
unfolding last_digits
read_digits-last_digits zero n s h = let e : n ≡ 0 = omega arith in rw e refl
read_digits-last_digits (suc k) n s h =
    let d = b'0' + n % 10 in
    let front = last_digits k (n / 10) in
    let last = read_digits-digit (n / 10) (n % 10) s (omega arith) in
    let whole : n / 10 * 10 + n % 10 ≡ n = omega arith in
    elim (Bool-cases (ltb n 10)) [
      | inl small ↦
          let only : 0 * 10 + n % 10 ≡ n = ground arith in
          rw (small, read_digits-digit 0 (n % 10) s (omega arith), only) refl
      | inr more ↦
          rw (more, append_assoc front (d ∷ []) s)
            (rw (read_digits-last_digits k (n / 10) (d ∷ s) (omega (arith, pow_step k)))
              (rw (last, whole) refl))
    ]

length-last_digits : (k n : ℕ) → length (last_digits k n) ≤ k
unfolding last_digits
length-last_digits zero n = omega arith
length-last_digits (suc k) n = ground (
  arith,
  length-last_digits k (n / 10),
  length-append (last_digits k (n / 10)) ((b'0' + n % 10) ∷ []),
)

ends : (n c : ℕ) (s : Bytes) → is_digit c ≡ false → read_digits n (c ∷ s) ≡ (n, c ∷ s)
unfolding read_digits
ends n c s stop = rw stop refl

-- A number of 32 bits is read back from its print, and the text behind it is left, if that does not
-- go on with a digit.
pub read_digits-decimal :
    (n c : ℕ) (s : Bytes)
    → n < 2 ^ 32
    → is_digit c ≡ false
    → read_digits 0 (decimal n ++ c ∷ s) ≡ (n, c ∷ s)
unfolding decimal
read_digits-decimal n c s fits stop =
    rw (read_digits-last_digits 10 n (c ∷ s) (omega arith)) (ends n c s stop)

pub length-decimal : (n : ℕ) → length (decimal n) ≤ 10
unfolding decimal
length-decimal n = length-last_digits 10 n
