-- ===== src/Text/CString.antt =====
-- Texts in buffers: what `snprintk` leaves for a reader, where the text fits and holds no zero byte.
use esp_nmea_bridge_zephyr.Base.{
  ℕ, zero, suc, ◌+◌, ◌/◌, ◌%◌, ◌-◌, ◌<◌, ◌≡◌, refl, ap, Bool, true, not, ◌&&◌, List, [], ◌∷◌, ◌++◌,
  arith, if◌then◌else◌, ltb, ◌==◌, length, take, take-all,
}
use esp_nmea_bridge_zephyr.Text.{
  Bytes, Directive, literal, str, uint, Arg, text, number, last_digits, decimal, format, snprintk,
  c_string,
}

abbrev pub no_nul : Bytes → Bool
no_nul [] = true
no_nul (c ∷ b) = not (c == 0) && no_nul b

take-append : (b s : Bytes) → take (length b) (b ++ s) ≡ b
take-append [] s = refl
take-append (c ∷ b) s = ap (λ t. c ∷ t) (take-append b s)

-- As many bytes as the text has are the text, if it fits.
pub take-snprintk :
    (size : ℕ) (b memory : Bytes) → length b < size → take (length b) (snprintk size b memory) ≡ b
unfolding snprintk
take-snprintk size b memory h =
    rw (take-all (size - 1) b (omega arith)) (take-append b (0 ∷ memory))

pub c_string_self : (b : Bytes) → no_nul b ≡ true → c_string b ≡ b
unfolding c_string
c_string_self [] h = refl
c_string_self (c ∷ b) h = ground (arith, c_string_self b (ground arith))

c_string-append : (b memory : Bytes) → no_nul b ≡ true → c_string (b ++ 0 ∷ memory) ≡ b
unfolding c_string
c_string-append [] memory h = refl
c_string-append (c ∷ b) memory h = ground (arith, c_string-append b memory (ground arith))

-- A reader of the buffer finds the text that is printed, if it fits.
pub c_string-snprintk :
    (size : ℕ) (b memory : Bytes)
    → length b < size
    → no_nul b ≡ true
    → c_string (snprintk size b memory) ≡ b
unfolding snprintk
c_string-snprintk size b memory h clean =
    rw (take-all (size - 1) b (omega arith)) (c_string-append b memory clean)

no_nul-append : (a b : Bytes) → no_nul a ≡ true → no_nul b ≡ true → no_nul (a ++ b) ≡ true
no_nul-append [] b h h' = h'
no_nul-append (c ∷ a) b h h' = ground (arith, no_nul-append a b (ground arith) h')

no_nul-last_digits : (k n : ℕ) → no_nul (last_digits k n) ≡ true
unfolding last_digits
no_nul-last_digits zero n = refl
no_nul-last_digits (suc k) n =
    no_nul-append (if ltb n 10 then [] else last_digits k (n / 10)) ((b'0' + n % 10) ∷ [])
      (ground (arith, no_nul-last_digits k (n / 10))) (ground arith)

no_nul-decimal : (n : ℕ) → no_nul (decimal n) ≡ true
unfolding decimal
no_nul-decimal n = no_nul-last_digits 10 n

-- No zero byte is in the parts of a format, and none in its words.
abbrev pub is_clean : List Directive → List Arg → Bool
is_clean [] args = true
is_clean (literal b ∷ ds) args = no_nul b && is_clean ds args
is_clean (str ∷ ds) (text b ∷ args) = no_nul b && is_clean ds args
is_clean (uint ∷ ds) (number n ∷ args) = is_clean ds args
is_clean (str ∷ ds) _ = true
is_clean (uint ∷ ds) _ = true

pub no_nul-format :
    (ds : List Directive) (args : List Arg)
    → is_clean ds args ≡ true
    → no_nul (format ds args) ≡ true
unfolding format
no_nul-format [] args h = refl
no_nul-format (literal b ∷ ds) args h =
    no_nul-append b (format ds args) (ground arith) (no_nul-format ds args (ground arith))
no_nul-format (str ∷ ds) (text b ∷ args) h =
    no_nul-append b (format ds args) (ground arith) (no_nul-format ds args (ground arith))
no_nul-format (uint ∷ ds) (number n ∷ args) h =
    no_nul-append (decimal n) (format ds args) (no_nul-decimal n) (no_nul-format ds args h)
no_nul-format (str ∷ ds) [] h = refl
no_nul-format (str ∷ ds) (number n ∷ args) h = refl
no_nul-format (uint ∷ ds) [] h = refl
no_nul-format (uint ∷ ds) (text b ∷ args) h = refl
