-- ===== src/Text/Format.antt =====
-- A reader of formatted text: what was printed by a format is read back by it, where each conversion
-- is followed by a literal that does not go on with it.
use esp_nmea_bridge_zephyr.Base.{
  ℕ, ◌+◌, ◌^◌, ◌≤◌, ◌<◌, ◌≡◌, refl, Bool, true, false, not, ◌&&◌, Option, none, some, List, [], ◌∷◌,
  ◌++◌, arith, length, length-append, if◌then◌else◌, leb, ◌==◌, All,
}
use esp_nmea_bridge_zephyr.Text.{
  Bytes, Directive, literal, str, uint, Arg, text, number, decimal, format,
}
use esp_nmea_bridge_zephyr.Text.Decimal.{is_digit, read_digits, read_digits-decimal, length-decimal}

abbrev pub is_letter : ℕ → Bool
is_letter c = leb b'a' c && leb c b'z'

read_letters : Bytes → Bytes × Bytes
read_letters [] = ([], [])
read_letters (c ∷ s) =
    let rest = read_letters s in if is_letter c then (c ∷ rest.0, rest.1) else ([], c ∷ s)

expect : Bytes → Bytes → Option Bytes
expect [] s = some s
expect (b ∷ bs) [] = none
expect (b ∷ bs) (c ∷ s) = if b == c then expect bs s else none

cons_arg : Arg → Option (List Arg) → Option (List Arg)
cons_arg a none = none
cons_arg a (some args) = some (a ∷ args)

-- The arguments that a text shows, which is to be of a format.
pub read_format : List Directive → Bytes → Option (List Arg)
unfolding expect cons_arg read_letters
read_format [] [] = some []
read_format [] (c ∷ s) = none
read_format (literal b ∷ ds) s = elim (expect b s) [ none ↦ none | some s' ↦ read_format ds s' ]
read_format (str ∷ ds) s = let (t, s') = read_letters s in cons_arg (text t) (read_format ds s')
read_format (uint ∷ ds) s = let (n, s') = read_digits 0 s in cons_arg (number n) (read_format ds s')

abbrev pub next_byte : List Directive → Option ℕ
next_byte (literal (c ∷ b) ∷ ds) = some c
next_byte _ = none

abbrev pub stops : (ℕ → Bool) → Option ℕ → Bool
stops goes_on none = false
stops goes_on (some c) = not (goes_on c)

-- Every conversion is followed by a literal that does not go on with it.
abbrev pub is_readable : List Directive → Bool
is_readable [] = true
is_readable (literal b ∷ ds) = is_readable ds
is_readable (str ∷ ds) = stops is_letter (next_byte ds) && is_readable ds
is_readable (uint ∷ ds) = stops is_digit (next_byte ds) && is_readable ds

-- The arguments are those of the format: words of small letters, and numbers of 32 bits.
abbrev pub ArgsFit : List Directive → List Arg → Type 0
ArgsFit [] [] = Unit
ArgsFit [] (a ∷ args) = ⊥
ArgsFit (literal b ∷ ds) args = ArgsFit ds args
ArgsFit (str ∷ ds) (text t ∷ args) = All (λ c. is_letter c ≡ true) t × ArgsFit ds args
ArgsFit (uint ∷ ds) (number n ∷ args) = (n < 2 ^ 32) × ArgsFit ds args
ArgsFit (str ∷ ds) _ = ⊥
ArgsFit (uint ∷ ds) _ = ⊥

expect-append : (b s : Bytes) → expect b (b ++ s) ≡ some s
unfolding expect
expect-append [] s = refl
expect-append (c ∷ b) s = ground (arith, expect-append b s)

read_letters-append :
    (t : Bytes) (c : ℕ) (s : Bytes)
    → All (λ c. is_letter c ≡ true) t
    → is_letter c ≡ false
    → read_letters (t ++ c ∷ s) ≡ (t, c ∷ s)
unfolding read_letters
read_letters-append [] c s h stop = rw stop refl
read_letters-append (b ∷ t) c s h stop = rw (h.0, read_letters-append t c s h.1 stop) refl

-- What follows a conversion begins with the next literal.
Starts : (ℕ → Bool) → Bytes → Type 0
Starts goes_on s = (c : ℕ) × (tail : Bytes) × (s ≡ c ∷ tail) × (goes_on c ≡ false)

format-Starts :
    (goes_on : ℕ → Bool) (ds : List Directive) (args : List Arg)
    → stops goes_on (next_byte ds) ≡ true
    → Starts goes_on (format ds args)
unfolding Starts format
format-Starts goes_on (literal (c ∷ b) ∷ ds) args h = (c, b ++ format ds args, refl, ground arith)
format-Starts goes_on [] args h = cc
format-Starts goes_on (literal [] ∷ ds) args h = cc
format-Starts goes_on (str ∷ ds) args h = cc
format-Starts goes_on (uint ∷ ds) args h = cc

-- Reading undoes printing.
pub read_format-format :
    (ds : List Directive) (args : List Arg)
    → is_readable ds ≡ true
    → ArgsFit ds args
    → read_format ds (format ds args) ≡ some args
unfolding read_format format Starts
read_format-format [] [] r h = refl
read_format-format [] (a ∷ args) r h = absurd h
read_format-format (literal b ∷ ds) args r h =
    rw (expect-append b (format ds args), read_format) (read_format-format ds args r h)
read_format-format (str ∷ ds) (text t ∷ args) r h =
    let (c, tail, e, stop) = format-Starts is_letter ds args (ground arith) in
    let rest = read_format-format ds args (ground arith) h.1 in
    let letters : read_letters (t ++ format ds args) ≡ (t, format ds args) =
      rw e (read_letters-append t c tail h.0 stop) in
    rw (letters, rest) refl
read_format-format (uint ∷ ds) (number n ∷ args) r h =
    let (c, tail, e, stop) = format-Starts is_digit ds args (ground arith) in
    let rest = read_format-format ds args (ground arith) h.1 in
    let digits : read_digits 0 (decimal n ++ format ds args) ≡ (n, format ds args) =
      rw e (read_digits-decimal n c tail h.0 stop) in
    rw (digits, rest) refl
read_format-format (str ∷ ds) [] r h = absurd h
read_format-format (str ∷ ds) (number n ∷ args) r h = absurd h
read_format-format (uint ∷ ds) [] r h = absurd h
read_format-format (uint ∷ ds) (text t ∷ args) r h = absurd h

-- The length of a formatted text, at most: ten bytes for a number.
abbrev pub length_bound : List Directive → List Arg → ℕ
length_bound [] args = 0
length_bound (literal b ∷ ds) args = length b + length_bound ds args
length_bound (str ∷ ds) (text t ∷ args) = length t + length_bound ds args
length_bound (uint ∷ ds) (number n ∷ args) = 10 + length_bound ds args
length_bound (str ∷ ds) _ = 0
length_bound (uint ∷ ds) _ = 0

pub length-format :
    (ds : List Directive) (args : List Arg) → length (format ds args) ≤ length_bound ds args
unfolding format
length-format [] args = omega arith
length-format (literal b ∷ ds) args =
    omega (arith, length-append b (format ds args), length-format ds args)
length-format (str ∷ ds) (text t ∷ args) =
    omega (arith, length-append t (format ds args), length-format ds args)
length-format (uint ∷ ds) (number n ∷ args) =
    omega
      (arith, length-append (decimal n) (format ds args), length-decimal n, length-format ds args)
length-format (str ∷ ds) [] = omega arith
length-format (str ∷ ds) (number n ∷ args) = omega arith
length-format (uint ∷ ds) [] = omega arith
length-format (uint ∷ ds) (text t ∷ args) = omega arith
