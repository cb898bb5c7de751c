-- ===== src/Text.antt =====
-- Text as bytes: literals, decimal numbers, and the formatted printing of Zephyr's `snprintk`, as the
-- C standard documents it for the conversions that the firmware uses.
pub mod Decimal
pub mod CString
pub mod Compare
pub mod Format
use Prim.Native.Char.{code}
use mathlib.Core.Option
use esp_nmea_bridge_zephyr.Base.{
  ℕ, zero, suc, ◌+◌, ◌*◌, ◌-◌, ◌/◌, ◌%◌, Bool, ◌&&◌, List, [], ◌∷◌, ◌++◌, String, if◌then◌else◌,
  ltb, ◌==◌, take, Option, none, some, true, false,
}

abbrev pub Bytes : Type 0
Bytes = List ℕ

-- The bytes of an ASCII literal.
abbrev pub bytes : String → Bytes
bytes String.[] = []
bytes (String.◌∷◌ c s) = code c ∷ bytes s

-- The last `k` decimal digits of `n`, with no zeros in front.
unfoldable pub last_digits : ℕ → ℕ → Bytes
last_digits zero n = []
last_digits (suc k) n =
    let front = last_digits k (n / 10) in (if ltb n 10 then [] else front) ++ (b'0' + n % 10) ∷ []

-- `%u` and `%zu` of a number of 32 bits, which has at most ten digits.
unfoldable pub decimal : ℕ → Bytes
unfolding last_digits
decimal n = last_digits 10 n

-- The parts of a format, and the arguments of its conversions.
pub data Directive : Type 0 where
  literal : Bytes → Directive
  str uint : Directive

pub data Arg : Type 0 where
  text : Bytes → Arg
  number : ℕ → Arg

-- The text that a format and its arguments stand for; a conversion with an argument of another type,
-- or with none, prints nothing here.
unfoldable pub format : List Directive → List Arg → Bytes
unfolding decimal
format [] args = []
format (literal b ∷ ds) args = b ++ format ds args
format (str ∷ ds) (text b ∷ args) = b ++ format ds args
format (uint ∷ ds) (number n ∷ args) = decimal n ++ format ds args
format (str ∷ ds) args = []
format (uint ∷ ds) args = []

-- A buffer of `size` bytes after `snprintk` has printed a text into it, which cuts the text and ends it
-- with a zero byte, with what memory holds behind that byte.
unfoldable pub snprintk : ℕ → Bytes → Bytes → Bytes
snprintk size printed behind = take (size - 1) printed ++ 0 ∷ behind

-- The text that a pointer to some bytes shows, up to the first zero byte.
pub c_string : Bytes → Bytes
c_string [] = []
c_string (c ∷ s) = let rest = c_string s in if c == 0 then [] else c ∷ rest

-- `strncmp(a, b, n) == 0` of two texts without zero bytes.
unfoldable pub strncmp_equal : Bytes → Bytes → ℕ → Bool
strncmp_equal a b zero = true
strncmp_equal [] [] (suc n) = true
strncmp_equal [] (d ∷ b) (suc n) = false
strncmp_equal (c ∷ a) [] (suc n) = false
strncmp_equal (c ∷ a) (d ∷ b) (suc n) =
    let rest = strncmp_equal a b n in if c == d then rest else false

-- `strchr(s, c) - s` of a text without zero bytes.
unfoldable pub strchr : Bytes → ℕ → Option ℕ
strchr [] c = none
strchr (d ∷ s) c = let rest = strchr s c in if d == c then some 0 else Option.map suc rest
