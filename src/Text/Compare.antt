-- ===== src/Text/Compare.antt =====
-- `strncmp` and `strchr` on texts without zero bytes.
use mathlib.Core.Option
use esp_nmea_bridge_zephyr.Base.{
  ℕ, suc, ◌≡◌, ◌≢◌, refl, ap, ◌∙◌, true, false, Option, none, some, [], ◌∷◌, ◌++◌, arith, ◌==◌,
  length, drop, All, ℕ_discrete,
}
use esp_nmea_bridge_zephyr.Text.{Bytes, strncmp_equal, strchr}

-- A text that is equal in the first bytes begins with them.
pub strncmp_prefix :
    (b a : Bytes) → strncmp_equal a b (length b) ≡ true → a ≡ b ++ drop (length b) a
unfolding strncmp_equal
strncmp_prefix [] a h = refl
strncmp_prefix (d ∷ b) [] h = cc
strncmp_prefix (d ∷ b) (c ∷ a) h =
    let same : c ≡ d = ground arith in
    let rest : a ≡ b ++ drop (length b) a = strncmp_prefix b a (ground arith) in
    ap (λ t. t ∷ a) same ∙ ap (λ t. d ∷ t) rest

pub strncmp-append : (b s : Bytes) → strncmp_equal (b ++ s) b (length b) ≡ true
unfolding strncmp_equal
strncmp-append [] s = refl
strncmp-append (c ∷ b) s = ground (arith, strncmp-append b s)

-- Two texts of one length are equal if they are equal in as many bytes.
pub strncmp_whole :
    (p a s : Bytes) → length a ≡ length p → strncmp_equal (p ++ s) a (length p) ≡ true → p ≡ a
unfolding strncmp_equal
strncmp_whole [] [] s e h = refl
strncmp_whole [] (d ∷ a) s e h = absurd (omega (arith, e))
strncmp_whole (c ∷ p) [] s e h = absurd (omega (arith, e))
strncmp_whole (c ∷ p) (d ∷ a) s e h =
    let same : c ≡ d = ground arith in
    let rest : p ≡ a = strncmp_whole p a s (omega (arith, e)) (ground arith) in
    ap (λ t. t ∷ p) same ∙ ap (λ t. d ∷ t) rest

-- What `strchr` finds: the first place of the byte.
unfoldable pub Finds : Bytes → ℕ → Option ℕ → Type 0
Finds s c none = All (λ d. d ≢ c) s
Finds s c (some n) =
    (before after : Bytes) × (s ≡ before ++ c ∷ after)
    × (n ≡ length before)
    × All (λ d. d ≢ c) before

cons-Finds :
    (d : ℕ) (s : Bytes) (c : ℕ) (o : Option ℕ)
    → d ≢ c
    → Finds s c o
    → Finds (d ∷ s) c (Option.map suc o)
unfolding Finds
cons-Finds d s c none other h = (other, h)
cons-Finds d s c (some n) other (before, after, e, at, absent) =
    (d ∷ before, after, ap (λ t. d ∷ t) e, ap suc at, (other, absent))

pub strchr-Finds : (s : Bytes) (c : ℕ) → Finds s c (strchr s c)
unfolding strchr Finds
strchr-Finds [] c = tt
strchr-Finds (d ∷ s) c = elim (ℕ_discrete d c) [
  | yes same ↦
      let test : (d == c) ≡ true = ground arith in rw test ([], s, ap (λ t. t ∷ s) same, refl, tt)
  | no other ↦
      let test : (d == c) ≡ false = ground arith in
      rw test (cons-Finds d s c (strchr s c) other (strchr-Finds s c))
]
