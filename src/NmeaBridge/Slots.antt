-- ===== src/NmeaBridge/Slots.antt =====
-- The sink slots as a pool: the first free one, and the number that are open.
use esp_nmea_bridge_zephyr.Base.{
  ℕ, zero, suc, ◌+◌, ◌≤◌, ◌<◌, ◌≡◌, ◌⊎◌, inl, inr, refl, true, false, none, some, List, [], ◌∷◌,
  arith, if◌then◌else◌, length, get_elem?, modify, take, Bool-cases,
}
use esp_nmea_bridge_zephyr.NmeaBridge.{SinkSlot}
use esp_nmea_bridge_zephyr.NmeaBridge.Sinks.{first_free}

-- The number of open sinks.
abbrev pub count_active : {Q : Type 0} → List (SinkSlot Q) → ℕ
count_active [] = 0
count_active (s ∷ xs) = (if s.active then 1 else 0) + count_active xs

module _ {Q : Type 0} where
  pub count_active-le : (xs : List (SinkSlot Q)) → count_active xs ≤ length xs
  count_active-le [] = omega arith
  count_active-le (s ∷ xs) = ground (arith, count_active-le xs)

  -- The slot that the loop finds, counted from where it starts.
  pub record Free (xs : List (SinkSlot Q)) (k i : ℕ) : Type 0 where
    pub slot : SinkSlot Q
    pub offset : ℕ
    pub index : i ≡ k + offset
    pub at : get_elem? xs offset ≡ some slot
    pub inactive : slot.active ≡ false
    pub first : count_active (take offset xs) ≡ offset
    pub room : count_active xs < length xs

  Free-cons :
      (s : SinkSlot Q) (xs : List (SinkSlot Q)) (k i : ℕ)
      → s.active ≡ true
      → Free xs (k + 1) i
      → Free (s ∷ xs) k i
  Free-cons s xs k i on f = record {
    slot = f.slot;
    offset = suc f.offset;
    index = omega arith;
    at = f.at;
    inactive = f.inactive;
    first = ground arith;
    room = ground (arith, f.room);
  }

  abbrev pub FirstFree : List (SinkSlot Q) → ℕ → Type 0
  FirstFree xs k =
      ((first_free xs k ≡ none) × (count_active xs ≡ length xs))
      ⊎ ((i : ℕ) × (first_free xs k ≡ some i) × Free xs k i)

  FirstFree-cons :
      (s : SinkSlot Q) (xs : List (SinkSlot Q)) (k : ℕ)
      → s.active ≡ true
      → FirstFree xs (k + 1)
      → FirstFree (s ∷ xs) k
  unfolding first_free
  FirstFree-cons s xs k on (inl h) = inl (ground arith, ground arith)
  FirstFree-cons s xs k on (inr (i, e, f)) = inr (i, ground arith, Free-cons s xs k i on f)

  pub first_free_lem : (xs : List (SinkSlot Q)) (k : ℕ) → FirstFree xs k
  unfolding first_free
  first_free_lem [] k = inl (refl, refl)
  first_free_lem (s ∷ xs) k = elim (Bool-cases s.active) [
    | inl on ↦ FirstFree-cons s xs k on (first_free_lem xs (k + 1))
    | inr off ↦ inr (
      k,
      rw off,
      record {
        slot = s;
        offset = 0;
        index = omega arith;
        at = refl;
        inactive = off;
        first = refl;
        room = ground (arith, count_active-le xs);
      },
    )
  ]

  -- What a change of one slot does to the number of open sinks.
  pub count_active-modify :
      (xs : List (SinkSlot Q)) (i : ℕ) (f : SinkSlot Q → SinkSlot Q) (s : SinkSlot Q)
      → get_elem? xs i ≡ some s
      → count_active (modify xs i f) + (if s.active then 1 else 0)
        ≡ count_active xs + (if (f s).active then 1 else 0)
  count_active-modify [] i f s e = cc
  count_active-modify (x ∷ xs) zero f s e = ground arith
  count_active-modify (x ∷ xs) (suc i) f s e = omega (arith, count_active-modify xs i f s e)
