-- ===== src/NmeaBridge/Queueing.antt =====
-- `put_drop_oldest`: a queue that forgets its oldest frame to make room for a new one.
use esp_nmea_bridge_zephyr.Base.{
  ℕ, ◌+◌, ◌-◌, ◌≤◌, ◌<◌, ◌≡◌, refl, List, [], ◌∷◌, ◌++◌, arith, suc, min, dec_lt, if◌then◌else◌,
  ltb, length, length-append, length-drop, drop, u32,
}
use esp_nmea_bridge_zephyr.Zephyr.{no_wait, Msgq}
use esp_nmea_bridge_zephyr.NmeaBridge.{Frame, put_drop_oldest}

-- The last `n` items of a list.
abbrev pub keep_newest {ℓ} : {A : Type ℓ} → ℕ → List A → List A
keep_newest n xs = drop (length xs - n) xs

pub keep_newest-eq_self {ℓ} :
    {A : Type ℓ} (n : ℕ) (xs : List A) → length xs ≤ n → keep_newest n xs ≡ xs
keep_newest-eq_self n xs h = let e : length xs - n ≡ 0 = omega arith in rw e

pub keep_newest-cons {ℓ} :
    {A : Type ℓ} (n : ℕ) (x : A) (xs : List A) → length xs ≡ n → keep_newest n (x ∷ xs) ≡ xs
keep_newest-cons n x xs h = let e : suc (length xs) - n ≡ 1 = omega arith in rw e

pub length-keep_newest {ℓ} :
    {A : Type ℓ} (n : ℕ) (xs : List A) → length (keep_newest n xs) ≡ min n (length xs)
length-keep_newest n xs = omega (arith, length-drop (length xs - n) xs)

pub nonempty_of_full {ℓ} :
    {A : Type ℓ} (n : ℕ) (xs : List A)
    → 0 < n
    → n ≤ length xs
    → (x : A) × (rest : List A) × (xs ≡ x ∷ rest)
nonempty_of_full n [] pos h = absurd (omega arith)
nonempty_of_full n (x ∷ xs) pos h = (x, xs, refl)

module _ {Q : Type 0} ⦃m : Msgq Frame Q⦄ where
  -- A queue within its capacity, which is not 0.
  pub record Bounded (depth : ℕ) (q : Q) : Type 0 where
    pub depth_pos : 0 < depth
    pub capacity : m.capacity q ≡ depth
    pub within : length (m.contents q) ≤ depth

  -- With room the frame is appended; with none the oldest frame is lost, and counted once.
  pub record PutsNewest (depth : ℕ) (q : Q) (frame : Frame) (drops : ℕ) (r : Q × ℕ) : Type 0 where
    pub contents : m.contents r.0 ≡ keep_newest depth (m.contents q ++ frame ∷ [])
    pub bounded : Bounded depth r.0
    pub drop_counter : r.1 ≡ (if ltb (length (m.contents q)) depth then drops else u32 (drops + 1))

  put-room :
      (depth : ℕ) (q : Q) (frame : Frame) (drops : ℕ)
      → Bounded depth q
      → length (m.contents q) < depth
      → PutsNewest depth q frame drops (put_drop_oldest q frame drops)
  unfolding put_drop_oldest
  put-room depth q frame drops v h =
      let p = m.put_room q frame (omega arith) in
      ground (
        arith,
        p,
        m.capacity-put q frame,
        length-append (m.contents q) (frame ∷ []),
        keep_newest-eq_self depth (m.contents q ++ frame ∷ []),
      )

  put-full :
      (depth : ℕ) (q : Q) (frame : Frame) (drops : ℕ) (old : Frame) (rest : List Frame)
      → Bounded depth q
      → depth ≤ length (m.contents q)
      → m.contents q ≡ old ∷ rest
      → PutsNewest depth q frame drops (put_drop_oldest q frame drops)
  unfolding put_drop_oldest
  put-full depth q frame drops old rest v h e =
      let q₁ : Q = (m.put q frame).1 in
      let q₂ : Q = (m.get no_wait q₁).2 in
      ground (
        arith,
        m.put_full q frame (omega arith),
        m.capacity-put q frame,
        m.get_first no_wait q₁ old rest,
        m.capacity-get no_wait q₁,
        m.put_room q₂ frame,
        m.capacity-put q₂ frame,
        length-append rest (frame ∷ []),
        keep_newest-cons depth old (rest ++ frame ∷ []),
      )

  pub put_drop_oldest-PutsNewest :
      (depth : ℕ) (q : Q) (frame : Frame) (drops : ℕ)
      → Bounded depth q
      → PutsNewest depth q frame drops (put_drop_oldest q frame drops)
  put_drop_oldest-PutsNewest depth q frame drops v = elim (dec_lt (length (m.contents q)) depth) [
    | yes h ↦ put-room depth q frame drops v h
    | no h ↦
        let full = nonempty_of_full depth (m.contents q) v.depth_pos (omega arith) in
        put-full depth q frame drops full.0 full.1 v (omega arith) full.2
  ]
