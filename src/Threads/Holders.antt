-- ===== src/Threads/Holders.antt =====
-- How many sessions are where, and what the step of one session does to that.
use esp_nmea_bridge_zephyr.Base.{
  ℕ, zero, suc, ◌+◌, ◌≤◌, ◌≡◌, refl, ap, sym, ◌∙◌, Bool, true, false, Option, none, some, List, [],
  ◌∷◌, arith, map, if◌then◌else◌, length, get_elem?, set, replicate,
}
use esp_nmea_bridge_zephyr.NmeaBridge.{SinkSlot}
use esp_nmea_bridge_zephyr.NmeaBridge.Opens.{actives}
use esp_nmea_bridge_zephyr.NmeaBridge.Slots.{count_active}
use esp_nmea_bridge_zephyr.Threads.{Phase, opened, counted, running, dimmed, leaving}

abbrev pub is_held : Option Phase → Bool
is_held none = false
is_held (some p) = true

-- Between `atomic_inc` and `atomic_dec`.
abbrev pub is_counted : Option Phase → Bool
is_counted (some counted) = true
is_counted (some running) = true
is_counted (some dimmed) = true
is_counted (some opened) = false
is_counted (some leaving) = false
is_counted none = false

-- Between the two reports to the LED.
abbrev pub is_lit : Option Phase → Bool
is_lit (some running) = true
is_lit (some opened) = false
is_lit (some counted) = false
is_lit (some dimmed) = false
is_lit (some leaving) = false
is_lit none = false

abbrev pub one_if : Bool → ℕ
one_if b = if b then 1 else 0

abbrev pub count {ℓ} : {A : Type ℓ} → (A → Bool) → List A → ℕ
count p [] = 0
count p (x ∷ xs) = one_if (p x) + count p xs

pub map-set {ℓ κ} :
    {A : Type ℓ} {B : Type κ} (f : A → B) (xs : List A) (i : ℕ) (v : A)
    → map f (set xs i v) ≡ set (map f xs) i (f v)
map-set f [] i v = refl
map-set f (x ∷ xs) zero v = refl
map-set f (x ∷ xs) (suc i) v = ap (λ t. f x ∷ t) (map-set f xs i v)

pub get_elem?-map {ℓ κ} :
    {A : Type ℓ} {B : Type κ} (f : A → B) (xs : List A) (i : ℕ) (a : A)
    → get_elem? xs i ≡ some a
    → get_elem? (map f xs) i ≡ some (f a)
get_elem?-map f [] i a h = cc
get_elem?-map f (x ∷ xs) zero a h = cc
get_elem?-map f (x ∷ xs) (suc i) a h = get_elem?-map f xs i a h

pub set_self {ℓ} :
    {A : Type ℓ} (xs : List A) (i : ℕ) (a : A) → get_elem? xs i ≡ some a → set xs i a ≡ xs
set_self [] i a h = refl
set_self (x ∷ xs) zero a h = ground arith
set_self (x ∷ xs) (suc i) a h = ap (λ t. x ∷ t) (set_self xs i a h)

pub count-set {ℓ} :
    {A : Type ℓ} (p : A → Bool) (xs : List A) (i : ℕ) (a v : A)
    → get_elem? xs i ≡ some a
    → count p (set xs i v) + one_if (p a) ≡ count p xs + one_if (p v)
count-set p [] i a v h = cc
count-set p (x ∷ xs) zero a v h = let e : x ≡ a = cc in rw e (omega arith)
count-set p (x ∷ xs) (suc i) a v h = omega (arith, count-set p xs i a v h)

pub count-le {ℓ} : {A : Type ℓ} (p : A → Bool) (xs : List A) → count p xs ≤ length xs
count-le p [] = omega arith
count-le p (x ∷ xs) = ground (arith, count-le p xs)

-- The sessions in the loop are counted, and the counted ones hold sinks.
pub lit-le-counted : (xs : List (Option Phase)) → count is_lit xs ≤ count is_counted xs
lit-le-counted [] = omega arith
lit-le-counted (x ∷ xs) = ground (arith, lit-le-counted xs)

pub counted-le-held : (xs : List (Option Phase)) → count is_counted xs ≤ count is_held xs
counted-le-held [] = omega arith
counted-le-held (x ∷ xs) = ground (arith, counted-le-held xs)

-- As many sinks are open as sessions hold one.
pub count_active_eq :
    {Q : Type 0} (sinks : List (SinkSlot Q)) (xs : List (Option Phase))
    → actives sinks ≡ map is_held xs
    → count_active sinks ≡ count is_held xs
count_active_eq [] [] h = refl
count_active_eq [] (x ∷ xs) h = cc
count_active_eq (s ∷ sinks) [] h = cc
count_active_eq (s ∷ sinks) (x ∷ xs) h =
    let here : s.active ≡ is_held x = cc in
    let rest : actives sinks ≡ map is_held xs = cc in rw (here, count_active_eq sinks xs rest)

pub count-replicate :
    (p : Option Phase → Bool) (n : ℕ) → p none ≡ false → count p (replicate n none) ≡ 0
count-replicate p zero h = refl
count-replicate p (suc n) h = ground (arith, count-replicate p n h)

-- The state of a sink in the list of those that are open.
pub held-active :
    {Q : Type 0} (sinks : List (SinkSlot Q)) (xs : List (Option Phase)) (i : ℕ) (p : Phase)
    → actives sinks ≡ map is_held xs
    → get_elem? xs i ≡ some (some p)
    → (s : SinkSlot Q) × (get_elem? sinks i ≡ some s) × (s.active ≡ true)
held-active [] [] i p h e = cc
held-active [] (x ∷ xs) i p h e = cc
held-active (s ∷ sinks) [] i p h e = cc
held-active (s ∷ sinks) (x ∷ xs) zero p h e =
    let here : s.active ≡ is_held x = cc in
    let it : x ≡ some p = cc in (s, refl, here ∙ ap is_held it)
held-active (s ∷ sinks) (x ∷ xs) (suc i) p h e =
    let rest : actives sinks ≡ map is_held xs = cc in held-active sinks xs i p rest e

-- A sink that is not open has no holder.
pub free-none :
    {Q : Type 0} (sinks : List (SinkSlot Q)) (xs : List (Option Phase)) (i : ℕ) (s : SinkSlot Q)
    → actives sinks ≡ map is_held xs
    → get_elem? sinks i ≡ some s
    → s.active ≡ false
    → get_elem? xs i ≡ some none
free-none [] xs i s h e off = cc
free-none (t ∷ sinks) [] i s h e off = cc
free-none (t ∷ sinks) (none ∷ xs) zero s h e off = refl
free-none (t ∷ sinks) (some p ∷ xs) zero s h e off =
    let here : t.active ≡ true = cc in
    let it : t ≡ s = cc in let on : true ≡ false = sym here ∙ ap (λ x. x.active) it ∙ off in cc
free-none (t ∷ sinks) (x ∷ xs) (suc i) s h e off =
    let rest : actives sinks ≡ map is_held xs = cc in free-none sinks xs i s rest e off

-- A session goes on in its function.
pub held-set :
    (xs : List (Option Phase)) (i : ℕ) (p q : Phase)
    → get_elem? xs i ≡ some (some p)
    → map is_held (set xs i (some q)) ≡ map is_held xs
held-set xs i p q at_i =
    map-set is_held xs i (some q)
    ∙ set_self (map is_held xs) i true (get_elem?-map is_held xs i (some p) at_i)

pub held-replicate : (n : ℕ) → map is_held (replicate n none) ≡ replicate n false
held-replicate zero = refl
held-replicate (suc n) = ap (λ xs. false ∷ xs) (held-replicate n)

pub get_elem?-set {ℓ} :
    {A : Type ℓ} (xs : List A) (i : ℕ) (a v : A)
    → get_elem? xs i ≡ some a
    → get_elem? (set xs i v) i ≡ some v
get_elem?-set [] i a v h = cc
get_elem?-set (x ∷ xs) zero a v h = refl
get_elem?-set (x ∷ xs) (suc i) a v h = get_elem?-set xs i a v h
