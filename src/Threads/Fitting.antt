-- ===== src/Threads/Fitting.antt =====
-- The sinks held against the threads that run sessions, and the step of one such thread.
use esp_nmea_bridge_zephyr.Base.{
  ℕ, zero, suc, ◌+◌, ◌≤◌, ◌<◌, ◌≡◌, refl, ap, sym, ◌∙◌, Bool, true, false, Option, none, some, List,
  [], ◌∷◌, arith, if◌then◌else◌, map, length, length-set, get_elem?, set, replicate,
}
use esp_nmea_bridge_zephyr.Zephyr.{Msgq}
use esp_nmea_bridge_zephyr.Config.{Config}
use esp_nmea_bridge_zephyr.NmeaBridge.{Frame}
use esp_nmea_bridge_zephyr.TcpNmeaServer.Slots.{active_slots}
use esp_nmea_bridge_zephyr.Threads.{World}
use esp_nmea_bridge_zephyr.Threads.Holders.{
  is_held, one_if, count, map-set, get_elem?-map, set_self, count-set,
}
use esp_nmea_bridge_zephyr.Threads.Invariant.{Inv}
use esp_nmea_bridge_zephyr.Threads.Owners.{
  Stage, idle, starting, returning, has_sink, Program, stage_of, with_stage, with_world,
}

abbrev pub is_busy : Stage → Bool
is_busy idle = false
is_busy starting = true
is_busy returning = true
is_busy (has_sink i) = true

abbrev pub has_one : Stage → Bool
has_one idle = false
has_one starting = false
has_one returning = false
has_one (has_sink i) = true

pub has-le-busy : (xs : List Stage) → count has_one xs ≤ count is_busy xs
has-le-busy [] = omega arith
has-le-busy (x ∷ xs) = ground (arith, has-le-busy xs)

-- A thread that is about to open its sink is busy and has none.
pub has-lt-busy :
    (xs : List Stage) (i : ℕ) → get_elem? xs i ≡ some starting → count has_one xs < count is_busy xs
has-lt-busy [] i h = cc
has-lt-busy (x ∷ xs) zero h = let e : x ≡ starting = cc in rw e (omega (arith, has-le-busy xs))
has-lt-busy (x ∷ xs) (suc i) h = ground (arith, has-lt-busy xs i h)

pub count-map :
    {A : Type 0} (p : A → Bool) (xs ys : List A) → map p xs ≡ map p ys → count p xs ≡ count p ys
count-map p [] [] h = refl
count-map p [] (y ∷ ys) h = cc
count-map p (x ∷ xs) [] h = cc
count-map p (x ∷ xs) (y ∷ ys) h =
    let here : p x ≡ p y = cc in
    let rest : map p xs ≡ map p ys = cc in omega (arith, ap one_if here, count-map p xs ys rest)

-- A slot whose flag is off has an idle thread.
pub idle-slot :
    (xs : List Stage) (i : ℕ)
    → get_elem? (map is_busy xs) i ≡ some false
    → get_elem? xs i ≡ some idle
idle-slot [] i h = cc
idle-slot (idle ∷ xs) zero h = refl
idle-slot (starting ∷ xs) zero h = let no : true ≡ false = cc in cc
idle-slot (returning ∷ xs) zero h = let no : true ≡ false = cc in cc
idle-slot (has_sink k ∷ xs) zero h = let no : true ≡ false = cc in cc
idle-slot (x ∷ xs) (suc i) h = idle-slot xs i h

pub idle-replicate : (n : ℕ) → replicate n false ≡ map is_busy (replicate n idle)
idle-replicate zero = refl
idle-replicate (suc n) = ap (λ xs. false ∷ xs) (idle-replicate n)

pub none-replicate : (p : Stage → Bool) (n : ℕ) → p idle ≡ false → count p (replicate n idle) ≡ 0
none-replicate p zero h = refl
none-replicate p (suc n) h = ground (arith, none-replicate p n h)

module _ {Q : Type 0} ⦃m : Msgq Frame Q⦄ (cfg : Config) where
  -- As many sinks are held as threads have one, a slot is active exactly while its thread is busy, and
  -- only the threads that are built in are ever busy.
  pub record Fits (f : Program Q) : Type 0 where
    pub inv : Inv cfg f.world
    pub slots : active_slots f.clients ≡ map is_busy f.stages
    pub size : length f.stages ≡ cfg.tcp_nmea_server_max_clients
    pub held :
        count is_held f.world.holders ≡ count has_one f.stages + one_if (has_one f.client_stage)
    pub server :
        count is_busy f.stages
        ≤ (if cfg.tcp_nmea_server_enable then cfg.tcp_nmea_server_max_clients else 0)
    pub client : one_if (is_busy f.client_stage) ≤ (if cfg.tcp_nmea_client_enable then 1 else 0)

  -- A busy thread goes on to a stage in which it is busy too.
  pub stage-Fits :
      (f : Program Q) (w : World Q) (owner : Option ℕ) (s t : Stage)
      → stage_of f owner ≡ some s
      → is_busy s ≡ true
      → is_busy t ≡ true
      → Inv cfg w
      → count is_held w.holders + one_if (has_one s)
        ≡ count is_held f.world.holders + one_if (has_one t)
      → Fits f
      → Fits (with_stage (with_world f w) owner t)
  stage-Fits f w none s t at_s busy busy' inv held v =
      let e : f.client_stage ≡ s = cc in
      record {
        inv = inv;
        slots = v.slots;
        size = v.size;
        held = omega (arith, held, v.held, ap (λ x. one_if (has_one x)) e);
        server = v.server;
        client =
            omega
              (arith, v.client, ap (λ x. one_if (is_busy x)) e, ap one_if busy, ap one_if busy');
      }
  stage-Fits f w (some i) s t at_s busy busy' inv held v = record {
    inv = inv;
    slots =
        v.slots
        ∙ sym (
            set_self (map is_busy f.stages) i true
              (get_elem?-map is_busy f.stages i s at_s ∙ ap some busy))
        ∙ ap (set (map is_busy f.stages) i) (sym busy')
        ∙ sym (map-set is_busy f.stages i t);
    size = length-set f.stages i t ∙ v.size;
    held = omega (arith, held, v.held, count-set has_one f.stages i s t at_s);
    server =
        omega
          (arith, v.server, count-set is_busy f.stages i s t at_s, ap one_if busy, ap one_if busy');
    client = v.client;
  }
