-- ===== src/TcpNmeaServer/Slots.antt =====
-- Which slots are active, when a connection is given one and when its thread ends.
use esp_nmea_bridge_zephyr.Base.{
  ℕ, zero, suc, ◌+◌, ◌≡◌, refl, ap, sym, ◌∙◌, subst, Bool, Bool-cases, inl, inr, true, false,
  Option, none, some, List, [], ◌∷◌, arith, map, get_elem?, set, modify, replicate,
}
use esp_nmea_bridge_zephyr.Config.{Config}
use esp_nmea_bridge_zephyr.TcpNmeaServer.{
  Client, end_client, close_client, alloc_client, accept_client, set_fd, clear_fd, server_start,
  server_statics,
}

abbrev pub active_slots : List Client → List Bool
active_slots cs = map (λ c. c.active) cs

-- The slot `i` was free, and only it changes: it is active now.
pub record Taken (cs : List Client) (i : ℕ) (cs' : List Client) : Type 0 where
  pub was : get_elem? (active_slots cs) i ≡ some false
  pub now : active_slots cs' ≡ set (active_slots cs) i true

-- What `alloc_client` makes of slots that start at index `k`.
Allocated : List Client → ℕ → List Client → Option ℕ → Type 0
Allocated cs k cs' none = cs' ≡ cs
Allocated cs k cs' (some i) = (j : ℕ) × (i ≡ k + j) × Taken cs j cs'

cons-Allocated :
    (c : Client) (cs : List Client) (k : ℕ) (cs' : List Client) (o : Option ℕ)
    → Allocated cs (k + 1) cs' o
    → Allocated (c ∷ cs) k (c ∷ cs') o
unfolding Allocated
cons-Allocated c cs k cs' none h = ap (λ t. c ∷ t) h
cons-Allocated c cs k cs' (some i) (j, e, h) =
    (suc j, omega (arith, e), record { was = h.was; now = ap (λ t. c.active ∷ t) h.now })

alloc_client-Allocated :
    (cs : List Client) (k : ℕ) → Allocated cs k (alloc_client cs k).0 (alloc_client cs k).1
unfolding Allocated alloc_client
alloc_client-Allocated [] k = refl
alloc_client-Allocated (c ∷ cs) k = elim (Bool-cases c.active) [
  | inl on ↦ simp on (cons-Allocated c cs k _ _ (alloc_client-Allocated cs (k + 1)))
  | inr off ↦ simp off (0, omega arith, record { was = ap some off; now = refl })
]

active-modify :
    (cs : List Client) (i : ℕ) (f : Client → Client) (on : Bool)
    → ((c : Client) → (f c).active ≡ on)
    → active_slots (modify cs i f) ≡ set (active_slots cs) i on
active-modify [] i f on h = refl
active-modify (c ∷ cs) zero f on h = ap (λ b. b ∷ active_slots cs) (h c)
active-modify (c ∷ cs) (suc i) f on h = ap (λ t. c.active ∷ t) (active-modify cs i f on h)

-- Setting the descriptor leaves the flags alone.
active-set_fd :
    (cs : List Client) (i : ℕ) (fd : ℕ)
    → active_slots (modify cs i (λ c. record c { fd = some fd })) ≡ active_slots cs
active-set_fd [] i fd = refl
active-set_fd (c ∷ cs) zero fd = refl
active-set_fd (c ∷ cs) (suc i) fd = ap (λ t. c.active ∷ t) (active-set_fd cs i fd)

set_fd-Taken :
    (cs cs' cs'' : List Client) (fd i : ℕ) (o : Option ℕ) (closed : List ℕ)
    → Allocated cs 0 cs' o
    → set_fd fd cs' o ≡ (cs'', some i, closed)
    → Taken cs i cs''
unfolding set_fd Allocated
set_fd-Taken cs cs' cs'' fd i none closed h e = cc
set_fd-Taken cs cs' cs'' fd i (some k) closed (j, at_j, t) e =
    let ended : modify cs' k (λ c. record c { fd = some fd }) ≡ cs'' = ap (λ r. r.0) e in
    let found : some k ≡ some i = ap (λ r. r.1) e in
    let is : k ≡ i = cc in
    let is' : j ≡ i = omega (arith, is, at_j) in
    subst (λ n. Taken cs n cs'') is'
      (record { was = t.was; now = ap active_slots (sym ended) ∙ active-set_fd cs' k fd ∙ t.now })

-- A connection is given a slot that was free.
pub accept_client-Taken :
    (cs cs' : List Client) (fd i : ℕ) (closed : List ℕ)
    → accept_client cs fd ≡ (cs', some i, closed)
    → Taken cs i cs'
unfolding accept_client
accept_client-Taken cs cs' fd i closed e =
    set_fd-Taken cs (alloc_client cs 0).0 cs' fd i (alloc_client cs 0).1 closed
      (alloc_client-Allocated cs 0) e

-- The end of its thread frees a slot.
pub active-end_client :
    (cs : List Client) (i : ℕ)
    → active_slots (modify cs i end_client) ≡ set (active_slots cs) i false
unfolding end_client close_client
active-end_client cs i = active-modify cs i end_client false (λ c. refl)

set_fd-refused :
    (cs cs' cs'' : List Client) (fd : ℕ) (o : Option ℕ) (closed : List ℕ)
    → Allocated cs 0 cs' o
    → set_fd fd cs' o ≡ (cs'', none, closed)
    → cs'' ≡ cs
unfolding set_fd Allocated
set_fd-refused cs cs' cs'' fd none closed h e = sym (ap (λ r. r.0) e) ∙ h
set_fd-refused cs cs' cs'' fd (some k) closed h e = let no : some k ≡ none = ap (λ r. r.1) e in cc

-- A connection that is given no slot changes none.
pub accept_client-refused :
    (cs cs' : List Client) (fd : ℕ) (closed : List ℕ)
    → accept_client cs fd ≡ (cs', none, closed)
    → cs' ≡ cs
unfolding accept_client
accept_client-refused cs cs' fd closed e =
    set_fd-refused cs (alloc_client cs 0).0 cs' fd (alloc_client cs 0).1 closed
      (alloc_client-Allocated cs 0) e

inactive-replicate :
    (n : ℕ)
    → active_slots (replicate n (record { fd = some 0; active = false })) ≡ replicate n false
inactive-replicate zero = refl
inactive-replicate (suc n) = ap (λ t. false ∷ t) (inactive-replicate n)

active-clear_fd : (cs : List Client) → active_slots (map clear_fd cs) ≡ active_slots cs
unfolding clear_fd
active-clear_fd [] = refl
active-clear_fd (c ∷ cs) = ap (λ t. c.active ∷ t) (active-clear_fd cs)

-- Behind its start the server has no active slot.
pub active-server_start :
    (cfg : Config)
    → active_slots (server_start cfg (server_statics cfg)).0.clients
      ≡ replicate cfg.tcp_nmea_server_max_clients false
unfolding server_start server_statics
active-server_start cfg = elim (Bool-cases cfg.tcp_nmea_server_enable) [
  | inl on ↦ simp on (active-clear_fd _ ∙ inactive-replicate cfg.tcp_nmea_server_max_clients)
  | inr off ↦ simp off (inactive-replicate cfg.tcp_nmea_server_max_clients)
]
