-- ===== src/TcpNmeaServer/Clients.antt =====
-- The slots of the clients over any sequence of connections and endings.
use esp_nmea_bridge_zephyr.Base.{
  ℕ, suc, ◌+◌, ◌^◌, ◌≤◌, ◌<◌, ◌≡◌, refl, u32, Bool-cases, inl, inr, ap, sym, ◌∙◌, true, false,
  Option, none, some, List, [], ◌∷◌, arith, if◌then◌else◌, length, length-modify, length-map,
  length-replicate, replicate, modify, All, All-modify, All-map, All-replicate,
}
use esp_nmea_bridge_zephyr.Config.{Config, InRange}
use esp_nmea_bridge_zephyr.TcpNmeaServer.{
  Client, ServerStats, end_client, clear_fd, alloc_client, accept_client, set_fd, server_statics,
  server_start, get_server_stats, count_clients,
}

-- What happens to the slots: a connection comes, or the session of a slot ends.
pub data Event : Type 0 where
  connection ending : ℕ → Event

pub handle : List Client → Event → List Client
handle cs (connection fd) = (accept_client cs fd).0
handle cs (ending i) = modify cs i end_client

pub handle_all : List Client → List Event → List Client
unfolding handle
handle_all cs [] = cs
handle_all cs (e ∷ es) = handle_all (handle cs e) es

-- The number of sockets that the slots hold.
abbrev pub holds : Client → ℕ
holds c = elim c.fd [ none ↦ 0 | some _ ↦ 1 ]

abbrev pub sockets_held : List Client → ℕ
sockets_held [] = 0
sockets_held (c ∷ cs) = holds c + sockets_held cs

-- An active slot holds a socket, and no other slot does.
pub IsHeld : Client → Type 0
IsHeld c = holds c ≡ (if c.active then 1 else 0)

-- The slots with `fd` in the first free one, in one pass.
place : List Client → ℕ → List Client
place [] fd = []
place (c ∷ cs) fd =
    let rest = place cs fd in
    if c.active then c ∷ rest else record { fd = some fd; active = true } ∷ cs

place-IsHeld : (cs : List Client) (fd : ℕ) → All IsHeld cs → All IsHeld (place cs fd)
unfolding place IsHeld
place-IsHeld [] fd h = tt
place-IsHeld (c ∷ cs) fd h = elim (Bool-cases c.active) [
  | inl on ↦ simp on (ground (arith, h.0), place-IsHeld cs fd h.1)
  | inr off ↦ rw off (refl, h.1)
]

length-place : (cs : List Client) (fd : ℕ) → length (place cs fd) ≡ length cs
unfolding place
length-place [] fd = refl
length-place (c ∷ cs) fd = ground (arith, length-place cs fd)

-- The result of `alloc_client` on slots that start at index `k`.
Allocs : List Client → ℕ → List Client → Option ℕ → Type 0
Allocs cs k cs' none = (cs' ≡ cs) × ((fd : ℕ) → place cs fd ≡ cs)
Allocs cs k cs' (some i) =
    (j : ℕ) × (i ≡ k + j) × ((fd : ℕ) → modify cs' j (λ c. record c { fd = some fd }) ≡ place cs fd)

cons-Allocs :
    (c : Client) (cs : List Client) (k : ℕ) (cs' : List Client) (o : Option ℕ)
    → c.active ≡ true
    → Allocs cs (k + 1) cs' o
    → Allocs (c ∷ cs) k (c ∷ cs') o
unfolding Allocs place
cons-Allocs c cs k cs' none on h = (ap (λ t. c ∷ t) h.0, λ fd. simp on (ap (λ t. c ∷ t) (h.1 fd)))
cons-Allocs c cs k cs' (some i) on (j, e, h) =
    (suc j, omega (arith, e), λ fd. simp on (ap (λ t. c ∷ t) (h fd)))

alloc_client_lem :
    (cs : List Client) (k : ℕ) → Allocs cs k (alloc_client cs k).0 (alloc_client cs k).1
unfolding Allocs alloc_client place
alloc_client_lem [] k = (refl, λ fd. refl)
alloc_client_lem (c ∷ cs) k = elim (Bool-cases c.active) [
  | inl on ↦ simp on (cons-Allocs c cs k _ _ on (alloc_client_lem cs (k + 1)))
  | inr off ↦ rw off (0, omega arith, λ fd. refl)
]

count_clients_lem :
    (cs : List Client) (n : ℕ)
    → All IsHeld cs
    → n + length cs < 2 ^ 32
    → count_clients cs n ≡ n + sockets_held cs
unfolding count_clients IsHeld
count_clients_lem [] n h fit = omega arith
count_clients_lem (c ∷ cs) n h fit = ground (
  arith,
  h.0,
  count_clients_lem cs (if c.active then u32 (n + 1) else n) h.1 (ground (arith, fit)),
)

sockets_held-le : (cs : List Client) → sockets_held cs ≤ length cs
sockets_held-le [] = omega arith
sockets_held-le (c ∷ cs) = ground (arith, sockets_held-le cs)

set_fd_lem :
    (cs : List Client) (fd : ℕ) (cs' : List Client) (o : Option ℕ)
    → Allocs cs 0 cs' o
    → (set_fd fd cs' o).0 ≡ place cs fd
unfolding Allocs set_fd
set_fd_lem cs fd cs' none h = h.0 ∙ sym (h.1 fd)
set_fd_lem cs fd cs' (some i) (j, e, h) = let e' : i ≡ j = omega (arith, e) in rw e' (h fd)

accept_client_lem : (cs : List Client) (fd : ℕ) → (accept_client cs fd).0 ≡ place cs fd
unfolding accept_client
accept_client_lem cs fd = set_fd_lem cs fd _ _ (alloc_client_lem cs 0)

-- All slots are valid, and there are `n`.
record IsValid (n : ℕ) (cs : List Client) : Type 0 where
  held : All IsHeld cs
  size : length cs ≡ n

handle-IsValid : (n : ℕ) (cs : List Client) (e : Event) → IsValid n cs → IsValid n (handle cs e)
unfolding handle IsHeld end_client
handle-IsValid n cs (connection fd) v =
    rw (accept_client_lem cs fd)
      (record { held = place-IsHeld cs fd v.held; size = length-place cs fd ∙ v.size })
handle-IsValid n cs (ending i) v = record {
  held = All-modify IsHeld cs i end_client (λ c h. refl) v.held;
  size = length-modify cs i end_client ∙ v.size;
}

handle_all-IsValid :
    (n : ℕ) (es : List Event) (cs : List Client) → IsValid n cs → IsValid n (handle_all cs es)
unfolding handle_all
handle_all-IsValid n [] cs v = v
handle_all-IsValid n (e ∷ es) cs v = handle_all-IsValid n es (handle cs e) (handle-IsValid n cs e v)

start-IsValid :
    (cfg : Config)
    → cfg.tcp_nmea_server_enable ≡ true
    → IsValid cfg.tcp_nmea_server_max_clients (server_start cfg (server_statics cfg)).0.clients
unfolding server_start server_statics clear_fd IsHeld
start-IsValid cfg on =
    let idle : Client = record { fd = some 0; active = false } in
    let cs = replicate cfg.tcp_nmea_server_max_clients idle in
    rw on (record {
      held =
          All-map IsHeld (λ c. c.active ≡ false) cs clear_fd (λ c off. rw off refl)
            (All-replicate (λ c. c.active ≡ false) cfg.tcp_nmea_server_max_clients idle refl);
      size = length-map cs clear_fd ∙ length-replicate cfg.tcp_nmea_server_max_clients idle;
    })

-- After the start of an enabled server, whatever connections come and whichever sessions end, an
-- active slot holds a socket and no other slot does: the statistics report the number of sockets
-- that the slots hold, which is at most the number of slots, and that stays the configured one.
pub get_server_stats-handle_all :
    (cfg : Config) (es : List Event) (old : ServerStats)
    → InRange cfg
    → cfg.tcp_nmea_server_enable ≡ true
    → let s = (server_start cfg (server_statics cfg)).0 in
      let cs = handle_all s.clients es in
      (get_server_stats (record s { clients = cs }) (some old)
        ≡ some (record {
          active_clients = sockets_held cs;
          max_clients = cfg.tcp_nmea_server_max_clients;
        }))
      × All IsHeld cs
      × (sockets_held cs ≤ cfg.tcp_nmea_server_max_clients)
unfolding get_server_stats
get_server_stats-handle_all cfg es old range on =
    let cs = handle_all (server_start cfg (server_statics cfg)).0.clients es in
    let v : IsValid cfg.tcp_nmea_server_max_clients cs =
      handle_all-IsValid cfg.tcp_nmea_server_max_clients es _ (start-IsValid cfg on) in
    let count : count_clients cs 0 ≡ sockets_held cs =
      omega (arith, count_clients_lem cs 0 v.held (omega (arith, v.size, range.clients_high))) in
    (ap some (rw (count, v.size) refl), v.held, omega (arith, v.size, sockets_held-le cs))
