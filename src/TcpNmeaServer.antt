-- ===== src/TcpNmeaServer.antt =====
-- src/tcp_nmea_server.h and src/tcp_nmea_server.c: the slots of the clients, and the steps of the
-- accepting thread and of the clients' threads on them. A descriptor is `none` where it is -1.
pub mod Clients
pub mod Serving
pub mod Slots
mod Tests
use esp_nmea_bridge_zephyr.Base.{
  ℕ, ◌+◌, Bool, true, false, Option, none, some, List, [], ◌∷◌, if◌then◌else◌, length, modify, map,
  replicate, u32,
}
use esp_nmea_bridge_zephyr.Config.{Config}

-- `struct client_slot`
pub record Client : Type 0 where
  pub fd : Option ℕ
  pub active : Bool

-- The static variables `clients` and `started`.
pub record Server : Type 0 where
  pub clients : List Client
  pub started : Bool

unfoldable pub server_statics : Config → Server
server_statics cfg = record {
  clients = replicate cfg.tcp_nmea_server_max_clients (record { fd = some 0; active = false });
  started = false;
}

-- `close_client`, and the socket that it closes.
fds_of : Option ℕ → List ℕ
fds_of none = []
fds_of (some fd) = fd ∷ []

pub close_client : Client → Client × List ℕ
unfolding fds_of
close_client c = (record { fd = none; active = false }, fds_of c.fd)

-- The end of `client_thread`, whose session has closed the socket.
pub end_client : Client → Client
unfolding close_client
end_client c = (close_client (record c { fd = none })).0

-- The loop of `alloc_client`: the slots, and the index of the one that is taken.
unfoldable pub alloc_client : List Client → ℕ → List Client × Option ℕ
alloc_client [] i = ([], none)
alloc_client (c ∷ cs) i =
    let rest = alloc_client cs (i + 1) in
    if c.active then (c ∷ rest.0, rest.1) else (record { fd = none; active = true } ∷ cs, some i)

unfoldable pub set_fd : ℕ → List Client → Option ℕ → List Client × Option ℕ × List ℕ
set_fd fd cs none = (cs, none, fd ∷ [])
set_fd fd cs (some i) = (modify cs i (λ c. record c { fd = some fd }), some i, [])

-- The accepting thread with a connection `fd`: the slots, the index of the slot whose thread it
-- creates, and the sockets that it closes.
unfoldable pub accept_client : List Client → ℕ → List Client × Option ℕ × List ℕ
unfolding alloc_client set_fd
accept_client cs fd = let (cs', i) = alloc_client cs 0 in set_fd fd cs' i

-- What `tcp_nmea_server_start` does to each slot.
unfoldable pub clear_fd : Client → Client
clear_fd c = record c { fd = none }

-- `tcp_nmea_server_start`, and whether it creates the thread. It returns 0.
unfoldable pub server_start : Config → Server → Server × Bool
unfolding clear_fd
server_start cfg s =
    if cfg.tcp_nmea_server_enable
    then (if s.started
        then (s, false)
        else (record { clients = map clear_fd s.clients; started = true }, true))
    else (s, false)

-- `struct tcp_nmea_server_stats`
pub record ServerStats : Type 0 where
  pub active_clients : ℕ
  pub max_clients : ℕ

-- The loop of `tcp_nmea_server_get_stats`.
unfoldable pub count_clients : List Client → ℕ → ℕ
count_clients [] active = active
count_clients (c ∷ cs) active = count_clients cs (if c.active then u32 (active + 1) else active)

unfoldable pub get_server_stats : Server → Option ServerStats → Option ServerStats
unfolding count_clients
get_server_stats s none = none
get_server_stats s (some _) =
    some (record { active_clients = count_clients s.clients 0; max_clients = length s.clients })
