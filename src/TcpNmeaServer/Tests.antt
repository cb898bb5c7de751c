-- ===== src/TcpNmeaServer/Tests.antt =====
-- The server on concrete inputs: runs of its functions, and a theorem applied.
use esp_nmea_bridge_zephyr.Base.{
  ℕ, ◌≤◌, ◌≡◌, refl, true, false, none, some, List, [], ◌∷◌, All, modify,
}
use esp_nmea_bridge_zephyr.Fixtures.{small, small-InRange}
use esp_nmea_bridge_zephyr.TcpNmeaServer.{
  Client, ServerStats, close_client, end_client, accept_client, server_start, server_statics,
  get_server_stats,
}
use esp_nmea_bridge_zephyr.TcpNmeaServer.Serving.{created, closed, slept_s, server_thread}
use esp_nmea_bridge_zephyr.TcpNmeaServer.Clients.{
  Event, connection, ending, IsHeld, sockets_held, handle_all, get_server_stats-handle_all,
}

abbrev free : Client
free = record { fd = none; active = false }

abbrev busy : ℕ → Client
busy fd = record { fd = some fd; active = true }

close_client_runs : close_client (busy 5) ≡ (free, 5 ∷ [])
unfolding close_client
close_client_runs = refl

accept_client_runs : accept_client (busy 5 ∷ free ∷ []) 6 ≡ (busy 5 ∷ busy 6 ∷ [], some 1, [])
unfolding accept_client
accept_client_runs = refl

-- With no free slot the connection is closed.
accept_client_rejects :
    accept_client (busy 5 ∷ busy 6 ∷ []) 7 ≡ (busy 5 ∷ busy 6 ∷ [], none, 7 ∷ [])
unfolding accept_client
accept_client_rejects = refl

abbrev no_stats : ServerStats
no_stats = record { active_clients = 0; max_clients = 0 }

-- Two sessions, a rejected connection, and an ending.
abbrev events : List Event
events = connection 5 ∷ connection 6 ∷ connection 7 ∷ ending 0 ∷ []

get_server_stats-handle_all_example :
    let s = (server_start small (server_statics small)).0 in
    let cs = handle_all s.clients events in
    (get_server_stats (record s { clients = cs }) (some no_stats)
      ≡ some (record { active_clients = sockets_held cs; max_clients = 2 }))
    × All IsHeld cs
    × (sockets_held cs ≤ 2)
get_server_stats-handle_all_example =
    get_server_stats-handle_all small events no_stats small-InRange refl

-- The slots are full at the third connection, and one is free again at the fourth.
server_thread_runs :
    server_thread
      (free ∷ free ∷ [])
      (record { socket = some 3; bind_ok = true; listen_ok = true })
      (((λ cs. cs), some 5)
        ∷ ((λ cs. cs), none)
        ∷ ((λ cs. cs), some 6)
        ∷ ((λ cs. cs), some 7)
        ∷ ((λ cs. modify cs 0 end_client), some 8)
        ∷ [])
    ≡ (busy 8 ∷ busy 6 ∷ [], created 0 ∷ slept_s 1 ∷ created 1 ∷ closed 7 ∷ created 0 ∷ [])
unfolding server_thread accept_client end_client
server_thread_runs = refl

-- A socket that cannot be bound is closed.
server_thread_unbound :
    server_thread
      (free ∷ [])
      (record { socket = some 3; bind_ok = false; listen_ok = true })
      (((λ cs. cs), some 5) ∷ [])
    ≡ (free ∷ [], closed 3 ∷ [])
unfolding server_thread
server_thread_unbound = refl
