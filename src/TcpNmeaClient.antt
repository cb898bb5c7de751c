-- ===== src/TcpNmeaClient.antt =====
-- src/tcp_nmea_client.c: the thread that connects to another server, a round of its loop at a time.
-- The answers of the socket calls and of the Wi-Fi manager are given with each round, and so is
-- `net_addr_pton`, as a function from the bytes of a setting.
pub mod Backoff
pub mod Rounds
mod Tests
use esp_nmea_bridge_zephyr.Base.{
  ℕ, ◌+◌, ◌*◌, Bool, true, false, Option, none, some, List, [], ◌∷◌, ◌++◌, if◌then◌else◌, min, u32,
}
use esp_nmea_bridge_zephyr.Zephyr.{Errno, Status, ok, err, Msgq}
use esp_nmea_bridge_zephyr.Config.{Config}
use esp_nmea_bridge_zephyr.NmeaBridge.{Frame}
use esp_nmea_bridge_zephyr.StatusLed
use esp_nmea_bridge_zephyr.TcpNmeaSession.{Shared, Turn, Outcome, run}

-- A descriptor, or a negated error number.
pub data Fd : Type 0 where
  opened : ℕ → Fd
  refused : Errno → Fd

-- What `connect_server` returns and does: the sockets that it closes, and those that it makes
-- non-blocking.
pub record Connected : Type 0 where
  pub result : Fd
  pub closed : List ℕ
  pub nonblocking : List ℕ

-- `connect_server`, with the answers of `zsock_socket` and `zsock_connect`.
pub connect_server : Fd → Status → Connected
connect_server (refused e) ret = record { result = refused e; closed = []; nonblocking = [] }
connect_server (opened fd) (err e) = record {
  result = refused e;
  closed = fd ∷ [];
  nonblocking = [];
}
connect_server (opened fd) ok = record { result = opened fd; closed = []; nonblocking = fd ∷ [] }

-- The answers of the Wi-Fi manager: `wifi_manager_sta_ready` and `wifi_manager_get_sta_gateway`.
pub record Poll : Type 0 where
  pub sta_ready : Bool
  pub gateway : Option ℕ

-- The host that is set, if it is an address; else the thread sleeps 30 seconds.
pton_host : Option ℕ → Option ℕ × ℕ
pton_host none = (none, 30)
pton_host (some host) = (some host, 0)

-- `get_tcp_nmea_server_host`, with the seconds that it sleeps. `setting` is
-- CONFIG_ESP_NMEA_BRIDGE_TCP_NMEA_CLIENT_HOST.
pub get_tcp_nmea_server_host : (List ℕ → Option ℕ) → List ℕ → Poll → Option ℕ × ℕ
unfolding pton_host
get_tcp_nmea_server_host pton [] p = (p.gateway, 0)
get_tcp_nmea_server_host pton (c ∷ cs) p =
    if p.sta_ready then pton_host (pton (c ∷ cs)) else (none, 0)

-- The `while` loop that waits for a host, with the seconds that it takes.
pub wait_for_host : (List ℕ → Option ℕ) → List ℕ → List Poll → ℕ → Option (ℕ × ℕ)
wait_for_host pton setting [] waited_s = none
wait_for_host pton setting (p ∷ ps) waited_s =
    let (host, slept_s) = get_tcp_nmea_server_host pton setting p in
    let rest = wait_for_host pton setting ps (waited_s + slept_s + 2) in
    elim host [ none ↦ rest | some h ↦ some (h, waited_s + slept_s) ]

-- What a round of the thread's loop meets.
pub record Round (Q : Type 0) : Type 0 where
  pub polls : List Poll
  pub socket : Fd
  pub connect : Status
  pub turns : List (Turn Q)

-- What rounds leave: the shared state, `backoff_s`, the seconds slept after each connection or
-- attempt, and the sockets that were closed.
pub record Progress (Q : Type 0) : Type 0 where
  pub shared : Shared Q
  pub backoff_s : ℕ
  pub slept_s : List ℕ
  pub closed : List ℕ

-- `MIN(backoff_s * 2, 30U)`
pub next_backoff : ℕ → ℕ
next_backoff backoff_s = min (u32 (backoff_s * 2)) 30

module _ {Q : Type 0} ⦃m : Msgq Frame Q⦄ (cfg : Config) where
  pub set_connecting : Shared Q → Bool → Shared Q
  set_connecting w on = record w { led = StatusLed.tcp_nmea_client_connecting cfg w.led on }

  -- The end of a round whose session has ended; `backoff_s` is 1 again.
  pub after_session : Option (Outcome Q) → Option (Progress Q)
  unfolding set_connecting next_backoff
  after_session none = none
  after_session (some o) = some (record {
    shared = set_connecting o.shared true;
    backoff_s = next_backoff 1;
    slept_s = 1 ∷ [];
    closed = o.closed;
  })

  -- The round from where `connect_server` returns; `w` is the state with the client connecting.
  pub after_connect : Shared Q → ℕ → List (Turn Q) → Connected → Fd → Option (Progress Q)
  unfolding after_session
  after_connect w backoff_s turns c (refused e) = some (record {
    shared = w;
    backoff_s = next_backoff backoff_s;
    slept_s = backoff_s ∷ [];
    closed = c.closed;
  })
  after_connect w backoff_s turns c (opened fd) =
      after_session (run cfg (set_connecting w false) fd (some "tcp-nmea-client") turns)

  -- A round, with the bytes of the setting.
  pub client_round : (List ℕ → Option ℕ) → List ℕ → Shared Q → ℕ → Round Q → Option (Progress Q)
  unfolding after_connect connect_server wait_for_host
  client_round pton setting w backoff_s r =
      let c = connect_server r.socket r.connect in
      elim (wait_for_host pton setting r.polls 0) [
        | none ↦ none
        | some _ ↦ after_connect (set_connecting w true) backoff_s r.turns c c.result
      ]

  pub and_then : Progress Q → Option (Progress Q) → Option (Progress Q)
  and_then x none = none
  and_then x (some y) = some (record {
    shared = y.shared;
    backoff_s = y.backoff_s;
    slept_s = x.slept_s ++ y.slept_s;
    closed = x.closed ++ y.closed;
  })

  -- `client_thread`, as far as the rounds go.
  pub client_rounds :
      (List ℕ → Option ℕ) → List ℕ → Shared Q → ℕ → List (Round Q) → Option (Progress Q)
  unfolding client_round and_then
  client_rounds pton setting w backoff_s [] =
      some (record { shared = w; backoff_s = backoff_s; slept_s = []; closed = [] })
  client_rounds pton setting w backoff_s (r ∷ rs) = elim (client_round pton setting w backoff_s r) [
    | none ↦ none
    | some x ↦ and_then x (client_rounds pton setting x.shared x.backoff_s rs)
  ]

-- `tcp_nmea_client_start`: the flag `started`, and whether the thread is created. It returns 0.
unfoldable pub client_start : Config → Bool → Bool × Bool
client_start cfg started =
    if cfg.tcp_nmea_client_enable
    then (if started then (true, false) else (true, true))
    else (started, false)
