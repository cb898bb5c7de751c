-- ===== src/TcpNmeaClient/Tests.antt =====
-- The client on concrete inputs: runs of its functions, and the theorems applied.
use esp_nmea_bridge_zephyr.Base.{
  ℕ, zero, suc, subst, ◌≡◌, refl, Bool, true, false, Option, none, some, List, [], ◌∷◌, get_elem?,
}
use esp_nmea_bridge_zephyr.Zephyr.{ok, err, got, econnreset}
use esp_nmea_bridge_zephyr.Fixtures.{ListQueue, list_msgq, small, small-InRange}
use esp_nmea_bridge_zephyr.NmeaBridge.{SinkSlot, no_bridge_stats, no_sink_stats}
use esp_nmea_bridge_zephyr.NmeaBridge.Sinks.{first_free, sink_open, sink_close}
use esp_nmea_bridge_zephyr.StatusLed
use esp_nmea_bridge_zephyr.StatusLed.{not_started}
use esp_nmea_bridge_zephyr.StatusLedPolicy
use esp_nmea_bridge_zephyr.StatusLedPolicy.{no_events}
use esp_nmea_bridge_zephyr.TcpNmeaSession.{Shared, Turn, drain_socket_rx, run}
use esp_nmea_bridge_zephyr.TcpNmeaSession.Counting.{Agrees, Holds}
use esp_nmea_bridge_zephyr.TcpNmeaClient.{
  opened, Poll, Round, Progress, get_tcp_nmea_server_host, client_round, client_rounds,
  client_start,
}
use esp_nmea_bridge_zephyr.TcpNmeaClient.Backoff.{client_rounds-waits}
use esp_nmea_bridge_zephyr.TcpNmeaClient.Rounds.{Kept, client_round-Kept}

abbrev pton : List ℕ → Option ℕ
pton (c ∷ []) = some c
pton _ = none

invalid_host_sleeps :
    get_tcp_nmea_server_host pton (1 ∷ 2 ∷ []) (record { sta_ready = true; gateway = some 7 })
    ≡ (none, 30)
unfolding get_tcp_nmea_server_host
invalid_host_sleeps = refl

abbrev slot : SinkSlot ListQueue
slot = record {
  active = false;
  name = none;
  msgq = record { items = []; depth = 2 };
  stats = no_sink_stats;
}

-- No session, with the client connecting or not.
abbrev idle : Bool → Shared ListQueue
idle on = record {
  bridge = record {
    ingest_msgq = record { items = []; depth = 3 };
    sinks = slot ∷ slot ∷ slot ∷ [];
    bridge_stats = no_bridge_stats;
  };
  led = record not_started {
    state = record no_events { outbound_tcp_nmea_client_connecting = on };
  };
  active_sessions = 0;
}

idle-Agrees : Agrees small (idle false)
idle-Agrees = record { sinks = refl; led = refl; slots = refl }

-- The peer goes at once.
abbrev last_turn : Turn ListQueue
last_turn = record {
  rx_before = got 0 ∷ [];
  others = λ w. w;
  tx = [];
  uptime_ms = 0;
  rx_after = [];
}

last_turn-kept :
    (i k : ℕ) (e : Turn ListQueue) (w : Shared ListQueue)
    → get_elem? (last_turn ∷ []) k ≡ some e
    → Holds small i w
    → Holds small i (e.others w)
last_turn-kept i zero e w at h =
    let e' : last_turn ≡ e = cc in subst (λ t. Holds small i (t.others w)) e' h
last_turn-kept i (suc k) e w at h = cc

-- The gateway is there at the second look.
abbrev polls : List Poll
polls =
    record { sta_ready = false; gateway = none }
    ∷ record { sta_ready = true; gateway = some 7 }
    ∷ []

abbrev served : Round ListQueue
served = record { polls = polls; socket = opened 5; connect = ok; turns = last_turn ∷ [] }

abbrev failed : Round ListQueue
failed = record { polls = polls; socket = opened 6; connect = err econnreset; turns = [] }

abbrev after_served : Progress ListQueue
after_served = record { shared = idle true; backoff_s = 2; slept_s = 1 ∷ []; closed = 5 ∷ [] }

served_runs : client_round small pton [] (idle false) 8 served ≡ some after_served
unfolding client_round get_tcp_nmea_server_host run sink_open first_free sink_close drain_socket_rx
    StatusLed.tcp_nmea_client_connecting StatusLed.tcp_nmea_session_started
    StatusLed.tcp_nmea_session_ended StatusLedPolicy.tcp_nmea_client_connecting
    StatusLedPolicy.tcp_nmea_session_started StatusLedPolicy.tcp_nmea_session_ended
served_runs = refl

client_round-Kept_example : Kept small (5 ∷ []) after_served
client_round-Kept_example =
    client_round-Kept small pton [] (idle false) 8 served after_served small-InRange idle-Agrees
      (λ i k b e s opens. last_turn-kept i k e s) served_runs

abbrev after_all : Progress ListQueue
after_all = record {
  shared = idle true;
  backoff_s = 4;
  slept_s = 1 ∷ 2 ∷ 1 ∷ 2 ∷ [];
  closed = 6 ∷ 6 ∷ 5 ∷ 6 ∷ [];
}

rounds_run :
    client_rounds small pton [] (idle false) 1 (failed ∷ failed ∷ served ∷ failed ∷ [])
    ≡ some after_all
unfolding client_rounds get_tcp_nmea_server_host run sink_open first_free sink_close drain_socket_rx
    StatusLed.tcp_nmea_client_connecting StatusLed.tcp_nmea_session_started
    StatusLed.tcp_nmea_session_ended StatusLedPolicy.tcp_nmea_client_connecting
    StatusLedPolicy.tcp_nmea_session_started StatusLedPolicy.tcp_nmea_session_ended
rounds_run = refl

client_rounds-waits_example : after_all.slept_s ≡ 1 ∷ 2 ∷ 1 ∷ 2 ∷ []
client_rounds-waits_example =
    client_rounds-waits small pton [] (idle false) (failed ∷ failed ∷ served ∷ failed ∷ [])
      after_all rounds_run

client_start_runs : client_start small false ≡ (true, true)
unfolding client_start
client_start_runs = refl
