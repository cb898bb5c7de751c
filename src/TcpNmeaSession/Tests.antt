-- ===== src/TcpNmeaSession/Tests.antt =====
-- Sessions on concrete inputs: runs of their functions, and the theorems applied.
use esp_nmea_bridge_zephyr.Base.{
  ℕ, zero, suc, subst, ◌≡◌, refl, inl, Bool, true, false, none, some, List, [], ◌∷◌, arith,
  get_elem?, ◌≤◌, replicate, All,
}
use esp_nmea_bridge_zephyr.Zephyr.{got, fault, eagain, eintr, econnreset, SockResult}
use esp_nmea_bridge_zephyr.Fixtures.{ListQueue, list_msgq, small, small-InRange}
use esp_nmea_bridge_zephyr.NmeaBridge.{Frame, SinkSlot, Bridge, no_bridge_stats, no_sink_stats}
use esp_nmea_bridge_zephyr.NmeaBridge.{init, init_slot, statics}
use esp_nmea_bridge_zephyr.NmeaBridge.Invariant.{init-IsValid}
use esp_nmea_bridge_zephyr.UartNmea.Framing.{Line, frames_of, skip_after}
use esp_nmea_bridge_zephyr.TcpNmeaSession.Visits.{Visit, Good, turns}
use esp_nmea_bridge_zephyr.TcpNmeaSession.Delivering.{RunDelivers, run-Delivers}
use esp_nmea_bridge_zephyr.NmeaBridge.Sinks.{first_free, sink_open, sink_take, sink_close}
use esp_nmea_bridge_zephyr.StatusLed
use esp_nmea_bridge_zephyr.StatusLedPolicy
use esp_nmea_bridge_zephyr.StatusLed.{StatusLed, not_started}
use esp_nmea_bridge_zephyr.StatusLedPolicy.{no_events}
use esp_nmea_bridge_zephyr.TcpNmeaSession.{
  Shared, Turn, Outcome, SessionResult, peer_closed, rx_failed, sink_unavailable, drain_socket_rx,
  retries, send_all, run, get_stats,
}
use esp_nmea_bridge_zephyr.TcpNmeaSession.Sending.{progress, send_all_lem}
use esp_nmea_bridge_zephyr.TcpNmeaSession.Counting.{Agrees, Holds}
use esp_nmea_bridge_zephyr.TcpNmeaSession.Running.{run-Agrees}

abbrev line : Frame
line = record { len = 5; bytes = 1 ∷ 2 ∷ 3 ∷ 4 ∷ 5 ∷ [] }

drain_socket_rx_ends :
    drain_socket_rx (got 128 ∷ got 7 ∷ fault econnreset ∷ []) ≡ some (some rx_failed)
unfolding drain_socket_rx
drain_socket_rx_ends = refl

drain_socket_rx_goes_on : drain_socket_rx (got 3 ∷ fault eagain ∷ []) ≡ some none
unfolding drain_socket_rx
drain_socket_rx_goes_on = refl

send_all_fails :
    send_all line (got 2 ∷ fault eintr ∷ got 1 ∷ fault econnreset ∷ [])
    ≡ some (true, 1 ∷ 2 ∷ 3 ∷ [])
unfolding send_all
send_all_fails = refl

send_all_lem_example :
    send_all line (got 2 ∷ fault eagain ∷ got 3 ∷ []) ≡ some (false, 1 ∷ 2 ∷ 3 ∷ 4 ∷ 5 ∷ [])
unfolding retries
send_all_lem_example =
    send_all_lem line (got 2 ∷ fault eagain ∷ got 3 ∷ []) refl (inl (omega arith))

abbrev slot : Bool → List Frame → SinkSlot ListQueue
slot active items = record {
  active = active;
  name = none;
  msgq = record { items = items; depth = 2 };
  stats = no_sink_stats;
}

abbrev bridge : List (SinkSlot ListQueue) → Bridge ListQueue
bridge sinks = record {
  ingest_msgq = record { items = []; depth = 3 };
  sinks = sinks;
  bridge_stats = no_bridge_stats;
}

abbrev led : ℕ → StatusLed
led sessions = record not_started {
  state = record no_events { active_tcp_nmea_sessions = sessions };
}

abbrev one_open : Shared ListQueue
one_open = record {
  bridge = bridge (slot true [] ∷ slot false [] ∷ slot false [] ∷ []);
  led = led 1;
  active_sessions = 1;
}

abbrev all_open : Shared ListQueue
all_open = record {
  bridge = bridge (slot true [] ∷ slot true [] ∷ slot true [] ∷ []);
  led = led 3;
  active_sessions = 3;
}

one_open-Agrees : Agrees small one_open
one_open-Agrees = record { sinks = refl; led = refl; slots = refl }

all_open-Agrees : Agrees small all_open
all_open-Agrees = record { sinks = refl; led = refl; slots = refl }

-- Nothing arrives during the wait.
abbrev quiet_turn : Turn ListQueue
quiet_turn = record {
  rx_before = fault eagain ∷ [];
  others = λ w. w;
  tx = [];
  uptime_ms = 0;
  rx_after = [];
}

-- The peer goes.
abbrev last_turn : Turn ListQueue
last_turn = record quiet_turn { rx_before = got 5 ∷ got 0 ∷ [] }

abbrev quiet_turns : List (Turn ListQueue)
quiet_turns = quiet_turn ∷ last_turn ∷ []

quiet_turns-kept :
    (i k : ℕ) (e : Turn ListQueue) (w : Shared ListQueue)
    → get_elem? quiet_turns k ≡ some e
    → Holds small i w
    → Holds small i (e.others w)
quiet_turns-kept i zero e w at h =
    let e' : quiet_turn ≡ e = cc in subst (λ t. Holds small i (t.others w)) e' h
quiet_turns-kept i (suc zero) e w at h =
    let e' : last_turn ≡ e = cc in subst (λ t. Holds small i (t.others w)) e' h
quiet_turns-kept i (suc (suc k)) e w at h = cc

abbrev quiet_outcome : Outcome ListQueue
quiet_outcome = record { result = peer_closed; shared = one_open; wire = []; closed = 4 ∷ [] }

run_ends : run small one_open 4 none quiet_turns ≡ some quiet_outcome
unfolding run sink_open first_free drain_socket_rx sink_take sink_close
    StatusLed.tcp_nmea_session_ended StatusLed.tcp_nmea_session_started
    StatusLedPolicy.tcp_nmea_session_ended StatusLedPolicy.tcp_nmea_session_started
run_ends = refl

run-Agrees_example : Agrees small quiet_outcome.shared × (quiet_outcome.closed ≡ 4 ∷ [])
run-Agrees_example =
    run-Agrees small one_open 4 none quiet_turns quiet_outcome small-InRange one_open-Agrees
      (λ i k b e s opens. quiet_turns-kept i k e s) run_ends

-- While the session waits, a frame arrives in its queue; it is sent in two parts, and then the
-- connection breaks.
abbrev busy_turn : Turn ListQueue
busy_turn = record quiet_turn {
  others =
      λ w. record w { bridge = bridge (slot true [] ∷ slot true (line ∷ []) ∷ slot false [] ∷ []) };
  tx = got 2 ∷ fault eintr ∷ got 3 ∷ [];
  rx_after = fault econnreset ∷ [];
}

run_sends :
    elim (run small one_open 4 none (quiet_turn ∷ busy_turn ∷ []))
      as (λ _. SessionResult × List ℕ) [
        | none ↦ (sink_unavailable, [])
        | some o ↦ (o.result, o.wire)
      ]
    ≡ (rx_failed, 1 ∷ 2 ∷ 3 ∷ 4 ∷ 5 ∷ [])
unfolding run sink_open first_free drain_socket_rx send_all retries sink_take
run_sends = refl

get_stats_runs : get_stats one_open (some 0) ≡ some 1
unfolding get_stats
get_stats_runs = refl

-- Two lines come in during the first wait, and none during the second.
abbrev short_line : ℕ → Line
short_line ch = record { body = (ch, 1) ∷ (ch, 2) ∷ []; end_ms = 3 }

abbrev bytewise : List SockResult
bytewise = fault eagain ∷ replicate 32 (got 1)

abbrev quiet_visit : Visit
quiet_visit = record {
  lines = [];
  rx_before = fault eagain ∷ [];
  tx = bytewise;
  uptime_ms = 5;
  rx_after = got 2 ∷ fault eagain ∷ [];
}

abbrev visits : List Visit
visits = record quiet_visit { lines = short_line 65 ∷ short_line 66 ∷ [] } ∷ quiet_visit ∷ []

abbrev booted : Shared ListQueue
booted = record {
  bridge = init small (statics small (record { items = []; depth = 0 }));
  led = not_started;
  active_sessions = 0;
}

visits-Good : All (Good small) visits
unfolding drain_socket_rx retries
visits-Good =
    let sends : 32 ≤ progress bytewise = omega arith in
    (
      record { whole = omega arith; before = refl; sends = sends; after = refl },
      (record { whole = tt; before = refl; sends = sends; after = refl }, tt),
    )

run-Delivers_example :
    RunDelivers small peer_closed
      ((65 ∷ 65 ∷ 10 ∷ []) ∷ (66 ∷ 66 ∷ 10 ∷ []) ∷ [])
      0
      4
      (run small booted 4 none (turns small false visits last_turn))
unfolding frames_of skip_after init init_slot statics drain_socket_rx
run-Delivers_example =
    run-Delivers small booted 4 none false visits last_turn peer_closed small-InRange
      (init-IsValid small (record { items = []; depth = 0 }) small-InRange) refl (omega arith)
      visits-Good (omega arith, omega arith, (omega arith, omega arith, tt)) refl
