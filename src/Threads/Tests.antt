-- ===== src/Threads/Tests.antt =====
-- The threads on concrete inputs: a run from boot, and the theorems applied to it.
use esp_nmea_bridge_zephyr.Base.{
  ℕ, zero, suc, arith, subst, get_elem?, set, map, ◌≢◌, ◌⊎◌, inl, inr, Bool, Option, if◌then◌else◌,
  ◌≤◌, ◌≡◌, refl, true, false, none, some, List, [], ◌∷◌,
}
use esp_nmea_bridge_zephyr.Zephyr.{got, fault, eagain, ok}
use esp_nmea_bridge_zephyr.Fixtures.{ListQueue, list_msgq, small, small-InRange}
use esp_nmea_bridge_zephyr.NmeaBridge.{SinkSlot, Bridge, init, init_slot, statics}
use esp_nmea_bridge_zephyr.NmeaBridge.Invariant.{IsValid}
use esp_nmea_bridge_zephyr.NmeaBridge.Opens.{actives}
use esp_nmea_bridge_zephyr.NmeaBridge.Slots.{count_active}
use esp_nmea_bridge_zephyr.NmeaBridge.Sinks.{
  sink_close, sink_take, take_id, take_slot, consume, close_id, claim, vacate, sink_open,
  first_free,
}
use esp_nmea_bridge_zephyr.StatusLed
use esp_nmea_bridge_zephyr.TcpNmeaSession.Counting.{led_count}
use esp_nmea_bridge_zephyr.Threads.{
  Phase, opened, counted, running, dimmed, leaving, World, with_bridge, with_led, at_phase, boot,
  open_sink, count_session, light, dim, uncount, close_sink, Reach, here, next,
}
use esp_nmea_bridge_zephyr.TcpNmeaSession.{
  Shared, Turn, Outcome, peer_closed, drain_socket_rx, started, finish, run,
}
use esp_nmea_bridge_zephyr.Threads.Course.{Others, rest, more, begun, Session}
use esp_nmea_bridge_zephyr.Threads.Sessions.{run-Session}
use esp_nmea_bridge_zephyr.StatusLedPolicy
use esp_nmea_bridge_zephyr.TcpNmeaServer.{
  accept_client, alloc_client, set_fd, clear_fd, server_start, server_statics,
}
use esp_nmea_bridge_zephyr.Threads.Owners
use esp_nmea_bridge_zephyr.Threads.Owners.{Program, idle, starting, has_sink}
use esp_nmea_bridge_zephyr.Threads.Enough.{sessions-sink_open}
use esp_nmea_bridge_zephyr.Threads.Holders.{is_held}
use esp_nmea_bridge_zephyr.Threads.Reachable.{boot-Inv, Reach-Inv, Reach-boot}

abbrev raw : ListQueue
raw = record { items = []; depth = 0 }

-- A session has opened the first sink, and a second one the next.
abbrev first_open : World ListQueue
first_open =
    let w = boot small raw in
    at_phase
      (with_bridge w (sink_open w.shared.bridge (some (record { id = none })) (some "client")).2) 0
      (some opened)

abbrev both_open : World ListQueue
both_open =
    at_phase
      (with_bridge first_open
        (sink_open first_open.shared.bridge (some (record { id = none })) (some "server")).2)
      1 (some opened)

-- The second is counted, and then in its loop.
abbrev one_counted : World ListQueue
one_counted =
    at_phase (record both_open { shared = record both_open.shared { active_sessions = 1 } }) 1
      (some counted)

abbrev one_lit : World ListQueue
one_lit =
    at_phase
      (with_led one_counted (StatusLed.tcp_nmea_session_started small one_counted.shared.led)) 1
      (some running)

first_opened : Reach small (boot small raw) first_open
unfolding sink_open first_free init statics init_slot
first_opened = next here (open_sink _ (some "client") 0 _ refl)

both_opened : Reach small (boot small raw) both_open
unfolding sink_open first_free init statics init_slot
both_opened = next first_opened (open_sink _ (some "server") 1 _ refl)

one_is_lit : Reach small (boot small raw) one_lit
one_is_lit = next (next both_opened (count_session _ 1 refl)) (light _ 1 refl)

Reach-boot_example :
    IsValid small one_lit.shared.bridge
    × (actives one_lit.shared.bridge.sinks ≡ true ∷ true ∷ false ∷ [])
    × (one_lit.shared.active_sessions ≡ 1)
    × (led_count small one_lit.shared.led 1 ≡ 1)
    × (1 ≤ one_lit.shared.active_sessions)
    × (one_lit.shared.active_sessions ≤ count_active one_lit.shared.bridge.sinks)
    × (count_active one_lit.shared.bridge.sinks ≤ 3)
Reach-boot_example = Reach-boot small small-InRange raw one_lit one_is_lit

-- The first session is at its end, but for closing its sink.
abbrev one_running : World ListQueue
one_running =
    let w =
      at_phase (record first_open { shared = record first_open.shared { active_sessions = 1 } }) 0
        (some counted) in
    at_phase (with_led w (StatusLed.tcp_nmea_session_started small w.shared.led)) 0 (some running)

abbrev one_leaving : World ListQueue
one_leaving =
    let w =
      at_phase
        (with_led one_running (StatusLed.tcp_nmea_session_ended small one_running.shared.led)) 0
        (some dimmed) in
    at_phase (record w { shared = record w.shared { active_sessions = 0 } }) 0 (some leaving)

one_is_leaving : Reach small (boot small raw) one_leaving
one_is_leaving =
    next (next (next (next first_opened (count_session _ 0 refl)) (light _ 0 refl)) (dim _ 0 refl))
      (uncount _ 0 refl)

abbrev first_active : List (SinkSlot ListQueue) → Bool
first_active [] = false
first_active (s ∷ sinks) = s.active

-- It closes its sink while another session waits, whose peer then goes.
abbrev close_first : Shared ListQueue → Shared ListQueue
close_first s =
    if first_active s.bridge.sinks
    then record s { bridge = (sink_close s.bridge (some (record { id = some 0 }))).1 }
    else s

abbrev closing_turn : Turn ListQueue
closing_turn = record {
  rx_before = fault eagain ∷ [];
  others = close_first;
  tx = [];
  uptime_ms = 0;
  rx_after = [];
}

abbrev last_turn : Turn ListQueue
last_turn = record closing_turn { rx_before = got 0 ∷ [] }

abbrev session_turns : List (Turn ListQueue)
session_turns = closing_turn ∷ last_turn ∷ []

-- The first session is about to close its sink, or gone.
abbrev leaves : List (Option Phase) → Bool
leaves [] = false
leaves (none ∷ xs) = true
leaves (some leaving ∷ xs) = true
leaves (some opened ∷ xs) = false
leaves (some counted ∷ xs) = false
leaves (some running ∷ xs) = false
leaves (some dimmed ∷ xs) = false

Leaving : List (Option Phase) → Type 0
Leaving xs = leaves xs ≡ true

first_leaves :
    (sinks : List (SinkSlot ListQueue)) (xs : List (Option Phase))
    → actives sinks ≡ map is_held xs
    → leaves xs ≡ true
    → (first_active sinks ≡ true) × (get_elem? xs 0 ≡ some (some leaving))
      ⊎ (first_active sinks ≡ false)
first_leaves [] xs h l = inr refl
first_leaves (s ∷ sinks) [] h l = cc
first_leaves (s ∷ sinks) (none ∷ xs) h l = inr (ground (arith, is_held))
first_leaves (s ∷ sinks) (some leaving ∷ xs) h l = inl (ground (arith, is_held), refl)
first_leaves (s ∷ sinks) (some opened ∷ xs) h l = cc
first_leaves (s ∷ sinks) (some counted ∷ xs) h l = cc
first_leaves (s ∷ sinks) (some running ∷ xs) h l = cc
first_leaves (s ∷ sinks) (some dimmed ∷ xs) h l = cc

has_left :
    (xs : List (Option Phase))
    → get_elem? xs 0 ≡ some (some leaving)
    → leaves (set xs 0 none) ≡ true
has_left [] e = cc
has_left (x ∷ xs) e = refl

not_first :
    (i : ℕ) (xs : List (Option Phase))
    → get_elem? xs i ≡ some (some running)
    → leaves xs ≡ true
    → some 0 ≢ some i
not_first i [] e l = cc
not_first zero (none ∷ xs) e l = cc
not_first zero (some leaving ∷ xs) e l = cc
not_first zero (some opened ∷ xs) e l = cc
not_first zero (some counted ∷ xs) e l = cc
not_first zero (some running ∷ xs) e l = cc
not_first zero (some dimmed ∷ xs) e l = cc
not_first (suc i) (x ∷ xs) e l = λ h. cc

abbrev GoesOn : ℕ → Turn ListQueue → World ListQueue → Type 0
GoesOn i e w =
    (w' : World ListQueue) × Others small i w w'
    × Leaving w'.holders
    × (w'.shared ≡ e.others w.shared)

closes :
    (i : ℕ) (w : World ListQueue)
    → Reach small one_leaving w
    → get_elem? w.holders i ≡ some (some running)
    → Leaving w.holders
    → GoesOn i closing_turn w
unfolding Leaving
closes i w path at l =
    let inv = Reach-Inv small small-InRange _ w path (
      Reach-Inv small small-InRange _ one_leaving one_is_leaving
        (boot-Inv small small-InRange raw)) in
    elim (first_leaves w.shared.bridge.sinks w.holders inv.owned l) [
      | inl (on, at_0) ↦ (
        at_phase (with_bridge w (sink_close w.shared.bridge (some (record { id = some 0 }))).1) 0
            none,
        more rest (close_sink w 0 at_0) (not_first i w.holders at l),
        has_left w.holders at_0,
        rw on refl,
      )
      | inr off ↦ (w, rest, l, rw off refl)
    ]

session_turns-others :
    (i k : ℕ) (e : Turn ListQueue) (w : World ListQueue)
    → get_elem? session_turns k ≡ some e
    → GoesOn i closing_turn w
    → GoesOn i e w
session_turns-others i zero e w at_k goes =
    let e' : closing_turn ≡ e = cc in subst (λ t. GoesOn i t w) e' goes
session_turns-others i (suc zero) e w at_k goes =
    let e' : last_turn ≡ e = cc in subst (λ t. GoesOn i t w) e' goes
session_turns-others i (suc (suc k)) e w at_k goes = cc

-- Both sinks are free again.
abbrev session_outcome : Outcome ListQueue
session_outcome = record {
  result = peer_closed;
  shared = record one_leaving.shared { bridge = (boot small raw).shared.bridge };
  wire = [];
  closed = 4 ∷ [];
}

session_runs : run small one_leaving.shared 4 (some "server") session_turns ≡ some session_outcome
unfolding run started finish sink_open sink_close sink_take take_id take_slot consume close_id claim
    vacate first_free init statics init_slot drain_socket_rx StatusLed.tcp_nmea_client_connecting
    StatusLed.tcp_nmea_session_started StatusLed.tcp_nmea_session_ended
    StatusLedPolicy.tcp_nmea_session_started StatusLedPolicy.tcp_nmea_session_ended
    StatusLedPolicy.tcp_nmea_client_connecting
session_runs = refl

session_begins :
    (i : ℕ) (b : Bridge ListQueue)
    → sink_open one_leaving.shared.bridge (some (record { id = none })) (some "server")
      ≡ (ok, some (record { id = some i }), b)
    → Leaving (begun small one_leaving i b).holders
unfolding Leaving sink_open first_free init statics init_slot claim
session_begins zero b e = cc
session_begins (suc i) b e = refl

run-Session_example :
    ((w : World ListQueue) × Session small (some "server") one_leaving w
      × (w.shared ≡ session_outcome.shared))
    × (session_outcome.closed ≡ 4 ∷ [])
run-Session_example =
    run-Session small raw one_leaving 4 (some "server") session_turns session_outcome Leaving
      small-InRange one_is_leaving session_begins
      (λ i k b e w opens at_k path at_i l.
        session_turns-others i k e w at_k (closes i w path at_i l))
      session_runs

-- The client's session has a sink, and a connection to the server has been given a slot.
abbrev client_open : Program ListQueue
client_open = record (Owners.start small raw) { world = first_open; client_stage = has_sink 0 }

abbrev both_started : Program ListQueue
both_started = record client_open {
  clients = record { fd = some 7; active = true } ∷ record { fd = none; active = false } ∷ [];
  stages = starting ∷ idle ∷ [];
}

both_are_started : Owners.Run small (Owners.start small raw) both_started
unfolding accept_client alloc_client set_fd clear_fd server_start server_statics sink_open
    first_free init statics init_slot
both_are_started =
    Owners.next
      (Owners.next (Owners.next Owners.here (Owners.connect _ refl refl))
        (Owners.open_sink _ none (some "client") 0 _ refl refl))
      (Owners.accept _ 7 0 _ [] refl refl)

sessions-sink_open_example :
    (sink_open both_started.world.shared.bridge (some (record { id = none })) (some "server")).0
    ≡ ok
sessions-sink_open_example =
    sessions-sink_open small small-InRange raw both_started (some 0) (some "server")
      both_are_started refl
