-- ===== src/StatusLedPolicy/Sessions.antt =====
-- The base state over a history of events.
use esp_nmea_bridge_zephyr.Base.{
  ℕ, ◌+◌, ◌-◌, ◌^◌, ◌<◌, ◌≡◌, refl, Bool, false, List, [], ◌∷◌, arith, ltb, if◌then◌else◌,
}
use esp_nmea_bridge_zephyr.StatusLedPolicy.{
  PolicyState, no_events, disconnected, connecting, connected, tcp_nmea_session_started,
  tcp_nmea_session_ended, tcp_nmea_client_connecting, nmea_frame_received, nmea_frame_forwarded,
  nmea_send_failed, base_state,
}

pub data Event : Type 0 where
  started ended : Event
  client_connecting : Bool → Event
  received forwarded failed : ℕ → Event

pub handle : PolicyState → Event → PolicyState
handle s started = tcp_nmea_session_started s
handle s ended = tcp_nmea_session_ended s
handle s (client_connecting on) = tcp_nmea_client_connecting s on
handle s (received now_ms) = nmea_frame_received s now_ms
handle s (forwarded now_ms) = nmea_frame_forwarded s now_ms
handle s (failed now_ms) = nmea_send_failed s now_ms

pub handle_all : PolicyState → List Event → PolicyState
handle_all s [] = s
handle_all s (e ∷ es) = handle_all (handle s e) es

abbrev pub starts : List Event → ℕ
starts [] = 0
starts (started ∷ es) = 1 + starts es
starts (_ ∷ es) = starts es

abbrev pub ends : List Event → ℕ
ends [] = 0
ends (ended ∷ es) = 1 + ends es
ends (_ ∷ es) = ends es

-- What the last event about the outbound client says.
abbrev pub last_connecting : Bool → List Event → Bool
last_connecting on [] = on
last_connecting on (client_connecting on' ∷ es) = last_connecting on' es
last_connecting on (_ ∷ es) = last_connecting on es

-- From `n` open sessions on, none ends that is not open, and there are never 2^16.
abbrev pub Balanced : ℕ → List Event → Type 0
Balanced n [] = Unit
Balanced n (started ∷ es) = (n + 1 < 2 ^ 16) × Balanced (n + 1) es
Balanced n (ended ∷ es) = (0 < n) × Balanced (n - 1) es
Balanced n (_ ∷ es) = Balanced n es

sessions-handle_all :
    (es : List Event) (s : PolicyState) (n : ℕ)
    → s.active_tcp_nmea_sessions ≡ n
    → Balanced n es
    → let s' = handle_all s es in
      (s'.active_tcp_nmea_sessions + ends es ≡ n + starts es)
      × (s'.outbound_tcp_nmea_client_connecting
          ≡ last_connecting s.outbound_tcp_nmea_client_connecting es)
unfolding handle_all handle tcp_nmea_session_started tcp_nmea_session_ended
    tcp_nmea_client_connecting nmea_frame_received nmea_frame_forwarded nmea_send_failed
sessions-handle_all [] s n e b = (omega arith, refl)
sessions-handle_all (started ∷ es) s n e b =
    ground (arith, sessions-handle_all es (tcp_nmea_session_started s) (n + 1) (ground arith) b.1)
sessions-handle_all (ended ∷ es) s n e b =
    ground (arith, sessions-handle_all es (tcp_nmea_session_ended s) (n - 1) (ground arith) b.1)
sessions-handle_all (client_connecting on ∷ es) s n e b =
    ground (arith, sessions-handle_all es (tcp_nmea_client_connecting s on) n (ground arith) b)
sessions-handle_all (received now_ms ∷ es) s n e b =
    ground (arith, sessions-handle_all es (nmea_frame_received s now_ms) n (ground arith) b)
sessions-handle_all (forwarded now_ms ∷ es) s n e b =
    ground (arith, sessions-handle_all es (nmea_frame_forwarded s now_ms) n (ground arith) b)
sessions-handle_all (failed now_ms ∷ es) s n e b =
    ground (arith, sessions-handle_all es (nmea_send_failed s now_ms) n (ground arith) b)

-- Over any history in which no session ends that is not open, and fewer than 2^16 are open at a
-- time, the base state is connected exactly while more sessions have started than ended, and else
-- connecting or disconnected as the last report of the outbound client says. Flashes change none
-- of it.
pub base_state-handle_all :
    (es : List Event)
    → Balanced 0 es
    → base_state (handle_all no_events es) ≡ (
        if ltb (ends es) (starts es)
        then connected
        else if last_connecting false es
        then connecting
        else disconnected)
unfolding base_state
base_state-handle_all es b = ground (arith, sessions-handle_all es no_events 0 refl b)
