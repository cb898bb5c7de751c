-- ===== src/StatusLedPolicy/Tests.antt =====
-- The policy on concrete inputs.
use esp_nmea_bridge_zephyr.Base.{ℕ, ◌+◌, ◌-◌, ◌^◌, ◌≡◌, refl, inl, inr, true, List, [], ◌∷◌, arith}
use esp_nmea_bridge_zephyr.StatusLedPolicy.{
  PolicyState, no_events, flash_active_until, connected, nmea_frame_received, nmea_frame_forwarded,
  nmea_send_failed, base_state, render_base, render_connecting, render,
}
use esp_nmea_bridge_zephyr.StatusLedPolicy.Pulse.{render_connecting_lem}
use esp_nmea_bridge_zephyr.StatusLedPolicy.Flash.{
  error_rgb, forwarded_rgb, activity_rgb, render_priority, render_base_again, render_stale_error,
}
use esp_nmea_bridge_zephyr.StatusLedPolicy.Sessions.{
  Event, started, ended, client_connecting, received, handle_all, base_state-handle_all,
}

pulse_runs :
    (render_connecting 0 ≡ record { r = 4; g = 2; b = 0 })
    × (render_connecting 1500 ≡ record { r = 16; g = 8; b = 0 })
    × (render_connecting 750 ≡ record { r = 10; g = 5; b = 0 })
unfolding render_connecting
pulse_runs = (refl, refl, refl)

render_connecting_lem_example : render_connecting 1250 ≡ record { r = 10; g = 5; b = 0 }
render_connecting_lem_example = render_connecting_lem 1250

-- Just before the clock wraps.
abbrev late_ms : ℕ
late_ms = 2 ^ 32 - 10

render_priority_example :
    (render (nmea_send_failed no_events late_ms) 40 ≡ error_rgb)
    × (render (nmea_frame_forwarded no_events late_ms) 40 ≡ forwarded_rgb)
    × (render (nmea_frame_received no_events late_ms) 40 ≡ activity_rgb)
unfolding flash_active_until
render_priority_example = render_priority no_events late_ms 50 (omega arith)

-- The receive flash of time 0 has run out at time 100, and the others were never lit.
abbrev received_once : PolicyState
received_once = record no_events {
  nmea_activity_flash_active = true;
  nmea_activity_flash_until_ms = 100;
}

render_base_again_example : render received_once 100 ≡ render_base (base_state received_once) 100
render_base_again_example =
    render_base_again received_once 100 (inl refl) (inl refl)
      (inr (0, 100, refl, refl, omega arith, omega arith))

render_stale_error_example : render (nmea_send_failed no_events 0) (2 ^ 31 + 100) ≡ error_rgb
render_stale_error_example =
    render_stale_error no_events 0 (2 ^ 31 + 100) (omega arith) (omega arith)

abbrev history : List Event
history = client_connecting true ∷ started ∷ received 5 ∷ started ∷ ended ∷ []

base_state-handle_all_example : base_state (handle_all no_events history) ≡ connected
base_state-handle_all_example = base_state-handle_all history (omega arith)
