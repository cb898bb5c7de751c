-- ===== src/StatusLedPolicy.antt =====
-- src/status_led_policy.h and src/status_led_policy.c: what the status LED shows. Times are uint32_t
-- milliseconds, a colour is three bytes, and a function that updates `*state` returns the new state.
pub mod Pulse
pub mod Flash
pub mod Sessions
mod Tests
use esp_nmea_bridge_zephyr.Base.{
  ℕ, ◌+◌, ◌-◌, ◌*◌, ◌/◌, ◌%◌, Bool, true, false, ◌&&◌, if◌then◌else◌, ltb, u8, u16, u32, sub32,
  is_negative32,
}

abbrev pub disconnected_red : ℕ
disconnected_red = 16

abbrev pub connecting_period_ms : ℕ
connecting_period_ms = 1000

abbrev pub connecting_red_min : ℕ
connecting_red_min = 4

abbrev pub connecting_green_min : ℕ
connecting_green_min = 2

abbrev pub connecting_red_max : ℕ
connecting_red_max = 16

abbrev pub connecting_green_max : ℕ
connecting_green_max = 8

abbrev pub connected_green : ℕ
connected_green = 16

abbrev pub nmea_activity_flash_ms : ℕ
nmea_activity_flash_ms = 100

abbrev pub nmea_activity_blue : ℕ
nmea_activity_blue = 16

abbrev pub nmea_forwarded_white : ℕ
nmea_forwarded_white = 24

abbrev pub nmea_error_red : ℕ
nmea_error_red = 24

-- `struct status_led_rgb`
pub record Rgb : Type 0 where
  pub r : ℕ
  pub g : ℕ
  pub b : ℕ

-- `enum status_led_base_state`
pub data BaseState : Type 0 where
  disconnected connecting connected : BaseState

-- `struct status_led_policy_state`
pub record PolicyState : Type 0 where
  pub active_tcp_nmea_sessions : ℕ
  pub outbound_tcp_nmea_client_connecting : Bool
  pub nmea_activity_flash_active : Bool
  pub nmea_forwarded_flash_active : Bool
  pub nmea_error_flash_active : Bool
  pub nmea_activity_flash_until_ms : ℕ
  pub nmea_forwarded_flash_until_ms : ℕ
  pub nmea_error_flash_until_ms : ℕ

-- The static variable of status_led.c before the first event.
abbrev pub no_events : PolicyState
no_events = record {
  active_tcp_nmea_sessions = 0;
  outbound_tcp_nmea_client_connecting = false;
  nmea_activity_flash_active = false;
  nmea_forwarded_flash_active = false;
  nmea_error_flash_active = false;
  nmea_activity_flash_until_ms = 0;
  nmea_forwarded_flash_until_ms = 0;
  nmea_error_flash_until_ms = 0;
}

unfoldable pub flash_active_until : Bool → ℕ → ℕ → Bool
flash_active_until active now_ms until_ms = active && is_negative32 (sub32 now_ms until_ms)

unfoldable pub tcp_nmea_session_started : PolicyState → PolicyState
tcp_nmea_session_started s = record s {
  active_tcp_nmea_sessions = u16 (s.active_tcp_nmea_sessions + 1);
}

unfoldable pub tcp_nmea_session_ended : PolicyState → PolicyState
tcp_nmea_session_ended s =
    if ltb 0 s.active_tcp_nmea_sessions
    then record s { active_tcp_nmea_sessions = s.active_tcp_nmea_sessions - 1 }
    else s

unfoldable pub tcp_nmea_client_connecting : PolicyState → Bool → PolicyState
tcp_nmea_client_connecting s is_connecting = record s {
  outbound_tcp_nmea_client_connecting = is_connecting;
}

unfoldable pub nmea_frame_received : PolicyState → ℕ → PolicyState
nmea_frame_received s now_ms = record s {
  nmea_activity_flash_active = true;
  nmea_activity_flash_until_ms = u32 (now_ms + nmea_activity_flash_ms);
}

unfoldable pub nmea_frame_forwarded : PolicyState → ℕ → PolicyState
nmea_frame_forwarded s now_ms = record s {
  nmea_forwarded_flash_active = true;
  nmea_forwarded_flash_until_ms = u32 (now_ms + nmea_activity_flash_ms);
}

unfoldable pub nmea_send_failed : PolicyState → ℕ → PolicyState
nmea_send_failed s now_ms = record s {
  nmea_error_flash_active = true;
  nmea_error_flash_until_ms = u32 (now_ms + nmea_activity_flash_ms);
}

unfoldable pub base_state : PolicyState → BaseState
base_state s =
    if ltb 0 s.active_tcp_nmea_sessions
    then connected
    else if s.outbound_tcp_nmea_client_connecting
    then connecting
    else disconnected

unfoldable pub render_disconnected : ℕ → Rgb
render_disconnected elapsed_ms = record { r = disconnected_red; g = 0; b = 0 }

-- The additions of `uint8_t` and `unsigned int` are stored in a byte.
unfoldable pub render_connecting : ℕ → Rgb
render_connecting elapsed_ms =
    let half_period_ms : ℕ = connecting_period_ms / 2 in
    let phase_ms : ℕ = elapsed_ms % connecting_period_ms in
    let ramp_ms : ℕ =
      if ltb half_period_ms phase_ms then connecting_period_ms - phase_ms else phase_ms in
    let red_range : ℕ = connecting_red_max - connecting_red_min in
    let green_range : ℕ = connecting_green_max - connecting_green_min in
    record {
      r = u8 (connecting_red_min + u8 (u32 (red_range * ramp_ms) / half_period_ms));
      g = u8 (connecting_green_min + u8 (u32 (green_range * ramp_ms) / half_period_ms));
      b = 0;
    }

unfoldable pub render_base : BaseState → ℕ → Rgb
render_base connected elapsed_ms = record { r = 0; g = connected_green; b = 0 }
render_base connecting elapsed_ms = render_connecting elapsed_ms
render_base disconnected elapsed_ms = render_disconnected elapsed_ms

unfoldable pub render : PolicyState → ℕ → Rgb
render s elapsed_ms =
    if flash_active_until s.nmea_error_flash_active elapsed_ms s.nmea_error_flash_until_ms
    then record { r = nmea_error_red; g = 0; b = 0 }
    else if flash_active_until s.nmea_forwarded_flash_active elapsed_ms
        s.nmea_forwarded_flash_until_ms
    then record { r = nmea_forwarded_white; g = nmea_forwarded_white; b = nmea_forwarded_white }
    else if flash_active_until s.nmea_activity_flash_active elapsed_ms
        s.nmea_activity_flash_until_ms
    then record { r = 0; g = 0; b = nmea_activity_blue }
    else render_base (base_state s) elapsed_ms
