-- ===== src/StatusLed.antt =====
-- src/status_led.h and src/status_led.c: the observer that keeps the LED at the colour of the
-- policy. Every region under `status_led_lock` is one step. Uptimes, int64_t and never negative,
-- are numbers; `led_strip_update_rgb` answers with a status, which each round is given.
pub mod Retry
pub mod Strip
mod Tests
use esp_nmea_bridge_zephyr.Base.{
  ℕ, zero, suc, ◌+◌, ◌-◌, ◌*◌, Bool, true, false, not, ◌&&◌, ◌||◌, Option, none, some,
  if◌then◌else◌, ltb, leb, ◌==◌, u8, u32, sub64,
}
use esp_nmea_bridge_zephyr.Zephyr.{Status, ok, err}
use esp_nmea_bridge_zephyr.Config.{Config}
use esp_nmea_bridge_zephyr.StatusLedPolicy
use esp_nmea_bridge_zephyr.StatusLedPolicy.{Rgb, PolicyState, no_events}

abbrev pub retry_initial_ms : ℕ
retry_initial_ms = 1000

abbrev pub retry_max_ms : ℕ
retry_max_ms = 5000

-- The static variables `status_led_running`, `status_led_started_ms` and `status_led_state`.
pub record StatusLed : Type 0 where
  pub running : Bool
  pub started_ms : ℕ
  pub state : PolicyState

abbrev pub not_started : StatusLed
not_started = record { running = false; started_ms = 0; state = no_events }

-- `(uint32_t)(k_uptime_get() - status_led_started_ms)`
unfoldable pub elapsed : StatusLed → ℕ → ℕ
elapsed led uptime_ms = u32 (sub64 uptime_ms led.started_ms)

-- What the rest of the program calls. Without the option in `cfg` each is an empty inline function.
module _ (cfg : Config) where
  on_state : (PolicyState → PolicyState) → StatusLed → StatusLed
  on_state f led = if cfg.status_led_enable then record led { state = f led.state } else led

  unfoldable pub tcp_nmea_session_started : StatusLed → StatusLed
  unfolding on_state
  tcp_nmea_session_started led = on_state StatusLedPolicy.tcp_nmea_session_started led

  unfoldable pub tcp_nmea_session_ended : StatusLed → StatusLed
  unfolding on_state
  tcp_nmea_session_ended led = on_state StatusLedPolicy.tcp_nmea_session_ended led

  unfoldable pub tcp_nmea_client_connecting : StatusLed → Bool → StatusLed
  unfolding on_state
  tcp_nmea_client_connecting led is_connecting =
      on_state (λ s. StatusLedPolicy.tcp_nmea_client_connecting s is_connecting) led

  unfoldable pub nmea_frame_received : StatusLed → ℕ → StatusLed
  unfolding on_state
  nmea_frame_received led uptime_ms =
      on_state (λ s. StatusLedPolicy.nmea_frame_received s (elapsed led uptime_ms)) led

  unfoldable pub nmea_frame_forwarded : StatusLed → ℕ → StatusLed
  unfolding on_state
  nmea_frame_forwarded led uptime_ms =
      on_state (λ s. StatusLedPolicy.nmea_frame_forwarded s (elapsed led uptime_ms)) led

  unfoldable pub nmea_send_failed : StatusLed → ℕ → StatusLed
  unfolding on_state
  nmea_send_failed led uptime_ms =
      on_state (λ s. StatusLedPolicy.nmea_send_failed s (elapsed led uptime_ms)) led

-- `status_led_start`: the new state, and whether the thread is created. It always returns 0.
unfoldable pub start : StatusLed → Bool → Bool → ℕ → StatusLed × Bool
start led has_strip strip_ready uptime_ms =
    if led.running
    then (led, false)
    else if not has_strip
    then (led, false)
    else if not strip_ready
    then (led, false)
    else (record led { started_ms = uptime_ms; running = true }, true)

pub rgb_equal : Rgb → Rgb → Bool
rgb_equal a b = a.r == b.r && a.g == b.g && a.b == b.b

-- The `while` loop of `status_led_retry_delay_ms`.
retry_loop : ℕ → ℕ → ℕ
retry_loop zero delay_ms = delay_ms
retry_loop (suc zero) delay_ms = delay_ms
retry_loop (suc (suc n)) delay_ms =
    if ltb delay_ms retry_max_ms then retry_loop (suc n) (u32 (delay_ms * 2)) else delay_ms

pub retry_delay_ms : ℕ → ℕ
unfolding retry_loop
retry_delay_ms failed_attempts =
    let delay_ms = retry_loop failed_attempts retry_initial_ms in
    if ltb retry_max_ms delay_ms then retry_max_ms else delay_ms

-- The variables of `status_led_thread`.
pub record Observer : Type 0 where
  pub next_retry_ms : ℕ
  pub failed_attempts : ℕ
  pub has_applied_rgb : Bool
  pub applied_rgb : Rgb

abbrev pub fresh_observer : Observer
fresh_observer = record {
  next_retry_ms = 0;
  failed_attempts = 0;
  has_applied_rgb = false;
  applied_rgb = record { r = 0; g = 0; b = 0 };
}

-- Whether a round sends a pixel to the strip.
pub is_due : Observer → ℕ → Rgb → Bool
is_due o now_ms rendered =
    (not o.has_applied_rgb || not (rgb_equal rendered o.applied_rgb)) && leb o.next_retry_ms now_ms

updated : Observer → ℕ → Rgb → Status → Observer
updated o now_ms rendered ok = record {
  next_retry_ms = 0;
  failed_attempts = 0;
  has_applied_rgb = true;
  applied_rgb = rendered;
}
updated o now_ms rendered (err e) =
    let attempts = if ltb o.failed_attempts 255 then o.failed_attempts + 1 else o.failed_attempts in
    record o { failed_attempts = attempts; next_retry_ms = now_ms + retry_delay_ms attempts }

-- One round of the thread's loop, with the colour rendered and the answer of the strip: the
-- variables, and the pixel that was sent.
pub round : Observer → ℕ → Rgb → Status → Observer × Option Rgb
unfolding updated is_due rgb_equal
round o now_ms rendered ret =
    if is_due o now_ms rendered then (updated o now_ms rendered ret, some rendered) else (o, none)

-- A round with what the policy renders.
pub observe : StatusLed → Observer → ℕ → Status → Observer × Option Rgb
observe led o now_ms ret =
    round o now_ms (StatusLedPolicy.render led.state (elapsed led now_ms)) ret
