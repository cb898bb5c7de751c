-- ===== src/StatusLedPolicy/Flash.antt =====
-- The flashes: how long one lasts, which wins, and what a 32-bit clock makes of an old one.
use esp_nmea_bridge_zephyr.Base.{
  ℕ, ◌+◌, ◌^◌, ◌≤◌, ◌<◌, ◌≡◌, ◌⊎◌, inl, inr, Bool, true, false, ◌||◌, arith, ltb, leb,
  if◌then◌else◌, u32,
}
use esp_nmea_bridge_zephyr.StatusLedPolicy.{
  Rgb, PolicyState, flash_active_until, nmea_frame_received, nmea_frame_forwarded, nmea_send_failed,
  base_state, render_base, render,
}

abbrev pub error_rgb : Rgb
error_rgb = record { r = 24; g = 0; b = 0 }

abbrev pub forwarded_rgb : Rgb
forwarded_rgb = record { r = 24; g = 24; b = 24 }

abbrev pub activity_rgb : Rgb
activity_rgb = record { r = 0; g = 0; b = 16 }

-- `d` milliseconds after an event, on a clock that wraps at 2^32, its flash is on for `d` below 100,
-- off for 2^31 milliseconds after that, and on again from there to the wrap of the clock.
pub flash_window :
    (now d : ℕ)
    → d < 2 ^ 32
    → flash_active_until true (u32 (now + d)) (u32 (now + 100))
      ≡ (ltb d 100 || leb (2 ^ 31 + 100) d)
unfolding flash_active_until
flash_window now d h = ground arith

-- In the 100 ms after an event its flash shows, unless one of higher rank is on at that time: a
-- failed send wins over a forwarded frame, and that over a received one.
pub render_priority :
    (s : PolicyState) (now d : ℕ)
    → d < 100
    → let t = u32 (now + d) in
      let failing = flash_active_until s.nmea_error_flash_active t s.nmea_error_flash_until_ms in
      let forwarding =
        flash_active_until s.nmea_forwarded_flash_active t s.nmea_forwarded_flash_until_ms in
      (render (nmea_send_failed s now) t ≡ error_rgb)
      × (render (nmea_frame_forwarded s now) t ≡ (if failing then error_rgb else forwarded_rgb))
      × (render (nmea_frame_received s now) t
          ≡ (if failing then error_rgb else if forwarding then forwarded_rgb else activity_rgb))
unfolding render nmea_send_failed nmea_frame_forwarded nmea_frame_received
render_priority s now d h = ground (arith, flash_window now d)

-- A flash that has never been lit, or was lit `d` milliseconds before the time `t`.
abbrev pub IsOver : Bool → ℕ → ℕ → Type 0
IsOver active until_ms t =
    (active ≡ false)
    ⊎ ((now : ℕ) × (d : ℕ) × (until_ms ≡ u32 (now + 100))
        × (t ≡ u32 (now + d))
        × (100 ≤ d)
        × (d < 2 ^ 31 + 100))

flash-IsOver :
    (active : Bool) (until_ms t : ℕ)
    → IsOver active until_ms t
    → flash_active_until active t until_ms ≡ false
unfolding flash_active_until
flash-IsOver active until_ms t (inl off) = ground arith
flash-IsOver active until_ms t (inr (now, d, u, e, lo, hi)) = ground arith

-- When every flash was lit at least 100 ms and less than 2^31 + 100 ms ago, or never, the LED shows
-- the state of the connection.
pub render_base_again :
    (s : PolicyState) (t : ℕ)
    → IsOver s.nmea_error_flash_active s.nmea_error_flash_until_ms t
    → IsOver s.nmea_forwarded_flash_active s.nmea_forwarded_flash_until_ms t
    → IsOver s.nmea_activity_flash_active s.nmea_activity_flash_until_ms t
    → render s t ≡ render_base (base_state s) t
unfolding render
render_base_again s t e f a = ground (
  arith,
  flash-IsOver s.nmea_error_flash_active s.nmea_error_flash_until_ms t e,
  flash-IsOver s.nmea_forwarded_flash_active s.nmea_forwarded_flash_until_ms t f,
  flash-IsOver s.nmea_activity_flash_active s.nmea_activity_flash_until_ms t a,
)

-- Nothing clears `nmea_error_flash_active`: from 2^31 + 100 ms after a failed send, some 24.8 days,
-- to the wrap of the clock the LED shows the error again, with no failure since.
pub render_stale_error :
    (s : PolicyState) (now d : ℕ)
    → 2 ^ 31 + 100 ≤ d
    → d < 2 ^ 32
    → render (nmea_send_failed s now) (u32 (now + d)) ≡ error_rgb
unfolding render nmea_send_failed
render_stale_error s now d lo hi = ground (arith, flash_window now d)
