-- ===== src/StatusLedPolicy/Pulse.antt =====
-- The pulse of the connecting state.
use esp_nmea_bridge_zephyr.Base.{ℕ, ◌+◌, ◌-◌, ◌*◌, ◌/◌, ◌%◌, ◌≤◌, ◌≡◌, arith, min}
use esp_nmea_bridge_zephyr.StatusLedPolicy.{render_connecting}

-- The distance in time to the nearer end of the period, in milliseconds.
abbrev pub from_end : ℕ → ℕ
from_end t = min (t % 1000) (1000 - t % 1000)

-- No cast and no multiplication of `status_led_policy_render_connecting` loses bits: the colour is
-- that of a triangle wave of period 1000 ms from red 4, green 2 at its ends to red 16, green 8 in
-- the middle, computed with whole numbers.
pub render_connecting_lem :
    (t : ℕ)
    → render_connecting t
      ≡ record { r = 4 + 12 * from_end t / 500; g = 2 + 6 * from_end t / 500; b = 0 }
unfolding render_connecting
render_connecting_lem t = ground arith

-- The pulse is dim throughout, orange rather than red or green, and keeps its red at about twice
-- its green.
pub render_connecting_bounds :
    (t : ℕ)
    → (4 ≤ (render_connecting t).r)
      × ((render_connecting t).r ≤ 16)
      × (2 ≤ (render_connecting t).g)
      × ((render_connecting t).g ≤ 8)
      × (2 * (render_connecting t).g ≤ (render_connecting t).r)
      × ((render_connecting t).r ≤ 2 * (render_connecting t).g + 1)
      × ((render_connecting t).b ≡ 0)
unfolding render_connecting
render_connecting_bounds t = ground arith
