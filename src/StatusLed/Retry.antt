-- ===== src/StatusLed/Retry.antt =====
-- The delay between attempts to update the strip.
use esp_nmea_bridge_zephyr.Base.{ℕ, zero, suc, ◌≤◌, ◌≡◌, refl, arith, ltb, if◌then◌else◌}
use esp_nmea_bridge_zephyr.StatusLed.{retry_loop, retry_delay_ms}

-- From 5000 ms on the loop stops at once.
retry_loop_max : (n delay : ℕ) → 5000 ≤ delay → retry_loop n delay ≡ delay
unfolding retry_loop
retry_loop_max zero delay h = refl
retry_loop_max (suc zero) delay h = refl
retry_loop_max (suc (suc n)) delay h = ground arith

-- The first failures wait 1, 2 and 4 seconds, and every later one 5; no doubling overflows.
pub retry_delay_ms_lem :
    (n : ℕ)
    → retry_delay_ms n
      ≡ (if ltb n 2 then 1000 else if ltb n 3 then 2000 else if ltb n 4 then 4000 else 5000)
unfolding retry_delay_ms
retry_delay_ms_lem zero = refl
retry_delay_ms_lem (suc zero) = refl
retry_delay_ms_lem (suc (suc zero)) = refl
retry_delay_ms_lem (suc (suc (suc zero))) = refl
retry_delay_ms_lem (suc (suc (suc (suc n)))) = ground (arith, retry_loop_max (suc n) 8000)

pub retry_delay_ms_bounds : (n : ℕ) → (1000 ≤ retry_delay_ms n) × (retry_delay_ms n ≤ 5000)
retry_delay_ms_bounds n = ground (arith, retry_delay_ms_lem n)
