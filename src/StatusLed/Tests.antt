-- ===== src/StatusLed/Tests.antt =====
-- The observer on concrete inputs.
use esp_nmea_bridge_zephyr.Base.{ℕ, ◌≡◌, refl, true, false, some, [], ◌∷◌, arith}
use esp_nmea_bridge_zephyr.Zephyr.{ok, err, eio}
use esp_nmea_bridge_zephyr.StatusLedPolicy.{Rgb}
use esp_nmea_bridge_zephyr.StatusLed.{not_started, start}
use esp_nmea_bridge_zephyr.StatusLed.Strip.{Round, step, run, power_on, run_shows}

abbrev red : Rgb
red = record { r = 16; g = 0; b = 0 }

abbrev green : Rgb
green = record { r = 0; g = 16; b = 0 }

abbrev failing : ℕ → Round
failing t = record { now_ms = t; rendered = red; ret = err eio }

abbrev working : ℕ → Round
working t = record { now_ms = t; rendered = green; ret = ok }

starts_once :
    (start not_started true true 7 ≡ (record not_started { running = true; started_ms = 7 }, true))
    × ((start (record not_started { running = true }) true true 9).1 ≡ false)
unfolding start
starts_once = (refl, refl)

run_shows_example :
    (step (run power_on (failing 0 ∷ failing 100 ∷ failing 1000 ∷ [])) (working 6000)).shown
    ≡ some green
run_shows_example =
    run_shows (failing 0 ∷ failing 100 ∷ failing 1000 ∷ []) 1000 (working 6000) (omega arith)
      (omega arith) refl
