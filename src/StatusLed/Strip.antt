-- ===== src/StatusLed/Strip.antt =====
-- The observer against the strip: it shows what the policy renders as soon as the driver works, and
-- leaves a failing driver alone in between.
use esp_nmea_bridge_zephyr.Base.{
  ℕ, zero, suc, ◌+◌, ◌≤◌, ◌≡◌, min, ◌⊎◌, inl, refl, false, Option, none, some, List, [], ◌∷◌, arith,
  All,
}
use esp_nmea_bridge_zephyr.Zephyr.{Status, ok, err}
use esp_nmea_bridge_zephyr.StatusLedPolicy.{Rgb}
use esp_nmea_bridge_zephyr.StatusLed.{Observer, fresh_observer, round}
use esp_nmea_bridge_zephyr.StatusLed.Retry.{retry_delay_ms_bounds}

-- One pass of the loop: the uptime, the colour of the policy, and what the driver would answer.
pub record Round : Type 0 where
  pub now_ms : ℕ
  pub rendered : Rgb
  pub ret : Status

-- The observer with the last pixel that the driver has accepted.
pub record Strip : Type 0 where
  pub observer : Observer
  pub shown : Option Rgb

accepted : Option Rgb → Option Rgb → Status → Option Rgb
accepted shown none ret = shown
accepted shown (some rgb) ok = some rgb
accepted shown (some rgb) (err e) = shown

pub step : Strip → Round → Strip
unfolding accepted
step s r =
    let (observer, sent) = round s.observer r.now_ms r.rendered r.ret in
    record { observer = observer; shown = accepted s.shown sent r.ret }

pub run : Strip → List Round → Strip
run s [] = s
run s (r ∷ rs) = run (step s r) rs

abbrev pub power_on : Strip
power_on = record { observer = fresh_observer; shown = none }

-- At time `t`: a colour that the observer has as applied is on the strip, the next attempt is at most
-- five seconds off, and the count of failures fits a byte.
pub record IsValid (t : ℕ) (s : Strip) : Type 0 where
  pub agrees : (s.observer.has_applied_rgb ≡ false) ⊎ (s.shown ≡ some s.observer.applied_rgb)
  pub soon : s.observer.next_retry_ms ≤ t + 5000
  pub attempts : s.observer.failed_attempts ≤ 255

pub step-IsValid :
    (t : ℕ) (s : Strip) (r : Round) → r.now_ms ≤ t → IsValid t s → IsValid t (step s r)
unfolding step round
step-IsValid t s r h v = ground (
  arith,
  retry_delay_ms_bounds (s.observer.failed_attempts + 1),
  retry_delay_ms_bounds s.observer.failed_attempts,
)

run-IsValid :
    (rs : List Round) (t : ℕ) (s : Strip)
    → All (λ r. r.now_ms ≤ t) rs
    → IsValid t s
    → IsValid t (run s rs)
unfolding run
run-IsValid [] t s h v = v
run-IsValid (r ∷ rs) t s h v = run-IsValid rs t (step s r) h.1 (step-IsValid t s r h.0 v)

-- A round that may send, with a driver that works, leaves the policy's colour on the strip.
step_shows :
    (t : ℕ) (s : Strip) (r : Round)
    → IsValid t s
    → s.observer.next_retry_ms ≤ r.now_ms
    → r.ret ≡ ok
    → (step s r).shown ≡ some r.rendered
unfolding step round
step_shows t s r v h e = ground arith

-- After any history of rounds up to time `t`, whatever the driver answered, a round at least five
-- seconds later at which it works leaves on the strip the colour that the policy renders then.
pub run_shows :
    (rs : List Round) (t : ℕ) (r : Round)
    → All (λ q. q.now_ms ≤ t) rs
    → t + 5000 ≤ r.now_ms
    → r.ret ≡ ok
    → (step (run power_on rs) r).shown ≡ some r.rendered
run_shows rs t r h late works =
    let v =
      run-IsValid rs t power_on h
        (record { agrees = inl refl; soon = omega arith; attempts = omega arith }) in
    step_shows t (run power_on rs) r v (omega (arith, v.soon)) works

-- The delays behind the first, the second, the third, and any later failure in a row.
abbrev pub delay_ms : ℕ → ℕ
delay_ms zero = 1000
delay_ms (suc zero) = 1000
delay_ms (suc (suc zero)) = 2000
delay_ms (suc (suc (suc zero))) = 4000
delay_ms (suc (suc (suc (suc n)))) = 5000

-- What a round with a failing update leaves behind.
abbrev pub after_failure : Strip → Round → Strip
after_failure s r =
    let attempts = min (s.observer.failed_attempts + 1) 255 in
    record s {
      observer = record s.observer {
        failed_attempts = attempts;
        next_retry_ms = r.now_ms + delay_ms attempts;
      };
    }
