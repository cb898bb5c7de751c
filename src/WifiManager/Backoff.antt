-- ===== src/WifiManager/Backoff.antt =====
-- The retry thread's rounds while the station is idle: how long it waits, and what it asks for.
use esp_nmea_bridge_zephyr.Base.{
  ℕ, suc, ◌+◌, ◌*◌, ◌^◌, ◌≡◌, refl, ap, false, some, List, [], ◌∷◌, ◌==◌, arith, length, min, map,
}
use native.Mathlib.Nat.{pow-suc}
use esp_nmea_bridge_zephyr.Zephyr.{Errno, err}
use esp_nmea_bridge_zephyr.WifiManager.{Wifi}
use esp_nmea_bridge_zephyr.WifiManager.Sta.{
  WifiConfig, Turn, Request, disconnect, connect, busy, connect_params, next_backoff,
  disconnect_sta, reconnect, retry_turn, retry_turns,
}
use esp_nmea_bridge_zephyr.WifiManager.Stalls.{connect_sta-asks}

-- The seconds before the `n`-th attempt in a row, counted from 0.
abbrev pub wait_s : ℕ → ℕ
wait_s n = min (5 * 2 ^ n) 60

next_backoff-wait_s : (n : ℕ) → next_backoff (wait_s n) ≡ wait_s (n + 1)
unfolding next_backoff
next_backoff-wait_s n =
    let e : 2 ^ (n + 1) ≡ 2 ^ n * 2 = (let f : n + 1 ≡ suc n = omega arith in rw f (pow-suc 2 n)) in
    ground (arith, e)

-- A round in which nothing else happens, and the request to connect is refused.
abbrev pub refused : Errno → Turn
refused e = record { in_sleep = λ w. w; in_pause = λ w. w; in_call = λ w. w; ret = err e }

-- The sleeps of such rounds, in milliseconds, from the `n`-th attempt on, and their requests.
abbrev pub sleeps : ℕ → List Errno → List ℕ
sleeps n [] = []
sleeps n (e ∷ es) = (wait_s n * 1000) ∷ 500 ∷ sleeps (n + 1) es

abbrev pub attempts : WifiConfig → List Errno → List Request
attempts cfg [] = []
attempts cfg (e ∷ es) =
    disconnect ∷ connect (connect_params cfg.sta_ssid cfg.sta_psk) ∷ attempts cfg es

-- The station is to be connected and is not, and the next attempt is the `n`-th in a row.
pub record IsIdle (cfg : WifiConfig) (iface n : ℕ) (w : Wifi) : Type 0 where
  pub at : w.sta_iface ≡ some iface
  pub idle : busy w ≡ false
  pub backoff : w.sta_retry_backoff_s ≡ wait_s n

after_refusal : Wifi → Wifi
after_refusal w = record w {
  sta_connect_requested = false;
  sta_retry_backoff_s = next_backoff w.sta_retry_backoff_s;
}

after_refusal-IsIdle :
    (cfg : WifiConfig) (iface n : ℕ) (w : Wifi)
    → IsIdle cfg iface n w
    → IsIdle cfg iface (n + 1) (after_refusal w)
unfolding after_refusal busy
after_refusal-IsIdle cfg iface n w i = record {
  at = i.at;
  idle = ground (arith, i.idle);
  backoff = rw i.backoff (next_backoff-wait_s n);
}

retry_turn-refused :
    (cfg : WifiConfig) (iface n : ℕ) (w : Wifi) (e : Errno)
    → IsIdle cfg iface n w
    → (length cfg.sta_ssid == 0) ≡ false
    → retry_turn cfg w (refused e) ≡ record {
      wifi = after_refusal w;
      slept_ms = (wait_s n * 1000) ∷ 500 ∷ [];
      requests = disconnect ∷ connect (connect_params cfg.sta_ssid cfg.sta_psk) ∷ [];
    }
unfolding retry_turn after_refusal reconnect
retry_turn-refused cfg iface n w e i named =
    let asked = connect_sta-asks cfg w iface (err e) (λ v. v) i.at named in
    let disconnects : disconnect_sta w ≡ disconnect ∷ [] = rw (i.at, disconnect_sta) in
    rw i.idle (rw (asked, disconnects, i.backoff) refl)

-- While the requests to connect are refused and nothing else happens, the retry thread goes on: before
-- each attempt it waits 5, 10, 20, 40 and then always 60 seconds, and an attempt is a request to
-- disconnect, half a second, and a request to connect with the configured network.
pub retry_turns-refused :
    (cfg : WifiConfig) (iface n : ℕ) (w : Wifi) (es : List Errno)
    → (length cfg.sta_ssid == 0) ≡ false
    → IsIdle cfg iface n w
    → let x = retry_turns cfg w (map refused es) in
      (x.slept_ms ≡ sleeps n es) × (x.requests ≡ attempts cfg es)
unfolding retry_turns
retry_turns-refused cfg iface n w [] named i = (refl, refl)
retry_turns-refused cfg iface n w (e ∷ es) named i =
    let rest =
      retry_turns-refused cfg iface (n + 1) (after_refusal w) es named
        (after_refusal-IsIdle cfg iface n w i) in
    rw (retry_turn-refused cfg iface n w e i named) (
      ap (λ t. (wait_s n * 1000) ∷ 500 ∷ t) rest.0,
      ap (λ t. disconnect ∷ connect (connect_params cfg.sta_ssid cfg.sta_psk) ∷ t) rest.1,
    )
