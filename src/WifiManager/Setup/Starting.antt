-- ===== src/WifiManager/Setup/Starting.antt =====
-- `wifi_manager_start`: the order of its requests and its result.
use esp_nmea_bridge_zephyr.Base.{ℕ, ◌≡◌, refl, Bool, true, false, Option, List, [], ◌∷◌}
use esp_nmea_bridge_zephyr.Zephyr.{Status, ok, err}
use esp_nmea_bridge_zephyr.WifiManager.{Wifi}
use esp_nmea_bridge_zephyr.WifiManager.Sta.{
  WifiConfig, Request, disconnect, disable_power_save, connect, connect_params,
}
use esp_nmea_bridge_zephyr.WifiManager.Setup.{StartAnswers, wifi_manager_start}

abbrev pub is_ok : Status → Bool
is_ok ok = true
is_ok (err _) = false

-- The requests to the station at the end of the start.
abbrev pub sta_requests : WifiConfig → Status → List Request
sta_requests cfg ret =
    disconnect
    ∷ connect (connect_params cfg.sta_ssid cfg.sta_psk)
    ∷ elim ret as (λ _. List Request) [ ok ↦ disable_power_save ∷ [] | err _ ↦ [] ]

-- What `sta_started` leaves.
record StaStarted (cfg : WifiConfig) (ret : Status) (x : Wifi × Status × List Request)
    : Type 0 where
  status : x.1 ≡ ret
  requests : x.2 ≡ sta_requests cfg ret
  requested : x.0.sta_connect_requested ≡ is_ok ret

-- The start always lets the retry thread loose.
pub sta_retry_enabled-wifi_manager_start :
    (cfg : WifiConfig) (pton : List ℕ → Option (List ℕ)) (a : StartAnswers) (w : Wifi)
    → (wifi_manager_start cfg pton a w).0.sta_retry_enabled ≡ true
unfolding wifi_manager_start
sta_retry_enabled-wifi_manager_start cfg pton a w = refl
