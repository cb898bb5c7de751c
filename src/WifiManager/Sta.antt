-- ===== src/WifiManager/Sta.antt =====
-- src/wifi_manager.c: the requests to the station's interface and the thread that retries. The answers
-- of `net_mgmt` are given, and so is what the event handlers and the other threads do to the
-- variables during a call or a sleep.
use esp_nmea_bridge_zephyr.Base.{
  ℕ, ◌*◌, Bool, true, false, not, ◌&&◌, ◌||◌, Option, none, some, List, [], ◌∷◌, ◌++◌, ◌==◌,
  if◌then◌else◌, length, min, u8, u32,
}
use esp_nmea_bridge_zephyr.Zephyr.{enodev, Status, ok, err}
use esp_nmea_bridge_zephyr.WifiManager.{Wifi}

-- The settings of Kconfig, CONFIG_ESP_NMEA_BRIDGE_ with each name in capitals; texts as bytes.
pub record WifiConfig : Type 0 where
  pub ap_enable : Bool
  pub sta_enable : Bool
  pub ap_ssid : List ℕ
  pub ap_psk : List ℕ
  pub sta_ssid : List ℕ
  pub sta_psk : List ℕ
  pub sta_rotate_mac : Bool
  pub ap_ip_address : List ℕ
  pub ap_netmask : List ℕ

pub data Security : Type 0 where
  open_network psk : Security

-- `struct wifi_connect_req_params`: the channel is any, the band that of 2.4 GHz, and the lengths
-- are uint8_t.
pub record ConnectParams : Type 0 where
  pub ssid : List ℕ
  pub ssid_length : ℕ
  pub psk : List ℕ
  pub psk_length : ℕ
  pub security : Security

pub connect_params : List ℕ → List ℕ → ConnectParams
connect_params ssid key = record {
  ssid = ssid;
  ssid_length = u8 (length ssid);
  psk = key;
  psk_length = u8 (length key);
  security = if u8 (length key) == 0 then open_network else Security.psk;
}

-- What the file asks of the interfaces and of the driver.
pub data Request : Type 0 where
  disconnect disable_power_save set_sta_mode iface_down iface_up : Request
  connect ap_enable : ConnectParams → Request
  set_mac : List ℕ → Request
  set_gateway add_address start_dhcp : List ℕ → Request
  set_netmask : List ℕ → List ℕ → Request

-- `disconnect_sta`; the answer is only logged.
unfoldable pub disconnect_sta : Wifi → List Request
disconnect_sta w = elim w.sta_iface [ none ↦ [] | some _ ↦ disconnect ∷ [] ]

unfoldable pub disable_sta_power_save : Wifi → List Request
disable_sta_power_save w = elim w.sta_iface [ none ↦ [] | some _ ↦ disable_power_save ∷ [] ]

-- The end of `connect_sta`, from where `net_mgmt` returns.
unfoldable pub connect_returned : Wifi → ConnectParams → Status → Wifi × Status × List Request
unfolding disable_sta_power_save
connect_returned w params (err e) =
    (record w { sta_connect_requested = false }, err e, connect params ∷ [])
connect_returned w params ok =
    let w' = record w { sta_connect_requested = true } in
    (w', ok, connect params ∷ disable_sta_power_save w')

unfoldable pub connect_iface :
    WifiConfig → Wifi → Status → (Wifi → Wifi) → Option ℕ → Wifi × Status × List Request
unfolding connect_returned
connect_iface cfg w ret meanwhile none = (w, err enodev, [])
connect_iface cfg w ret meanwhile (some _) =
    if length cfg.sta_ssid == 0
    then (w, ok, [])
    else connect_returned (meanwhile w) (connect_params cfg.sta_ssid cfg.sta_psk) ret

-- `connect_sta`; `net_mgmt` answers `ret`, and `meanwhile` goes on during that call.
unfoldable pub connect_sta :
    WifiConfig → Wifi → Status → (Wifi → Wifi) → Wifi × Status × List Request
unfolding connect_iface
connect_sta cfg w ret meanwhile = connect_iface cfg w ret meanwhile w.sta_iface

-- Whether `sta_retry_thread` gets to its loops.
unfoldable pub retries : WifiConfig → Bool
retries cfg = cfg.sta_enable && not (length cfg.sta_ssid == 0)

-- `MIN(sta_retry_backoff_s * 2U, 60U)`
unfoldable pub next_backoff : ℕ → ℕ
next_backoff backoff_s = min (u32 (backoff_s * 2)) 60

-- What a round of the thread's loop meets: what goes on in its first sleep, in that behind the
-- request to disconnect, and in `net_mgmt`, with the answer to the request to connect.
pub record Turn : Type 0 where
  pub in_sleep : Wifi → Wifi
  pub in_pause : Wifi → Wifi
  pub in_call : Wifi → Wifi
  pub ret : Status

-- What rounds leave: the variables, the milliseconds of each sleep, and the requests.
pub record Retried : Type 0 where
  pub wifi : Wifi
  pub slept_ms : List ℕ
  pub requests : List Request

unfoldable pub busy : Wifi → Bool
busy w = w.sta_connected || w.sta_connect_requested

-- The round from where it has decided to reconnect.
unfoldable pub reconnect : WifiConfig → Wifi → ℕ → Turn → Retried
unfolding connect_sta disconnect_sta next_backoff
reconnect cfg w slept_ms t =
    let (w', ret, asked) = connect_sta cfg (t.in_pause w) t.ret t.in_call in
    record {
      wifi = record w' { sta_retry_backoff_s = next_backoff w'.sta_retry_backoff_s };
      slept_ms = slept_ms ∷ 500 ∷ [];
      requests = disconnect_sta w ++ asked;
    }

-- The body of the endless loop of `sta_retry_thread`.
unfoldable pub retry_turn : WifiConfig → Wifi → Turn → Retried
unfolding reconnect busy
retry_turn cfg w t =
    let backoff_ms = w.sta_retry_backoff_s * 1000 in
    if busy w
    then record { wifi = t.in_sleep w; slept_ms = 1000 ∷ []; requests = [] }
    else if busy (t.in_sleep w)
    then record { wifi = t.in_sleep w; slept_ms = backoff_ms ∷ []; requests = [] }
    else reconnect cfg (t.in_sleep w) backoff_ms t

unfoldable pub retry_turns : WifiConfig → Wifi → List Turn → Retried
unfolding retry_turn
retry_turns cfg w [] = record { wifi = w; slept_ms = []; requests = [] }
retry_turns cfg w (t ∷ ts) =
    let x = retry_turn cfg w t in
    let y = retry_turns cfg x.wifi ts in
    record {
      wifi = y.wifi;
      slept_ms = x.slept_ms ++ y.slept_ms;
      requests = x.requests ++ y.requests;
    }
