-- ===== src/WifiManager/Tests.antt =====
-- The Wi-Fi manager on concrete inputs: runs of its functions, and the theorems applied.
use esp_nmea_bridge_zephyr.Base.{
  ℕ, zero, suc, subst, ◌≡◌, ◌<◌, ◌/◌, ◌%◌, refl, true, false, Option, none, some, List, [], ◌∷◌,
  arith, get_elem?,
}
use esp_nmea_bridge_zephyr.Base.Int.{pos, negsuc}
use esp_nmea_bridge_zephyr.Zephyr.{ok, err, eio}
use esp_nmea_bridge_zephyr.WifiManager.{
  Wifi, Iface, wifi_statics, connect_result, disconnect_result, dhcp_bound, dhcp_stop,
  wifi_event_handler, ipv4_event_handler, sta_ready, sta_ready_during, get_sta_gateway,
  wifi_sta_iface, sta_dhcp_addr, has_failed, same_iface,
}
use esp_nmea_bridge_zephyr.WifiManager.Sta.{
  WifiConfig, Turn, set_gateway, add_address, set_netmask, set_sta_mode, iface_down, iface_up,
  set_mac, busy, retries, connect_sta, retry_turns,
}
use esp_nmea_bridge_zephyr.WifiManager.Setup.{
  ApAnswers, MacAnswers, StartAnswers, pool_start, enable_ap, rotate_sta_mac,
}
use esp_nmea_bridge_zephyr.WifiManager.Setup.Mac.{rotate_sta_mac_lem}
use esp_nmea_bridge_zephyr.WifiManager.Stalls.{
  ipv4_event-disconnect_stalls, connect_sta-failed_stalls,
}
use esp_nmea_bridge_zephyr.WifiManager.Races.{sta_ready-lost_stalls, sta_ready-lost_misleads}
use esp_nmea_bridge_zephyr.WifiManager.Backoff.{IsIdle, refused, attempts, retry_turns-refused}

abbrev cfg : WifiConfig
cfg = record {
  ap_enable = true;
  sta_enable = true;
  ap_ssid = 65 ∷ [];
  ap_psk = [];
  sta_ssid = 66 ∷ [];
  sta_psk = 1 ∷ 2 ∷ [];
  sta_rotate_mac = true;
  ap_ip_address = 1 ∷ [];
  ap_netmask = 2 ∷ [];
}

abbrev pton : List ℕ → Option (List ℕ)
pton (c ∷ []) = some (192 ∷ 168 ∷ 4 ∷ c ∷ [])
pton _ = none

-- The station's interface is 2, that of the access point 1.
abbrev booted : Wifi
booted = record wifi_statics { ap_iface = some 1; sta_iface = some 2 }

abbrev leased : Iface
leased = record {
  unicast =
      some (record { is_dhcp = false; address = 9 } ∷ record { is_dhcp = true; address = 7 } ∷ []);
  gateway = 8;
}

abbrev bare : Iface
bare = record { unicast = some []; gateway = 0 }

abbrev online : Wifi
online = record booted { sta_connected = true; sta_has_addr = true; sta_ipv4_logged = true }

leased_dhcp : sta_dhcp_addr (some 2) leased.unicast ≡ some 7
unfolding sta_dhcp_addr
leased_dhcp = refl

bare_dhcp : sta_dhcp_addr (some 2) bare.unicast ≡ none
unfolding sta_dhcp_addr
bare_dhcp = refl

failed_status : has_failed (some (negsuc 0)) ≡ true
unfolding has_failed
failed_status = refl

joins : wifi_event_handler booted leased (connect_result (some (pos 0))) (some 2) ≡ online
unfolding wifi_event_handler same_iface
joins = refl

dhcp_stops : (sta_ready (ipv4_event_handler online bare dhcp_stop (some 2)) bare).1 ≡ false
unfolding sta_ready ipv4_event_handler same_iface
dhcp_stops = refl

gateway_found : get_sta_gateway online leased true ≡ (online, some 8, true)
unfolding get_sta_gateway
gateway_found = refl

sta_iface_found : wifi_sta_iface booted ≡ some 2
unfolding wifi_sta_iface
sta_iface_found = refl

retries_on : retries cfg ≡ true
unfolding retries
retries_on = refl

-- The station's answers come in a round in which nothing else happens.
abbrev quiet_turns : List Turn
quiet_turns = refused eio ∷ refused eio ∷ []

quiet_turns-kept :
    (k : ℕ) (t : Turn) (w : Wifi)
    → get_elem? quiet_turns k ≡ some t
    → busy w ≡ true
    → busy (t.in_sleep w) ≡ true
quiet_turns-kept zero t w at h =
    let e : refused eio ≡ t = cc in subst (λ t. busy (t.in_sleep w) ≡ true) e h
quiet_turns-kept (suc zero) t w at h =
    let e : refused eio ≡ t = cc in subst (λ t. busy (t.in_sleep w) ≡ true) e h
quiet_turns-kept (suc (suc k)) t w at h = cc

ipv4_event-disconnect_stalls_example :
    let lost = wifi_event_handler online bare disconnect_result (some 2) in
    let w' = ipv4_event_handler lost leased dhcp_bound (some 1) in
    (lost.sta_connected ≡ false)
    × (w'.sta_connected ≡ true)
    × (w'.sta_has_addr ≡ true)
    × ((retry_turns cfg w' quiet_turns).requests ≡ [])
ipv4_event-disconnect_stalls_example =
    ipv4_event-disconnect_stalls cfg online bare leased 7 dhcp_bound (some 1) quiet_turns refl
      leased_dhcp quiet_turns-kept

-- Connected, with an address in the table that no event has told of yet.
abbrev told_late : Wifi
told_late = record booted { sta_connected = true }

sta_ready-lost_stalls_example :
    let lose = λ (v : Wifi). wifi_event_handler v bare disconnect_result v.sta_iface in
    let (w', answer) = sta_ready_during lose (λ v. v) told_late leased in
    ((lose told_late).sta_connected ≡ false)
    × (w'.sta_connected ≡ true)
    × (w'.sta_has_addr ≡ true)
    × (answer ≡ true)
    × ((retry_turns cfg w' quiet_turns).requests ≡ [])
sta_ready-lost_stalls_example =
    sta_ready-lost_stalls cfg told_late bare leased 7 quiet_turns refl refl leased_dhcp
      quiet_turns-kept

sta_ready-lost_misleads_example :
    let lose = λ (v : Wifi). wifi_event_handler v bare disconnect_result v.sta_iface in
    let (w', answer) = sta_ready_during (λ v. v) lose told_late leased in
    let again = wifi_event_handler w' bare (connect_result (some (pos zero))) w'.sta_iface in
    (answer ≡ false)
    × (w'.sta_connected ≡ false)
    × (w'.sta_has_addr ≡ true)
    × ((sta_ready again bare).1 ≡ true)
sta_ready-lost_misleads_example =
    sta_ready-lost_misleads told_late bare leased bare 7 refl refl leased_dhcp bare_dhcp

connect_sta-failed_stalls_example :
    let fails =
      λ (w : Wifi). wifi_event_handler w bare (connect_result (some (negsuc 0))) (some 2) in
    let (w', ret, asked) = connect_sta cfg booted ok fails in
    (ret ≡ ok)
    × (w'.sta_connected ≡ false)
    × (w'.sta_connect_requested ≡ true)
    × ((retry_turns cfg w' quiet_turns).requests ≡ [])
connect_sta-failed_stalls_example =
    connect_sta-failed_stalls cfg booted bare 2 (negsuc 0) quiet_turns refl refl failed_status
      quiet_turns-kept

booted-IsIdle : IsIdle cfg 2 0 booted
unfolding busy
booted-IsIdle = record { at = refl; idle = refl; backoff = refl }

retry_turns-refused_example :
    let x = retry_turns cfg booted quiet_turns in
    (x.slept_ms ≡ 5000 ∷ 500 ∷ 10000 ∷ 500 ∷ []) × (x.requests ≡ attempts cfg (eio ∷ eio ∷ []))
retry_turns-refused_example = retry_turns-refused cfg 2 0 booted (eio ∷ eio ∷ []) refl booted-IsIdle

abbrev mac_answers : MacAnswers
mac_answers = record {
  mode = ok;
  link_addr = some (0x19 ∷ 2 ∷ 3 ∷ 4 ∷ 5 ∷ 6 ∷ []);
  random = 10 ∷ 11 ∷ 12 ∷ [];
  was_up = true;
  down = ok;
  mac = err eio;
  up = ok;
}

rotate_sta_mac_lem_example :
    (rotate_sta_mac cfg booted mac_answers
      ≡ set_sta_mode ∷ iface_down ∷ set_mac (0x1A ∷ 2 ∷ 3 ∷ 10 ∷ 11 ∷ 12 ∷ []) ∷ iface_up ∷ [])
    × (0x1A % 4 ≡ 2)
    × (◌≡◌ {A = ℕ} (0x1A / 4) (0x19 / 4))
    × (0x1A < 256)
rotate_sta_mac_lem_example =
    rotate_sta_mac_lem cfg booted mac_answers 2 0x19 2 3 4 5 6 10 11 12 refl refl refl refl
      (omega arith)

-- The sum is made in a byte.
pool_start_wraps : pool_start (192 ∷ 168 ∷ 4 ∷ 250 ∷ []) ≡ 192 ∷ 168 ∷ 4 ∷ 4 ∷ []
unfolding pool_start
pool_start_wraps = refl

abbrev ap_answers : ApAnswers
ap_answers = record { netmask_set = false; dhcp = ok; ap = ok }

enable_ap_fails : enable_ap cfg booted pton ap_answers ≡ (
  err eio,
  set_gateway (192 ∷ 168 ∷ 4 ∷ 1 ∷ [])
      ∷ add_address (192 ∷ 168 ∷ 4 ∷ 1 ∷ [])
      ∷ set_netmask (192 ∷ 168 ∷ 4 ∷ 1 ∷ []) (192 ∷ 168 ∷ 4 ∷ 2 ∷ [])
      ∷ [],
)
unfolding enable_ap
enable_ap_fails = refl

abbrev start_answers : StartAnswers
start_answers = record {
  sap = some 1;
  sta = some 2;
  mac = record mac_answers { mode = err eio };
  ap = ap_answers;
  in_setup = λ w. w;
  in_pause = λ w. w;
  in_call = λ w. w;
  connect = ok;
}
