-- ===== src/WifiManager/Stalls.antt =====
-- When `sta_retry_thread` has nothing to do: while the station counts as connected, or as asked to
-- connect, no round of it makes a request.
use esp_nmea_bridge_zephyr.Base.{
  ℕ, suc, ◌≡◌, refl, ◌∙◌, ap, Bool, true, false, false, Option, none, some, List, [], ◌∷◌, ◌==◌,
  arith, length, get_elem?,
}
use esp_nmea_bridge_zephyr.Base.Int.{ℤ}
use esp_nmea_bridge_zephyr.Zephyr.{Status, ok}
use esp_nmea_bridge_zephyr.WifiManager.{
  Wifi, Iface, connect_result, disconnect_result, Ipv4Event, addr_add, dhcp_bound, dhcp_stop,
  sta_dhcp_addr, mark_sta_ipv4_ready, has_failed, same_iface, wifi_event_handler,
  ipv4_event_handler,
}
use esp_nmea_bridge_zephyr.WifiManager.Sta.{
  WifiConfig, Turn, busy, connect_iface, connect_sta, connect_returned, connect_params, retry_turn,
  retry_turns,
}

pub same_iface_refl : (i : Option ℕ) → same_iface i i ≡ true
unfolding same_iface
same_iface_refl none = refl
same_iface_refl (some i) = ground arith

-- While the station is busy at every round, the thread asks for nothing.
pub retry_turns-busy :
    (cfg : WifiConfig) (ts : List Turn) (w : Wifi)
    → busy w ≡ true
    → ((k : ℕ) (t : Turn) (w : Wifi)
        → get_elem? ts k ≡ some t
        → busy w ≡ true
        → busy (t.in_sleep w) ≡ true)
    → ((retry_turns cfg w ts).requests ≡ []) × (busy (retry_turns cfg w ts).wifi ≡ true)
unfolding retry_turns retry_turn
retry_turns-busy cfg [] w on keep = (refl, on)
retry_turns-busy cfg (t ∷ ts) w on keep =
    rw on (retry_turns-busy cfg ts (t.in_sleep w) (keep 0 t w refl on) (λ k. keep (suc k)))

unfoldable pub disconnected : Wifi → Wifi
disconnected w = record w {
  sta_connected = false;
  sta_has_addr = false;
  sta_ipv4_logged = false;
  sta_connect_requested = false;
}

pub wifi_event_handler-disconnect :
    (w : Wifi) (net : Iface)
    → wifi_event_handler w net disconnect_result w.sta_iface ≡ disconnected w
unfolding wifi_event_handler disconnected
wifi_event_handler-disconnect w net = rw (same_iface_refl w.sta_iface)

wifi_event_handler-failed :
    (w : Wifi) (net : Iface) (iface : ℕ) (status : ℤ)
    → w.sta_iface ≡ some iface
    → has_failed (some status) ≡ true
    → wifi_event_handler w net (connect_result (some status)) (some iface) ≡ disconnected w
unfolding wifi_event_handler disconnected
wifi_event_handler-failed w net iface status at failed =
    simp (at, same_iface_refl (some iface), failed)

ready : Wifi → Wifi
ready w = record w { sta_connected = true; sta_has_addr = true; sta_ipv4_logged = true }

-- The events that tell of a new address, or of a lease.
abbrev pub tells_address : Ipv4Event → Bool
tells_address addr_add = true
tells_address dhcp_bound = true
tells_address dhcp_stop = false
tells_address Ipv4Event.other = false

ipv4_event_handler-ready :
    (w : Wifi) (net : Iface) (addr : ℕ) (e : Ipv4Event) (iface : Option ℕ)
    → sta_dhcp_addr w.sta_iface net.unicast ≡ some addr
    → tells_address e ≡ true
    → ipv4_event_handler w net e iface ≡ ready w
unfolding ipv4_event_handler mark_sta_ipv4_ready ready
ipv4_event_handler-ready w net addr addr_add iface at tells = rw (at, ipv4_event_handler)
ipv4_event_handler-ready w net addr dhcp_bound iface at tells = rw (at, ipv4_event_handler)
ipv4_event_handler-ready w net addr dhcp_stop iface at tells = cc
ipv4_event_handler-ready w net addr Ipv4Event.other iface at tells = cc

pub connect_sta-asks :
    (cfg : WifiConfig) (w : Wifi) (iface : ℕ) (ret : Status) (meanwhile : Wifi → Wifi)
    → w.sta_iface ≡ some iface
    → (length cfg.sta_ssid == 0) ≡ false
    → connect_sta cfg w ret meanwhile
      ≡ connect_returned (meanwhile w) (connect_params cfg.sta_ssid cfg.sta_psk) ret
unfolding connect_sta
connect_sta-asks cfg w iface ret meanwhile at named =
    ap (connect_iface cfg w ret meanwhile) at ∙ rw named

-- For the events that tell of a new address or of a DHCP lease, the handler of the IPv4 events reads
-- the station's address table whatever interface the event is of. So if the table still shows an address from DHCP when the station has lost its connection, an
-- event that tells of a new address or of a DHCP lease, also one of the access point, counts the
-- station as connected again, and with an address; from then on the retry thread asks for nothing as
-- long as nothing makes the station idle.
pub ipv4_event-disconnect_stalls :
    (cfg : WifiConfig) (w : Wifi) (before net : Iface) (addr : ℕ) (e : Ipv4Event) (iface : Option ℕ)
    (ts : List Turn)
    → tells_address e ≡ true
    → sta_dhcp_addr w.sta_iface net.unicast ≡ some addr
    → ((k : ℕ) (t : Turn) (w : Wifi)
        → get_elem? ts k ≡ some t
        → busy w ≡ true
        → busy (t.in_sleep w) ≡ true)
    → let lost = wifi_event_handler w before disconnect_result w.sta_iface in
      let w' = ipv4_event_handler lost net e iface in
      (lost.sta_connected ≡ false)
      × (w'.sta_connected ≡ true)
      × (w'.sta_has_addr ≡ true)
      × ((retry_turns cfg w' ts).requests ≡ [])
unfolding disconnected ready busy
ipv4_event-disconnect_stalls cfg w before net addr e iface ts tells here keep =
    rw (wifi_event_handler-disconnect w before) (
      rw (ipv4_event_handler-ready (disconnected w) net addr e iface here tells)
        (refl, refl, refl, (retry_turns-busy cfg ts _ refl keep).0))

-- `sta_connect_requested` is set when the request to connect has returned. If the attempt fails
-- before that, the flag outlives the failure: the station is not connected and no attempt is under
-- way, but the retry thread asks for nothing as long as nothing makes the station idle.
pub connect_sta-failed_stalls :
    (cfg : WifiConfig) (w : Wifi) (net : Iface) (iface : ℕ) (status : ℤ) (ts : List Turn)
    → w.sta_iface ≡ some iface
    → (length cfg.sta_ssid == 0) ≡ false
    → has_failed (some status) ≡ true
    → ((k : ℕ) (t : Turn) (w : Wifi)
        → get_elem? ts k ≡ some t
        → busy w ≡ true
        → busy (t.in_sleep w) ≡ true)
    → let fails =
        λ (w : Wifi). wifi_event_handler w net (connect_result (some status)) (some iface) in
      let (w', ret, asked) = connect_sta cfg w ok fails in
      (ret ≡ ok)
      × (w'.sta_connected ≡ false)
      × (w'.sta_connect_requested ≡ true)
      × ((retry_turns cfg w' ts).requests ≡ [])
unfolding connect_returned disconnected busy
connect_sta-failed_stalls cfg w net iface status ts at named failed keep =
    let fails =
      λ (w : Wifi). wifi_event_handler w net (connect_result (some status)) (some iface) in
    rw (connect_sta-asks cfg w iface ok fails at named) (
      rw (wifi_event_handler-failed w net iface status at failed)
        (refl, refl, refl, (retry_turns-busy cfg ts _ refl keep).0))
