-- ===== src/WifiManager/Races.antt =====
-- What `mark_sta_ipv4_ready` of src/wifi_manager.c does, without a lock, to a disconnection that is
-- handled between its steps.
use esp_nmea_bridge_zephyr.Base.{ℕ, zero, ◌≡◌, refl, true, false, none, some, List, [], get_elem?}
use esp_nmea_bridge_zephyr.Base.Int.{pos}
use esp_nmea_bridge_zephyr.WifiManager.{
  Wifi, Iface, connect_result, disconnect_result, sta_dhcp_addr, mark_sta_ipv4_ready, has_failed,
  joined, wifi_event_handler, sta_ready, sta_ready_during,
}
use esp_nmea_bridge_zephyr.WifiManager.Sta.{WifiConfig, Turn, busy, retry_turns}
use esp_nmea_bridge_zephyr.WifiManager.Stalls.{
  same_iface_refl, retry_turns-busy, disconnected, wifi_event_handler-disconnect,
}

-- Another thread asks `wifi_manager_sta_ready` while the station is connected, not yet counted as
-- having an address, and its address table shows one from DHCP. If the disconnection is handled after
-- the query has found the address and before it writes, the station counts as connected and as having
-- an address, and the query says that it is ready, though the connection is lost; from then on the
-- retry thread asks for nothing as long as nothing makes the station idle.
pub sta_ready-lost_stalls :
    (cfg : WifiConfig) (w : Wifi) (net table : Iface) (addr : ℕ) (ts : List Turn)
    → w.sta_connected ≡ true
    → w.sta_has_addr ≡ false
    → sta_dhcp_addr w.sta_iface table.unicast ≡ some addr
    → ((k : ℕ) (t : Turn) (w : Wifi)
        → get_elem? ts k ≡ some t
        → busy w ≡ true
        → busy (t.in_sleep w) ≡ true)
    → let lose = λ (v : Wifi). wifi_event_handler v net disconnect_result v.sta_iface in
      let (w', answer) = sta_ready_during lose (λ v. v) w table in
      ((lose w).sta_connected ≡ false)
      × (w'.sta_connected ≡ true)
      × (w'.sta_has_addr ≡ true)
      × (answer ≡ true)
      × ((retry_turns cfg w' ts).requests ≡ [])
unfolding disconnected busy
sta_ready-lost_stalls cfg w net table addr ts on bare here keep =
    rw (here, wifi_event_handler-disconnect w net, on, bare)
      (refl, refl, refl, refl, (retry_turns-busy cfg ts _ refl keep).0)

-- A station that kept its mark of an address counts as ready as soon as it is connected again.
ready_again :
    (w : Wifi) (net : Iface)
    → w.sta_has_addr ≡ true
    → sta_dhcp_addr w.sta_iface net.unicast ≡ none
    → (sta_ready (wifi_event_handler w net (connect_result (some (pos zero))) w.sta_iface) net).1
      ≡ true
unfolding wifi_event_handler sta_ready mark_sta_ipv4_ready has_failed
ready_again w net has gone = rw (same_iface_refl w.sta_iface, joined, gone, has) refl

-- Another thread asks `wifi_manager_sta_ready` while the station is connected, not yet counted as
-- having an address, and its address table shows one from DHCP. If the disconnection is handled
-- between the query's writes of `sta_connected` and of `sta_has_addr`, the query says that the station
-- is not ready, but leaves it disconnected and counted as having an address. After its next
-- connection, while its address table shows none, `wifi_manager_sta_ready` then says that it is ready.
pub sta_ready-lost_misleads :
    (w : Wifi) (net table later : Iface) (addr : ℕ)
    → w.sta_connected ≡ true
    → w.sta_has_addr ≡ false
    → sta_dhcp_addr w.sta_iface table.unicast ≡ some addr
    → sta_dhcp_addr w.sta_iface later.unicast ≡ none
    → let lose = λ (v : Wifi). wifi_event_handler v net disconnect_result v.sta_iface in
      let (w', answer) = sta_ready_during (λ v. v) lose w table in
      let again = wifi_event_handler w' later (connect_result (some (pos zero))) w'.sta_iface in
      (answer ≡ false)
      × (w'.sta_connected ≡ false)
      × (w'.sta_has_addr ≡ true)
      × ((sta_ready again later).1 ≡ true)
unfolding disconnected
sta_ready-lost_misleads w net table later addr on bare here gone =
    rw (here, wifi_event_handler-disconnect (record w { sta_connected = true }) net, on, bare)
      (refl, refl, refl, ready_again _ later refl gone)
