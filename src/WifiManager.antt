-- ===== src/WifiManager.antt =====
-- src/wifi_manager.c: the variables of the station and what the network events and the other parts do
-- to them. `struct net_if *` is an `Option`, with `none` for NULL; the tables of an interface, which
-- Zephyr keeps, are read as they stand at the call. Addresses are numbers, 0 the unspecified one.
-- The file takes no lock: a handler or a query is modelled as it runs with no other in between, and
-- the `_during` functions are a query with others in between.
pub mod Sta
pub mod Setup
pub mod Stalls
pub mod Races
pub mod Backoff
mod Tests
use esp_nmea_bridge_zephyr.Base.{
  ℕ, zero, suc, Bool, true, false, not, ◌&&◌, Option, none, some, List, [], ◌∷◌, ◌==◌,
  if◌then◌else◌,
}
use esp_nmea_bridge_zephyr.Base.Int.{ℤ, pos, negsuc}

-- The file's static variables, without the callback objects.
pub record Wifi : Type 0 where
  pub ap_iface : Option ℕ
  pub sta_iface : Option ℕ
  pub sta_connected : Bool
  pub sta_has_addr : Bool
  pub sta_ipv4_logged : Bool
  pub sta_connect_requested : Bool
  pub sta_retry_enabled : Bool
  pub sta_retry_backoff_s : ℕ

abbrev pub wifi_statics : Wifi
wifi_statics = record {
  ap_iface = none;
  sta_iface = none;
  sta_connected = false;
  sta_has_addr = false;
  sta_ipv4_logged = false;
  sta_connect_requested = false;
  sta_retry_enabled = false;
  sta_retry_backoff_s = 5;
}

-- An entry of the address table: whether its type is NET_ADDR_DHCP, and its address.
pub record Unicast : Type 0 where
  pub is_dhcp : Bool
  pub address : ℕ

-- What the station's interface shows: its address table, unless the pointer to it is null, and its
-- gateway.
pub record Iface : Type 0 where
  pub unicast : Option (List Unicast)
  pub gateway : ℕ

-- The loop of `sta_dhcp_addr`.
dhcp_addr : List Unicast → Option ℕ
dhcp_addr [] = none
dhcp_addr (u ∷ us) =
    let rest = dhcp_addr us in
    if not u.is_dhcp then rest else if u.address == 0 then rest else some u.address

pub sta_dhcp_addr : Option ℕ → Option (List Unicast) → Option ℕ
unfolding dhcp_addr
sta_dhcp_addr none us = none
sta_dhcp_addr (some iface) none = none
sta_dhcp_addr (some iface) (some us) = dhcp_addr us

-- `mark_sta_ipv4_ready` takes no lock. Other threads may run between its steps: `found` is what they
-- do once it has found the address, and `between` what they do between its first two writes.
abbrev pub marked : (Wifi → Wifi) → (Wifi → Wifi) → Wifi → Option ℕ → Wifi × Bool
marked found between w none = (w, false)
marked found between w (some addr) =
    let w' = between (record (found w) { sta_connected = true }) in
    (record w' { sta_has_addr = true; sta_ipv4_logged = true }, true)

abbrev pub mark_sta_ipv4_ready_during : (Wifi → Wifi) → (Wifi → Wifi) → Wifi → Iface → Wifi × Bool
mark_sta_ipv4_ready_during found between w net =
    marked found between w (sta_dhcp_addr w.sta_iface net.unicast)

-- The same where no other thread runs in between.
pub mark_sta_ipv4_ready : Wifi → Iface → Wifi × Bool
unfolding sta_dhcp_addr
mark_sta_ipv4_ready w net = mark_sta_ipv4_ready_during (λ w. w) (λ w. w) w net

-- The events of `wifi_event_handler`. That of a connection comes with its status, or with `none`
-- where `cb->info` is null.
pub data WifiEvent : Type 0 where
  connect_result : Option ℤ → WifiEvent
  disconnect_result ap_enable_result ap_disable_result : WifiEvent
  ap_sta_connected ap_sta_disconnected other : WifiEvent

pub has_failed : Option ℤ → Bool
has_failed none = false
has_failed (some (pos zero)) = false
has_failed (some (pos (suc n))) = true
has_failed (some (negsuc n)) = true

-- `iface == sta_iface`
pub same_iface : Option ℕ → Option ℕ → Bool
same_iface none none = true
same_iface none (some b) = false
same_iface (some a) none = false
same_iface (some a) (some b) = a == b

lost : Wifi → Wifi
lost w = record w {
  sta_connected = false;
  sta_has_addr = false;
  sta_ipv4_logged = false;
  sta_connect_requested = false;
}

joined : Wifi → Iface → Wifi
unfolding mark_sta_ipv4_ready
joined w net =
    (mark_sta_ipv4_ready
      (record w { sta_connected = true; sta_connect_requested = false; sta_retry_backoff_s = 5 })
      net).0

pub wifi_event_handler : Wifi → Iface → WifiEvent → Option ℕ → Wifi
unfolding lost joined has_failed
wifi_event_handler w net (connect_result status) iface =
    if not (same_iface iface w.sta_iface)
    then w
    else if has_failed status
    then lost w
    else joined w net
wifi_event_handler w net disconnect_result iface =
    if not (same_iface iface w.sta_iface) then w else lost w
wifi_event_handler w net ap_enable_result iface = w
wifi_event_handler w net ap_disable_result iface = w
wifi_event_handler w net ap_sta_connected iface = w
wifi_event_handler w net ap_sta_disconnected iface = w
wifi_event_handler w net other iface = w

pub data Ipv4Event : Type 0 where
  addr_add dhcp_bound dhcp_stop other : Ipv4Event

pub ipv4_event_handler : Wifi → Iface → Ipv4Event → Option ℕ → Wifi
unfolding mark_sta_ipv4_ready
ipv4_event_handler w net addr_add iface = (mark_sta_ipv4_ready w net).0
ipv4_event_handler w net dhcp_bound iface = (mark_sta_ipv4_ready w net).0
ipv4_event_handler w net dhcp_stop iface =
    if same_iface iface w.sta_iface
    then record w { sta_has_addr = false; sta_ipv4_logged = false }
    else w
ipv4_event_handler w net Ipv4Event.other iface = w

-- `wifi_manager_sta_iface`
pub wifi_sta_iface : Wifi → Option ℕ
wifi_sta_iface w = w.sta_iface

-- `wifi_manager_sta_ready`, with other threads that run in between, and without.
abbrev pub sta_ready_during : (Wifi → Wifi) → (Wifi → Wifi) → Wifi → Iface → Wifi × Bool
sta_ready_during found between w net =
    let w' =
      if w.sta_connected && not w.sta_has_addr
      then (mark_sta_ipv4_ready_during found between w net).0
      else w in
    (w', w'.sta_connected && w'.sta_has_addr)

unfoldable pub sta_ready : Wifi → Iface → Wifi × Bool
unfolding mark_sta_ipv4_ready
sta_ready w net = sta_ready_during (λ w. w) (λ w. w) w net

-- `wifi_manager_get_sta_gateway`: the variables, what it writes to `*gw`, and its result.
-- `has_gw` says whether `gw` points somewhere.
pub get_sta_gateway : Wifi → Iface → Bool → Wifi × Option ℕ × Bool
unfolding sta_ready
get_sta_gateway w net has_gw =
    if not has_gw
    then (w, none, false)
    else if not (sta_ready w net).1
    then ((sta_ready w net).0, none, false)
    else ((sta_ready w net).0, some net.gateway, not (net.gateway == 0))
