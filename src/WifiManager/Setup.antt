-- ===== src/WifiManager/Setup.antt =====
-- src/wifi_manager.c: the start of the access point with its DHCP server, the random MAC address, and
-- `wifi_manager_start`. The answers of Zephyr and of the driver are given; `pton` stands for
-- `net_addr_pton`, from the bytes of a text to the four of an address.
pub mod Mac
pub mod Starting
use Prim.Native.Nat.{bit_and, bit_or}
use esp_nmea_bridge_zephyr.Base.{
  ℕ, ◌+◌, Bool, true, false, not, Option, none, some, List, [], ◌∷◌, ◌++◌, ◌==◌, if◌then◌else◌,
  length, take, modify, u8,
}
use esp_nmea_bridge_zephyr.Zephyr.{Errno, einval, enodev, eio, Status, ok, err}
use esp_nmea_bridge_zephyr.WifiManager.{Wifi}
use esp_nmea_bridge_zephyr.WifiManager.Sta.{
  WifiConfig, Request, disconnect, disable_power_save, set_sta_mode, iface_down, iface_up, connect,
  ap_enable, set_mac, set_gateway, add_address, start_dhcp, set_netmask, connect_params,
  disconnect_sta, connect_sta,
}

-- Whether the netmask is taken, and the answers to the start of the DHCP server and to the request
-- for the access point.
pub record ApAnswers : Type 0 where
  pub netmask_set : Bool
  pub dhcp : Status
  pub ap : Status

-- `pool_start.s4_addr[3] += 10`, in uint8_t
unfoldable pub pool_start : List ℕ → List ℕ
pool_start addr = modify addr 3 (λ b. u8 (b + 10))

dhcp_server : ApAnswers → Option (List ℕ) → Option (List ℕ) → Status × List Request
unfolding pool_start
dhcp_server a none netmask = (err einval, [])
dhcp_server a (some addr) none = (err einval, [])
dhcp_server a (some addr) (some netmask) =
    if not a.netmask_set
    then (err eio, set_gateway addr ∷ add_address addr ∷ set_netmask addr netmask ∷ [])
    else (
      a.dhcp,
      set_gateway addr
          ∷ add_address addr
          ∷ set_netmask addr netmask
          ∷ start_dhcp (pool_start addr)
          ∷ [],
    )

pub start_dhcp_server : WifiConfig → (List ℕ → Option (List ℕ)) → ApAnswers → Status × List Request
unfolding dhcp_server
start_dhcp_server cfg pton a = dhcp_server a (pton cfg.ap_ip_address) (pton cfg.ap_netmask)

-- `enable_ap` from where the DHCP server has been started.
ap_requested : WifiConfig → ApAnswers → Status × List Request → Status × List Request
ap_requested cfg a (err e, asked) = (err e, asked)
ap_requested cfg a (ok, asked) =
    (a.ap, asked ++ ap_enable (connect_params cfg.ap_ssid cfg.ap_psk) ∷ [])

unfoldable pub enable_ap :
    WifiConfig → Wifi → (List ℕ → Option (List ℕ)) → ApAnswers → Status × List Request
unfolding ap_requested start_dhcp_server
enable_ap cfg w pton a = elim w.ap_iface [
  | none ↦ (err enodev, [])
  | some _ ↦ ap_requested cfg a (start_dhcp_server cfg pton a)
]

-- What `rotate_sta_mac` meets: the answers to its requests, the link address, three random bytes,
-- and whether the interface is up.
pub record MacAnswers : Type 0 where
  pub mode : Status
  pub link_addr : Option (List ℕ)
  pub random : List ℕ
  pub was_up : Bool
  pub down : Status
  pub mac : Status
  pub up : Status

pub rotated_mac : List ℕ → List ℕ → List ℕ
rotated_mac link_addr random =
    modify (take 3 link_addr ++ random) 0 (λ b. bit_or (bit_and b 0xFC) 0x02)

-- The requests from where the new address is made.
change_mac : MacAnswers → List ℕ → List Request
change_mac a mac =
    if not a.was_up
    then set_mac mac ∷ []
    else elim a.down [ err _ ↦ iface_down ∷ [] | ok ↦ iface_down ∷ set_mac mac ∷ iface_up ∷ [] ]

from_link : MacAnswers → Option (List ℕ) → List Request
unfolding change_mac rotated_mac
from_link a none = []
from_link a (some link_addr) =
    if length link_addr == 6 then change_mac a (rotated_mac link_addr a.random) else []

from_mode : MacAnswers → Status → List Request
unfolding from_link
from_mode a (err _) = set_sta_mode ∷ []
from_mode a ok = set_sta_mode ∷ from_link a a.link_addr

-- `rotate_sta_mac`, as the requests that it makes.
pub rotate_sta_mac : WifiConfig → Wifi → MacAnswers → List Request
unfolding from_mode
rotate_sta_mac cfg w a = elim w.sta_iface [
  | none ↦ []
  | some _ ↦ if not cfg.sta_rotate_mac then [] else from_mode a a.mode
]

-- What `wifi_manager_start` meets: the interfaces, the answers, and what the event handlers do
-- before the request to disconnect, in the sleep behind it, and in the request to connect.
pub record StartAnswers : Type 0 where
  pub sap : Option ℕ
  pub sta : Option ℕ
  pub mac : MacAnswers
  pub ap : ApAnswers
  pub in_setup : Wifi → Wifi
  pub in_pause : Wifi → Wifi
  pub in_call : Wifi → Wifi
  pub connect : Status

first_error : Status → Status → Status
first_error (err e) ret = err e
first_error ok ret = ret

pub ap_started : WifiConfig → Wifi → (List ℕ → Option (List ℕ)) → ApAnswers → Status × List Request
unfolding enable_ap
ap_started cfg w pton a = if cfg.ap_enable then enable_ap cfg w pton a else (ok, [])

sta_started : WifiConfig → Wifi → StartAnswers → Wifi × Status × List Request
unfolding connect_sta disconnect_sta
sta_started cfg w a =
    let (w', ret, asked) = connect_sta cfg (a.in_pause w) a.connect a.in_call in
    if cfg.sta_enable then (w', ret, disconnect_sta w ++ asked) else (w, ok, [])

-- The variables, the result, and the requests.
pub wifi_manager_start :
    WifiConfig → (List ℕ → Option (List ℕ)) → StartAnswers → Wifi → Wifi × Status × List Request
unfolding rotate_sta_mac ap_started sta_started first_error
wifi_manager_start cfg pton a w =
    let w0 = record w { ap_iface = a.sap; sta_iface = a.sta } in
    let (ap_ret, ap_asked) = ap_started cfg w0 pton a.ap in
    let (w', sta_ret, sta_asked) = sta_started cfg (a.in_setup w0) a in
    (
      record w' { sta_retry_enabled = true },
      first_error ap_ret sta_ret,
      rotate_sta_mac cfg w0 a.mac ++ ap_asked ++ sta_asked,
    )
