-- ===== src/WifiManager/Setup/Mac.antt =====
-- The random address of the station, and the first address of the DHCP pool.
use Prim.Native.Nat.{bit_and, bit_or}
use esp_nmea_bridge_zephyr.Base.{
  ℕ, zero, suc, ◌+◌, ◌*◌, ◌/◌, ◌%◌, ◌<◌, ◌≡◌, refl, ap, ◌∙◌, Bool, true, false, some, List, [], ◌∷◌,
  ◌==◌, ==_iff, arith, if◌then◌else◌,
}
use esp_nmea_bridge_zephyr.Zephyr.{Status, ok, err}
use esp_nmea_bridge_zephyr.WifiManager.{Wifi}
use esp_nmea_bridge_zephyr.WifiManager.Sta.{
  WifiConfig, Request, set_sta_mode, iface_down, iface_up, set_mac,
}
use esp_nmea_bridge_zephyr.WifiManager.Setup.{
  MacAnswers, rotated_mac, change_mac, from_link, from_mode, rotate_sta_mac,
}

-- `(b & 0xFC) | 0x02`
masked : ℕ → ℕ
masked b = bit_or (bit_and b 0xFC) 0x02

-- The same by division, tried on the bytes below `k`.
is_division : ℕ → Bool
unfolding masked
is_division zero = true
is_division (suc b) = if masked b == b / 4 * 4 + 2 then is_division b else false

masked-below : (k b : ℕ) → is_division k ≡ true → b < k → masked b ≡ b / 4 * 4 + 2
unfolding is_division
masked-below zero b tried lt = elim lt [ ]
masked-below (suc k) b tried lt =
    ground (arith, masked-below k b, ==_iff (masked k) (k / 4 * 4 + 2))

every_byte : is_division 256 ≡ true
unfolding is_division
every_byte = refl

masked_lem : (b : ℕ) → b < 256 → bit_or (bit_and b 0xFC) 0x02 ≡ b / 4 * 4 + 2
unfolding masked
masked_lem b lt = masked-below 256 b every_byte lt

-- The address from bytes that are those of the interface up to the third, and random from there.
rotated_mac_lem :
    (a b c d e f x y z : ℕ)
    → a < 256
    → rotated_mac (a ∷ b ∷ c ∷ d ∷ e ∷ f ∷ []) (x ∷ y ∷ z ∷ [])
      ≡ (a / 4 * 4 + 2) ∷ b ∷ c ∷ x ∷ y ∷ z ∷ []
unfolding rotated_mac
rotated_mac_lem a b c d e f x y z h = rw (masked_lem a h)

-- The requests behind that for station mode, by what the interface answers.
abbrev pub mac_requests : MacAnswers → List ℕ → List Request
mac_requests a mac =
    if a.was_up
    then elim a.down [ ok ↦ iface_down ∷ set_mac mac ∷ iface_up ∷ [] | err _ ↦ iface_down ∷ [] ]
    else set_mac mac ∷ []

change_mac_lem :
    (answers : MacAnswers) (mac : List ℕ) → change_mac answers mac ≡ mac_requests answers mac
unfolding change_mac
change_mac_lem answers mac = ground arith

from_link_lem :
    (answers : MacAnswers) (a b c d e f x y z : ℕ)
    → answers.random ≡ x ∷ y ∷ z ∷ []
    → a < 256
    → from_link answers (some (a ∷ b ∷ c ∷ d ∷ e ∷ f ∷ []))
      ≡ mac_requests answers ((a / 4 * 4 + 2) ∷ b ∷ c ∷ x ∷ y ∷ z ∷ [])
unfolding from_link
from_link_lem answers a b c d e f x y z random h =
    let link_addr = a ∷ b ∷ c ∷ d ∷ e ∷ f ∷ [] in
    ap (λ r. change_mac answers (rotated_mac link_addr r)) random
    ∙ ap (change_mac answers) (rotated_mac_lem a b c d e f x y z h)
    ∙ change_mac_lem answers _

from_mode_lem :
    (answers : MacAnswers) (mode : Status) (asked : List Request)
    → from_link answers answers.link_addr ≡ asked
    → from_mode answers mode
      ≡ set_sta_mode ∷ elim mode as (λ _. List Request) [ ok ↦ asked | err _ ↦ [] ]
unfolding from_mode
from_mode_lem answers ok asked h = ap (λ t. set_sta_mode ∷ t) h
from_mode_lem answers (err e) asked h = refl

-- With the option on, a station, and a link address of six bytes, `rotate_sta_mac` first asks for
-- station mode, and if that is granted it sets one address: the bytes 1 and 2 are those of the
-- interface, the last three are the random ones, and the first has its low bits at 10, so that the
-- address is a locally administered one of a single station, with its other bits unchanged. An
-- interface that is up is taken down before and brought up again behind, whatever became of the
-- address; if it does not go down, it keeps its address.
pub rotate_sta_mac_lem :
    (cfg : WifiConfig) (w : Wifi) (answers : MacAnswers) (iface a b c d e f x y z : ℕ)
    → cfg.sta_rotate_mac ≡ true
    → w.sta_iface ≡ some iface
    → answers.link_addr ≡ some (a ∷ b ∷ c ∷ d ∷ e ∷ f ∷ [])
    → answers.random ≡ x ∷ y ∷ z ∷ []
    → a < 256
    → let first = a / 4 * 4 + 2 in
      (rotate_sta_mac cfg w answers ≡ (
        set_sta_mode ∷ elim answers.mode as (λ _. List Request) [
          | ok ↦ mac_requests answers (first ∷ b ∷ c ∷ x ∷ y ∷ z ∷ [])
          | err _ ↦ []
        ]))
      × (first % 4 ≡ 2)
      × (first / 4 ≡ a / 4)
      × (first < 256)
unfolding rotate_sta_mac from_mode from_link change_mac
rotate_sta_mac_lem cfg w answers iface a b c d e f x y z on at link random h =
    let asked = ap (from_link answers) link ∙ from_link_lem answers a b c d e f x y z random h in
    let requests = from_mode_lem answers answers.mode _ asked in
    (rw (at, rotate_sta_mac) (rw on requests), omega arith, omega arith, omega arith)
