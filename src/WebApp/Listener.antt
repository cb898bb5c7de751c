-- ===== src/WebApp/Listener.antt =====
-- `web_app_thread` and `web_app_start`: the listening socket, and the connections one after the other.
pub mod Serving
use esp_nmea_bridge_zephyr.Base.{
  ℕ, Bool, true, false, not, Option, none, some, List, [], ◌∷◌, ◌++◌, if◌then◌else◌,
}
use esp_nmea_bridge_zephyr.Zephyr.{Listening}
use esp_nmea_bridge_zephyr.Text.{Bytes}
use esp_nmea_bridge_zephyr.WebApp.{Site, Sent}
use esp_nmea_bridge_zephyr.WebApp.Client.{Connection, handle_client}
use esp_nmea_bridge_zephyr.BridgeTelemetry.Live.{Firmware}

-- What `zsock_accept` gives: a socket, and what its handling meets; or an error.
pub data Accepted : Type 0 where
  accepted : ℕ → Connection → Accepted
  accept_failed : Accepted

-- The calls that the thread makes, but for those on the socket that it serves.
pub data Call : Type 0 where
  served : ℕ → Bytes → Call
  closed : ℕ → Call
  slept_s : ℕ → Call

module _ {Q : Type 0} (site : Site) where
  served_then :
      ℕ
      → Option (Firmware Q × Sent)
      → (Firmware Q → Option (Firmware Q × List Call))
      → Option (Firmware Q × List Call)
  served_then fd none rest = none
  served_then fd (some (fw, s)) rest = elim (rest fw) [
    | none ↦ none
    | some (fw', calls) ↦ some (fw', served fd s.wire ∷ closed fd ∷ calls)
  ]

  slept_then : Option (Firmware Q × List Call) → Option (Firmware Q × List Call)
  slept_then none = none
  slept_then (some (fw, calls)) = some (fw, slept_s 1 ∷ calls)

  -- The endless loop, over the results of `zsock_accept` and what other threads do while it waits.
  pub accept_loop :
      Firmware Q → List ((Firmware Q → Firmware Q) × Accepted) → Option (Firmware Q × List Call)
  unfolding served_then slept_then
  accept_loop fw [] = some (fw, [])
  accept_loop fw ((others, accept_failed) ∷ rs) = slept_then (accept_loop (others fw) rs)
  accept_loop fw ((others, accepted fd conn) ∷ rs) =
      served_then fd (handle_client site (others fw) conn) (λ fw'. accept_loop fw' rs)

  -- The thread once `zsock_socket` has returned; `none` stands for a negative descriptor.
  with_socket :
      Firmware Q
      → Listening
      → Option (Firmware Q × List Call)
      → Option ℕ
      → Option (Firmware Q × List Call)
  with_socket fw l run none = some (fw, [])
  with_socket fw l run (some fd) =
      if not l.bind_ok
      then some (fw, closed fd ∷ [])
      else if not l.listen_ok
      then some (fw, closed fd ∷ [])
      else run

  pub web_app_thread :
      Firmware Q
      → Listening
      → List ((Firmware Q → Firmware Q) × Accepted)
      → Option (Firmware Q × List Call)
  unfolding accept_loop with_socket
  web_app_thread fw l rs = with_socket fw l (accept_loop fw rs) l.socket

-- `web_app_start`, with CONFIG_ESP_NMEA_BRIDGE_WEB_APP_ENABLE: the flag `started`, and whether it
-- creates the thread. It returns 0.
unfoldable pub web_app_start : Bool → Bool → Bool × Bool
web_app_start enable started = if not enable then (started, false) else (true, not started)
