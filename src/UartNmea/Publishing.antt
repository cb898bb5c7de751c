-- ===== src/UartNmea/Publishing.antt =====
-- What holds of the receiving thread on any input: its buffer, and what it asks of the bridge.
use esp_nmea_bridge_zephyr.Base.{
  ℕ, ◌+◌, ◌^◌, ◌≤◌, ◌<◌, ◌≡◌, refl, ◌∙◌, List, [], ◌∷◌, ◌++◌, arith, length, length-append, u32,
  some,
}
use esp_nmea_bridge_zephyr.Zephyr.{Msgq}
use esp_nmea_bridge_zephyr.Config.{Config, InRange}
use esp_nmea_bridge_zephyr.NmeaBridge.{Frame}
use esp_nmea_bridge_zephyr.NmeaBridge.Invariant.{IsValid, publish_frame-IsValid}
use esp_nmea_bridge_zephyr.NmeaBridge.Opens.{sinks-publish_frame}
use esp_nmea_bridge_zephyr.StatusLed
use esp_nmea_bridge_zephyr.StatusLedPolicy
use esp_nmea_bridge_zephyr.NmeaBridge.Delivery.{publish_frame-ok}
use esp_nmea_bridge_zephyr.UartNmea.{Uart, rx_byte, rx_burst}

module _ {Q : Type 0} ⦃m : Msgq Frame Q⦄ (cfg : Config) where
  -- The line is within its buffer, and the bridge is valid.
  pub record Fits (u : Uart Q) : Type 0 where
    pub line_len : length u.line ≤ cfg.nmea_frame_max_len
    pub valid : IsValid cfg u.bridge
    pub bytes_rx : u.uart_stats.bytes_rx < 2 ^ 32

  -- From `u` to `v` the bridge has refused nothing, and `n` bytes were counted.
  pub record Receives (n : ℕ) (u v : Uart Q) : Type 0 where
    pub fits : Fits v
    pub publish_invalid :
        v.bridge.bridge_stats.publish_invalid ≡ u.bridge.bridge_stats.publish_invalid
    pub publish_oversize :
        v.bridge.bridge_stats.publish_oversize ≡ u.bridge.bridge_stats.publish_oversize
    pub bytes_rx : v.uart_stats.bytes_rx ≡ u32 (u.uart_stats.bytes_rx + n)

  rx_byte-Receives :
      (u : Uart Q) (ch t : ℕ) → InRange cfg → Fits u → Receives 1 u (rx_byte cfg u (ch, t))
  unfolding rx_byte
  rx_byte-Receives u ch t r v =
      let line : List ℕ = u.line ++ ch ∷ [] in
      ground (
        arith,
        length-append u.line (ch ∷ []),
        publish_frame-ok cfg u.bridge line r v.valid,
        publish_frame-IsValid cfg u.bridge (some line) (length line) v.valid,
      )

  -- On any bytes whatever, from a valid state: the line never outgrows its buffer, the bridge stays
  -- valid, every frame that is published is accepted, so that `publish_invalid` and
  -- `publish_oversize` do not change, and `bytes_rx` counts every byte modulo 2^32.
  pub rx_burst-Receives :
      (cs : List (ℕ × ℕ)) (u : Uart Q)
      → InRange cfg
      → Fits u
      → Receives (length cs) u (rx_burst cfg u cs)
  unfolding rx_burst
  rx_burst-Receives [] u r v = record {
    fits = v;
    publish_invalid = refl;
    publish_oversize = refl;
    bytes_rx = omega arith;
  }
  rx_burst-Receives ((ch, t) ∷ cs) u r v =
      let one = rx_byte-Receives u ch t r v in
      let more = rx_burst-Receives cs (rx_byte cfg u (ch, t)) r one.fits in
      record {
        fits = more.fits;
        publish_invalid = more.publish_invalid ∙ one.publish_invalid;
        publish_oversize = more.publish_oversize ∙ one.publish_oversize;
        bytes_rx = omega (arith, more.bytes_rx, one.bytes_rx);
      }

  -- A byte leaves the sinks alone, and the LED's count.
  pub rx_byte-Keeps :
      (u : Uart Q) (ch t : ℕ)
      → IsValid cfg u.bridge
      → let v = rx_byte cfg u (ch, t) in
        IsValid cfg v.bridge
        × (v.bridge.sinks ≡ u.bridge.sinks)
        × (v.led.state.active_tcp_nmea_sessions ≡ u.led.state.active_tcp_nmea_sessions)
  unfolding rx_byte StatusLed.nmea_frame_received StatusLedPolicy.nmea_frame_received
  rx_byte-Keeps u ch t v =
      let line : List ℕ = u.line ++ ch ∷ [] in
      let valid = publish_frame-IsValid cfg u.bridge (some line) (length line) v in
      let sinks = sinks-publish_frame cfg u.bridge (some line) (length line) in
      (ground (arith, valid), ground (arith, sinks), ground arith)
