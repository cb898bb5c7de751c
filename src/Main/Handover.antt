-- ===== src/Main/Handover.antt =====
-- What `main` hands over: a state that the threads of the firmware reach from boot.
use esp_nmea_bridge_zephyr.Base.{Bool-cases, inl, inr, ◌≡◌, refl, subst, arith, Bool, true, false}
use esp_nmea_bridge_zephyr.Zephyr.{Msgq}
use esp_nmea_bridge_zephyr.Config.{Config}
use esp_nmea_bridge_zephyr.NmeaBridge.{Frame}
use esp_nmea_bridge_zephyr.StatusLed
use esp_nmea_bridge_zephyr.UartNmea
use esp_nmea_bridge_zephyr.WifiManager.Sta.{WifiConfig}
use esp_nmea_bridge_zephyr.Threads
use esp_nmea_bridge_zephyr.Threads.{World, with_led, boot}
use esp_nmea_bridge_zephyr.Threads.Owners
use esp_nmea_bridge_zephyr.Threads.Owners.{Program, Run, with_world}
use esp_nmea_bridge_zephyr.Main.{Board, led_start, at_reset, network_started, after_uart, main}

module _ {Q : Type 0} ⦃m : Msgq Frame Q⦄ (cfg : Config) (raw : Q) where
  -- The LED as `main` starts it.
  led_of : Board Q → StatusLed.StatusLed
  led_of b = (led_start cfg StatusLed.not_started b.has_strip b.strip_ready b.uptime_ms).0

  abbrev lit : Board Q → Program Q
  lit b = with_world (Owners.start cfg raw) (with_led (boot cfg raw) (led_of b))

  led_of-on :
      (b : Board Q)
      → cfg.status_led_enable ≡ true
      → (StatusLed.start StatusLed.not_started b.has_strip b.strip_ready b.uptime_ms).0 ≡ led_of b
  unfolding led_of led_start
  led_of-on b on = ground arith

  led_of-off : (b : Board Q) → cfg.status_led_enable ≡ false → StatusLed.not_started ≡ led_of b
  unfolding led_of led_start
  led_of-off b off = ground arith

  lit-Run : (b : Board Q) → Run cfg (Owners.start cfg raw) (lit b)
  lit-Run b =
      let first : Program Q = Owners.start cfg raw in
      let Lights : StatusLed.StatusLed → Type 0 =
        λ led. Run cfg first (with_world first (with_led (boot cfg raw) led)) in
      elim (Bool-cases cfg.status_led_enable) [
        | inl on ↦ subst Lights (led_of-on b on) (
            Owners.next Owners.here (
              Owners.inside first _
                (Threads.start_led (boot cfg raw) b.has_strip b.strip_ready b.uptime_ms) refl))
        | inr off ↦ subst Lights (led_of-off b off) Owners.here
      ]

  -- Where the UART is ready, and what the threads do in the sleep of `main` are steps of theirs that
  -- leave the server's slots alone: what `main` leaves of the shared variables and of the server's
  -- slots is what a state has that the threads reach from boot by their steps.
  pub main-Run :
      (wifi_cfg : WifiConfig) (web_app_enable : Bool) (b : Board Q)
      → b.uart_ready ≡ true
      → ((f : Program Q)
          → Run cfg (Owners.start cfg raw) f
          → (g : Program Q) × Run cfg (Owners.start cfg raw) g
            × (g.world.shared ≡ b.in_sleep f.world.shared)
            × (g.clients ≡ f.clients))
      → let (ret, s, actions) = main cfg wifi_cfg web_app_enable (at_reset cfg raw) b in
        (f : Program Q) × Run cfg (Owners.start cfg raw) f
        × (f.world.shared ≡ s.shared)
        × (f.clients ≡ s.server.clients)
  unfolding main after_uart network_started UartNmea.start led_of
  main-Run wifi_cfg web_app_enable b on sleeps =
      let (g, run, shared, clients) = sleeps (lit b) (lit-Run b) in
      simp on (g, run, shared, clients)
