-- ===== src/Main/Booting.antt =====
-- How `main` goes from reset on.
use esp_nmea_bridge_zephyr.Base.{
  arith, Bool-cases, inl, inr, ◌≡◌, refl, sym, ◌∙◌, Bool, true, false, ◌&&◌, List, [], ◌∷◌, ◌++◌,
  if◌then◌else◌,
}
use esp_nmea_bridge_zephyr.Zephyr.{enodev, Status, ok, err, Msgq}
use esp_nmea_bridge_zephyr.Config.{Config, InRange}
use esp_nmea_bridge_zephyr.NmeaBridge
use esp_nmea_bridge_zephyr.NmeaBridge.{Frame}
use esp_nmea_bridge_zephyr.NmeaBridge.Invariant.{IsValid, init-IsValid}
use esp_nmea_bridge_zephyr.StatusLed
use esp_nmea_bridge_zephyr.UartNmea
use esp_nmea_bridge_zephyr.TcpNmeaSession.{Shared}
use esp_nmea_bridge_zephyr.TcpNmeaServer.{server_start, server_statics}
use esp_nmea_bridge_zephyr.TcpNmeaClient.{client_start}
use esp_nmea_bridge_zephyr.WifiManager.{wifi_statics}
use esp_nmea_bridge_zephyr.WifiManager.Sta.{WifiConfig}
use esp_nmea_bridge_zephyr.WifiManager.Setup.{wifi_manager_start}
use esp_nmea_bridge_zephyr.WifiManager.Setup.Starting.{sta_retry_enabled-wifi_manager_start}
use esp_nmea_bridge_zephyr.WebApp.Listener.{web_app_start}
use esp_nmea_bridge_zephyr.Main.{
  System, Action, led_thread, uart_thread, server_thread, client_thread, web_thread, slept_s, Board,
  if_created, warning, requests, led_start, at_reset, network_started, after_uart, main,
}

server_created :
    (cfg : Config) → (server_start cfg (server_statics cfg)).1 ≡ cfg.tcp_nmea_server_enable
unfolding server_start server_statics
server_created cfg = ground arith

client_created : (cfg : Config) → (client_start cfg false).1 ≡ cfg.tcp_nmea_client_enable
unfolding client_start
client_created cfg = ground arith

web_created : (web_app_enable : Bool) → (web_app_start web_app_enable false).1 ≡ web_app_enable
unfolding web_app_start
web_created web_app_enable = ground arith

module _ {Q : Type 0} ⦃m : Msgq Frame Q⦄ (cfg : Config) (wifi_cfg : WifiConfig)
    (web_app_enable : Bool) where
  -- The threads and the calls from reset on, if the UART is ready.
  pub network_actions : Board Q → List Action
  network_actions b =
      let (wifi, ret, reqs) = wifi_manager_start wifi_cfg b.pton b.wifi_answers wifi_statics in
      uart_thread ∷ slept_s 5 ∷ requests reqs
      ++ warning ret
      ++ if_created cfg.tcp_nmea_server_enable server_thread
      ++ if_created cfg.tcp_nmea_client_enable client_thread
      ++ if_created web_app_enable web_thread

  pub record Boots (b : Board Q) (ret : Status) (s : System Q) (actions : List Action)
      : Type 0 where
    pub result : ret ≡ (if b.uart_ready then ok else err enodev)
    pub order :
        actions
        ≡ if_created (cfg.status_led_enable && b.has_strip && b.strip_ready) led_thread
          ++ (if b.uart_ready then network_actions b else [])
    pub bridge : IsValid cfg s.shared.bridge
    pub retrying : s.wifi.sta_retry_enabled ≡ b.uart_ready
    pub uart : s.uart_started ≡ b.uart_ready

  led_start_lem :
      (b : Board Q)
      → (led_start cfg StatusLed.not_started b.has_strip b.strip_ready b.uptime_ms).1
        ≡ (cfg.status_led_enable && b.has_strip && b.strip_ready)
  unfolding led_start StatusLed.start
  led_start_lem b = ground arith

  -- What the parts share when `uart_nmea_start` is called.
  start_shared : Board Q → Q → Shared Q
  unfolding led_start
  start_shared b raw = record {
    bridge = NmeaBridge.init cfg (NmeaBridge.statics cfg raw);
    led = (led_start cfg StatusLed.not_started b.has_strip b.strip_ready b.uptime_ms).0;
    active_sessions = 0;
  }

  Reached : Board Q → Q → Type 0
  Reached b raw =
      let (ret, s, actions) = main cfg wifi_cfg web_app_enable (at_reset cfg raw) b in
      Boots b ret s actions

  with_uart :
      (b : Board Q) (raw : Q)
      → IsValid cfg (b.in_sleep (start_shared b raw)).bridge
      → b.uart_ready ≡ true
      → Reached b raw
  unfolding Reached main after_uart network_started UartNmea.start network_actions start_shared
  with_uart b raw valid on = simp on (record {
    result = rw on refl;
    order =
        rw (on, led_start_lem b, server_created cfg, client_created cfg, web_created web_app_enable)
          refl;
    bridge = valid;
    retrying =
        sta_retry_enabled-wifi_manager_start wifi_cfg b.pton b.wifi_answers wifi_statics ∙ sym on;
    uart = sym on;
  })

  without_uart : (b : Board Q) (raw : Q) → InRange cfg → b.uart_ready ≡ false → Reached b raw
  unfolding Reached main after_uart UartNmea.start
  without_uart b raw range off = simp off (record {
    result = rw off refl;
    order = rw (off, led_start_lem b) refl;
    bridge = init-IsValid cfg raw range;
    retrying = sym off;
    uart = sym off;
  })

  -- From reset, with settings in their ranges and threads that keep the bridge well-formed during the
  -- sleep of `main`: it fails with -ENODEV exactly if the UART is not ready, and then starts nothing but
  -- the LED. Otherwise it returns 0, whatever the Wi-Fi manager answers: it creates the UART's thread
  -- before anything of the network, sleeps for 5 s, makes the requests of the Wi-Fi manager, warns if
  -- these fail, and creates the threads of the enabled parts in this order: server, client, web app.
  -- Either way the bridge is well-formed; the retry thread of the Wi-Fi manager is let loose exactly
  -- if the UART is ready.
  pub main-Boots :
      (b : Board Q) (raw : Q)
      → InRange cfg
      → ((s : Shared Q) → IsValid cfg s.bridge → IsValid cfg (b.in_sleep s).bridge)
      → let (ret, s, actions) = main cfg wifi_cfg web_app_enable (at_reset cfg raw) b in
        Boots b ret s actions
  unfolding Reached start_shared
  main-Boots b raw range keep = elim (Bool-cases b.uart_ready) [
    | inl on ↦ with_uart b raw (keep (start_shared b raw) (init-IsValid cfg raw range)) on
    | inr off ↦ without_uart b raw range off
  ]
