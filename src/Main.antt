-- ===== src/Main.antt =====
-- src/main.c: `main`, which starts the other parts one after the other, and a round of the thread that
-- logs the statistics.
pub mod Booting
pub mod Handover
mod Tests
use esp_nmea_bridge_zephyr.Base.{
  ℕ, Bool, false, List, [], ◌∷◌, ◌++◌, Option, none, some, if◌then◌else◌,
}
use esp_nmea_bridge_zephyr.Zephyr.{Errno, Status, ok, err, Msgq}
use esp_nmea_bridge_zephyr.Config.{Config}
use esp_nmea_bridge_zephyr.NmeaBridge
use esp_nmea_bridge_zephyr.NmeaBridge.{Frame, Bridge, BridgeStats}
use esp_nmea_bridge_zephyr.StatusLed
use esp_nmea_bridge_zephyr.StatusLed.{StatusLed, not_started}
use esp_nmea_bridge_zephyr.UartNmea
use esp_nmea_bridge_zephyr.UartNmea.{UartStats}
use esp_nmea_bridge_zephyr.TcpNmeaSession.{Shared}
use esp_nmea_bridge_zephyr.TcpNmeaServer.{Server, server_start, server_statics}
use esp_nmea_bridge_zephyr.TcpNmeaClient.{client_start}
use esp_nmea_bridge_zephyr.WifiManager.{Wifi, wifi_statics}
use esp_nmea_bridge_zephyr.WifiManager.Sta.{WifiConfig, Request}
use esp_nmea_bridge_zephyr.WifiManager.Setup.{StartAnswers, wifi_manager_start}
use esp_nmea_bridge_zephyr.WebApp.Listener.{web_app_start}

-- The variables of the parts that `main` starts; the `_started` ones are those named `started`.
pub record System (Q : Type 0) : Type 0 where
  pub shared : Shared Q
  pub uart_started : Bool
  pub wifi : Wifi
  pub server : Server
  pub client_started : Bool
  pub web_started : Bool

-- What `main` does for all to see: the threads it creates, the requests to the Wi-Fi driver, its
-- sleep, and its warnings.
pub data Action : Type 0 where
  led_thread uart_thread server_thread client_thread web_thread : Action
  slept_s : ℕ → Action
  asked : Request → Action
  warned : Errno → Action

-- What it meets: the LED strip and the UART, the uptime at the start of the LED, what the threads do
-- in its sleep, and the answers to the Wi-Fi manager.
pub record Board (Q : Type 0) : Type 0 where
  pub has_strip : Bool
  pub strip_ready : Bool
  pub uptime_ms : ℕ
  pub uart_ready : Bool
  pub in_sleep : Shared Q → Shared Q
  pub wifi_answers : StartAnswers
  pub pton : List ℕ → Option (List ℕ)

abbrev pub if_created : Bool → Action → List Action
if_created created thread = if created then thread ∷ [] else []

abbrev pub warning : Status → List Action
warning ok = []
warning (err e) = warned e ∷ []

abbrev pub requests : List Request → List Action
requests [] = []
requests (r ∷ rs) = asked r ∷ requests rs

-- `status_led_start`, an empty inline function without the option.
pub led_start : Config → StatusLed → Bool → Bool → ℕ → StatusLed × Bool
led_start cfg led has_strip strip_ready uptime_ms =
    let started = StatusLed.start led has_strip strip_ready uptime_ms in
    if cfg.status_led_enable then started else (led, false)

module _ {Q : Type 0} ⦃m : Msgq Frame Q⦄ (cfg : Config) where
  -- The variables at reset.
  abbrev pub at_reset : Q → System Q
  at_reset raw = record {
    shared = record { bridge = NmeaBridge.statics cfg raw; led = not_started; active_sessions = 0 };
    uart_started = false;
    wifi = wifi_statics;
    server = server_statics cfg;
    client_started = false;
    web_started = false;
  }

module _ {Q : Type 0} ⦃m : Msgq Frame Q⦄ (cfg : Config) (wifi_cfg : WifiConfig)
    (web_app_enable : Bool) where
  -- From the sleep on. The starts of the server, of the client and of the web app return 0.
  network_started : System Q → Board Q → System Q × List Action
  network_started s b =
      let (wifi, wifi_ret, reqs) = wifi_manager_start wifi_cfg b.pton b.wifi_answers s.wifi in
      let (server, server_created) = server_start cfg s.server in
      let (client_started, client_created) = client_start cfg s.client_started in
      let (web_started, web_created) = web_app_start web_app_enable s.web_started in
      (
        record s {
          shared = b.in_sleep s.shared;
          wifi = wifi;
          server = server;
          client_started = client_started;
          web_started = web_started;
        },
        slept_s 5 ∷ requests reqs
            ++ warning wifi_ret
            ++ if_created server_created server_thread
            ++ if_created client_created client_thread
            ++ if_created web_created web_thread,
      )

  -- What follows on `uart_nmea_start`.
  after_uart : System Q → Board Q → Status × Bool × Bool → Status × System Q × List Action
  unfolding network_started
  after_uart s b (err e, created, started) =
      (err e, record s { uart_started = started }, if_created created uart_thread)
  after_uart s b (ok, created, started) =
      let (s', actions) = network_started (record s { uart_started = started }) b in
      (ok, s', if_created created uart_thread ++ actions)

  -- `main`: its result, the variables, and what it has done, in order.
  pub main : System Q → Board Q → Status × System Q × List Action
  unfolding led_start after_uart
  main s b =
      let (led, led_created) = led_start cfg s.shared.led b.has_strip b.strip_ready b.uptime_ms in
      let s' = record s {
        shared = record s.shared { bridge = NmeaBridge.init cfg s.shared.bridge; led = led };
      } in
      let (ret, s'', actions) = after_uart s' b (UartNmea.start b.uart_ready s.uart_started) in
      (ret, s'', if_created led_created led_thread ++ actions)

-- The numbers that a round of `stats_thread` logs, in order, if its calls have written the variables.
logged : Option UartStats → Option BridgeStats → Option (List ℕ)
logged none b = none
logged (some u) none = none
logged (some u) (some b) = some (
    u.bytes_rx ∷ u.lines_rx ∷ u.overlong_lines ∷ b.frames_in ∷ b.ingest_dropped_oldest
    ∷ b.sink_dropped_oldest ∷ b.publish_no_sinks ∷ b.publish_invalid ∷ b.publish_oversize ∷ [])

-- The round before its sleep of 30 seconds, with what its two variables held.
unfoldable pub stats_round :
    {Q : Type 0} → UartStats → Bridge Q → UartStats → BridgeStats → Option (List ℕ)
unfolding logged
stats_round uart_stats b u s =
    logged (UartNmea.get_stats uart_stats (some u)) (NmeaBridge.get_stats b (some s))
