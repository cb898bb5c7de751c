-- ===== src/Main/Tests.antt =====
-- The start-up on concrete inputs.
use esp_nmea_bridge_zephyr.Base.{◌≡◌, refl, true, false, none, some, [], ◌∷◌}
use esp_nmea_bridge_zephyr.Zephyr.{ok, err, eio}
use esp_nmea_bridge_zephyr.Fixtures.{firmware, ListQueue, list_msgq, small, small-InRange}
use esp_nmea_bridge_zephyr.NmeaBridge
use esp_nmea_bridge_zephyr.NmeaBridge.{no_bridge_stats, statics}
use esp_nmea_bridge_zephyr.UartNmea
use esp_nmea_bridge_zephyr.UartNmea.{no_uart_stats}
use esp_nmea_bridge_zephyr.WifiManager.Sta.{WifiConfig}
use esp_nmea_bridge_zephyr.WifiManager.Setup.{StartAnswers}
use esp_nmea_bridge_zephyr.Main.{stats_round, Board, at_reset, main}
use esp_nmea_bridge_zephyr.Threads.Owners.{Program, Run, start}
use esp_nmea_bridge_zephyr.Main.Handover.{main-Run}
use esp_nmea_bridge_zephyr.Main.Booting.{Boots, main-Boots}

abbrev wifi_cfg : WifiConfig
wifi_cfg = record {
  ap_enable = true;
  sta_enable = true;
  ap_ssid = 65 ∷ [];
  ap_psk = [];
  sta_ssid = 66 ∷ [];
  sta_psk = [];
  sta_rotate_mac = false;
  ap_ip_address = 1 ∷ [];
  ap_netmask = 2 ∷ [];
}

abbrev answers : StartAnswers
answers = record {
  sap = some 1;
  sta = some 2;
  mac = record {
    mode = err eio;
    link_addr = none;
    random = [];
    was_up = false;
    down = ok;
    mac = ok;
    up = ok;
  };
  ap = record { netmask_set = false; dhcp = ok; ap = ok };
  in_setup = λ w. w;
  in_pause = λ w. w;
  in_call = λ w. w;
  connect = err eio;
}

abbrev board : Board ListQueue
board = record {
  has_strip = true;
  strip_ready = true;
  uptime_ms = 12;
  uart_ready = true;
  in_sleep = λ s. s;
  wifi_answers = answers;
  pton = λ s. none;
}

abbrev raw : ListQueue
raw = record { items = []; depth = 0 }

main-Boots_example :
    let (ret, s, actions) = main small wifi_cfg true (at_reset small raw) board in
    Boots small wifi_cfg true board ret s actions
main-Boots_example = main-Boots small wifi_cfg true board raw small-InRange (λ s v. v)

stats_round_logs :
    stats_round
      (record { bytes_rx = 80; lines_rx = 2; overlong_lines = 1 })
      firmware.shared.bridge
      no_uart_stats
      no_bridge_stats
    ≡ some (80 ∷ 2 ∷ 1 ∷ 1 ∷ 0 ∷ 0 ∷ 0 ∷ 0 ∷ 0 ∷ [])
unfolding stats_round UartNmea.get_stats NmeaBridge.get_stats statics
stats_round_logs = refl

main-Run_example :
    let (ret, s, actions) = main small wifi_cfg true (at_reset small raw) board in
    (f : Program ListQueue) × Run small (start small raw) f
    × (f.world.shared ≡ s.shared)
    × (f.clients ≡ s.server.clients)
main-Run_example = main-Run small raw wifi_cfg true board refl (λ f run. (f, run, refl, refl))
