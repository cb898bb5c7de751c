-- ===== src/NmeaDnsSd/Tests.antt =====
-- What is advertised, on concrete settings.
use esp_nmea_bridge_zephyr.Base.{◌≡◌, refl, true, false, [], ◌∷◌, map}
use esp_nmea_bridge_zephyr.Fixtures.{small}
use esp_nmea_bridge_zephyr.Text.{bytes}
use esp_nmea_bridge_zephyr.NmeaDnsSd.{Advertising, services}

abbrev advertising : Advertising
advertising = record {
  dns_sd_enable = true;
  web_app_enable = true;
  net_hostname = bytes "nmea";
  tcp_nmea_port = 10110;
}

both_advertised : map (λ s. s.port) (services small advertising) ≡ 10110 ∷ 80 ∷ []
both_advertised = refl

server_only :
    map (λ s. s.service) (services small (record advertising { web_app_enable = false }))
    ≡ bytes "_nmea-0183" ∷ []
server_only = refl

none_advertised : services small (record advertising { dns_sd_enable = false }) ≡ []
none_advertised = refl
