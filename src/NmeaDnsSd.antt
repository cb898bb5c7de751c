-- ===== src/NmeaDnsSd.antt =====
-- src/nmea_dns_sd.c: the services that the firmware advertises by DNS-SD. The array of a TXT record is
-- the bytes of its literal; the zero that C puts behind them is left out.
pub mod Records
mod Tests
use esp_nmea_bridge_zephyr.Base.{ℕ, Bool, ◌&&◌, List, [], ◌∷◌, ◌++◌, if◌then◌else◌}
use esp_nmea_bridge_zephyr.Config.{Config}
use esp_nmea_bridge_zephyr.Text.{Bytes, bytes}

-- The settings that are read here only, without CONFIG_ and CONFIG_ESP_NMEA_BRIDGE_.
pub record Advertising : Type 0 where
  pub dns_sd_enable : Bool
  pub web_app_enable : Bool
  pub net_hostname : Bytes
  pub tcp_nmea_port : ℕ

-- The arguments of DNS_SD_REGISTER_TCP_SERVICE behind the name of the record.
pub record Service : Type 0 where
  pub instance_name : Bytes
  pub service : Bytes
  pub domain : Bytes
  pub txt : Bytes
  pub port : ℕ

-- WEB_APP_HTTP_PORT
abbrev pub http_port : ℕ
http_port = 80

abbrev pub nmea_txt : Bytes
nmea_txt =
    9 ∷ bytes "txtvers=1"
    ++ 13 ∷ bytes "talkers=GP,AI"
    ++ 18 ∷ bytes "content=gps,ais-rx"
    ++ 13 ∷ bytes "source=maiana"
    ++ 4 ∷ bytes "ro=1"

abbrev pub http_txt : Bytes
http_txt = 9 ∷ bytes "txtvers=1" ++ 6 ∷ bytes "path=/"

abbrev pub nmea0183 : Advertising → Service
nmea0183 a = record {
  instance_name = a.net_hostname;
  service = bytes "_nmea-0183";
  domain = bytes "local";
  txt = nmea_txt;
  port = a.tcp_nmea_port;
}

abbrev pub http : Advertising → Service
http a = record {
  instance_name = a.net_hostname;
  service = bytes "_http";
  domain = bytes "local";
  txt = http_txt;
  port = http_port;
}

-- The records that are built in.
abbrev pub services : Config → Advertising → List Service
services cfg a =
    (if a.dns_sd_enable && cfg.tcp_nmea_server_enable then nmea0183 a ∷ [] else [])
    ++ (if a.dns_sd_enable && a.web_app_enable then http a ∷ [] else [])
