-- ===== src/Fixtures.antt =====
-- Concrete inputs for the tests: a message queue as a list, which meets the laws of the interface, and
-- a configuration in the Kconfig ranges.
use esp_nmea_bridge_zephyr.Base.{
  ℕ, ◌≤◌, ◌<◌, ◌≡◌, refl, true, false, Option, none, some, List, [], ◌∷◌, ◌++◌, arith,
  if◌then◌else◌, ltb, length,
}
use esp_nmea_bridge_zephyr.Zephyr.{ok, err, enomsg, Status, Timeout, expired, Msgq}
use esp_nmea_bridge_zephyr.Config.{Config, InRange}
use esp_nmea_bridge_zephyr.NmeaBridge.{Frame, no_bridge_stats, statics}
use esp_nmea_bridge_zephyr.StatusLed.{not_started}
use esp_nmea_bridge_zephyr.WifiManager.{wifi_statics}
use esp_nmea_bridge_zephyr.BridgeTelemetry.{disconnected, idle, Snapshot, no_state}
use esp_nmea_bridge_zephyr.BridgeTelemetry.Live.{Firmware}

pub record ListQueue : Type 0 where
  pub items : List Frame
  pub depth : ℕ

abbrev pub put_list : ListQueue → Frame → Status × ListQueue
put_list q f =
    if ltb (length q.items) q.depth
    then (ok, record q { items = q.items ++ f ∷ [] })
    else (err enomsg, q)

abbrev pub get_from : Timeout → List Frame → ℕ → Status × Option Frame × ListQueue
get_from t [] d = (err (expired t), none, record { items = []; depth = d })
get_from t (f ∷ fs) d = (ok, some f, record { items = fs; depth = d })

pub depth-put_list : (q : ListQueue) (f : Frame) → (put_list q f).1.depth ≡ q.depth
depth-put_list q f = ground arith

pub depth-get_from : (t : Timeout) (fs : List Frame) (d : ℕ) → (get_from t fs d).2.depth ≡ d
depth-get_from t [] d = refl
depth-get_from t (f ∷ fs) d = refl

pub put_list_room :
    (q : ListQueue) (f : Frame)
    → length q.items < q.depth
    → ((put_list q f).0 ≡ ok) × ((put_list q f).1.items ≡ q.items ++ f ∷ [])
put_list_room q f h = ground arith

pub put_list_full :
    (q : ListQueue) (f : Frame)
    → q.depth ≤ length q.items
    → ((put_list q f).0 ≡ err enomsg) × ((put_list q f).1.items ≡ q.items)
put_list_full q f h = ground arith

pub get_from_empty :
    (t : Timeout) (q : ListQueue)
    → q.items ≡ []
    → ((get_from t q.items q.depth).0 ≡ err (expired t))
      × ((get_from t q.items q.depth).1 ≡ none)
      × ((get_from t q.items q.depth).2.items ≡ [])
get_from_empty t q e = ground arith

pub get_from_first :
    (t : Timeout) (q : ListQueue) (f : Frame) (fs : List Frame)
    → q.items ≡ f ∷ fs
    → ((get_from t q.items q.depth).0 ≡ ok)
      × ((get_from t q.items q.depth).1 ≡ some f)
      × ((get_from t q.items q.depth).2.items ≡ fs)
get_from_first t q f fs e = ground arith

instance abbrev pub list_msgq : Msgq Frame ListQueue
list_msgq = record {
  contents = λ q. q.items;
  capacity = λ q. q.depth;
  init = λ d. record { items = []; depth = d };
  put = put_list;
  get = λ t q. get_from t q.items q.depth;
  purge = λ q. record q { items = [] };
  contents-init = λ d. refl;
  capacity-init = λ d. refl;
  contents-purge = λ q. refl;
  capacity-purge = λ q. refl;
  capacity-put = depth-put_list;
  capacity-get = λ t q. depth-get_from t q.items q.depth;
  put_room = put_list_room;
  put_full = put_list_full;
  get_empty = get_from_empty;
  get_first = get_from_first;
}

-- A line has at most 32 bytes; two frames fit the queue of a sink, three the ingest queue.
abbrev pub small : Config
small = record {
  tcp_nmea_server_enable = true;
  tcp_nmea_client_enable = true;
  status_led_enable = true;
  tcp_nmea_server_max_clients = 2;
  nmea_sinks_max = 3;
  nmea_frame_max_len = 32;
  ingest_queue_depth = 3;
  sink_queue_depth = 2;
}

pub small-InRange : InRange small
small-InRange = omega arith

-- The parts at reset, with a frame counted and a session open, and a snapshot.
abbrev pub firmware : Firmware ListQueue
firmware = record {
  uart_stats = record { bytes_rx = 80; lines_rx = 2; overlong_lines = 1 };
  shared = record {
    bridge = record (statics small (record { items = []; depth = 0 })) {
      bridge_stats = record no_bridge_stats { frames_in = 1 };
    };
    led = not_started;
    active_sessions = 1;
  };
  server = record {
    clients = record { fd = some 5; active = true } ∷ record { fd = none; active = false } ∷ [];
    started = true;
  };
  wifi = wifi_statics;
  net = record { unicast = none; gateway = 0 };
  telemetry = no_state;
}

abbrev pub no_snapshot : Snapshot
no_snapshot = record {
  connection_state = disconnected;
  input_state = idle;
  warnings = record { data_quality = false; frame_loss = false };
  sta_ready = false;
  counters = record {
    uart_bytes_rx = 0;
    uart_lines_rx = 0;
    uart_overlong_lines = 0;
    bridge_frames_in = 0;
    bridge_ingest_dropped_oldest = 0;
    bridge_sink_dropped_oldest = 0;
    bridge_publish_no_sinks = 0;
    bridge_publish_invalid = 0;
    bridge_publish_oversize = 0;
    tcp_nmea_active_sessions = 0;
    tcp_server_active_clients = 0;
    tcp_server_max_clients = 0;
  };
}
