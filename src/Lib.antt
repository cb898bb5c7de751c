-- ===== src/Lib.antt =====
-- A model of the ESP NMEA bridge, firmware that takes NMEA-0183 sentences from a UART and serves
-- them to TCP sessions over Wi-Fi.
--
-- The program's threads share a few variables: the receiving thread of src/uart_nmea.c cuts bytes
-- into lines and publishes them to src/nmea_bridge.c; its dispatcher fans each frame out to the open
-- sinks, and each session of src/tcp_nmea_session.c sends the frames of its sink to its peer: the
-- server's clients (src/tcp_nmea_server.c), or the server that src/tcp_nmea_client.c connects to.
-- src/status_led.c shows on an LED what src/status_led_policy.c makes of the events, and
-- src/bridge_telemetry.c turns the counters of all parts into a snapshot, which src/web_app.c serves
-- as a document over HTTP, beside a few files. src/wifi_manager.c keeps the station connected, and
-- src/main.c starts everything.
--
-- Files:
--   Base, Base/*        native numbers, lists, machine words and integers
--   Zephyr              error numbers, time-outs, and the message queue as an interface: an instance
--                       argument with the documented behaviour of k_msgq_put, _get and _purge as laws
--   Config              the settings of Kconfig as a record, with their ranges and the BUILD_ASSERT
--   NmeaBridge          src/nmea_bridge.c: put_drop_oldest, the dispatcher (dispatch), init, publish
--   NmeaBridge/Sinks    its sink_open, sink_close, sink_take and statistics
--   NmeaBridge/*        Queueing, Invariant, Fanout, Slots, Opens, Handles, Delivery, Keeping:
--                       proofs
--   UartNmea, /*        src/uart_nmea.c: rx_byte, rx_burst, rx_bursts; Framing, Lines, Publishing
--   StatusLedPolicy, /* src/status_led_policy.c; Flash, Pulse, Sessions
--   StatusLed, /*       src/status_led.c; Retry, and Strip for the observer against the LED strip
--   BridgeTelemetry, /* src/bridge_telemetry.c; Snapshots, Polling; Live for the parts it asks
--   TcpNmeaSession, /*  src/tcp_nmea_session.c: drain_socket_rx, send_all, run; Sending, Counting,
--                       Rounds, Running; Arriving, Visits, Delivering for the way from the
--                       UART to the wire
--   TcpNmeaClient, /*   src/tcp_nmea_client.c: connect_server, client_round; Rounds, Backoff
--   TcpNmeaServer, /*   src/tcp_nmea_server.c: alloc_client, accept_client, close_client;
--                       Clients, Slots; Serving for its server_thread and client_thread
--   WifiManager         src/wifi_manager.c: the station's variables, its event handlers and queries
--   WifiManager/Sta     its connect_sta, disconnect_sta and the rounds of sta_retry_thread
--   WifiManager/Setup   its enable_ap, start_dhcp_server, rotate_sta_mac and wifi_manager_start
--   WifiManager/*       Stalls, Races, Backoff, Setup/Mac, Setup/Starting: proofs
--   Text, Text/*        texts as bytes: decimal numbers, formatted printing, strncmp and strchr, with
--                       readers of printed text in Decimal and Format, and buffers in CString
--   WebApp              src/web_app.c: send_all, the responses, find_asset; WebApp/Json
--                       for its write_status_json
--   WebApp/Client       its handle_client; Client/Answers and Client/Routes: proofs
--   WebApp/Listener     its web_app_thread and web_app_start; Listener/Serving
--   WebApp/*            Replies, Status, Assets: proofs; Document lists the members of the status document
--                       as the page's src/web_assets/app.js reads them
--   Main, Main/*        src/main.c: main, and a round of stats_thread; Booting, Handover: proofs
--   Threads, Threads/*  the threads' calls on the shared variables as steps in any order; Course for
--                       one session's own among them; Holders, Invariant, Opening, Reachable,
--                       Sessions: proofs
--   Threads/Owners      the threads of the server's slots and of the client, which run the sessions;
--                       Fitting, Enough: proofs
--   NmeaDnsSd, /*       src/nmea_dns_sd.c: the services advertised; Records reads their TXT data
--   Fixtures, */Tests   a concrete message queue and configuration, and runs on concrete inputs
--
-- Conventions: a function of the source keeps its name without the prefix of its module, and a
-- function that updates shared variables returns their new values. Unsigned counters wrap where the
-- source's do (u8, u16, u32). A null pointer is the none of an Option. A region under a mutex is one
-- step. src/wifi_manager.c takes none: its handlers and queries are modelled whole, and
-- sta_ready_during lets other threads run inside the query. What other threads do during a wait is an argument of the waiting call. Uptimes are numbers
-- of milliseconds. No definition runs on fuel: the endless loops of the threads are modelled by one
-- round, and by lists of rounds, bytes or events. The results of socket calls are given as lists;
-- where one ends too soon, the code is still running and the model returns none.
--
-- The texts that snprintk prints are those that the C standard gives for snprintf with %s, %u and
-- %zu; what memory holds behind a printed text is an argument.
--
-- Not modelled: the thread objects of the TCP server's slots; logging, but for the
-- numbers that the thread of src/main.c logs; the web assets, which are constant data; thread stacks
-- and priorities.
pub mod Base
pub mod Zephyr
pub mod Config
pub mod Main
pub mod NmeaBridge
pub mod StatusLedPolicy
pub mod StatusLed
pub mod UartNmea
pub mod BridgeTelemetry
pub mod TcpNmeaSession
pub mod TcpNmeaClient
pub mod TcpNmeaServer
pub mod WifiManager
pub mod Threads
pub mod NmeaDnsSd
pub mod Text
pub mod WebApp
pub mod Fixtures
