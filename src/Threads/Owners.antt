-- ===== src/Threads/Owners.antt =====
-- Who runs the sessions: the threads of the TCP server's slots (src/tcp_nmea_server.c), and the thread
-- of the TCP client (src/tcp_nmea_client.c), one session at a time each.
use esp_nmea_bridge_zephyr.Base.{
  ℕ, ◌≡◌, ◌≢◌, true, Option, none, some, List, String, map, get_elem?, set, modify, replicate,
}
use esp_nmea_bridge_zephyr.Zephyr.{ok, Msgq}
use esp_nmea_bridge_zephyr.Config.{Config}
use esp_nmea_bridge_zephyr.NmeaBridge.{Frame, Bridge}
use esp_nmea_bridge_zephyr.NmeaBridge.Sinks.{sink_open, sink_close}
use esp_nmea_bridge_zephyr.TcpNmeaServer.{
  Client, accept_client, end_client, server_start, server_statics,
}
use esp_nmea_bridge_zephyr.Threads.{opened, leaving, World, with_bridge, at_phase, boot, Step}
use esp_nmea_bridge_zephyr.Threads.Holders.{is_held}

-- A thread that runs sessions: it waits for a connection, has one and is about to open its sink, has a
-- sink, or is behind its session.
pub data Stage : Type 0 where
  idle starting returning : Stage
  has_sink : ℕ → Stage

-- The state with the slots of the server, the stage of each slot's thread, and that of the client's.
pub record Program (Q : Type 0) : Type 0 where
  pub world : World Q
  pub clients : List Client
  pub stages : List Stage
  pub client_stage : Stage

-- `none` is the client's thread, `some i` the one of slot `i`.
abbrev pub stage_of : {Q : Type 0} → Program Q → Option ℕ → Option Stage
stage_of f none = some f.client_stage
stage_of f (some i) = get_elem? f.stages i

abbrev pub with_stage : {Q : Type 0} → Program Q → Option ℕ → Stage → Program Q
with_stage f none s = record f { client_stage = s }
with_stage f (some i) s = record f { stages = set f.stages i s }

abbrev pub with_world : {Q : Type 0} → Program Q → World Q → Program Q
with_world f w = record f { world = w }

module _ {Q : Type 0} ⦃m : Msgq Frame Q⦄ (cfg : Config) where
  abbrev pub start : Q → Program Q
  start raw = record {
    world = boot cfg raw;
    clients = (server_start cfg (server_statics cfg)).0.clients;
    stages = replicate cfg.tcp_nmea_server_max_clients idle;
    client_stage = idle;
  }

  -- `inside` is a step that opens and closes no sink. A slot is free again when its thread has closed
  -- it.
  pub data Go : Program Q → Program Q → Type 0 where
    inside :
        (f : Program Q) (w : World Q)
        → Step cfg f.world w
        → map is_held w.holders ≡ map is_held f.world.holders
        → Go f (with_world f w)
    accept :
        (f : Program Q) (fd i : ℕ) (cs : List Client) (closed : List ℕ)
        → cfg.tcp_nmea_server_enable ≡ true
        → accept_client f.clients fd ≡ (cs, some i, closed)
        → Go f (record f { clients = cs; stages = set f.stages i starting })
    reject :
        (f : Program Q) (fd : ℕ) (cs : List Client) (closed : List ℕ)
        → accept_client f.clients fd ≡ (cs, none, closed)
        → Go f (record f { clients = cs })
    connect :
        (f : Program Q)
        → cfg.tcp_nmea_client_enable ≡ true
        → f.client_stage ≡ idle
        → Go f (record f { client_stage = starting })
    open_sink :
        (f : Program Q) (owner : Option ℕ) (name : Option String) (i : ℕ) (b : Bridge Q)
        → stage_of f owner ≡ some starting
        → sink_open f.world.shared.bridge (some (record { id = none })) name
          ≡ (ok, some (record { id = some i }), b)
        → Go f (
            with_stage
              (with_world f (at_phase (with_bridge f.world b) i (some opened)))
              owner
              (has_sink i))
    fail :
        (f : Program Q) (owner : Option ℕ) (name : Option String)
        → stage_of f owner ≡ some starting
        → (sink_open f.world.shared.bridge (some (record { id = none })) name).0 ≢ ok
        → Go f (with_stage f owner returning)
    close_sink :
        (f : Program Q) (owner : Option ℕ) (i : ℕ)
        → stage_of f owner ≡ some (has_sink i)
        → get_elem? f.world.holders i ≡ some (some leaving)
        → Go f (
            with_stage
              (with_world f (
                at_phase
                  (with_bridge f.world
                    (sink_close f.world.shared.bridge (some (record { id = some i }))).1)
                  i
                  none))
              owner
              returning)
    release :
        (f : Program Q) (i : ℕ)
        → get_elem? f.stages i ≡ some returning
        → Go f (record f { clients = modify f.clients i end_client; stages = set f.stages i idle })
    disconnect :
        (f : Program Q) → f.client_stage ≡ returning → Go f (record f { client_stage = idle })

  pub data Run (f : Program Q) : Program Q → Type 0 where
    here : Run f f
    next : {g h : Program Q} → Run f g → Go g h → Run f h
