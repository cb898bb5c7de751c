-- ===== src/Threads/Enough.antt =====
-- The sinks are enough for the sessions of the server and the client.
use esp_nmea_bridge_zephyr.Base.{
  ℕ, ◌≤◌, ◌<◌, ◌≡◌, refl, ap, sym, ◌∙◌, true, false, Option, none, some, List, arith, String, map,
  length, length-set, length-replicate, get_elem?, set, replicate, modify,
}
use esp_nmea_bridge_zephyr.Zephyr.{ok, Msgq}
use esp_nmea_bridge_zephyr.Config.{Config, InRange, sessions_max}
use esp_nmea_bridge_zephyr.NmeaBridge.{Frame, Bridge}
use esp_nmea_bridge_zephyr.NmeaBridge.Opens.{handed-Opened}
use esp_nmea_bridge_zephyr.NmeaBridge.Sinks.{sink_open, sink_close}
use esp_nmea_bridge_zephyr.NmeaBridge.Handles.{sink_open-ok}
use esp_nmea_bridge_zephyr.TcpNmeaServer.{Client, end_client}
use esp_nmea_bridge_zephyr.TcpNmeaServer.Slots.{
  active_slots, Taken, accept_client-Taken, accept_client-refused, active-end_client,
  active-server_start,
}
use esp_nmea_bridge_zephyr.Threads.{opened, leaving, World, with_bridge, at_phase}
use esp_nmea_bridge_zephyr.Threads.Holders.{
  is_held, one_if, count, map-set, count-set, count-le, count_active_eq, count-replicate, free-none,
}
use esp_nmea_bridge_zephyr.Threads.Opening.{open_sink-Inv, close_sink-Inv}
use esp_nmea_bridge_zephyr.Threads.Reachable.{Step-Inv, boot-Inv}
use esp_nmea_bridge_zephyr.Threads.Owners.{
  Stage, idle, starting, returning, has_sink, Program, stage_of, with_stage, with_world, start, Go,
  inside, accept, reject, connect, open_sink, fail, close_sink, release, disconnect, Run, here,
  next,
}
use esp_nmea_bridge_zephyr.Threads.Fitting.{
  is_busy, has_one, has-le-busy, has-lt-busy, count-map, idle-slot, idle-replicate, none-replicate,
  Fits, stage-Fits,
}

module _ {Q : Type 0} ⦃m : Msgq Frame Q⦄ (cfg : Config) where
  accept-Fits :
      (f : Program Q) (fd i : ℕ) (cs : List Client)
      → cfg.tcp_nmea_server_enable ≡ true
      → Taken f.clients i cs
      → Fits cfg f
      → Fits cfg (record f { clients = cs; stages = set f.stages i starting })
  accept-Fits f fd i cs on t v =
      let free : get_elem? f.stages i ≡ some idle =
        idle-slot f.stages i (ap (λ xs. get_elem? xs i) (sym v.slots) ∙ t.was) in
      let now : active_slots cs ≡ map is_busy (set f.stages i starting) =
        t.now ∙ ap (λ xs. set xs i true) v.slots ∙ sym (map-set is_busy f.stages i starting) in
      let size : length (set f.stages i starting) ≡ cfg.tcp_nmea_server_max_clients =
        length-set f.stages i starting ∙ v.size in
      record {
        inv = v.inv;
        slots = now;
        size = size;
        held = omega (arith, v.held, count-set has_one f.stages i idle starting free);
        server = rw on (omega (arith, size, count-le is_busy (set f.stages i starting)));
        client = v.client;
      }

  release-Fits :
      (f : Program Q) (i : ℕ)
      → get_elem? f.stages i ≡ some returning
      → Fits cfg f
      → Fits cfg
          (record f { clients = modify f.clients i end_client; stages = set f.stages i idle })
  release-Fits f i at_i v = record {
    inv = v.inv;
    slots =
        active-end_client f.clients i
        ∙ ap (λ xs. set xs i false) v.slots
        ∙ sym (map-set is_busy f.stages i idle);
    size = length-set f.stages i idle ∙ v.size;
    held = omega (arith, v.held, count-set has_one f.stages i returning idle at_i);
    server = omega (arith, v.server, count-set is_busy f.stages i returning idle at_i);
    client = v.client;
  }

  open-Fits :
      (f : Program Q) (owner : Option ℕ) (name : Option String) (i : ℕ) (b : Bridge Q)
      → stage_of f owner ≡ some starting
      → sink_open f.world.shared.bridge (some (record { id = none })) name
        ≡ (ok, some (record { id = some i }), b)
      → Fits cfg f
      → Fits cfg (
          with_stage
            (with_world f (at_phase (with_bridge f.world b) i (some opened)))
            owner
            (has_sink i))
  open-Fits f owner name i b at_owner e v =
      let w : World Q = f.world in
      let o = handed-Opened w.shared.bridge b name i e in
      let free = free-none w.shared.bridge.sinks w.holders i o.old v.inv.owned o.was o.was_free in
      stage-Fits cfg f _ owner starting (has_sink i) at_owner refl refl
        (open_sink-Inv cfg w name i b e v.inv)
        (omega (arith, count-set is_held w.holders i none (some opened) free)) v

  close-Fits :
      (f : Program Q) (owner : Option ℕ) (i : ℕ)
      → stage_of f owner ≡ some (has_sink i)
      → get_elem? f.world.holders i ≡ some (some leaving)
      → Fits cfg f
      → Fits cfg (
          with_stage
            (with_world f (
              at_phase
                (with_bridge f.world
                  (sink_close f.world.shared.bridge (some (record { id = some i }))).1)
                i
                none))
            owner
            returning)
  close-Fits f owner i at_owner at_i v =
      stage-Fits cfg f _ owner (has_sink i) returning at_owner refl refl
        (close_sink-Inv cfg f.world i at_i v.inv)
        (omega (arith, count-set is_held f.world.holders i (some leaving) none at_i)) v

module _ {Q : Type 0} ⦃m : Msgq Frame Q⦄ (cfg : Config) (range : InRange cfg) where
  Go-Fits : (f g : Program Q) → Go cfg f g → Fits cfg f → Fits cfg g
  Go-Fits f g (inside _ w s same) v = record {
    inv = Step-Inv cfg range f.world w s v.inv;
    slots = v.slots;
    size = v.size;
    held = count-map is_held w.holders f.world.holders same ∙ v.held;
    server = v.server;
    client = v.client;
  }
  Go-Fits f g (accept _ fd i cs closed on e) v =
      accept-Fits cfg f fd i cs on (accept_client-Taken f.clients cs fd i closed e) v
  Go-Fits f g (reject _ fd cs closed e) v = record {
    inv = v.inv;
    slots = ap active_slots (accept_client-refused f.clients cs fd closed e) ∙ v.slots;
    size = v.size;
    held = v.held;
    server = v.server;
    client = v.client;
  }
  Go-Fits f g (connect _ on e) v = record {
    inv = v.inv;
    slots = v.slots;
    size = v.size;
    held = omega (arith, v.held, ap (λ x. one_if (has_one x)) e);
    server = v.server;
    client = rw on (omega arith);
  }
  Go-Fits f g (open_sink _ owner name i b at_owner e) v =
      open-Fits cfg f owner name i b at_owner e v
  Go-Fits f g (fail _ owner name at_owner e) v =
      stage-Fits cfg f f.world owner starting returning at_owner refl refl v.inv refl v
  Go-Fits f g (close_sink _ owner i at_owner at_i) v = close-Fits cfg f owner i at_owner at_i v
  Go-Fits f g (release _ i at_i) v = release-Fits cfg f i at_i v
  Go-Fits f g (disconnect _ e) v = record {
    inv = v.inv;
    slots = v.slots;
    size = v.size;
    held = omega (arith, v.held, ap (λ x. one_if (has_one x)) e);
    server = v.server;
    client = omega arith;
  }

  start-Fits : (raw : Q) → Fits cfg (start cfg raw)
  start-Fits raw =
      let n : ℕ = cfg.tcp_nmea_server_max_clients in
      let none_held : count is_held (replicate cfg.nmea_sinks_max none) ≡ 0 =
        count-replicate is_held cfg.nmea_sinks_max refl in
      let none_has : count has_one (replicate n idle) ≡ 0 = none-replicate has_one n refl in
      let none_busy : count is_busy (replicate n idle) ≡ 0 = none-replicate is_busy n refl in
      record {
        inv = boot-Inv cfg range raw;
        slots = active-server_start cfg ∙ idle-replicate n;
        size = length-replicate n idle;
        held = omega (arith, none_held, none_has);
        server = omega (arith, none_busy);
        client = omega arith;
      }

  Run-Fits : (f g : Program Q) → Run cfg f g → Fits cfg f → Fits cfg g
  Run-Fits f g here v = v
  Run-Fits f g (next {g = k} run go) v = Go-Fits k g go (Run-Fits f k run v)

  -- One thread that is about to open its sink leaves a sink for it.
  room-Fits :
      (f : Program Q) (owner : Option ℕ)
      → stage_of f owner ≡ some starting
      → Fits cfg f
      → count is_held f.world.holders < sessions_max cfg
  room-Fits f none at_owner v =
      let e : f.client_stage ≡ starting = cc in
      omega (
        arith,
        v.held,
        v.server,
        v.client,
        has-le-busy f.stages,
        ap (λ x. one_if (has_one x)) e,
        ap (λ x. one_if (is_busy x)) e,
      )
  room-Fits f (some i) at_owner v =
      ground (
        arith,
        v.held,
        v.server,
        v.client,
        has-lt-busy f.stages i at_owner,
        busy-one f.client_stage,
      )
    where
      busy-one : (s : Stage) → one_if (has_one s) ≤ one_if (is_busy s)
      busy-one idle = omega arith
      busy-one starting = omega arith
      busy-one returning = omega arith
      busy-one (has_sink k) = omega arith

  -- With settings in their ranges, from the start of the server and the client on, whatever
  -- connections come and however the threads take turns: a session of a slot of the server or of the
  -- client that is about to open its sink is given one. `nmea_bridge_sink_open` never fails there.
  pub sessions-sink_open :
      (raw : Q) (f : Program Q) (owner : Option ℕ) (name : Option String)
      → Run cfg (start cfg raw) f
      → stage_of f owner ≡ some starting
      → (sink_open f.world.shared.bridge (some (record { id = none })) name).0 ≡ ok
  sessions-sink_open raw f owner name run at_owner =
      let v = Run-Fits (start cfg raw) f run (start-Fits raw) in
      let room = room-Fits f owner at_owner v in
      let open_count = count_active_eq f.world.shared.bridge.sinks f.world.holders v.inv.owned in
      (sink_open-ok f.world.shared.bridge (record { id = none }) name
        (omega (arith, open_count, room, v.inv.valid.count, range.sinks_cover))).1
