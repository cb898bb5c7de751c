-- ===== src/Threads/Reachable.antt =====
-- Every state that the threads reach from boot.
use esp_nmea_bridge_zephyr.Base.{
  ℕ, ◌≤◌, ◌<◌, ◌≡◌, refl, sym, ◌∙◌, Bool, Option, none, some, arith, String, map, replicate,
}
use esp_nmea_bridge_zephyr.Zephyr.{ok, Msgq}
use esp_nmea_bridge_zephyr.Config.{Config, InRange, sessions_max}
use esp_nmea_bridge_zephyr.NmeaBridge.{Frame, Sink}
use esp_nmea_bridge_zephyr.NmeaBridge.Invariant.{IsValid, init-IsValid, dispatch-IsValid}
use esp_nmea_bridge_zephyr.NmeaBridge.Opens.{actives, actives-init, actives-dispatch}
use esp_nmea_bridge_zephyr.NmeaBridge.Slots.{count_active, count_active-le}
use esp_nmea_bridge_zephyr.NmeaBridge.Sinks.{sink_open}
use esp_nmea_bridge_zephyr.NmeaBridge.Handles.{sink_open-ok}
use esp_nmea_bridge_zephyr.StatusLed
use esp_nmea_bridge_zephyr.StatusLed.{StatusLed, not_started}
use esp_nmea_bridge_zephyr.StatusLedPolicy
use esp_nmea_bridge_zephyr.TcpNmeaSession.Counting.{led_count, led-failed, led-forwarded}
use esp_nmea_bridge_zephyr.Threads.{
  running, World, boot, Step, receive, fan_out, report, start_led, open_sink, count_session, light,
  take_frame, forwarded, send_failed, dim, uncount, close_sink, Reach, here, next,
}
use esp_nmea_bridge_zephyr.Threads.Holders.{
  is_held, is_counted, is_lit, count, lit-le-counted, counted-le-held, count_active_eq,
  count-replicate, held-replicate,
}
use esp_nmea_bridge_zephyr.Threads.Invariant.{
  Inv, led-Inv, bridge-Inv, receive-Inv, count_session-Inv, uncount-Inv, light-Inv, dim-Inv,
  take-Inv,
}
use esp_nmea_bridge_zephyr.Threads.Opening.{open_sink-Inv, close_sink-Inv}

module _ (cfg : Config) (led : StatusLed) (n : ℕ) where
  led-connecting :
      (on : Bool)
      → led_count cfg (StatusLed.tcp_nmea_client_connecting cfg led on) n ≡ led_count cfg led n
  unfolding StatusLed.tcp_nmea_client_connecting StatusLedPolicy.tcp_nmea_client_connecting
  led-connecting on = ground arith

  led-start :
      (has_strip strip_ready : Bool) (t : ℕ)
      → led_count cfg (StatusLed.start led has_strip strip_ready t).0 n ≡ led_count cfg led n
  unfolding StatusLed.start
  led-start has_strip strip_ready t = ground arith

module _ {Q : Type 0} ⦃m : Msgq Frame Q⦄ (cfg : Config) (range : InRange cfg) where
  pub Step-Inv : (v w : World Q) → Step cfg v w → Inv cfg v → Inv cfg w
  Step-Inv v w (receive _ ch t) h = receive-Inv cfg v ch t h
  Step-Inv v w (fan_out _) h =
      bridge-Inv cfg v _ (dispatch-IsValid cfg v.shared.bridge h.valid)
        (actives-dispatch v.shared.bridge) h
  Step-Inv v w (report _ on) h = led-Inv cfg v _ (led-connecting cfg v.shared.led _ on) h
  Step-Inv v w (start_led _ has ready t) h =
      led-Inv cfg v _ (led-start cfg v.shared.led _ has ready t) h
  Step-Inv v w (open_sink _ name i b e) h = open_sink-Inv cfg v name i b e h
  Step-Inv v w (count_session _ i e) h = count_session-Inv cfg v i range e h
  Step-Inv v w (light _ i e) h = light-Inv cfg v i range e h
  Step-Inv v w (take_frame _ i t e) h = take-Inv cfg v i t running e h
  Step-Inv v w (forwarded _ i t e) h = led-Inv cfg v _ (led-forwarded cfg v.shared.led _ t) h
  Step-Inv v w (send_failed _ i t e) h = led-Inv cfg v _ (led-failed cfg v.shared.led _ t) h
  Step-Inv v w (dim _ i e) h = dim-Inv cfg v i e h
  Step-Inv v w (uncount _ i e) h = uncount-Inv cfg v i range e h
  Step-Inv v w (close_sink _ i e) h = close_sink-Inv cfg v i e h

  pub boot-Inv : (raw : Q) → Inv cfg (boot cfg raw)
  boot-Inv raw =
      let n : ℕ = cfg.nmea_sinks_max in
      let lit : count is_lit (replicate n none) ≡ 0 = count-replicate is_lit n refl in
      record {
        valid = init-IsValid cfg raw range;
        owned = actives-init cfg raw ∙ sym (held-replicate n);
        counted_are = sym (count-replicate is_counted n refl);
        lit_are = rw lit (ground arith);
      }

  pub Reach-Inv : (v w : World Q) → Reach cfg v w → Inv cfg v → Inv cfg w
  Reach-Inv v w here h = h
  Reach-Inv v w (next {u} run step) h = Step-Inv u w step (Reach-Inv v u run h)

  -- In every state that the threads reach from boot, the bridge is valid; a sink is open exactly if
  -- a session holds its handle; `active_sessions` is the number of sessions between `atomic_inc` and
  -- `atomic_dec`; the LED's count, where there is an LED, is the number of sessions between their two
  -- reports to it; and the sessions so reported are among the counted ones, these hold sinks, and
  -- the sinks held are those of the table.
  pub Reach-boot :
      (raw : Q) (w : World Q)
      → Reach cfg (boot cfg raw) w
      → IsValid cfg w.shared.bridge
        × (actives w.shared.bridge.sinks ≡ map is_held w.holders)
        × (w.shared.active_sessions ≡ count is_counted w.holders)
        × (led_count cfg w.shared.led (count is_lit w.holders) ≡ count is_lit w.holders)
        × (count is_lit w.holders ≤ w.shared.active_sessions)
        × (w.shared.active_sessions ≤ count_active w.shared.bridge.sinks)
        × (count_active w.shared.bridge.sinks ≤ cfg.nmea_sinks_max)
  Reach-boot raw w run =
      let h = Reach-Inv _ w run (boot-Inv raw) in
      let open_count = count_active_eq w.shared.bridge.sinks w.holders h.owned in
      (
        h.valid,
        h.owned,
        h.counted_are,
        h.lit_are,
        omega (arith, h.counted_are, lit-le-counted w.holders),
        omega (arith, h.counted_are, open_count, counted-le-held w.holders),
        omega (arith, h.valid.count, count_active-le w.shared.bridge.sinks),
      )

  -- In every state that the threads reach from boot, if fewer sessions hold a sink than the server and
  -- the client can have at a time, `nmea_bridge_sink_open` succeeds: there are sinks enough.
  pub Reach-sink_open :
      (raw : Q) (w : World Q) (sink : Sink) (name : Option String)
      → Reach cfg (boot cfg raw) w
      → count is_held w.holders < sessions_max cfg
      → (sink_open w.shared.bridge (some sink) name).0 ≡ ok
  Reach-sink_open raw w sink name run few =
      let h = Reach-Inv _ w run (boot-Inv raw) in
      let open_count = count_active_eq w.shared.bridge.sinks w.holders h.owned in
      (sink_open-ok w.shared.bridge sink name
        (omega (arith, open_count, few, h.valid.count, range.sinks_cover))).1
