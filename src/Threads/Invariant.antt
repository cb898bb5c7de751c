-- ===== src/Threads/Invariant.antt =====
-- What holds in every state that the threads reach.
use esp_nmea_bridge_zephyr.Base.{
  ℕ, ◌+◌, ◌≤◌, ◌≡◌, refl, ap, sym, ◌∙◌, subst, true, some, arith, map, length, length-map,
  get_elem?, set, u32, sub32,
}
use esp_nmea_bridge_zephyr.Zephyr.{Timeout, Msgq}
use esp_nmea_bridge_zephyr.Config.{Config, InRange}
use esp_nmea_bridge_zephyr.NmeaBridge.{Frame, Sink, SinkSlot, Bridge}
use esp_nmea_bridge_zephyr.NmeaBridge.Invariant.{IsValid}
use esp_nmea_bridge_zephyr.NmeaBridge.Opens.{actives}
use esp_nmea_bridge_zephyr.NmeaBridge.Sinks.{sink_take}
use esp_nmea_bridge_zephyr.NmeaBridge.Handles.{sink_take_lem}
use esp_nmea_bridge_zephyr.NmeaBridge.Keeping.{sink_take-IsValid}
use esp_nmea_bridge_zephyr.StatusLed
use esp_nmea_bridge_zephyr.StatusLed.{StatusLed, not_started}
use esp_nmea_bridge_zephyr.UartNmea.{rx_byte}
use esp_nmea_bridge_zephyr.UartNmea.Publishing.{rx_byte-Keeps}
use esp_nmea_bridge_zephyr.TcpNmeaSession.Counting.{led_count, led-started, led-ended}
use esp_nmea_bridge_zephyr.Threads.{
  Phase, opened, counted, running, dimmed, leaving, World, uart_of, with_uart, with_bridge,
  with_led, at_phase,
}
use esp_nmea_bridge_zephyr.Threads.Holders.{
  is_held, is_counted, is_lit, one_if, count, map-set, get_elem?-map, set_self, count-set, count-le,
  held-active, held-set,
}

module _ {Q : Type 0} ⦃m : Msgq Frame Q⦄ (cfg : Config) where
  pub record Inv (w : World Q) : Type 0 where
    pub valid : IsValid cfg w.shared.bridge
    pub owned : actives w.shared.bridge.sinks ≡ map is_held w.holders
    pub counted_are : w.shared.active_sessions ≡ count is_counted w.holders
    pub lit_are : led_count cfg w.shared.led (count is_lit w.holders) ≡ count is_lit w.holders

  -- The LED's own variables matter only by its count.
  pub led-Inv :
      (w : World Q) (led : StatusLed)
      → led_count cfg led (count is_lit w.holders)
        ≡ led_count cfg w.shared.led (count is_lit w.holders)
      → Inv w
      → Inv (with_led w led)
  led-Inv w led e v = record {
    valid = v.valid;
    owned = v.owned;
    counted_are = v.counted_are;
    lit_are = e ∙ v.lit_are;
  }

  pub bridge-Inv :
      (w : World Q) (b : Bridge Q)
      → IsValid cfg b
      → actives b.sinks ≡ actives w.shared.bridge.sinks
      → Inv w
      → Inv (with_bridge w b)
  bridge-Inv w b valid same v = record {
    valid = valid;
    owned = same ∙ v.owned;
    counted_are = v.counted_are;
    lit_are = v.lit_are;
  }

  pub receive-Inv :
      (w : World Q) (ch t : ℕ) → Inv w → Inv (with_uart w (rx_byte cfg (uart_of w) (ch, t)))
  receive-Inv w ch t v =
      let u = rx_byte-Keeps cfg (uart_of w) ch t v.valid in
      record {
        valid = u.0;
        owned = ap actives u.1 ∙ v.owned;
        counted_are = v.counted_are;
        lit_are = ground (arith, u.2, v.lit_are);
      }

  few : (w : World Q) → InRange cfg → Inv w → length w.holders ≤ 9
  few w range v = omega (
    arith,
    ap length v.owned,
    length-map w.shared.bridge.sinks (λ (s : SinkSlot Q). s.active),
    length-map w.holders is_held,
    v.valid.count,
    range.sinks_high,
  )

  -- A session goes on from `p` to `q`, with the counts that this makes.
  move-Inv :
      (w : World Q) (i : ℕ) (p q : Phase) (n : ℕ) (led : StatusLed)
      → get_elem? w.holders i ≡ some (some p)
      → Inv w
      → n + one_if (is_counted (some p)) ≡ w.shared.active_sessions + one_if (is_counted (some q))
      → ((k : ℕ)
          → k + one_if (is_lit (some p)) ≡ count is_lit w.holders + one_if (is_lit (some q))
          → led_count cfg led k ≡ k)
      → Inv (
          at_phase
            (record w { shared = record w.shared { active_sessions = n; led = led } })
            i
            (some q))
  move-Inv w i p q n led at_i v e lit = record {
    valid = v.valid;
    owned = v.owned ∙ sym (held-set w.holders i p q at_i);
    counted_are =
        omega (arith, e, v.counted_are, count-set is_counted w.holders i (some p) (some q) at_i);
    lit_are = lit _ (count-set is_lit w.holders i (some p) (some q) at_i);
  }

  pub count_session-Inv :
      (w : World Q) (i : ℕ)
      → InRange cfg
      → get_elem? w.holders i ≡ some (some opened)
      → Inv w
      → Inv (
          at_phase
            (record w {
              shared = record w.shared { active_sessions = u32 (w.shared.active_sessions + 1) };
            })
            i
            (some counted))
  count_session-Inv w i range at_i v =
      move-Inv w i opened counted (u32 (w.shared.active_sessions + 1)) w.shared.led at_i v
        (omega (arith, v.counted_are, count-le is_counted w.holders, few w range v))
        (λ k h. let e : k ≡ count is_lit w.holders = omega (arith, h) in rw e v.lit_are)

  pub uncount-Inv :
      (w : World Q) (i : ℕ)
      → InRange cfg
      → get_elem? w.holders i ≡ some (some dimmed)
      → Inv w
      → Inv (
          at_phase
            (record w {
              shared = record w.shared { active_sessions = sub32 w.shared.active_sessions 1 };
            })
            i
            (some leaving))
  uncount-Inv w i range at_i v =
      move-Inv w i dimmed leaving (sub32 w.shared.active_sessions 1) w.shared.led at_i v
        (omega (
          arith,
          v.counted_are,
          count-set is_counted w.holders i (some dimmed) (some leaving) at_i,
          count-le is_counted w.holders,
          few w range v,
        ))
        (λ k h. let e : k ≡ count is_lit w.holders = omega (arith, h) in rw e v.lit_are)

  pub light-Inv :
      (w : World Q) (i : ℕ)
      → InRange cfg
      → get_elem? w.holders i ≡ some (some counted)
      → Inv w
      → Inv (
          at_phase
            (with_led w (StatusLed.tcp_nmea_session_started cfg w.shared.led))
            i
            (some running))
  light-Inv w i range at_i v =
      move-Inv w i counted running w.shared.active_sessions _ at_i v refl (λ k h.
        let n : ℕ = count is_lit w.holders in
        let e : k ≡ n + 1 = omega (arith, h) in
        rw e (
          led-started cfg w.shared.led n (omega (arith, count-le is_lit w.holders, few w range v))
            v.lit_are))

  pub dim-Inv :
      (w : World Q) (i : ℕ)
      → get_elem? w.holders i ≡ some (some running)
      → Inv w
      → Inv (
          at_phase (with_led w (StatusLed.tcp_nmea_session_ended cfg w.shared.led)) i (some dimmed))
  dim-Inv w i at_i v = move-Inv w i running dimmed w.shared.active_sessions _ at_i v refl (λ k h.
      let e : count is_lit w.holders ≡ k + 1 = omega (arith, h) in
      led-ended cfg w.shared.led k (subst (λ j. led_count cfg w.shared.led j ≡ j) e v.lit_are))

  pub take-Inv :
      (w : World Q) (i : ℕ) (t : Timeout) (p : Phase)
      → get_elem? w.holders i ≡ some (some p)
      → Inv w
      → Inv (
          with_bridge w
            (sink_take w.shared.bridge (some (record { id = some i })) true t (λ b. b)).2)
  take-Inv w i t p at_i v =
      let b : Bridge Q = w.shared.bridge in
      let sink : Sink = record { id = some i } in
      let (s, here_i, on) = held-active b.sinks w.holders i p v.owned at_i in
      let took = sink_take_lem b sink i s s t (λ c. c) refl here_i on here_i in
      let r = sink_take b (some sink) true t (λ c. c) in
      let same : actives (set b.sinks i took.new) ≡ actives b.sinks =
        map-set (λ (x : SinkSlot Q). x.active) b.sinks i took.new
        ∙ ap (λ a. set (actives b.sinks) i a) took.active
        ∙ set_self (actives b.sinks) i s.active
            (get_elem?-map (λ (x : SinkSlot Q). x.active) b.sinks i s here_i) in
      bridge-Inv w r.2 (sink_take-IsValid cfg b (some sink) true t (λ c. c) v.valid v.valid)
        (ap (λ c. actives c.sinks) took.bridge ∙ same) v
