-- ===== src/Threads/Opening.antt =====
-- The steps that open and close a sink.
use esp_nmea_bridge_zephyr.Base.{
  ℕ, ◌≡◌, refl, ap, sym, ◌∙◌, subst, Option, none, some, arith, String, map, get_elem?, set,
}
use esp_nmea_bridge_zephyr.Zephyr.{ok, no_wait, Msgq}
use esp_nmea_bridge_zephyr.Config.{Config}
use esp_nmea_bridge_zephyr.NmeaBridge.{Frame, Sink, SinkSlot, Bridge}
use esp_nmea_bridge_zephyr.NmeaBridge.Invariant.{IsValid}
use esp_nmea_bridge_zephyr.NmeaBridge.Opens.{handed-Opened, actives}
use esp_nmea_bridge_zephyr.NmeaBridge.Sinks.{sink_open, sink_close}
use esp_nmea_bridge_zephyr.NmeaBridge.Handles.{sink_close_lem}
use esp_nmea_bridge_zephyr.NmeaBridge.Keeping.{sink_open-IsValid, sink_close-IsValid}
use esp_nmea_bridge_zephyr.Threads.{Phase, opened, leaving, World, with_bridge, at_phase}
use esp_nmea_bridge_zephyr.Threads.Holders.{
  is_held, is_counted, is_lit, one_if, count, map-set, count-set, held-active, free-none,
}
use esp_nmea_bridge_zephyr.Threads.Invariant.{Inv}

module _ {Q : Type 0} ⦃m : Msgq Frame Q⦄ (cfg : Config) where
  -- The sink `i` changes hands, while no session is counted or lit by that.
  owner-Inv :
      (w : World Q) (b : Bridge Q) (i : ℕ) (p q : Option Phase) (s : SinkSlot Q)
      → get_elem? w.holders i ≡ some p
      → b.sinks ≡ set w.shared.bridge.sinks i s
      → s.active ≡ is_held q
      → is_counted q ≡ is_counted p
      → is_lit q ≡ is_lit p
      → IsValid cfg b
      → Inv cfg w
      → Inv cfg (at_phase (with_bridge w b) i q)
  owner-Inv w b i p q s at_i sinks on same_count same_lit valid v =
      let counts : count is_counted (set w.holders i q) ≡ count is_counted w.holders =
        omega (arith, count-set is_counted w.holders i p q at_i, ap one_if same_count) in
      let lights : count is_lit (set w.holders i q) ≡ count is_lit w.holders =
        omega (arith, count-set is_lit w.holders i p q at_i, ap one_if same_lit) in
      record {
        valid = valid;
        owned =
            ap actives sinks
            ∙ map-set (λ (x : SinkSlot Q). x.active) w.shared.bridge.sinks i s
            ∙ ap (λ xs. set xs i s.active) v.owned
            ∙ ap (λ o. set (map is_held w.holders) i o) on
            ∙ sym (map-set is_held w.holders i q);
        counted_are = v.counted_are ∙ sym counts;
        lit_are = rw lights v.lit_are;
      }

  pub open_sink-Inv :
      (w : World Q) (name : Option String) (i : ℕ) (b : Bridge Q)
      → sink_open w.shared.bridge (some (record { id = none })) name
        ≡ (ok, some (record { id = some i }), b)
      → Inv cfg w
      → Inv cfg (at_phase (with_bridge w b) i (some opened))
  open_sink-Inv w name i b e v =
      let o = handed-Opened w.shared.bridge b name i e in
      let valid : IsValid cfg b =
        subst (IsValid cfg) (ap (λ r. r.2) e)
          (sink_open-IsValid cfg w.shared.bridge (some (record { id = none })) name v.valid) in
      owner-Inv w b i none (some opened) o.new
        (free-none w.shared.bridge.sinks w.holders i o.old v.owned o.was o.was_free) o.sinks
        o.active refl refl valid v

  pub close_sink-Inv :
      (w : World Q) (i : ℕ)
      → get_elem? w.holders i ≡ some (some leaving)
      → Inv cfg w
      → Inv cfg (
          at_phase
            (with_bridge w (sink_close w.shared.bridge (some (record { id = some i }))).1)
            i
            none)
  close_sink-Inv w i at_i v =
      let b : Bridge Q = w.shared.bridge in
      let sink : Sink = record { id = some i } in
      let (s, here_i, on) = held-active b.sinks w.holders i leaving v.owned at_i in
      let closed = sink_close_lem b sink i s no_wait (λ c. c) refl here_i on in
      owner-Inv w (sink_close b (some sink)).1 i (some leaving) none _ at_i
        (ap (λ c. c.sinks) closed.0) refl refl refl (sink_close-IsValid cfg b (some sink) v.valid) v
