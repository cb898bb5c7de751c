-- ===== src/NmeaBridge/Opens.antt =====
-- Which sinks are open: at boot, under the calls that open and close none, and when one is opened.
use esp_nmea_bridge_zephyr.Base.{
  ℕ, ◌≡◌, refl, ap, sym, subst, dec_lt, length, String, ◌∙◌, Bool, Option, none, some, List, [],
  ◌∷◌, arith, map, ◌||◌, false, replicate, zero, suc, Option-cases, inl, inr,
}
use esp_nmea_bridge_zephyr.Zephyr.{ok, forever, Msgq}
use esp_nmea_bridge_zephyr.NmeaBridge.Slots.{count_active, count_active-le}
use esp_nmea_bridge_zephyr.NmeaBridge.Sinks.{sink_open}
use esp_nmea_bridge_zephyr.NmeaBridge.Handles.{Opened, sink_open-ok, sink_open-enomem}
use esp_nmea_bridge_zephyr.Config.{Config}
use esp_nmea_bridge_zephyr.NmeaBridge.{
  Frame, Sink, SinkSlot, Bridge, BridgeStats, init_slot, init, statics, dispatch, dispatch_sink,
  dispatch_sinks, publish_frame,
}

-- Which sinks are open.
abbrev pub actives : {Q : Type 0} → List (SinkSlot Q) → List Bool
actives sinks = map (λ s. s.active) sinks

module _ {Q : Type 0} ⦃m : Msgq Frame Q⦄ where
  dispatch_sink-active :
      (frame : Frame) (s : SinkSlot Q) (stats : BridgeStats)
      → (dispatch_sink frame s stats).0.active ≡ s.active
  unfolding dispatch_sink
  dispatch_sink-active frame s stats = ground arith

  dispatch_sinks-actives :
      (frame : Frame) (xs : List (SinkSlot Q)) (stats : BridgeStats) (any : Bool)
      → actives (dispatch_sinks frame xs stats any).0 ≡ actives xs
  unfolding dispatch_sinks
  dispatch_sinks-actives frame [] stats any = refl
  dispatch_sinks-actives frame (s ∷ xs) stats any =
      let rest =
        dispatch_sinks-actives frame xs (dispatch_sink frame s stats).1 (s.active || any) in
      rw (dispatch_sink-active frame s stats, rest) refl

  pub actives-dispatch : (b : Bridge Q) → actives (dispatch b).sinks ≡ actives b.sinks
  unfolding dispatch
  actives-dispatch b = elim (Option-cases (m.get forever b.ingest_msgq).1) [
    | inl e ↦ rw (e, dispatch) refl
    | inr (frame, e) ↦ rw (e, dispatch) (dispatch_sinks-actives frame b.sinks b.bridge_stats false)
  ]

  pub sinks-publish_frame :
      (cfg : Config) (b : Bridge Q) (bytes : Option (List ℕ)) (len : ℕ)
      → (publish_frame cfg b bytes len).1.sinks ≡ b.sinks
  unfolding publish_frame
  sinks-publish_frame cfg b none len = ground arith
  sinks-publish_frame cfg b (some bytes) len = ground arith

  inactive-init :
      (cfg : Config) (n : ℕ) (s : SinkSlot Q)
      → s.active ≡ false
      → actives (map (init_slot cfg) (replicate n s)) ≡ replicate n false
  unfolding init_slot
  inactive-init cfg zero s off = refl
  inactive-init cfg (suc n) s off =
      ap (λ x. x ∷ actives (map (init_slot cfg) (replicate n s))) off
      ∙ ap (λ xs. false ∷ xs) (inactive-init cfg n s off)

  -- At boot no sink is open.
  pub actives-init :
      (cfg : Config) (raw : Q)
      → actives (init cfg (statics cfg raw)).sinks ≡ replicate cfg.nmea_sinks_max false
  unfolding init statics
  actives-init cfg raw = inactive-init cfg cfg.nmea_sinks_max _ refl

  -- A handle that `nmea_bridge_sink_open` hands out is the one of a slot that it opened.
  pub handed-Opened :
      (b c : Bridge Q) (name : Option String) (i : ℕ)
      → sink_open b (some (record { id = none })) name ≡ (ok, some (record { id = some i }), c)
      → Opened b name i c
  handed-Opened b c name i e = elim (dec_lt (count_active b.sinks) (length b.sinks)) [
    | yes room ↦
        let (j, st, at_j, o) = sink_open-ok b (record { id = none }) name room in
        let mine : Sink = record { id = some i } in
        let theirs : Sink = record { id = some j } in
        let same : some theirs ≡ some mine = sym at_j ∙ ap (λ r. r.1) e in
        let is : j ≡ i = cc in
        let got : (sink_open b (some (record { id = none })) name).2 ≡ c = ap (λ r. r.2) e in
        subst (λ k. Opened b name k c) is (subst (λ d. Opened b name j d) got o)
    | no full ↦
        let e' =
          sink_open-enomem b (record { id = none }) name
            (omega (arith, full, count_active-le b.sinks)) in
        cc
  ]
