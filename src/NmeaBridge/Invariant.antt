-- ===== src/NmeaBridge/Invariant.antt =====
-- What holds of the bridge's variables at all times: the number of sinks, the bounds of the queues
-- and the width of the counters.
use esp_nmea_bridge_zephyr.Base.{
  ℕ, ◌^◌, ◌≤◌, ◌<◌, ◌≡◌, refl, suc, inl, inr, ◌||◌, Bool, false, Option, none, some, List, [], ◌∷◌,
  arith, ap, length, All, All-map, All-replicate, length-map, length-replicate, Option-cases, ◌∙◌,
}
use esp_nmea_bridge_zephyr.Zephyr.{Timeout, forever, Msgq}
use esp_nmea_bridge_zephyr.Config.{Config, InRange}
use esp_nmea_bridge_zephyr.NmeaBridge.{
  Frame, BridgeStats, SinkSlot, Bridge, dispatch_sink, dispatch_sinks, dispatch, statics, init,
  init_slot, publish_frame, to_frame, no_sink_stats,
}
use esp_nmea_bridge_zephyr.NmeaBridge.Queueing.{Bounded, put_drop_oldest-PutsNewest}

-- The six counters are 32 bits wide.
pub record StatsFit (s : BridgeStats) : Type 0 where
  pub frames_in : s.frames_in < 2 ^ 32
  pub ingest_dropped_oldest : s.ingest_dropped_oldest < 2 ^ 32
  pub sink_dropped_oldest : s.sink_dropped_oldest < 2 ^ 32
  pub publish_no_sinks : s.publish_no_sinks < 2 ^ 32
  pub publish_invalid : s.publish_invalid < 2 ^ 32
  pub publish_oversize : s.publish_oversize < 2 ^ 32

module _ {Q : Type 0} ⦃m : Msgq Frame Q⦄ where
  pub record SlotIsValid (depth : ℕ) (s : SinkSlot Q) : Type 0 where
    pub queue : Bounded depth s.msgq
    pub queued : s.stats.queued < 2 ^ 32
    pub dropped_oldest : s.stats.dropped_oldest < 2 ^ 32
    pub consumed : s.stats.consumed < 2 ^ 32

  pub record IsValid (cfg : Config) (b : Bridge Q) : Type 0 where
    pub ingest : Bounded cfg.ingest_queue_depth b.ingest_msgq
    pub slots : All (SlotIsValid cfg.sink_queue_depth) b.sinks
    pub count : length b.sinks ≡ cfg.nmea_sinks_max
    pub fit : StatsFit b.bridge_stats

  init-Bounded : (depth : ℕ) → 0 < depth → Bounded depth (m.init depth)
  init-Bounded depth h = omega (arith, m.capacity-init depth, ap length (m.contents-init depth))

  pub purge-Bounded : (depth : ℕ) (q : Q) → Bounded depth q → Bounded depth (m.purge q)
  purge-Bounded depth q v =
      omega (arith, m.capacity-purge q, ap length (m.contents-purge q), v.capacity, v.depth_pos)

  length-get-of :
      (t : Timeout) (q : Q) (xs : List Frame)
      → m.contents q ≡ xs
      → length (m.contents (m.get t q).2) ≤ length xs
  length-get-of t q [] e = omega (arith, ap length ((m.get_empty t q e).2))
  length-get-of t q (x ∷ xs) e = omega (arith, ap length ((m.get_first t q x xs e).2))

  pub get-Bounded :
      (depth : ℕ) (t : Timeout) (q : Q) → Bounded depth q → Bounded depth (m.get t q).2
  get-Bounded depth t q v = omega (arith, m.capacity-get t q, length-get-of t q (m.contents q) refl)

  -- Boot: the static variables, then `nmea_bridge_init`.
  pub init-IsValid :
      (cfg : Config) (raw : Q) → InRange cfg → IsValid cfg (init cfg (statics cfg raw))
  unfolding init statics init_slot
  init-IsValid cfg raw r = record {
    ingest = init-Bounded cfg.ingest_queue_depth (omega arith);
    slots =
        All-map (SlotIsValid cfg.sink_queue_depth) (λ s. s.stats ≡ no_sink_stats) _ (init_slot cfg)
          (λ s e. record {
            queue = init-Bounded cfg.sink_queue_depth (omega arith);
            queued = ground (arith, e);
            dropped_oldest = ground (arith, e);
            consumed = ground (arith, e);
          })
          (All-replicate _ cfg.nmea_sinks_max _ refl);
    count = length-map _ (init_slot cfg) ∙ length-replicate cfg.nmea_sinks_max _;
    fit = omega arith;
  }

  dispatch_sink-IsValid :
      (depth : ℕ) (frame : Frame) (s : SinkSlot Q) (stats : BridgeStats)
      → SlotIsValid depth s
      → StatsFit stats
      → SlotIsValid depth (dispatch_sink frame s stats).0 × StatsFit (dispatch_sink frame s stats).1
  unfolding dispatch_sink
  dispatch_sink-IsValid depth frame s stats v f =
      ground (arith, put_drop_oldest-PutsNewest depth s.msgq frame s.stats.dropped_oldest v.queue)

  dispatch_sinks-IsValid :
      (depth : ℕ) (frame : Frame) (xs : List (SinkSlot Q)) (stats : BridgeStats) (any : Bool)
      → All (SlotIsValid depth) xs
      → StatsFit stats
      → let r = dispatch_sinks frame xs stats any in
        All (SlotIsValid depth) r.0 × StatsFit r.1 × (length r.0 ≡ length xs)
  unfolding dispatch_sinks
  dispatch_sinks-IsValid depth frame [] stats any v f = (v, f, refl)
  dispatch_sinks-IsValid depth frame (s ∷ xs) stats any v f =
      let here = dispatch_sink-IsValid depth frame s stats v.0 f in
      let rest =
        dispatch_sinks-IsValid depth frame xs (dispatch_sink frame s stats).1 (s.active || any) v.1
          here.1 in
      ((here.0, rest.0), rest.1, ap suc rest.2)

  dispatch_frame-IsValid :
      (cfg : Config) (b : Bridge Q) (frame : Frame)
      → (m.get forever b.ingest_msgq).1 ≡ some frame
      → IsValid cfg b
      → IsValid cfg (dispatch b)
  unfolding dispatch
  dispatch_frame-IsValid cfg b frame e v =
      let r =
        dispatch_sinks-IsValid cfg.sink_queue_depth frame b.sinks b.bridge_stats false v.slots
          v.fit in
      rw (e, dispatch)
        (record {
          ingest = get-Bounded cfg.ingest_queue_depth forever b.ingest_msgq v.ingest;
          slots = r.0;
          count = r.2 ∙ v.count;
          fit = ground (arith, r.1);
        })

  pub dispatch-IsValid : (cfg : Config) (b : Bridge Q) → IsValid cfg b → IsValid cfg (dispatch b)
  unfolding dispatch
  dispatch-IsValid cfg b v = elim (Option-cases (m.get forever b.ingest_msgq).1) [
    | inl e ↦ rw (e, dispatch) v
    | inr (frame, e) ↦ dispatch_frame-IsValid cfg b frame e v
  ]

  pub publish_frame-IsValid :
      (cfg : Config) (b : Bridge Q) (bytes : Option (List ℕ)) (len : ℕ)
      → IsValid cfg b
      → IsValid cfg (publish_frame cfg b bytes len).1
  unfolding publish_frame
  publish_frame-IsValid cfg b none len v = ground arith
  publish_frame-IsValid cfg b (some bytes) len v = ground (
    arith,
    put_drop_oldest-PutsNewest cfg.ingest_queue_depth b.ingest_msgq (to_frame bytes len)
        b.bridge_stats.ingest_dropped_oldest v.ingest,
  )
