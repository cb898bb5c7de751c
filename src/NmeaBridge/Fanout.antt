-- ===== src/NmeaBridge/Fanout.antt =====
-- `dispatcher_thread`: what one round of the loop does to each sink and to the counters.
use esp_nmea_bridge_zephyr.Base.{
  ℕ, ◌+◌, ◌≡◌, refl, Bool, false, ◌&&◌, ◌||◌, List, [], ◌∷◌, ◌++◌, arith, if◌then◌else◌, leb,
  length, u32, All, All₂,
}
use esp_nmea_bridge_zephyr.Zephyr.{forever, Msgq}
use esp_nmea_bridge_zephyr.Config.{Config}
use esp_nmea_bridge_zephyr.NmeaBridge.{
  Frame, BridgeStats, SinkSlot, Bridge, dispatch_sink, dispatch_sinks, dispatch,
}
use esp_nmea_bridge_zephyr.NmeaBridge.Queueing.{keep_newest, put_drop_oldest-PutsNewest}
use esp_nmea_bridge_zephyr.NmeaBridge.Invariant.{StatsFit, SlotIsValid, IsValid}

-- The counters of the bridge, of which only `sink_dropped_oldest` is new.
abbrev add_dropped : BridgeStats → ℕ → BridgeStats
add_dropped stats n = record stats { sink_dropped_oldest = u32 (stats.sink_dropped_oldest + n) }

module _ {Q : Type 0} ⦃m : Msgq Frame Q⦄ where
  -- A sink that is open and whose queue has no room left.
  abbrev pub is_full : ℕ → SinkSlot Q → Bool
  is_full depth s = s.active && leb depth (length (m.contents s.msgq))

  abbrev pub any_active : List (SinkSlot Q) → Bool
  any_active [] = false
  any_active (s ∷ xs) = s.active || any_active xs

  abbrev pub count_full : ℕ → List (SinkSlot Q) → ℕ
  count_full depth [] = 0
  count_full depth (s ∷ xs) = (if is_full depth s then 1 else 0) + count_full depth xs

  -- What a frame does to a sink: an open one gets it behind the newest frames that still fit, and
  -- one that is not open stays as it is.
  pub record Delivered (depth : ℕ) (frame : Frame) (s s' : SinkSlot Q) : Type 0 where
    pub active : s'.active ≡ s.active
    pub name : s'.name ≡ s.name
    pub contents : m.contents s'.msgq ≡ (
        if s.active then keep_newest depth (m.contents s.msgq ++ frame ∷ []) else m.contents s.msgq)
    pub queued : s'.stats.queued ≡ (if s.active then u32 (s.stats.queued + 1) else s.stats.queued)
    pub dropped_oldest :
        s'.stats.dropped_oldest
        ≡ (if is_full depth s then u32 (s.stats.dropped_oldest + 1) else s.stats.dropped_oldest)
    pub consumed : s'.stats.consumed ≡ s.stats.consumed

  dispatch_sink-Delivered :
      (depth : ℕ) (frame : Frame) (s : SinkSlot Q) (stats : BridgeStats)
      → SlotIsValid depth s
      → StatsFit stats
      → let r = dispatch_sink frame s stats in
        Delivered depth frame s r.0 × (r.1 ≡ add_dropped stats (if is_full depth s then 1 else 0))
  unfolding dispatch_sink
  dispatch_sink-Delivered depth frame s stats v f =
      ground (arith, put_drop_oldest-PutsNewest depth s.msgq frame s.stats.dropped_oldest v.queue)

  dispatch_sinks-Delivered :
      (depth : ℕ) (frame : Frame) (xs : List (SinkSlot Q)) (stats : BridgeStats) (any : Bool)
      → All (SlotIsValid depth) xs
      → StatsFit stats
      → let r = dispatch_sinks frame xs stats any in
        All₂ (Delivered depth frame) xs r.0
        × (r.1 ≡ add_dropped stats (count_full depth xs))
        × (r.2 ≡ (any_active xs || any))
  unfolding dispatch_sinks
  dispatch_sinks-Delivered depth frame [] stats any v f = (tt, ground arith, refl)
  dispatch_sinks-Delivered depth frame (s ∷ xs) stats any v f =
      let here = dispatch_sink-Delivered depth frame s stats v.0 f in
      let rest =
        dispatch_sinks-Delivered depth frame xs (dispatch_sink frame s stats).1 (s.active || any)
          v.1 (ground (arith, here.1)) in
      ((here.0, rest.0), ground (arith, here.1, rest.1), ground (arith, rest.2))

  -- A round of the dispatcher on an ingest queue that is not empty, in a valid state, takes the
  -- oldest frame from it and gives it to every open sink, where it stands behind the newest frames
  -- that still fit; no other sink changes. Each full sink loses one frame, which its own counter
  -- and the bridge's show; `publish_no_sinks` grows exactly when no sink is open, and the other
  -- counters stay.
  pub dispatch_lem :
      (cfg : Config) (b : Bridge Q) (frame : Frame) (rest : List Frame)
      → IsValid cfg b
      → m.contents b.ingest_msgq ≡ frame ∷ rest
      → (m.contents (dispatch b).ingest_msgq ≡ rest)
        × All₂ (Delivered cfg.sink_queue_depth frame) b.sinks (dispatch b).sinks
        × ((dispatch b).bridge_stats ≡ record b.bridge_stats {
          sink_dropped_oldest =
              u32 (b.bridge_stats.sink_dropped_oldest + count_full cfg.sink_queue_depth b.sinks);
          publish_no_sinks =
              if any_active b.sinks
              then b.bridge_stats.publish_no_sinks
              else u32 (b.bridge_stats.publish_no_sinks + 1);
        })
  unfolding dispatch
  dispatch_lem cfg b frame rest v e =
      let got = m.get_first forever b.ingest_msgq frame rest e in
      let r =
        dispatch_sinks-Delivered cfg.sink_queue_depth frame b.sinks b.bridge_stats false v.slots
          v.fit in
      rw (got.1, dispatch) (got.2, r.0, ground (arith, r.1, r.2))
