-- ===== src/NmeaBridge/Keeping.antt =====
-- The calls on sinks of src/nmea_bridge.h keep the bridge valid.
use esp_nmea_bridge_zephyr.Base.{
  ℕ, ◌≡◌, inl, inr, refl, Bool, true, false, Option, none, some, arith, String, ◌∙◌, modify,
  get_elem?, All-modify, All-get_elem?, length-modify, Option-cases,
}
use esp_nmea_bridge_zephyr.Zephyr.{Status, Timeout, Msgq}
use esp_nmea_bridge_zephyr.Config.{Config}
use esp_nmea_bridge_zephyr.NmeaBridge.{Frame, Sink, SinkSlot, Bridge}
use esp_nmea_bridge_zephyr.NmeaBridge.Queueing.{Bounded}
use esp_nmea_bridge_zephyr.NmeaBridge.Sinks.{
  first_free, claim, vacate, sink_open, sink_close, consume, take_slot, take_id, sink_take,
}
use esp_nmea_bridge_zephyr.NmeaBridge.Invariant.{SlotIsValid, IsValid, purge-Bounded, get-Bounded}

module _ {Q : Type 0} ⦃m : Msgq Frame Q⦄ where
  -- A change of one slot that keeps the slot valid keeps the bridge valid.
  modify-IsValid :
      (cfg : Config) (b : Bridge Q) (i : ℕ) (f : SinkSlot Q → SinkSlot Q)
      → ((s : SinkSlot Q)
          → SlotIsValid cfg.sink_queue_depth s
          → SlotIsValid cfg.sink_queue_depth (f s))
      → IsValid cfg b
      → IsValid cfg (record b { sinks = modify b.sinks i f })
  modify-IsValid cfg b i f keep v = record {
    ingest = v.ingest;
    slots = All-modify (SlotIsValid cfg.sink_queue_depth) b.sinks i f keep v.slots;
    count = length-modify b.sinks i f ∙ v.count;
    fit = v.fit;
  }

  claim-IsValid :
      (depth : ℕ) (name : Option String) (s : SinkSlot Q)
      → SlotIsValid depth s
      → SlotIsValid depth (claim name s)
  unfolding claim
  claim-IsValid depth name s v = ground (arith, purge-Bounded depth s.msgq v.queue)

  vacate-IsValid : (depth : ℕ) (s : SinkSlot Q) → SlotIsValid depth s → SlotIsValid depth (vacate s)
  unfolding vacate
  vacate-IsValid depth s v = ground (arith, purge-Bounded depth s.msgq v.queue)

  pub sink_open-IsValid :
      (cfg : Config) (b : Bridge Q) (sink : Option Sink) (name : Option String)
      → IsValid cfg b
      → IsValid cfg (sink_open b sink name).2
  unfolding sink_open
  sink_open-IsValid cfg b none name v = v
  sink_open-IsValid cfg b (some sink) name v = elim (Option-cases (first_free b.sinks 0)) [
    | inl e ↦ rw (e, sink_open) v
    | inr (i, e) ↦
        rw (e, sink_open)
          (modify-IsValid cfg b i (claim name) (claim-IsValid cfg.sink_queue_depth name) v)
  ]

  pub sink_close-IsValid :
      (cfg : Config) (b : Bridge Q) (sink : Option Sink)
      → IsValid cfg b
      → IsValid cfg (sink_close b sink).1
  unfolding sink_close
  sink_close-IsValid cfg b none v = v
  sink_close-IsValid cfg b (some sink) v = elim (Option-cases sink.id) [
    | inl e ↦ rw (e, sink_close) v
    | inr (i, e) ↦
        rw (e, sink_close)
          (ground (arith, modify-IsValid cfg b i vacate (vacate-IsValid cfg.sink_queue_depth) v))
  ]

  consume-IsValid :
      (depth : ℕ) (q : Q) (ret : Status) (s : SinkSlot Q)
      → Bounded depth q
      → SlotIsValid depth s
      → SlotIsValid depth (consume s q ret)
  unfolding consume
  consume-IsValid depth q ret s w v = ground arith

  take_slot-IsValid :
      (cfg : Config) (b : Bridge Q) (i : ℕ) (t : Timeout) (o : Option (SinkSlot Q))
      → get_elem? b.sinks i ≡ o
      → IsValid cfg b
      → IsValid cfg (take_slot b i t o).2
  unfolding take_slot
  take_slot-IsValid cfg b i t none e v = v
  take_slot-IsValid cfg b i t (some slot) e v =
      let here = All-get_elem? (SlotIsValid cfg.sink_queue_depth) b.sinks i slot v.slots e in
      let got = get-Bounded cfg.sink_queue_depth t slot.msgq here.queue in
      modify-IsValid cfg b i _
        (λ s w.
          consume-IsValid cfg.sink_queue_depth (m.get t slot.msgq).2 (m.get t slot.msgq).0 s got w)
        v

  take_id-IsValid :
      (cfg : Config) (b : Bridge Q) (i : Option ℕ) (t : Timeout) (meanwhile : Bridge Q → Bridge Q)
      → IsValid cfg b
      → IsValid cfg (meanwhile b)
      → IsValid cfg (take_id b i t meanwhile).2
  unfolding take_id
  take_id-IsValid cfg b none t meanwhile v w = v
  take_id-IsValid cfg b (some i) t meanwhile v w =
      ground
        (arith, v, take_slot-IsValid cfg (meanwhile b) i t (get_elem? (meanwhile b).sinks i) refl w)

  -- Reading a sink, whatever valid state the other threads leave behind during the wait.
  pub sink_take-IsValid :
      (cfg : Config) (b : Bridge Q) (sink : Option Sink) (out : Bool) (t : Timeout)
      (meanwhile : Bridge Q → Bridge Q)
      → IsValid cfg b
      → IsValid cfg (meanwhile b)
      → IsValid cfg (sink_take b sink out t meanwhile).2
  unfolding sink_take
  sink_take-IsValid cfg b none out t meanwhile v w = v
  sink_take-IsValid cfg b (some sink) true t meanwhile v w =
      take_id-IsValid cfg b sink.id t meanwhile v w
  sink_take-IsValid cfg b (some sink) false t meanwhile v w = v
