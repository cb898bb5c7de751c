-- ===== src/NmeaBridge/Sinks.antt =====
-- src/nmea_bridge.c: opening, closing and reading a sink, and its statistics. A pointer argument
-- is an `Option`, with `none` for null; the object behind it is returned as the call leaves it.
use esp_nmea_bridge_zephyr.Base.{
  ℕ, ◌+◌, Bool, true, false, Option, none, some, List, [], ◌∷◌, String, if◌then◌else◌, leb, length,
  get_elem?, modify, u32,
}
use esp_nmea_bridge_zephyr.Zephyr.{einval, enotconn, enomem, Status, ok, err, Timeout, Msgq}
use esp_nmea_bridge_zephyr.NmeaBridge.{Frame, SinkStats, Sink, SinkSlot, Bridge, no_sink_stats}

-- The loop of `nmea_bridge_sink_open`, up to the slot that it takes.
unfoldable pub first_free : {Q : Type 0} → List (SinkSlot Q) → ℕ → Option ℕ
first_free [] i = none
first_free (slot ∷ rest) i = if slot.active then first_free rest (i + 1) else some i

module _ {Q : Type 0} ⦃m : Msgq Frame Q⦄ where
  unfoldable pub claim : Option String → SinkSlot Q → SinkSlot Q
  claim name slot = record {
    active = true;
    name = name;
    msgq = m.purge slot.msgq;
    stats = no_sink_stats;
  }

  unfoldable pub vacate : SinkSlot Q → SinkSlot Q
  vacate slot = record slot { active = false; name = none; msgq = m.purge slot.msgq }

  unfoldable pub sink_open :
      Bridge Q → Option Sink → Option String → Status × Option Sink × Bridge Q
  unfolding claim
  sink_open b none name = (err einval, none, b)
  sink_open b (some sink) name = elim (first_free b.sinks 0) [
    | none ↦ (err enomem, some (record { id = none }), b)
    | some i ↦
        (ok, some (record { id = some i }), record b { sinks = modify b.sinks i (claim name) })
  ]

  unfoldable pub close_id : Bridge Q → Sink → Option ℕ → Sink × Bridge Q
  close_id b sink none = (sink, b)
  close_id b sink (some i) =
      if leb (length b.sinks) i
      then (sink, b)
      else (record { id = none }, record b { sinks = modify b.sinks i vacate })

  unfoldable pub sink_close : Bridge Q → Option Sink → Option Sink × Bridge Q
  unfolding close_id vacate
  sink_close b none = (none, b)
  sink_close b (some sink) = let (sink', b') = close_id b sink sink.id in (some sink', b')

  unfoldable pub consume : SinkSlot Q → Q → Status → SinkSlot Q
  consume slot q ok = record slot {
    msgq = q;
    stats = record slot.stats { consumed = u32 (slot.stats.consumed + 1) };
  }
  consume slot q (err e) = record slot { msgq = q }

  -- `k_msgq_get` on the slot's queue, and the count of a frame that was read.
  unfoldable pub take_slot :
      Bridge Q → ℕ → Timeout → Option (SinkSlot Q) → Status × Option Frame × Bridge Q
  take_slot b i t none = (err einval, none, b)
  take_slot b i t (some slot) =
      let (ret, frame, q) = m.get t slot.msgq in
      (ret, frame, record b { sinks = modify b.sinks i (λ s. consume s q ret) })

  -- The check under the lock, then the wait, in which the other threads do `meanwhile`.
  unfoldable pub take_id :
      Bridge Q → Option ℕ → Timeout → (Bridge Q → Bridge Q) → Status × Option Frame × Bridge Q
  take_id b none t meanwhile = (err enotconn, none, b)
  take_id b (some i) t meanwhile = elim (get_elem? b.sinks i) [
    | none ↦ (err einval, none, b)
    | some slot ↦
        if slot.active
        then take_slot (meanwhile b) i t (get_elem? (meanwhile b).sinks i)
        else (err enotconn, none, b)
  ]

  -- `out` says whether `frame` points somewhere. The frame read, if any, is the second result.
  unfoldable pub sink_take :
      Bridge Q
      → Option Sink
      → Bool
      → Timeout
      → (Bridge Q → Bridge Q)
      → Status × Option Frame × Bridge Q
  unfolding take_id take_slot consume
  sink_take b none out t meanwhile = (err einval, none, b)
  sink_take b (some sink) out t meanwhile =
      if out then take_id b sink.id t meanwhile else (err einval, none, b)

module _ {Q : Type 0} where
  slot_stats : Option (SinkSlot Q) → SinkStats → SinkStats
  slot_stats none stats = stats
  slot_stats (some slot) stats = slot.stats

  stats_of : Bridge Q → Option Sink → SinkStats → SinkStats
  unfolding slot_stats
  stats_of b none stats = stats
  stats_of b (some sink) stats = elim sink.id [
    | none ↦ stats
    | some i ↦ slot_stats (get_elem? b.sinks i) stats
  ]

  unfoldable pub get_sink_stats : Bridge Q → Option Sink → Option SinkStats → Option SinkStats
  unfolding stats_of
  get_sink_stats b sink none = none
  get_sink_stats b sink (some stats) = some (stats_of b sink stats)
