-- ===== src/NmeaBridge.antt =====
-- src/nmea_bridge.h and src/nmea_bridge.c. Every region under `sinks_lock` is one step; the calls
-- outside it are made by threads that nothing of lower priority interrupts on the one core.
pub mod Sinks
pub mod Queueing
pub mod Invariant
pub mod Fanout
pub mod Slots
pub mod Opens
pub mod Handles
pub mod Delivery
mod Tests
pub mod Keeping
use esp_nmea_bridge_zephyr.Base.{
  ℕ, ◌+◌, ◌*◌, ◌%◌, ◌≤◌, ◌<◌, ◌≡◌, Bool, true, false, not, Option, none, some, List, [], ◌∷◌,
  String, if◌then◌else◌, ltb, leb, ◌==◌, ◌||◌, map, length, get_elem?, set, take, replicate, u16,
  u32, sub32,
}
use esp_nmea_bridge_zephyr.Zephyr.{
  Errno, einval, emsgsize, enotconn, enomem, Status, ok, err, Timeout, no_wait, forever, Msgq,
}
use esp_nmea_bridge_zephyr.Config.{Config}

-- `struct nmea_frame`: `bytes` is `data[0 .. len)`; what stands behind it is never read.
pub record Frame : Type 0 where
  pub len : ℕ
  pub bytes : List ℕ

-- `struct nmea_bridge_stats`
pub record BridgeStats : Type 0 where
  pub frames_in : ℕ
  pub ingest_dropped_oldest : ℕ
  pub sink_dropped_oldest : ℕ
  pub publish_no_sinks : ℕ
  pub publish_invalid : ℕ
  pub publish_oversize : ℕ

-- `struct nmea_sink_stats`
pub record SinkStats : Type 0 where
  pub queued : ℕ
  pub dropped_oldest : ℕ
  pub consumed : ℕ

-- `struct nmea_bridge_sink`: `none` is an `id` below 0.
pub record Sink : Type 0 where
  pub id : Option ℕ

-- `struct sink_slot`, with a queue object `Q` for `msgq` and `buffer`
pub record SinkSlot (Q : Type 0) : Type 0 where
  pub active : Bool
  pub name : Option String
  pub msgq : Q
  pub stats : SinkStats

-- The file's static variables.
pub record Bridge (Q : Type 0) : Type 0 where
  pub ingest_msgq : Q
  pub sinks : List (SinkSlot Q)
  pub bridge_stats : BridgeStats

abbrev pub no_bridge_stats : BridgeStats
no_bridge_stats = record {
  frames_in = 0;
  ingest_dropped_oldest = 0;
  sink_dropped_oldest = 0;
  publish_no_sinks = 0;
  publish_invalid = 0;
  publish_oversize = 0;
}

abbrev pub no_sink_stats : SinkStats
no_sink_stats = record { queued = 0; dropped_oldest = 0; consumed = 0 }

-- `memcpy(frame.data, data, frame.len)` after the cast of `len` to uint16_t
pub to_frame : List ℕ → ℕ → Frame
to_frame bytes len = record { len = u16 len; bytes = take (u16 len) bytes }

module _ {Q : Type 0} ⦃m : Msgq Frame Q⦄ where
  put_again : Status × Q → ℕ → Q × ℕ
  put_again (ok, q) drop_counter = (q, drop_counter)
  put_again (err _, q) drop_counter = (q, u32 (drop_counter + 1))

  pub put_drop_oldest : Q → Frame → ℕ → Q × ℕ
  unfolding put_again
  put_drop_oldest q frame drop_counter = elim (m.put q frame).0 [
    | ok ↦ ((m.put q frame).1, drop_counter)
    | err _ ↦ put_again (m.put (m.get no_wait (m.put q frame).1).2 frame) (u32 (drop_counter + 1))
  ]

  -- One round of the loop over the sinks.
  dispatch_sink : Frame → SinkSlot Q → BridgeStats → SinkSlot Q × BridgeStats
  dispatch_sink frame slot stats =
      let before = slot.stats.dropped_oldest in
      let (q, dropped) = put_drop_oldest slot.msgq frame before in
      if slot.active
      then (
        record slot {
          msgq = q;
          stats = record {
            queued = u32 (slot.stats.queued + 1);
            dropped_oldest = dropped;
            consumed = slot.stats.consumed;
          };
        },
        (if dropped == before then stats else record stats {
          sink_dropped_oldest = u32 (stats.sink_dropped_oldest + sub32 dropped before);
        }),
      )
      else (slot, stats)

  -- The loop, with `any` for the variable of that name.
  dispatch_sinks :
      Frame → List (SinkSlot Q) → BridgeStats → Bool → List (SinkSlot Q) × BridgeStats × Bool
  dispatch_sinks frame [] stats any = ([], stats, any)
  dispatch_sinks frame (slot ∷ rest) stats any =
      let (slot', stats') = dispatch_sink frame slot stats in
      let (rest', stats'', any') = dispatch_sinks frame rest stats' (slot.active || any) in
      (slot' ∷ rest', stats'', any')

  -- The body of `dispatcher_thread`'s loop; on an empty ingest queue the thread waits.
  pub dispatch : Bridge Q → Bridge Q
  unfolding dispatch_sinks dispatch_sink
  dispatch b = elim (m.get forever b.ingest_msgq).1 [
    | none ↦ b
    | some frame ↦
        let (sinks, stats, any) = dispatch_sinks frame b.sinks b.bridge_stats false in
        record {
          ingest_msgq = (m.get forever b.ingest_msgq).2;
          sinks = sinks;
          bridge_stats =
              if any
              then stats
              else record stats { publish_no_sinks = u32 (stats.publish_no_sinks + 1) };
        }
  ]

  -- The file's variables before `main`: zeroes, and the ingest queue of K_MSGQ_DEFINE. `raw` is a
  -- queue object that nothing has set up yet.
  unfoldable pub statics : Config → Q → Bridge Q
  statics cfg raw = record {
    ingest_msgq = m.init cfg.ingest_queue_depth;
    sinks =
        replicate cfg.nmea_sinks_max
          (record { active = false; name = none; msgq = raw; stats = no_sink_stats });
    bridge_stats = no_bridge_stats;
  }

  unfoldable pub init_slot : Config → SinkSlot Q → SinkSlot Q
  init_slot cfg slot = record slot { msgq = m.init cfg.sink_queue_depth }

  unfoldable pub init : Config → Bridge Q → Bridge Q
  unfolding init_slot
  init cfg b = record b { sinks = map (init_slot cfg) b.sinks }

  count_invalid : Bridge Q → Bridge Q
  count_invalid b = record b {
    bridge_stats = record b.bridge_stats {
      publish_invalid = u32 (b.bridge_stats.publish_invalid + 1);
    };
  }

  count_oversize : Bridge Q → Bridge Q
  count_oversize b = record b {
    bridge_stats = record b.bridge_stats {
      publish_oversize = u32 (b.bridge_stats.publish_oversize + 1);
    };
  }

  accept : Bridge Q → Frame → Bridge Q
  accept b frame =
      let (q, dropped) = put_drop_oldest b.ingest_msgq frame b.bridge_stats.ingest_dropped_oldest in
      record b {
        ingest_msgq = q;
        bridge_stats = record b.bridge_stats {
          frames_in = u32 (b.bridge_stats.frames_in + 1);
          ingest_dropped_oldest = dropped;
        };
      }

  -- `none` is a null pointer.
  pub publish_frame : Config → Bridge Q → Option (List ℕ) → ℕ → Status × Bridge Q
  unfolding count_invalid count_oversize accept to_frame
  publish_frame cfg b none len = (err einval, count_invalid b)
  publish_frame cfg b (some bytes) len =
      if len == 0
      then (err einval, count_invalid b)
      else if ltb cfg.nmea_frame_max_len len
      then (err emsgsize, count_oversize b)
      else (ok, accept b (to_frame bytes len))

module _ {Q : Type 0} where
  -- `nmea_bridge_get_stats`; `none` is a null pointer.
  unfoldable pub get_stats : Bridge Q → Option BridgeStats → Option BridgeStats
  get_stats b none = none
  get_stats b (some _) = some b.bridge_stats
