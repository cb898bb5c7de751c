-- ===== src/NmeaBridge/Tests.antt =====
-- The bridge on concrete inputs: runs of its functions, and the theorems applied.
use esp_nmea_bridge_zephyr.Base.{ℕ, ◌≡◌, refl, Bool, true, false, none, some, List, [], ◌∷◌, arith}
use esp_nmea_bridge_zephyr.Zephyr.{ok, err, enotconn, emsgsize, no_wait}
use esp_nmea_bridge_zephyr.Fixtures.{ListQueue, list_msgq, small, small-InRange}
use esp_nmea_bridge_zephyr.NmeaBridge.{
  Frame, Sink, SinkSlot, Bridge, no_bridge_stats, no_sink_stats, put_drop_oldest, dispatch, statics,
  init, publish_frame, get_stats,
}
use esp_nmea_bridge_zephyr.NmeaBridge.Queueing.{PutsNewest, put_drop_oldest-PutsNewest}
use esp_nmea_bridge_zephyr.NmeaBridge.Sinks.{sink_open, sink_close, sink_take}
use esp_nmea_bridge_zephyr.NmeaBridge.Invariant.{IsValid}
use esp_nmea_bridge_zephyr.NmeaBridge.Fanout.{dispatch_lem}
use esp_nmea_bridge_zephyr.NmeaBridge.Delivery.{frame_of, publish_frame-ok}
use esp_nmea_bridge_zephyr.NmeaBridge.Handles.{
  Opened, Took, sink_open-ok, sink_close_lem, sink_take_lem,
}

abbrev raw_queue : ListQueue
raw_queue = record { items = []; depth = 0 }

abbrev closed_sink : Sink
closed_sink = record { id = none }

abbrev first_sink : Sink
first_sink = record { id = some 0 }

abbrev queue : ℕ → List Frame → ListQueue
queue depth items = record { items = items; depth = depth }

abbrev slot : Bool → List Frame → SinkSlot ListQueue
slot active items = record {
  active = active;
  name = none;
  msgq = queue 2 items;
  stats = no_sink_stats;
}

abbrev frame : ℕ → Frame
frame x = frame_of (x ∷ 10 ∷ [])

-- One sink is open, with an empty queue.
abbrev one_open : Bridge ListQueue
one_open = record {
  ingest_msgq = queue 3 [];
  sinks = slot true [] ∷ slot false [] ∷ slot false [] ∷ [];
  bridge_stats = no_bridge_stats;
}

-- Two sinks are open, the first with a full queue, and one frame is on its way.
abbrev one_full : Bridge ListQueue
one_full = record {
  ingest_msgq = queue 3 (frame 7 ∷ []);
  sinks = slot true (frame 1 ∷ frame 2 ∷ []) ∷ slot false [] ∷ slot true [] ∷ [];
  bridge_stats = no_bridge_stats;
}

abbrev all_open : Bridge ListQueue
all_open = record one_open { sinks = slot true [] ∷ slot true [] ∷ slot true [] ∷ [] }

one_full-IsValid : IsValid small one_full
one_full-IsValid = omega arith

boot_runs :
    init small (statics small raw_queue)
    ≡ record one_open { sinks = slot false [] ∷ slot false [] ∷ slot false [] ∷ [] }
unfolding init statics
boot_runs = refl

dispatch_runs :
    (dispatch one_full).sinks
    ≡ record (slot true (frame 2 ∷ frame 7 ∷ [])) {
      stats = record { queued = 1; dropped_oldest = 1; consumed = 0 };
    }
      ∷ slot false []
      ∷ record (slot true (frame 7 ∷ [])) { stats = record no_sink_stats { queued = 1 } }
      ∷ []
unfolding dispatch put_drop_oldest
dispatch_runs = refl

oversize_runs : (publish_frame small one_open (some (1 ∷ [])) 33).0 ≡ err emsgsize
unfolding publish_frame
oversize_runs = refl

put_drop_oldest-PutsNewest_example :
    PutsNewest 2
      (queue 2 (frame 1 ∷ frame 2 ∷ []))
      (frame 3)
      0
      (put_drop_oldest (queue 2 (frame 1 ∷ frame 2 ∷ [])) (frame 3) 0)
put_drop_oldest-PutsNewest_example =
    put_drop_oldest-PutsNewest 2 (queue 2 (frame 1 ∷ frame 2 ∷ [])) (frame 3) 0 (omega arith)

dispatch_lem_example :
    (dispatch one_full).bridge_stats ≡ record no_bridge_stats { sink_dropped_oldest = 1 }
dispatch_lem_example = (dispatch_lem small one_full (frame 7) [] one_full-IsValid refl).2

publish_frame-ok_example :
    (publish_frame small one_full (some (36 ∷ 10 ∷ [])) 2).1.ingest_msgq.items
    ≡ frame 7 ∷ frame 36 ∷ []
publish_frame-ok_example =
    (publish_frame-ok small one_full (36 ∷ 10 ∷ []) small-InRange one_full-IsValid (omega arith)
      (omega arith)).1

-- Three lines for a queue of two: the first is lost.
abbrev three_lines : List (List ℕ)
three_lines = (1 ∷ 10 ∷ []) ∷ (2 ∷ 10 ∷ []) ∷ (3 ∷ 10 ∷ []) ∷ []

sink_open-ok_example :
    let r = sink_open one_open (some closed_sink) (some "tcp") in
    (i : ℕ) × (r.0 ≡ ok)
    × (r.1 ≡ some (record { id = some i }))
    × Opened one_open (some "tcp") i r.2
sink_open-ok_example = sink_open-ok one_open closed_sink (some "tcp") (omega arith)

-- The first slot once the frame on its way has arrived.
abbrev refilled : SinkSlot ListQueue
refilled = record (slot true (frame 2 ∷ frame 7 ∷ [])) {
  stats = record { queued = 1; dropped_oldest = 1; consumed = 0 };
}

sink_take_lem_example :
    Took
      (dispatch one_full)
      0
      refilled
      no_wait
      (sink_take one_full (some first_sink) true no_wait dispatch)
unfolding dispatch put_drop_oldest
sink_take_lem_example =
    sink_take_lem one_full first_sink 0 (slot true (frame 1 ∷ frame 2 ∷ [])) refilled no_wait
      dispatch refl refl refl refl

sink_close_lem_example :
    (sink_take
      (sink_close one_full (some first_sink)).1
      (sink_close one_full (some first_sink)).0
      true
      no_wait
      dispatch)
    ≡ (err enotconn, none, (sink_close one_full (some first_sink)).1)
sink_close_lem_example =
    (sink_close_lem one_full first_sink 0 (slot true (frame 1 ∷ frame 2 ∷ [])) no_wait dispatch refl
      refl refl).3

get_stats_runs : get_stats one_full (some no_bridge_stats) ≡ some one_full.bridge_stats
unfolding get_stats
get_stats_runs = refl
