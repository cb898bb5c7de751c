-- ===== src/NmeaBridge/Delivery.antt =====
-- Frames on their way from `nmea_bridge_publish_frame` through the dispatcher to the sinks.
use esp_nmea_bridge_zephyr.Base.{
  ℕ, zero, suc, ◌+◌, ◌-◌, ◌%◌, ◌^◌, ◌≤◌, ◌<◌, ◌≡◌, refl, sym, ◌∙◌, true, some, List, [], ◌∷◌, ◌++◌,
  append_assoc, arith, if◌then◌else◌, ltb, length, get_elem?, u32, map, All, All-get_elem?,
  All₂-get_elem?, drop, drop-drop, drop-append, length-drop, length-append, take-all, append-nil,
}
use esp_nmea_bridge_zephyr.Zephyr.{ok, Msgq}
use esp_nmea_bridge_zephyr.Config.{Config, InRange}
use esp_nmea_bridge_zephyr.NmeaBridge.{Frame, SinkSlot, Bridge, dispatch, publish_frame, to_frame}
use esp_nmea_bridge_zephyr.NmeaBridge.Queueing.{
  keep_newest, keep_newest-eq_self, put_drop_oldest-PutsNewest,
}
use esp_nmea_bridge_zephyr.NmeaBridge.Invariant.{
  SlotIsValid, IsValid, dispatch-IsValid, publish_frame-IsValid,
}
use esp_nmea_bridge_zephyr.NmeaBridge.Fanout.{Delivered, dispatch_lem}

-- Trimming a list on the way does not change what is kept in the end.
keep_newest-append {ℓ} :
    {A : Type ℓ} (n : ℕ) (xs ys : List A)
    → keep_newest n (keep_newest n xs ++ ys) ≡ keep_newest n (xs ++ ys)
keep_newest-append n xs ys =
    let k : ℕ = length xs - n in
    let l : ℕ = length (xs ++ ys) in
    let e : drop k xs ++ ys ≡ drop k (xs ++ ys) = sym (drop-append k xs ys (omega arith)) in
    let m : k + (length (drop k (xs ++ ys)) - n) ≡ l - n =
      omega (arith, length-drop k (xs ++ ys), length-append xs ys) in
    rw (e, drop-drop, m)

-- A frame that holds these bytes.
abbrev pub frame_of : List ℕ → Frame
frame_of bytes = record { len = length bytes; bytes = bytes }

to_frame-eq-frame_of :
    (cfg : Config) (bytes : List ℕ)
    → InRange cfg
    → length bytes ≤ cfg.nmea_frame_max_len
    → to_frame bytes (length bytes) ≡ frame_of bytes
unfolding to_frame
to_frame-eq-frame_of cfg bytes r h = ground (arith, take-all (length bytes % 2 ^ 16) bytes)

module _ {Q : Type 0} ⦃m : Msgq Frame Q⦄ where
  -- A line of 1 to `nmea_frame_max_len` bytes, published in a valid state, is accepted: the whole
  -- of it goes behind the newest frames of the ingest queue that still fit, `frames_in` counts it,
  -- `ingest_dropped_oldest` grows exactly when the queue was full, and nothing else changes.
  pub publish_frame-ok :
      (cfg : Config) (b : Bridge Q) (bytes : List ℕ)
      → InRange cfg
      → IsValid cfg b
      → 0 < length bytes
      → length bytes ≤ cfg.nmea_frame_max_len
      → let r = publish_frame cfg b (some bytes) (length bytes) in
        (r.0 ≡ ok)
        × (m.contents r.1.ingest_msgq
            ≡ keep_newest cfg.ingest_queue_depth (m.contents b.ingest_msgq ++ frame_of bytes ∷ []))
        × (r.1.sinks ≡ b.sinks)
        × (r.1.bridge_stats ≡ record b.bridge_stats {
          frames_in = u32 (b.bridge_stats.frames_in + 1);
          ingest_dropped_oldest =
              if ltb (length (m.contents b.ingest_msgq)) cfg.ingest_queue_depth
              then b.bridge_stats.ingest_dropped_oldest
              else u32 (b.bridge_stats.ingest_dropped_oldest + 1);
        })
  unfolding publish_frame
  publish_frame-ok cfg b bytes r v pos fits = ground (
    arith,
    to_frame-eq-frame_of cfg bytes r fits,
    put_drop_oldest-PutsNewest cfg.ingest_queue_depth b.ingest_msgq (frame_of bytes)
        b.bridge_stats.ingest_dropped_oldest v.ingest,
  )

  -- `n` rounds of the dispatcher.
  unfoldable pub rounds : ℕ → Bridge Q → Bridge Q
  rounds zero b = b
  rounds (suc n) b = rounds n (dispatch b)

  -- The queue of an open sink, `s` before and `s'` after it was given these frames.
  pub record Received (depth : ℕ) (frames : List Frame) (s s' : SinkSlot Q) : Type 0 where
    pub active : s'.active ≡ true
    pub contents : m.contents s'.msgq ≡ keep_newest depth (m.contents s.msgq ++ frames)

  Received-cons :
      (depth : ℕ) (f : Frame) (rest : List Frame) (s t u : SinkSlot Q)
      → s.active ≡ true
      → Delivered depth f s t
      → Received depth rest t u
      → Received depth (f ∷ rest) s u
  Received-cons depth f rest s t u on d r = ground (
    arith,
    keep_newest-append depth (m.contents s.msgq ++ f ∷ []) rest,
    append_assoc (m.contents s.msgq) (f ∷ []) rest,
  )

  -- As many rounds as the ingest queue holds frames empty it, and leave in the queue of an open
  -- sink the newest of its own frames and those, in order.
  pub rounds-Received :
      (frames : List Frame) (cfg : Config) (b : Bridge Q) (i : ℕ) (s : SinkSlot Q)
      → IsValid cfg b
      → m.contents b.ingest_msgq ≡ frames
      → get_elem? b.sinks i ≡ some s
      → s.active ≡ true
      → let b' = rounds (length frames) b in
        (m.contents b'.ingest_msgq ≡ [])
        × ((s' : SinkSlot Q) × (get_elem? b'.sinks i ≡ some s')
            × Received cfg.sink_queue_depth frames s s')
  unfolding rounds
  rounds-Received [] cfg b i s v e at_i on =
      let here = All-get_elem? (SlotIsValid cfg.sink_queue_depth) b.sinks i s v.slots at_i in
      (
        e,
        (
          s,
          at_i,
          record {
            active = on;
            contents =
                rw append-nil (sym (keep_newest-eq_self _ (m.contents s.msgq) here.queue.within));
          },
        ),
      )
  rounds-Received (f ∷ rest) cfg b i s v e at_i on =
      let one = dispatch_lem cfg b f rest v e in
      let t = All₂-get_elem? (Delivered cfg.sink_queue_depth f) _ _ i s one.1 at_i in
      let more =
        rounds-Received rest cfg (dispatch b) i t.0 (dispatch-IsValid cfg b v) one.0 t.1
          (t.2.active ∙ on) in
      (
        more.0,
        (
          more.1.0,
          more.1.1,
          Received-cons cfg.sink_queue_depth f rest s t.0 more.1.0 on t.2 more.1.2,
        ),
      )

  -- The lines of a producer, one `nmea_bridge_publish_frame` after the other.
  unfoldable pub publish_all : Config → Bridge Q → List (List ℕ) → Bridge Q
  publish_all cfg b [] = b
  publish_all cfg b (line ∷ lines) =
      publish_all cfg (publish_frame cfg b (some line) (length line)).1 lines

  pub record Queued (cfg : Config) (lines : List (List ℕ)) (b b' : Bridge Q) : Type 0 where
    pub valid : IsValid cfg b'
    pub sinks : b'.sinks ≡ b.sinks
    pub contents :
        m.contents b'.ingest_msgq
        ≡ keep_newest cfg.ingest_queue_depth (m.contents b.ingest_msgq ++ map frame_of lines)

  pub publish_all-Queued :
      (cfg : Config) (lines : List (List ℕ)) (b : Bridge Q)
      → InRange cfg
      → IsValid cfg b
      → All (λ line. (0 < length line) × (length line ≤ cfg.nmea_frame_max_len)) lines
      → Queued cfg lines b (publish_all cfg b lines)
  unfolding publish_all
  publish_all-Queued cfg [] b r v fits = record {
    valid = v;
    sinks = refl;
    contents = rw append-nil (sym (keep_newest-eq_self _ _ v.ingest.within));
  }
  publish_all-Queued cfg (line ∷ lines) b r v fits =
      let one = publish_frame-ok cfg b line r v fits.0.0 fits.0.1 in
      let more =
        publish_all-Queued cfg lines (publish_frame cfg b (some line) (length line)).1 r
          (publish_frame-IsValid cfg b (some line) (length line) v) fits.1 in
      record {
        valid = more.valid;
        sinks = more.sinks ∙ one.2;
        contents = ground (
          arith,
          more.contents,
          one.1,
          keep_newest-append cfg.ingest_queue_depth (m.contents b.ingest_msgq ++ frame_of line ∷ [])
              (map frame_of lines),
          append_assoc (m.contents b.ingest_msgq) (frame_of line ∷ []) (map frame_of lines),
        );
      }
