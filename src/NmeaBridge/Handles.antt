-- ===== src/NmeaBridge/Handles.antt =====
-- Sink handles: which slot an opening takes, what a closed handle can do, and what a read returns.
use esp_nmea_bridge_zephyr.Base.{
  ℕ, ◌+◌, ◌<◌, ◌≡◌, inl, inr, refl, ap, true, false, Option, none, some, List, [], ◌∷◌, arith,
  String, if◌then◌else◌, ltb, length, get_elem?, set, modify, take, u32, get_elem?-modify_self,
  modify-eq-set, lt_of_get_elem?,
}
use esp_nmea_bridge_zephyr.Zephyr.{Status, ok, err, enomem, enotconn, Timeout, expired, Msgq}
use esp_nmea_bridge_zephyr.NmeaBridge.{Frame, Sink, SinkSlot, Bridge, no_sink_stats}
use esp_nmea_bridge_zephyr.NmeaBridge.Sinks.{
  claim, vacate, sink_open, sink_close, close_id, consume, take_slot, take_id, sink_take,
}
use esp_nmea_bridge_zephyr.NmeaBridge.Slots.{
  count_active, Free, FirstFree, first_free_lem, count_active-modify,
}

-- What a read makes of the frames in a sink's queue: its result, and the frames left.
abbrev pub read_status : List Frame → Timeout → Status
read_status [] t = err (expired t)
read_status (f ∷ fs) t = ok

abbrev pub read_frame : List Frame → Option Frame
read_frame [] = none
read_frame (f ∷ fs) = some f

abbrev pub rest_of : List Frame → List Frame
rest_of [] = []
rest_of (f ∷ fs) = fs

abbrev pub reads : List Frame → ℕ
reads [] = 0
reads (f ∷ fs) = 1

module _ {Q : Type 0} ⦃m : Msgq Frame Q⦄ where
  -- The slot `i` of `b` was free, with only open slots before it, and is now open under `name`,
  -- with an empty queue and counters at 0; all else is as it was.
  pub record Opened (b : Bridge Q) (name : Option String) (i : ℕ) (c : Bridge Q) : Type 0 where
    pub old : SinkSlot Q
    pub new : SinkSlot Q
    pub was : get_elem? b.sinks i ≡ some old
    pub was_free : old.active ≡ false
    pub lowest : count_active (take i b.sinks) ≡ i
    pub sinks : c.sinks ≡ set b.sinks i new
    pub now : get_elem? c.sinks i ≡ some new
    pub active : new.active ≡ true
    pub named : new.name ≡ name
    pub empty : m.contents new.msgq ≡ []
    pub stats : new.stats ≡ no_sink_stats
    pub one_more : count_active c.sinks ≡ count_active b.sinks + 1
    pub ingest_msgq : c.ingest_msgq ≡ b.ingest_msgq
    pub bridge_stats : c.bridge_stats ≡ b.bridge_stats

  claimed-Opened :
      (b : Bridge Q) (name : Option String) (i : ℕ)
      → Free b.sinks 0 i
      → Opened b name i (record b { sinks = modify b.sinks i (claim name) })
  unfolding claim
  claimed-Opened b name i f =
      let at_i : get_elem? b.sinks i ≡ some f.slot = ground arith in
      record {
        old = f.slot;
        new = claim name f.slot;
        was = at_i;
        was_free = f.inactive;
        lowest = ground arith;
        sinks = modify-eq-set b.sinks i (claim name) f.slot at_i;
        now = get_elem?-modify_self b.sinks i (claim name) f.slot at_i;
        active = refl;
        named = refl;
        empty = m.contents-purge f.slot.msgq;
        stats = refl;
        one_more = ground (arith, count_active-modify b.sinks i (claim name) f.slot at_i);
        ingest_msgq = refl;
        bridge_stats = refl;
      }

  open-found :
      (b : Bridge Q) (sink : Sink) (name : Option String)
      → FirstFree b.sinks 0
      → count_active b.sinks < length b.sinks
      → (i : ℕ) × ((sink_open b (some sink) name).0 ≡ ok)
        × ((sink_open b (some sink) name).1 ≡ some (record { id = some i }))
        × Opened b name i (sink_open b (some sink) name).2
  unfolding sink_open
  open-found b sink name (inl h) room = absurd (omega arith)
  open-found b sink name (inr (i, e, f)) room =
      (i, rw (e, sink_open), rw (e, sink_open), rw (e, sink_open) (claimed-Opened b name i f))

  -- While a slot is free, `nmea_bridge_sink_open` succeeds and opens the free slot of lowest index,
  -- with an empty queue and counters at 0; no other slot changes.
  pub sink_open-ok :
      (b : Bridge Q) (sink : Sink) (name : Option String)
      → count_active b.sinks < length b.sinks
      → let r = sink_open b (some sink) name in
        (i : ℕ) × (r.0 ≡ ok) × (r.1 ≡ some (record { id = some i })) × Opened b name i r.2
  sink_open-ok b sink name = open-found b sink name (first_free_lem b.sinks 0)

  open-none :
      (b : Bridge Q) (sink : Sink) (name : Option String)
      → FirstFree b.sinks 0
      → count_active b.sinks ≡ length b.sinks
      → sink_open b (some sink) name ≡ (err enomem, some (record { id = none }), b)
  unfolding sink_open
  open-none b sink name (inl h) full = rw (h.0, sink_open)
  open-none b sink name (inr (i, e, f)) full = absurd (omega (arith, f.room))

  -- With every slot open `nmea_bridge_sink_open` fails with ENOMEM, leaves the handle closed, and
  -- changes nothing else.
  pub sink_open-enomem :
      (b : Bridge Q) (sink : Sink) (name : Option String)
      → count_active b.sinks ≡ length b.sinks
      → sink_open b (some sink) name ≡ (err enomem, some (record { id = none }), b)
  sink_open-enomem b sink name = open-none b sink name (first_free_lem b.sinks 0)

  close_id_lem :
      (b : Bridge Q) (sink : Sink) (i : ℕ) (s : SinkSlot Q)
      → get_elem? b.sinks i ≡ some s
      → close_id b sink (some i)
        ≡ (record { id = none }, record b { sinks = modify b.sinks i vacate })
  unfolding close_id
  close_id_lem b sink i s e = ground (arith, lt_of_get_elem? b.sinks i s e)

  -- Closing an open sink closes its handle and frees its slot, whose frames are dropped; the other
  -- slots stay. Then a read by the handle fails with ENOTCONN, and to close it again does nothing.
  pub sink_close_lem :
      (b : Bridge Q) (sink : Sink) (i : ℕ) (s : SinkSlot Q) (t : Timeout)
      (meanwhile : Bridge Q → Bridge Q)
      → sink.id ≡ some i
      → get_elem? b.sinks i ≡ some s
      → s.active ≡ true
      → let freed = record s { active = false; name = none; msgq = m.purge s.msgq } in
        let (handle, c) = sink_close b (some sink) in
        (c ≡ record b { sinks = set b.sinks i freed })
        × (m.contents freed.msgq ≡ [])
        × (count_active c.sinks + 1 ≡ count_active b.sinks)
        × (sink_take c handle true t meanwhile ≡ (err enotconn, none, c))
        × (sink_close c handle ≡ (handle, c))
  unfolding sink_close sink_take
  sink_close_lem b sink i s t meanwhile e at_i on =
      rw (e, close_id_lem b _ i s at_i)
        (
          ap (λ xs. record b { sinks = xs }) (modify-eq-set b.sinks i vacate s at_i),
          m.contents-purge s.msgq,
          ground (arith, count_active-modify b.sinks i vacate s at_i),
          refl,
          refl,
        )

  -- What a read by handle `i` returns and leaves behind, where `c` is the bridge and `s` the slot
  -- at the end of the wait.
  pub record Took (c : Bridge Q) (i : ℕ) (s : SinkSlot Q) (t : Timeout)
      (r : Status × Option Frame × Bridge Q) : Type 0 where
    pub new : SinkSlot Q
    pub status : r.0 ≡ read_status (m.contents s.msgq) t
    pub frame : r.1 ≡ read_frame (m.contents s.msgq)
    pub bridge : r.2 ≡ record c { sinks = set c.sinks i new }
    pub now : get_elem? r.2.sinks i ≡ some new
    pub contents : m.contents new.msgq ≡ rest_of (m.contents s.msgq)
    pub active : new.active ≡ s.active
    pub name : new.name ≡ s.name
    pub stats : new.stats ≡ record s.stats {
      consumed =
          (if ltb 0 (reads (m.contents s.msgq))
            then u32 (s.stats.consumed + 1)
            else s.stats.consumed);
    }

  consumed-Took :
      (c : Bridge Q) (i : ℕ) (s : SinkSlot Q) (t : Timeout) (fs : List Frame)
      → get_elem? c.sinks i ≡ some s
      → m.contents s.msgq ≡ fs
      → Took c i s t (take_slot c i t (some s))
  unfolding take_slot consume
  consumed-Took c i s t [] at_i e =
      let q : Q = (m.get t s.msgq).2 in
      let ret : Status = (m.get t s.msgq).0 in
      let f : SinkSlot Q → SinkSlot Q = λ x. consume x q ret in
      record {
        new = consume s q ret;
        status = ground (arith, m.get_empty t s.msgq e);
        frame = ground (arith, m.get_empty t s.msgq e);
        bridge = ap (λ xs. record c { sinks = xs }) (modify-eq-set c.sinks i f s at_i);
        now = get_elem?-modify_self c.sinks i f s at_i;
        contents = ground (arith, m.get_empty t s.msgq e);
        active = ground arith;
        name = ground arith;
        stats = ground (arith, m.get_empty t s.msgq e);
      }
  consumed-Took c i s t (frame ∷ fs) at_i e =
      let q : Q = (m.get t s.msgq).2 in
      let ret : Status = (m.get t s.msgq).0 in
      let f : SinkSlot Q → SinkSlot Q = λ x. consume x q ret in
      record {
        new = consume s q ret;
        status = ground (arith, m.get_first t s.msgq frame fs e);
        frame = ground (arith, m.get_first t s.msgq frame fs e);
        bridge = ap (λ xs. record c { sinks = xs }) (modify-eq-set c.sinks i f s at_i);
        now = get_elem?-modify_self c.sinks i f s at_i;
        contents = ground (arith, m.get_first t s.msgq frame fs e);
        active = ground arith;
        name = ground arith;
        stats = ground (arith, m.get_first t s.msgq frame fs e);
      }

  -- A read of an open sink waits, while the other threads go from `b` to `meanwhile b`, and then
  -- returns the oldest frame that the slot holds, or the error of an expired wait if it holds none;
  -- `consumed` counts the frames that were read. Nothing else changes.
  pub sink_take_lem :
      (b : Bridge Q) (sink : Sink) (i : ℕ) (s s' : SinkSlot Q) (t : Timeout)
      (meanwhile : Bridge Q → Bridge Q)
      → sink.id ≡ some i
      → get_elem? b.sinks i ≡ some s
      → s.active ≡ true
      → get_elem? (meanwhile b).sinks i ≡ some s'
      → Took (meanwhile b) i s' t (sink_take b (some sink) true t meanwhile)
  unfolding sink_take
  sink_take_lem b sink i s s' t meanwhile e at_i on then_i =
      rw (e, at_i, on, then_i, take_id)
        (consumed-Took (meanwhile b) i s' t (m.contents s'.msgq) then_i refl)
