-- ===== src/Threads/Sessions.antt =====
-- `tcp_nmea_session_run` among the other threads: it takes the course of one session.
use esp_nmea_bridge_zephyr.Base.{
  ℕ, ◌≢◌, set, zero, suc, ◌≡◌, refl, ap, sym, ◌∙◌, subst, true, arith, Option, none, some, List, [],
  ◌∷◌, String, get_elem?,
}
use esp_nmea_bridge_zephyr.Zephyr.{ok, Timeout, msec, Msgq}
use esp_nmea_bridge_zephyr.Config.{Config, InRange}
use esp_nmea_bridge_zephyr.NmeaBridge.{Frame, SinkSlot, Bridge}
use esp_nmea_bridge_zephyr.NmeaBridge.Opens.{handed-Opened}
use esp_nmea_bridge_zephyr.NmeaBridge.Sinks.{sink_open, take_id, sink_take}
use esp_nmea_bridge_zephyr.StatusLed
use esp_nmea_bridge_zephyr.TcpNmeaSession.{Shared, Turn, Outcome, started, finish, run}
use esp_nmea_bridge_zephyr.TcpNmeaSession.Rounds.{Kept, run-Ends_at}
use esp_nmea_bridge_zephyr.Threads.{
  Phase, opened, counted, running, World, with_led, with_bridge, boot, open_sink, Step, receive,
  fan_out, report, start_led, count_session, light, take_frame, forwarded, send_failed, dim,
  uncount, close_sink, Reach, here, next,
}
use esp_nmea_bridge_zephyr.Threads.Holders.{held-active, free-none, get_elem?-set}
use esp_nmea_bridge_zephyr.Threads.Invariant.{Inv}
use esp_nmea_bridge_zephyr.Threads.Reachable.{boot-Inv, Reach-Inv}
use esp_nmea_bridge_zephyr.Threads.Course.{
  acts_on, Others, rest, more, Loop, enter, others, takes, forwards, fails, begun, over, Session,
  unavailable, served,
}

module _ {Q : Type 0} ⦃m : Msgq Frame Q⦄ where
  -- The check before a wait adds nothing to a read at its end, if the sink is open all the time.
  sink_take-later :
      (b c : Bridge Q) (i : ℕ) (s s' : SinkSlot Q) (t : Timeout)
      → get_elem? b.sinks i ≡ some s
      → s.active ≡ true
      → get_elem? c.sinks i ≡ some s'
      → s'.active ≡ true
      → sink_take b (some (record { id = some i })) true t (λ _. c)
        ≡ sink_take c (some (record { id = some i })) true t (λ d. d)
  unfolding sink_take take_id
  sink_take-later b c i s s' t at_b on_b at_c on_c = ground arith

get_elem?-set_ne :
    {A : Type 0} (xs : List A) (i j : ℕ) (v : A) → i ≢ j → get_elem? (set xs i v) j ≡ get_elem? xs j
get_elem?-set_ne [] i j v ne = refl
get_elem?-set_ne (x ∷ xs) zero zero v ne = absurd (ne refl)
get_elem?-set_ne (x ∷ xs) zero (suc j) v ne = refl
get_elem?-set_ne (x ∷ xs) (suc i) zero v ne = refl
get_elem?-set_ne (x ∷ xs) (suc i) (suc j) v ne = get_elem?-set_ne xs i j v (λ e. ne (ap suc e))

elsewhere : {i : ℕ} (j : ℕ) → some j ≢ some i → j ≢ i
elsewhere j ne e = ne (ap some e)

module _ {Q : Type 0} ⦃m : Msgq Frame Q⦄ (cfg : Config) (i : ℕ) where
  -- A step of another thread leaves the session where it is.
  Step-at :
      {v w : World Q} (s : Step cfg v w)
      → acts_on cfg s ≢ some i
      → get_elem? w.holders i ≡ get_elem? v.holders i
  Step-at (receive _ ch t) ne = refl
  Step-at (fan_out _) ne = refl
  Step-at (report _ on) ne = refl
  Step-at (start_led _ has_strip strip_ready t) ne = refl
  Step-at (take_frame _ j t e) ne = refl
  Step-at (forwarded _ j t e) ne = refl
  Step-at (send_failed _ j t e) ne = refl
  Step-at (open_sink v name j b e) ne = get_elem?-set_ne v.holders j i _ (elsewhere j ne)
  Step-at (count_session v j e) ne = get_elem?-set_ne v.holders j i _ (elsewhere j ne)
  Step-at (light v j e) ne = get_elem?-set_ne v.holders j i _ (elsewhere j ne)
  Step-at (dim v j e) ne = get_elem?-set_ne v.holders j i _ (elsewhere j ne)
  Step-at (uncount v j e) ne = get_elem?-set_ne v.holders j i _ (elsewhere j ne)
  Step-at (close_sink v j e) ne = get_elem?-set_ne v.holders j i _ (elsewhere j ne)

  Others-at : {v w : World Q} → Others cfg i v w → get_elem? w.holders i ≡ get_elem? v.holders i
  Others-at rest = refl
  Others-at (more o s ne) = Step-at s ne ∙ Others-at o

  Others-Reach : {u v w : World Q} → Reach cfg u v → Others cfg i v w → Reach cfg u w
  Others-Reach r rest = r
  Others-Reach r (more o s ne) = next (Others-Reach r o) s

  Loop-Reach : {u v w : World Q} → Reach cfg u v → Loop cfg i v w → Reach cfg u w
  Loop-Reach r enter = r
  Loop-Reach r (others l o) = Others-Reach (Loop-Reach r l) o
  Loop-Reach r (takes {w} t at_i l) = next (Loop-Reach r l) (take_frame w i t at_i)
  Loop-Reach r (forwards {w} t at_i l) = next (Loop-Reach r l) (forwarded w i t at_i)
  Loop-Reach r (fails {w} t at_i l) = next (Loop-Reach r l) (send_failed w i t at_i)

module _ {Q : Type 0} ⦃m : Msgq Frame Q⦄ (cfg : Config) (range : InRange cfg) (v : World Q)
    (inv : Inv cfg v) (name : Option String) (At : List (Option Phase) → Type 0) where
  Opens : ℕ → Bridge Q → Type 0
  Opens i b =
      sink_open v.shared.bridge (some (record { id = none })) name
      ≡ (ok, some (record { id = some i }), b)

  -- The steps before the loop.
  record Begins (i : ℕ) (b : Bridge Q) : Type 0 where
    pub path : Reach cfg v (begun cfg v i b)
    pub at : get_elem? (begun cfg v i b).holders i ≡ some (some running)

  begun-Begins : (i : ℕ) (b : Bridge Q) → Opens i b → Begins i b
  unfolding Opens
  begun-Begins i b e =
      let o = handed-Opened v.shared.bridge b name i e in
      let at_i = free-none v.shared.bridge.sinks v.holders i o.old inv.owned o.was o.was_free in
      let at_opened = get_elem?-set v.holders i none (some opened) at_i in
      let at_counted = get_elem?-set _ i (some opened) (some counted) at_opened in
      record {
        path =
            next (next (next here (open_sink v name i b e)) (count_session _ i at_opened))
              (light _ i at_counted);
        at = get_elem?-set _ i (some counted) (some running) at_counted;
      }

  -- Shared variables that a state has where the session is in its loop.
  record InLoop (i : ℕ) (s : Shared Q) : Type 0 where
    pub bridge : Bridge Q
    pub opens : Opens i bridge
    pub world : World Q
    pub loop : Loop cfg i (begun cfg v i bridge) world
    pub same : world.shared ≡ s
    pub at : get_elem? world.holders i ≡ some (some running)
    pub places : At world.holders

  InLoop-Reach : (i : ℕ) (s : Shared Q) (h : InLoop i s) → Reach cfg v h.world
  InLoop-Reach i s h = Loop-Reach cfg i (begun-Begins i h.bridge h.opens).path h.loop

  InLoop-open :
      (i : ℕ) (s : Shared Q)
      → InLoop i s
      → (slot : SinkSlot Q) × (get_elem? s.bridge.sinks i ≡ some slot) × (slot.active ≡ true)
  InLoop-open i s h =
      let hv = Reach-Inv cfg range v h.world (InLoop-Reach i s h) inv in
      subst
        (λ t. (slot : SinkSlot Q) × (get_elem? t.bridge.sinks i ≡ some slot) × (slot.active ≡ true))
        h.same (held-active h.world.shared.bridge.sinks h.world.holders i running hv.owned h.at)

  InLoop-Kept : (i : ℕ) → Kept {Q = Q} cfg i (InLoop i)
  InLoop-Kept i = record {
    opens = InLoop-open i;
    failed = λ s t h. record {
      bridge = h.bridge;
      opens = h.opens;
      world = with_led h.world (StatusLed.nmea_send_failed cfg h.world.shared.led t);
      loop = fails t h.at h.loop;
      same =
          ap (λ (x : Shared Q). record x { led = StatusLed.nmea_send_failed cfg x.led t }) h.same;
      at = h.at;
      places = h.places;
    };
    forwarded = λ s t h. record {
      bridge = h.bridge;
      opens = h.opens;
      world = with_led h.world (StatusLed.nmea_frame_forwarded cfg h.world.shared.led t);
      loop = forwards t h.at h.loop;
      same =
          ap (λ (x : Shared Q). record x { led = StatusLed.nmea_frame_forwarded cfg x.led t })
            h.same;
      at = h.at;
      places = h.places;
    };
    taken = λ s s' h h'.
        let (slot, at_s, on) = InLoop-open i s h in
        let (slot', at_s', on') = InLoop-open i s' h' in
        let later = sink_take-later s.bridge s'.bridge i slot slot' (msec 250) at_s on at_s' on' in
        record {
          bridge = h'.bridge;
          opens = h'.opens;
          world =
              with_bridge h'.world
                (sink_take h'.world.shared.bridge (some (record { id = some i })) true (msec 250)
                  (λ b. b)).2;
          loop = takes (msec 250) h'.at h'.loop;
          same =
              ap
                (λ (x : Shared Q). record x {
                  bridge =
                      (sink_take x.bridge (some (record { id = some i })) true (msec 250)
                        (λ b. b)).2;
                })
                h'.same
              ∙ ap (λ r. record s' { bridge = r.2 }) (sym later);
          at = h'.at;
          places = h'.places;
        };
  }

  -- The session has taken its course, and left these shared variables.
  Leaves : Shared Q → Type 0
  Leaves s = (w : World Q) × Session cfg name v w × (w.shared ≡ s)

  started-InLoop :
      (i : ℕ) (b : Bridge Q)
      → Opens i b
      → At (begun cfg v i b).holders
      → InLoop i (started cfg (record v.shared { bridge = b }))
  unfolding started
  started-InLoop i b e first = record {
    bridge = b;
    opens = e;
    world = begun cfg v i b;
    loop = enter;
    same = refl;
    at = (begun-Begins i b e).at;
    places = first;
  }

  finish-Leaves :
      (i : ℕ) (s : Shared Q) → InLoop i s → Leaves (finish cfg s (record { id = some i }))
  unfolding Leaves Opens finish
  finish-Leaves i s h = (
    over cfg h.world i,
    served i h.bridge h.opens h.loop h.at,
    ap (λ (x : Shared Q). finish cfg x (record { id = some i })) h.same,
  )

-- With settings in their ranges, a call of `tcp_nmea_session_run` in a state that the threads reach
-- from boot. While it waits, the other threads take steps of theirs, of any other session too; `At`
-- says at which places the sessions may then be, which holds where the loop begins and behind each of
-- these steps. What the call leaves of the shared variables is what the course of a session leaves:
-- that is refused a sink and changes nothing, or it opens one, is counted and reported to the LED, goes
-- through its loop with the others, and then reports its end, is no longer counted and closes the
-- sink, in this order. It has closed its socket alone.
pub run-Session :
    {Q : Type 0} ⦃m : Msgq Frame Q⦄ (cfg : Config) (raw : Q) (v : World Q) (fd : ℕ)
    (name : Option String) (es : List (Turn Q)) (o : Outcome Q) (At : List (Option Phase) → Type 0)
    → InRange cfg
    → Reach cfg (boot cfg raw) v
    → ((i : ℕ) (b : Bridge Q)
        → sink_open v.shared.bridge (some (record { id = none })) name
          ≡ (ok, some (record { id = some i }), b)
        → At (begun cfg v i b).holders)
    → ((i k : ℕ) (b : Bridge Q) (e : Turn Q) (w : World Q)
        → sink_open v.shared.bridge (some (record { id = none })) name
          ≡ (ok, some (record { id = some i }), b)
        → get_elem? es k ≡ some e
        → Reach cfg v w
        → get_elem? w.holders i ≡ some (some running)
        → At w.holders
        → (w' : World Q) × Others cfg i w w' × At w'.holders × (w'.shared ≡ e.others w.shared))
    → run cfg v.shared fd name es ≡ some o
    → ((w : World Q) × Session cfg name v w × (w.shared ≡ o.shared)) × (o.closed ≡ fd ∷ [])
unfolding Leaves Opens
run-Session cfg raw v fd name es o At range path first steps e =
    let inv = Reach-Inv cfg range _ v path (boot-Inv cfg range raw) in
    run-Ends_at cfg (InLoop cfg range v inv name At) (Leaves cfg range v inv name At)
      (InLoop-Kept cfg range v inv name At) v.shared fd name es o
      (λ off. (v, unavailable off, refl))
      (λ i b opens. started-InLoop cfg range v inv name At i b opens (first i b opens))
      (λ i k b t s opens at_k h.
        let (w', other, places, same) =
          steps i k b t h.world opens at_k (InLoop-Reach cfg range v inv name At i s h) h.at
            h.places in
        record {
          bridge = h.bridge;
          opens = h.opens;
          world = w';
          loop = others h.loop other;
          same = same ∙ ap t.others h.same;
          at = Others-at cfg i other ∙ h.at;
          places = places;
        })
      (finish-Leaves cfg range v inv name At) e
