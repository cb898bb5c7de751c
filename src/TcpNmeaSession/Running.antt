-- ===== src/TcpNmeaSession/Running.antt =====
-- A session's run: the counts and the open sink, round by round to the end.
use esp_nmea_bridge_zephyr.Base.{
  ℕ, ◌≡◌, refl, Option, none, some, List, [], ◌∷◌, arith, String, get_elem?,
}
use esp_nmea_bridge_zephyr.Zephyr.{ok, msec, Msgq}
use esp_nmea_bridge_zephyr.Config.{Config, InRange}
use esp_nmea_bridge_zephyr.NmeaBridge.{Frame, Bridge}
use esp_nmea_bridge_zephyr.NmeaBridge.Sinks.{sink_open}
use esp_nmea_bridge_zephyr.NmeaBridge.Handles.{sink_open-enomem, sink_take_lem}
use esp_nmea_bridge_zephyr.NmeaBridge.Opens.{handed-Opened}
use esp_nmea_bridge_zephyr.TcpNmeaSession.{Shared, Turn, Outcome, after_open, sink_unavailable, run}
use esp_nmea_bridge_zephyr.TcpNmeaSession.Rounds.{Kept, run-Ends_at}
use esp_nmea_bridge_zephyr.TcpNmeaSession.Counting.{
  Agrees, Holds, led-failed, led-forwarded, started-Holds, finish-Agrees, led-Holds, Took-Holds,
}

module _ {Q : Type 0} ⦃m : Msgq Frame Q⦄ (cfg : Config) (range : InRange cfg) where
  Holds-Kept : (i : ℕ) → Kept {Q = Q} cfg i (Holds cfg i)
  Holds-Kept i = record {
    opens = λ w h. (h.slot, h.at, h.active);
    failed = λ w t h. led-Holds cfg range w i _ h (led-failed cfg w.led w.active_sessions t);
    forwarded = λ w t h. led-Holds cfg range w i _ h (led-forwarded cfg w.led w.active_sessions t);
    taken = λ w w' h h'.
        let meanwhile : Bridge Q → Bridge Q = λ _. w'.bridge in
        let took =
          sink_take_lem w.bridge (record { id = some i }) i h.slot h'.slot (msec 250) meanwhile refl
            h.at h.active h'.at in
        Took-Holds cfg range w' i h'.slot (msec 250) _ h'.agrees h'.at h'.active took;
  }

-- A session that ends has closed its socket, once, and has left the counts right: whatever its
-- rounds meet, `active_sessions` and the LED's count (where there is a LED) are the number of open
-- sinks at the end if they were at the start, and if the other threads keep them so, and keep the
-- sink that it has opened open, whenever the session waits.
pub run-Agrees :
    {Q : Type 0} ⦃m : Msgq Frame Q⦄ (cfg : Config) (w : Shared Q) (fd : ℕ) (name : Option String)
    (es : List (Turn Q)) (o : Outcome Q)
    → InRange cfg
    → Agrees cfg w
    → ((i k : ℕ) (b : Bridge Q) (e : Turn Q) (s : Shared Q)
        → sink_open w.bridge (some (record { id = none })) name
          ≡ (ok, some (record { id = some i }), b)
        → get_elem? es k ≡ some e
        → Holds cfg i s
        → Holds cfg i (e.others s))
    → run cfg w fd name es ≡ some o
    → Agrees cfg o.shared × (o.closed ≡ fd ∷ [])
run-Agrees cfg w fd name es o range a keep e =
    run-Ends_at cfg (λ i. Holds cfg i) (Agrees cfg) (Holds-Kept cfg range) w fd name es o (λ e. a)
      (λ i b opens. started-Holds cfg range w name i b a (handed-Opened w.bridge b name i opens))
      keep (finish-Agrees cfg range) e

-- While all sinks are open, a session ends at once: nothing is sent, its socket is closed, and the
-- bridge, the LED and the counts are as before.
pub run-sink_unavailable :
    {Q : Type 0} ⦃m : Msgq Frame Q⦄ (cfg : Config) (w : Shared Q) (fd : ℕ) (name : Option String)
    (es : List (Turn Q))
    → Agrees cfg w
    → w.active_sessions ≡ cfg.nmea_sinks_max
    → run cfg w fd name es
      ≡ some (record { result = sink_unavailable; shared = w; wire = []; closed = fd ∷ [] })
unfolding run after_open
run-sink_unavailable cfg w fd name es a full =
    let e =
      sink_open-enomem w.bridge (record { id = none }) name (omega (arith, a.sinks, a.slots)) in
    rw e refl
