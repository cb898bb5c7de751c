-- ===== src/TcpNmeaSession/Rounds.antt =====
-- The loop of a session, for whatever the steps of its rounds keep.
use esp_nmea_bridge_zephyr.Base.{
  ℕ, suc, ◌≡◌, ap, refl, subst, arith, String, dec_lt, length, Bool, true, false, Option, none,
  some, List, [], ◌∷◌, get_elem?,
}
use esp_nmea_bridge_zephyr.Zephyr.{ok, err, enomem, Status, msec, Msgq}
use esp_nmea_bridge_zephyr.Config.{Config}
use esp_nmea_bridge_zephyr.NmeaBridge.{Frame, Sink, SinkSlot, Bridge}
use esp_nmea_bridge_zephyr.NmeaBridge.Sinks.{sink_open, sink_take}
use esp_nmea_bridge_zephyr.NmeaBridge.Slots.{count_active, count_active-le}
use esp_nmea_bridge_zephyr.NmeaBridge.Handles.{
  read_status, read_frame, sink_take_lem, sink_open-ok, sink_open-enomem,
}
use esp_nmea_bridge_zephyr.StatusLed
use esp_nmea_bridge_zephyr.TcpNmeaSession.{
  Shared, Turn, Next, go, stop, after_send, after_take, turn, loop, last_drain, after_drain,
  Outcome, after_loop, after_open, started, finish, run, with_wire, proceed, SessionResult,
  drain_socket_rx, send_all,
}

module _ {Q : Type 0} ⦃m : Msgq Frame Q⦄ (cfg : Config) (i : ℕ) (P : Shared Q → Type 0) where
  -- A property of the shared variables that has the sink `i` open, and that the steps of a round
  -- keep: what it tells the LED, and its read at the end of a wait from `w` to `w'`.
  pub record Kept : Type 0 where
    pub opens :
        (w : Shared Q)
        → P w
        → (s : SinkSlot Q) × (get_elem? w.bridge.sinks i ≡ some s) × (s.active ≡ true)
    pub failed :
        (w : Shared Q) (t : ℕ) → P w → P (record w { led = StatusLed.nmea_send_failed cfg w.led t })
    pub forwarded :
        (w : Shared Q) (t : ℕ)
        → P w
        → P (record w { led = StatusLed.nmea_frame_forwarded cfg w.led t })
    pub taken :
        (w w' : Shared Q)
        → P w
        → P w'
        → P (record w' {
          bridge =
              (sink_take w.bridge
                (some (record { id = some i }))
                true
                (msec 250)
                (λ _. w'.bridge)).2;
        })

  -- What a computation leaves, if it is done, has the property.
  abbrev pub Leaves : {A : Type 0} → Option (A × Shared Q × List ℕ) → Type 0
  Leaves none = Unit
  Leaves (some (a, w, wire)) = P w

  module _ (kept : Kept) where
    last_drain-Leaves :
        (w : Shared Q) (wire : List ℕ) (d : Option (Option SessionResult))
        → P w
        → Leaves (last_drain cfg w wire d)
    unfolding last_drain
    last_drain-Leaves w wire none h = tt
    last_drain-Leaves w wire (some none) h = h
    last_drain-Leaves w wire (some (some r)) h = h

    after_send-Leaves :
        (w : Shared Q) (e : Turn Q) (o : Option (Bool × List ℕ))
        → P w
        → Leaves (after_send cfg w e o)
    unfolding after_send
    after_send-Leaves w e none h = tt
    after_send-Leaves w e (some (true, wire)) h = kept.failed w e.uptime_ms h
    after_send-Leaves w e (some (false, wire)) h =
        last_drain-Leaves _ wire (drain_socket_rx e.rx_after) (kept.forwarded w e.uptime_ms h)

    after_take-Leaves :
        (w : Shared Q) (e : Turn Q) (fs : List Frame) (r : Status × Option Frame × Bridge Q)
        → r.0 ≡ read_status fs (msec 250)
        → r.1 ≡ read_frame fs
        → P (record (e.others w) { bridge = r.2 })
        → Leaves (after_take cfg w e r.0 r.1 r.2)
    unfolding after_take
    after_take-Leaves w e [] r status frame h = rw status h
    after_take-Leaves w e (f ∷ fs) r status frame h =
        rw (status, frame)
          (after_send-Leaves (record (e.others w) { bridge = r.2 }) e (send_all f e.tx) h)

    after_drain-Leaves :
        (w : Shared Q) (e : Turn Q) (d : Option (Option SessionResult))
        → P w
        → P (e.others w)
        → Leaves (after_drain cfg w (record { id = some i }) e d)
    unfolding after_drain
    after_drain-Leaves w e none h h' = tt
    after_drain-Leaves w e (some (some r)) h h' = h
    after_drain-Leaves w e (some none) h h' =
        let meanwhile : Bridge Q → Bridge Q = λ _. (e.others w).bridge in
        let sink : Sink = record { id = some i } in
        let (s, at_i, on) = kept.opens w h in
        let (s', then_i, on') = kept.opens (e.others w) h' in
        let took = sink_take_lem w.bridge sink i s s' (msec 250) meanwhile refl at_i on then_i in
        after_take-Leaves w e (m.contents s'.msgq) _ took.status took.frame
          (kept.taken w (e.others w) h h')

    with_wire-Leaves :
        (wire : List ℕ) (o : Option (SessionResult × Shared Q × List ℕ))
        → Leaves o
        → Leaves (with_wire cfg wire o)
    unfolding with_wire
    with_wire-Leaves wire none h = tt
    with_wire-Leaves wire (some (r, w, more)) h = h

    proceed-Leaves :
        (o : Option (Next × Shared Q × List ℕ))
        (rest : Shared Q → Option (SessionResult × Shared Q × List ℕ))
        → Leaves o
        → ((w : Shared Q) → P w → Leaves (rest w))
        → Leaves (proceed cfg o rest)
    unfolding proceed
    proceed-Leaves none rest h k = tt
    proceed-Leaves (some (stop r, w, wire)) rest h k = h
    proceed-Leaves (some (go, w, wire)) rest h k = with_wire-Leaves wire (rest w) (k w h)

    -- Where the other threads keep the property too, the loop does.
    pub loop-Leaves :
        (es : List (Turn Q)) (w : Shared Q)
        → ((k : ℕ) (e : Turn Q) (w : Shared Q) → get_elem? es k ≡ some e → P w → P (e.others w))
        → P w
        → Leaves (loop cfg w (record { id = some i }) es)
    unfolding loop turn
    loop-Leaves [] w keep h = tt
    loop-Leaves (e ∷ es) w keep h =
        proceed-Leaves _ _
          (after_drain-Leaves w e (drain_socket_rx e.rx_before) h (keep 0 e w refl h))
          (λ w'. loop-Leaves es w' (λ k. keep (suc k)))

module _ {Q : Type 0} ⦃m : Msgq Frame Q⦄ (cfg : Config) (P : ℕ → Shared Q → Type 0)
    (R : Shared Q → Type 0) (kept : (i : ℕ) → Kept cfg i (P i)) where
  -- What the end of a session brings about, in an outcome, if there is one.
  Ends : ℕ → Option (Outcome Q) → Type 0
  Ends fd none = Unit
  Ends fd (some o) = R o.shared × (o.closed ≡ fd ∷ [])

  after_loop-Ends :
      (fd i : ℕ) (o : Option (SessionResult × Shared Q × List ℕ))
      → ((w : Shared Q) → P i w → R (finish cfg w (record { id = some i })))
      → Leaves cfg i (P i) o
      → Ends fd (after_loop cfg fd (record { id = some i }) o)
  unfolding Ends after_loop
  after_loop-Ends fd i none ending h = tt
  after_loop-Ends fd i (some (r, w, wire)) ending h = (ending w h, refl)

  run-Ends :
      (w : Shared Q) (fd : ℕ) (name : Option String) (es : List (Turn Q))
      → ((sink_open w.bridge (some (record { id = none })) name).0 ≡ err enomem → R w)
      → ((i : ℕ) (b : Bridge Q)
          → sink_open w.bridge (some (record { id = none })) name
            ≡ (ok, some (record { id = some i }), b)
          → P i (started cfg (record w { bridge = b })))
      → ((i k : ℕ) (b : Bridge Q) (e : Turn Q) (s : Shared Q)
          → sink_open w.bridge (some (record { id = none })) name
            ≡ (ok, some (record { id = some i }), b)
          → get_elem? es k ≡ some e
          → P i s
          → P i (e.others s))
      → ((i : ℕ) (s : Shared Q) → P i s → R (finish cfg s (record { id = some i })))
      → Ends fd (run cfg w fd name es)
  unfolding Ends run after_open
  run-Ends w fd name es unchanged begins keep ending =
      let closed : Sink = record { id = none } in
      elim (dec_lt (count_active w.bridge.sinks) (length w.bridge.sinks)) [
        | yes room ↦
            let (i, ret, sink, o) = sink_open-ok w.bridge closed name room in
            let b : Bridge Q = (sink_open w.bridge (some closed) name).2 in
            let opens : sink_open w.bridge (some closed) name
                ≡ (ok, some (record { id = some i }), b) =
              rw (ret, sink) refl in
            let start = begins i b opens in
            rw (ret, sink)
              (after_loop-Ends fd i _ (ending i)
                (loop-Leaves cfg i (P i) (kept i) es _ (λ k e s. keep i k b e s opens) start))
        | no full ↦
            let e =
              sink_open-enomem w.bridge closed name
                (omega (arith, full, count_active-le w.bridge.sinks)) in
            rw e (unchanged (ap (λ r. r.0) e), refl)
      ]

  -- A session that ends brings about `R`, and has closed its socket alone: if there is no
  -- sink for it that is so as it stands, and else by `P`, which its start brings about, its rounds and the
  -- other threads keep, and its end makes `R`.
  pub run-Ends_at :
      (w : Shared Q) (fd : ℕ) (name : Option String) (es : List (Turn Q)) (o : Outcome Q)
      → ((sink_open w.bridge (some (record { id = none })) name).0 ≡ err enomem → R w)
      → ((i : ℕ) (b : Bridge Q)
          → sink_open w.bridge (some (record { id = none })) name
            ≡ (ok, some (record { id = some i }), b)
          → P i (started cfg (record w { bridge = b })))
      → ((i k : ℕ) (b : Bridge Q) (e : Turn Q) (s : Shared Q)
          → sink_open w.bridge (some (record { id = none })) name
            ≡ (ok, some (record { id = some i }), b)
          → get_elem? es k ≡ some e
          → P i s
          → P i (e.others s))
      → ((i : ℕ) (s : Shared Q) → P i s → R (finish cfg s (record { id = some i })))
      → run cfg w fd name es ≡ some o
      → R o.shared × (o.closed ≡ fd ∷ [])
  unfolding Ends
  run-Ends_at w fd name es o unchanged begins keep ending e =
      subst (Ends fd) e (run-Ends w fd name es unchanged begins keep ending)
