-- ===== src/BridgeTelemetry/Polling.antt =====
-- The input state over a history of snapshots.
use esp_nmea_bridge_zephyr.Base.{
  ℕ, ◌+◌, ◌≡◌, refl, true, Option, none, some, List, [], ◌∷◌, arith, if◌then◌else◌, ltb, leb, ◌==◌,
}
use esp_nmea_bridge_zephyr.Base.Int.{ℤ, pos, ◌-ℤ◌}
use esp_nmea_bridge_zephyr.BridgeTelemetry.{
  InputState, idle, active, Snapshot, Inputs, TelemetryState, int64_min, no_state, note_frames,
  snapshot_of, build_snapshot,
}

-- The snapshots that were taken, the latest first: their inputs and uptimes.
abbrev pub Polls : Type 0
Polls = List (Inputs × ℕ)

-- The state that they leave behind.
unfoldable pub after_polls : Polls → TelemetryState
after_polls [] = no_state
after_polls ((inputs, t) ∷ ps) = note_frames (after_polls ps) inputs (pos t)

-- The uptime of the latest snapshot that saw another frame count than the one before it, or, for the
-- first one, a count above 0.
unfoldable pub last_change : Polls → Option ℕ
last_change [] = none
last_change ((i, t) ∷ []) = if ltb 0 i.bridge_frames_in then some t else none
last_change ((i, t) ∷ (j, s) ∷ ps) =
    let earlier = last_change ((j, s) ∷ ps) in
    if i.bridge_frames_in == j.bridge_frames_in then earlier else some t

abbrev pub recent : ℕ → Option ℕ → InputState
recent now none = idle
recent now (some t) = if leb now (t + 5000) then active else idle

abbrev to_ms : Option ℕ → ℤ
to_ms none = int64_min
to_ms (some t) = pos t

after_polls_lem :
    (ps : Polls) (i : Inputs) (t : ℕ)
    → after_polls ((i, t) ∷ ps) ≡ record {
      last_bridge_frames_in = i.bridge_frames_in;
      last_bridge_frame_ms = to_ms (last_change ((i, t) ∷ ps));
      initialized = true;
    }
unfolding after_polls last_change note_frames
after_polls_lem [] i t = ground arith
after_polls_lem ((j, s) ∷ ps) i t = ground (arith, after_polls_lem ps j s)

recent_lem :
    (state : TelemetryState) (i : Inputs) (now : ℕ) (seen : Option ℕ)
    → state.last_bridge_frame_ms ≡ to_ms seen
    → (snapshot_of state i (pos now)).input_state ≡ recent now seen
unfolding snapshot_of ◌-ℤ◌
recent_lem state i now none e = ground arith
recent_lem state i now (some t) e = ground arith

-- After any history of snapshots, the next one reports active input exactly when at most 5000 ms have
-- passed since the latest snapshot, itself included, that saw a new frame count; the first of all
-- counts as seeing one if any frame has ever come in.
pub input_state-polls :
    (ps : Polls) (i : Inputs) (now : ℕ) (old : Snapshot)
    → (snapshot : Snapshot) × (build_snapshot (some (after_polls ps)) (some i) (pos now) (some old)
        ≡ (some (after_polls ((i, now) ∷ ps)), some snapshot))
      × (snapshot.input_state ≡ recent now (last_change ((i, now) ∷ ps)))
unfolding build_snapshot after_polls
input_state-polls ps i now old =
    let state = after_polls ((i, now) ∷ ps) in
    (
      snapshot_of state i (pos now),
      refl,
      recent_lem state i now (last_change ((i, now) ∷ ps))
          (ground (arith, after_polls_lem ps i now)),
    )
