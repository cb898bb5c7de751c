-- ===== src/Threads/Course.antt =====
-- The course of `tcp_nmea_session_run` among the other threads.
use esp_nmea_bridge_zephyr.Base.{
  ℕ, ◌+◌, ◌≢◌, u32, sub32, ◌≡◌, true, Option, none, some, String, get_elem?,
}
use esp_nmea_bridge_zephyr.Zephyr.{ok, err, enomem, Timeout, Msgq}
use esp_nmea_bridge_zephyr.Config.{Config}
use esp_nmea_bridge_zephyr.NmeaBridge.{Frame, Bridge}
use esp_nmea_bridge_zephyr.NmeaBridge.Sinks.{sink_open, sink_close, sink_take}
use esp_nmea_bridge_zephyr.StatusLed
use esp_nmea_bridge_zephyr.Threads.{
  opened, counted, running, dimmed, leaving, World, with_led, with_bridge, open_sink, at_phase,
  Step, receive, fan_out, report, start_led, count_session, light, take_frame, forwarded,
  send_failed, dim, uncount, close_sink,
}

-- A step of a session is one of the session that holds this sink, or that now opens it.
module _ {Q : Type 0} ⦃m : Msgq Frame Q⦄ (cfg : Config) where
  abbrev pub acts_on : {v w : World Q} → Step cfg v w → Option ℕ
  acts_on (receive _ ch t) = none
  acts_on (fan_out _) = none
  acts_on (report _ on) = none
  acts_on (start_led _ has_strip strip_ready t) = none
  acts_on (open_sink _ name i b e) = some i
  acts_on (count_session _ i e) = some i
  acts_on (light _ i e) = some i
  acts_on (take_frame _ i t e) = some i
  acts_on (forwarded _ i t e) = some i
  acts_on (send_failed _ i t e) = some i
  acts_on (dim _ i e) = some i
  acts_on (uncount _ i e) = some i
  acts_on (close_sink _ i e) = some i

  -- Steps of the other threads: of all but the session that holds the sink `i`.
  pub data Others (i : ℕ) (u : World Q) : World Q → Type 0 where
    rest : Others i u u
    more : {v w : World Q} → Others i u v → (s : Step cfg v w) → acts_on s ≢ some i → Others i u w

  -- What the session that holds the sink `i` goes through in its loop, from `u` on: its own steps, and
  -- those of the others.
  pub data Loop (i : ℕ) (u : World Q) : World Q → Type 0 where
    enter : Loop i u u
    others : {v w : World Q} → Loop i u v → Others i v w → Loop i u w
    takes :
        {w : World Q} (t : Timeout) (at : get_elem? w.holders i ≡ some (some running))
        → Loop i u w
        → Loop i u (
            with_bridge w
              (sink_take w.shared.bridge (some (record { id = some i })) true t (λ b. b)).2)
    forwards :
        {w : World Q} (t : ℕ) (at : get_elem? w.holders i ≡ some (some running))
        → Loop i u w
        → Loop i u (with_led w (StatusLed.nmea_frame_forwarded cfg w.shared.led t))
    fails :
        {w : World Q} (t : ℕ) (at : get_elem? w.holders i ≡ some (some running))
        → Loop i u w
        → Loop i u (with_led w (StatusLed.nmea_send_failed cfg w.shared.led t))

  -- The three steps before the loop, with the bridge that opening the sink `i` leaves, and the three
  -- behind it.
  abbrev pub begun : World Q → ℕ → Bridge Q → World Q
  begun v i b =
      let w = at_phase (with_bridge v b) i (some opened) in
      let w' =
        at_phase
          (record w {
            shared = record w.shared { active_sessions = u32 (w.shared.active_sessions + 1) };
          })
          i (some counted) in
      at_phase (with_led w' (StatusLed.tcp_nmea_session_started cfg w'.shared.led)) i (some running)

  abbrev pub over : World Q → ℕ → World Q
  over v i =
      let w =
        at_phase (with_led v (StatusLed.tcp_nmea_session_ended cfg v.shared.led)) i (some dimmed) in
      let w' =
        at_phase
          (record w {
            shared = record w.shared { active_sessions = sub32 w.shared.active_sessions 1 };
          })
          i (some leaving) in
      at_phase (with_bridge w' (sink_close w'.shared.bridge (some (record { id = some i }))).1) i
        none

  -- A whole session: it is refused a sink and changes nothing, or it takes its first three steps, goes
  -- through its loop, and takes its last three.
  pub data Session (name : Option String) (v : World Q) : World Q → Type 0 where
    unavailable :
        (sink_open v.shared.bridge (some (record { id = none })) name).0 ≡ err enomem
        → Session name v v
    served :
        (i : ℕ) (b : Bridge Q) {w : World Q}
        → sink_open v.shared.bridge (some (record { id = none })) name
          ≡ (ok, some (record { id = some i }), b)
        → Loop i (begun v i b) w
        → get_elem? w.holders i ≡ some (some running)
        → Session name v (over w i)
