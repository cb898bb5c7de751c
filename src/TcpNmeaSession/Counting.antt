-- ===== src/TcpNmeaSession/Counting.antt =====
-- The sessions' count, the open sinks and the LED's count, over the life of a session.
use esp_nmea_bridge_zephyr.Base.{
  ℕ, ◌+◌, ◌^◌, ◌≤◌, ◌<◌, ◌≡◌, refl, ap, Bool, true, false, Option, none, some, arith, String,
  if◌then◌else◌, length, length-set, u32, get_elem?, set, modify, modify-eq-set, subst, ◌∙◌,
}
use esp_nmea_bridge_zephyr.Zephyr.{Status, Timeout, msec, Msgq}
use esp_nmea_bridge_zephyr.Config.{Config, InRange}
use esp_nmea_bridge_zephyr.NmeaBridge.{Frame, Sink, SinkSlot, Bridge}
use esp_nmea_bridge_zephyr.NmeaBridge.Sinks.{sink_close}
use esp_nmea_bridge_zephyr.NmeaBridge.Slots.{count_active, count_active-le, count_active-modify}
use esp_nmea_bridge_zephyr.NmeaBridge.Handles.{Opened, Took, sink_close_lem}
use esp_nmea_bridge_zephyr.StatusLed.{StatusLed}
use esp_nmea_bridge_zephyr.StatusLed
use esp_nmea_bridge_zephyr.StatusLedPolicy
use esp_nmea_bridge_zephyr.TcpNmeaSession.{Shared, started, finish}

module _ {Q : Type 0} where
  -- `active_sessions` and the LED's count, if there is one, are the number of open sinks.
  pub record Agrees (cfg : Config) (w : Shared Q) : Type 0 where
    pub sinks : w.active_sessions ≡ count_active w.bridge.sinks
    pub led :
        (if cfg.status_led_enable then w.led.state.active_tcp_nmea_sessions else w.active_sessions)
        ≡ w.active_sessions
    pub slots : length w.bridge.sinks ≡ cfg.nmea_sinks_max

  -- Besides, the sink `i` is open.
  pub record Holds (cfg : Config) (i : ℕ) (w : Shared Q) : Type 0 where
    pub agrees : Agrees cfg w
    pub slot : SinkSlot Q
    pub at : get_elem? w.bridge.sinks i ≡ some slot
    pub active : slot.active ≡ true

-- The LED's count of `led`, or `n` where there is no LED.
abbrev pub led_count : Config → StatusLed → ℕ → ℕ
led_count cfg led n = if cfg.status_led_enable then led.state.active_tcp_nmea_sessions else n

module _ (cfg : Config) (led : StatusLed) where
  pub led-started :
      (n : ℕ)
      → n + 1 < 2 ^ 16
      → led_count cfg led n ≡ n
      → led_count cfg (StatusLed.tcp_nmea_session_started cfg led) (n + 1) ≡ n + 1
  unfolding StatusLed.tcp_nmea_session_started StatusLedPolicy.tcp_nmea_session_started
  led-started n h e = ground arith

  pub led-ended :
      (n : ℕ)
      → led_count cfg led (n + 1) ≡ n + 1
      → led_count cfg (StatusLed.tcp_nmea_session_ended cfg led) n ≡ n
  unfolding StatusLed.tcp_nmea_session_ended StatusLedPolicy.tcp_nmea_session_ended
  led-ended n e = ground arith

  pub led-failed :
      (n t : ℕ) → led_count cfg (StatusLed.nmea_send_failed cfg led t) n ≡ led_count cfg led n
  unfolding StatusLed.nmea_send_failed StatusLedPolicy.nmea_send_failed
  led-failed n t = ground arith

  pub led-forwarded :
      (n t : ℕ) → led_count cfg (StatusLed.nmea_frame_forwarded cfg led t) n ≡ led_count cfg led n
  unfolding StatusLed.nmea_frame_forwarded StatusLedPolicy.nmea_frame_forwarded
  led-forwarded n t = ground arith

module _ {Q : Type 0} ⦃m : Msgq Frame Q⦄ (cfg : Config) (range : InRange cfg) where
  pub started-Holds :
      (w : Shared Q) (name : Option String) (i : ℕ) (c : Bridge Q)
      → Agrees cfg w
      → Opened w.bridge name i c
      → Holds cfg i (started cfg (record w { bridge = c }))
  unfolding started
  started-Holds w name i c a o =
      let size : length c.sinks ≡ cfg.nmea_sinks_max =
        ap length o.sinks ∙ length-set w.bridge.sinks i o.new ∙ a.slots in
      let few : w.active_sessions + 1 ≤ 9 =
        omega (arith, a.sinks, o.one_more, count_active-le c.sinks, size, range.sinks_high) in
      let e : u32 (w.active_sessions + 1) ≡ w.active_sessions + 1 = omega (arith, few) in
      record {
        agrees = record {
          sinks = omega (arith, e, a.sinks, o.one_more);
          led = rw e (led-started cfg w.led w.active_sessions (omega (arith, few)) a.led);
          slots = size;
        };
        slot = o.new;
        at = o.now;
        active = o.active;
      }

  ended-Agrees :
      (w : Shared Q) (c : Bridge Q) (n : ℕ)
      → Agrees cfg w
      → w.active_sessions ≡ n + 1
      → count_active c.sinks + 1 ≡ count_active w.bridge.sinks
      → length c.sinks ≡ length w.bridge.sinks
      → Agrees cfg (record {
        bridge = c;
        led = StatusLed.tcp_nmea_session_ended cfg w.led;
        active_sessions = n;
      })
  ended-Agrees w c n a e one_less size = record {
    sinks = omega (arith, e, a.sinks, one_less);
    led = led-ended cfg w.led n (subst (λ k. led_count cfg w.led k ≡ k) e a.led);
    slots = omega (arith, size, a.slots);
  }

  pub finish-Agrees :
      (i : ℕ) (w : Shared Q) → Holds cfg i w → Agrees cfg (finish cfg w (record { id = some i }))
  unfolding finish
  finish-Agrees i w h =
      let sink : Sink = record { id = some i } in
      let closed = sink_close_lem w.bridge sink i h.slot (msec 250) (λ b. b) refl h.at h.active in
      let c : Bridge Q = (sink_close w.bridge (some sink)).1 in
      let off : SinkSlot Q = record h.slot {
        active = false;
        name = none;
        msgq = m.purge h.slot.msgq;
      } in
      let size : length c.sinks ≡ length w.bridge.sinks =
        ap (λ b. length b.sinks) closed.0 ∙ length-set w.bridge.sinks i off in
      let one_less : count_active c.sinks + 1 ≡ count_active w.bridge.sinks = closed.2 in
      ended-Agrees w c _ h.agrees
        (omega (
          arith,
          one_less,
          count_active-le w.bridge.sinks,
          h.agrees.sinks,
          h.agrees.slots,
          range.sinks_high,
        ))
        one_less size

  pub led-Holds :
      (w : Shared Q) (i : ℕ) (led : StatusLed)
      → Holds cfg i w
      → led_count cfg led w.active_sessions ≡ led_count cfg w.led w.active_sessions
      → Holds cfg i (record w { led = led })
  led-Holds w i led h e = record {
    agrees = record { sinks = h.agrees.sinks; led = e ∙ h.agrees.led; slots = h.agrees.slots };
    slot = h.slot;
    at = h.at;
    active = h.active;
  }

  pub Took-Holds :
      (w : Shared Q) (i : ℕ) (s : SinkSlot Q) (t : Timeout) (r : Status × Option Frame × Bridge Q)
      → Agrees cfg w
      → get_elem? w.bridge.sinks i ≡ some s
      → s.active ≡ true
      → Took w.bridge i s t r
      → Holds cfg i (record w { bridge = r.2 })
  Took-Holds w i s t r a at_i on took =
      let f : SinkSlot Q → SinkSlot Q = λ _. took.new in
      let sinks : r.2.sinks ≡ set w.bridge.sinks i took.new = ap (λ b. b.sinks) took.bridge in
      let same : modify w.bridge.sinks i f ≡ set w.bridge.sinks i took.new =
        modify-eq-set w.bridge.sinks i f s at_i in
      let open_one : Bool → ℕ = λ on. if on then 1 else 0 in
      let count = count_active-modify w.bridge.sinks i f s at_i in
      record {
        agrees = record {
          sinks = omega (
            arith,
            a.sinks,
            count,
            ap count_active sinks,
            ap count_active same,
            ap open_one took.active,
          );
          led = a.led;
          slots = ap length sinks ∙ length-set w.bridge.sinks i took.new ∙ a.slots;
        };
        slot = took.new;
        at = took.now;
        active = took.active ∙ on;
      }
