-- ===== src/TcpNmeaClient/Rounds.antt =====
-- The client's rounds: what they do to the sockets, the counts and the LED.
use esp_nmea_bridge_zephyr.Base.{
  ℕ, ◌≡◌, refl, subst, Bool, true, false, Option, none, some, List, [], ◌∷◌, arith, get_elem?,
  if◌then◌else◌,
}
use esp_nmea_bridge_zephyr.Zephyr.{Status, ok, err, Msgq}
use esp_nmea_bridge_zephyr.Config.{Config, InRange}
use esp_nmea_bridge_zephyr.NmeaBridge.{Frame, Bridge}
use esp_nmea_bridge_zephyr.NmeaBridge.Sinks.{sink_open}
use esp_nmea_bridge_zephyr.StatusLed
use esp_nmea_bridge_zephyr.StatusLed.{StatusLed}
use esp_nmea_bridge_zephyr.StatusLedPolicy
use esp_nmea_bridge_zephyr.TcpNmeaSession.{Shared, Turn, Outcome}
use esp_nmea_bridge_zephyr.TcpNmeaSession.Counting.{Agrees, Holds}
use esp_nmea_bridge_zephyr.TcpNmeaSession.Running.{run-Agrees}
use esp_nmea_bridge_zephyr.TcpNmeaClient.{
  Fd, opened, refused, Round, Progress, connect_server, wait_for_host, set_connecting,
  after_session, after_connect, client_round,
}

-- The sockets that a round opens.
abbrev pub sockets : Fd → List ℕ
sockets (opened fd) = fd ∷ []
sockets (refused e) = []

module _ {Q : Type 0} ⦃m : Msgq Frame Q⦄ (cfg : Config) where
  -- The LED, if there is one, shows that the client connects.
  pub IsConnecting : Shared Q → Type 0
  IsConnecting w =
      (if cfg.status_led_enable then w.led.state.outbound_tcp_nmea_client_connecting else true)
      ≡ true

  set_connecting-Agrees :
      (w : Shared Q) (on : Bool) → Agrees cfg w → Agrees cfg (set_connecting cfg w on)
  unfolding set_connecting StatusLed.tcp_nmea_client_connecting
      StatusLedPolicy.tcp_nmea_client_connecting
  set_connecting-Agrees w on a = record {
    sinks = a.sinks;
    led = ground (arith, a.led);
    slots = a.slots;
  }

  set_connecting-IsConnecting : (w : Shared Q) → IsConnecting (set_connecting cfg w true)
  unfolding IsConnecting set_connecting StatusLed.tcp_nmea_client_connecting
      StatusLedPolicy.tcp_nmea_client_connecting
  set_connecting-IsConnecting w = ground arith

  pub record Kept (fds : List ℕ) (x : Progress Q) : Type 0 where
    pub agrees : Agrees cfg x.shared
    pub closed : x.closed ≡ fds
    pub connecting : IsConnecting x.shared

  Ends : List ℕ → Option (Progress Q) → Type 0
  Ends fds none = Unit
  Ends fds (some x) = Kept fds x

  after_session-Ends :
      (fd : ℕ) (r : Option (Outcome Q))
      → ((o : Outcome Q) → r ≡ some o → Agrees cfg o.shared × (o.closed ≡ fd ∷ []))
      → Ends (fd ∷ []) (after_session cfg r)
  unfolding Ends after_session
  after_session-Ends fd none h = tt
  after_session-Ends fd (some o) h = record {
    agrees = set_connecting-Agrees o.shared true (h o refl).0;
    closed = (h o refl).1;
    connecting = set_connecting-IsConnecting o.shared;
  }

  after_connect-Ends :
      (w : Shared Q) (backoff_s : ℕ) (turns : List (Turn Q)) (s : Fd) (ret : Status)
      → InRange cfg
      → Agrees cfg w
      → IsConnecting w
      → ((i k : ℕ) (b : Bridge Q) (e : Turn Q) (s : Shared Q)
          → sink_open w.bridge (some (record { id = none })) (some "tcp-nmea-client")
            ≡ (ok, some (record { id = some i }), b)
          → get_elem? turns k ≡ some e
          → Holds cfg i s
          → Holds cfg i (e.others s))
      → let c = connect_server s ret in
        Ends (sockets s) (after_connect cfg w backoff_s turns c c.result)
  unfolding Ends after_connect connect_server set_connecting
  after_connect-Ends w b turns (refused e) ret range a on keep = record {
    agrees = a;
    closed = refl;
    connecting = on;
  }
  after_connect-Ends w b turns (opened fd) (err e) range a on keep = record {
    agrees = a;
    closed = refl;
    connecting = on;
  }
  after_connect-Ends w b turns (opened fd) ok range a on keep = after_session-Ends fd _ (λ o.
      run-Agrees cfg (set_connecting cfg w false) fd _ turns o range
        (set_connecting-Agrees w false a) keep)

  waited-Ends :
      (fds : List ℕ) (o : Option (ℕ × ℕ)) (then_ : Option (Progress Q))
      → Ends fds then_
      → Ends fds (elim o [ none ↦ none | some _ ↦ then_ ])
  unfolding Ends
  waited-Ends fds none then_ h = tt
  waited-Ends fds (some a) then_ h = h

-- A round of the client closes exactly the socket that it has opened, if any, whether connecting
-- fails or a session ends. It leaves `active_sessions` and the LED's count of sessions right if they
-- were, and the LED, where there is one, connecting. The other threads must keep the counts, and the
-- sink that its session has opened open, whenever the session waits.
pub client_round-Kept :
    {Q : Type 0} ⦃m : Msgq Frame Q⦄ (cfg : Config) (pton : List ℕ → Option ℕ) (setting : List ℕ)
    (w : Shared Q) (backoff_s : ℕ) (r : Round Q) (x : Progress Q)
    → InRange cfg
    → Agrees cfg w
    → ((i k : ℕ) (b : Bridge Q) (e : Turn Q) (s : Shared Q)
        → sink_open w.bridge (some (record { id = none })) (some "tcp-nmea-client")
          ≡ (ok, some (record { id = some i }), b)
        → get_elem? r.turns k ≡ some e
        → Holds cfg i s
        → Holds cfg i (e.others s))
    → client_round cfg pton setting w backoff_s r ≡ some x
    → Kept cfg (sockets r.socket) x
unfolding Ends client_round set_connecting
client_round-Kept cfg pton setting w backoff_s r x range a keep e =
    let w' = set_connecting cfg w true in
    subst (Ends cfg (sockets r.socket)) e (
      waited-Ends cfg (sockets r.socket) (wait_for_host pton setting r.polls 0) _ (
        after_connect-Ends cfg w' backoff_s r.turns r.socket r.connect range
          (set_connecting-Agrees cfg w true a) (set_connecting-IsConnecting cfg w) keep))
