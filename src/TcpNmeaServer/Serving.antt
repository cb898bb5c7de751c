-- ===== src/TcpNmeaServer/Serving.antt =====
-- The threads of src/tcp_nmea_server.c: `server_thread`, which takes the connections, and
-- `client_thread`, which runs a session in a slot.
use esp_nmea_bridge_zephyr.Base.{
  ℕ, ◌≡◌, refl, false, not, Option, none, some, List, [], ◌∷◌, ◌++◌, map, if◌then◌else◌, modify,
  get_elem?, get_elem?-modify_self, get_elem?-modify_ne, ◌≢◌,
}
use esp_nmea_bridge_zephyr.Zephyr.{ok, Listening, Msgq}
use esp_nmea_bridge_zephyr.Config.{Config, InRange}
use esp_nmea_bridge_zephyr.NmeaBridge.{Frame, Bridge}
use esp_nmea_bridge_zephyr.NmeaBridge.Sinks.{sink_open}
use esp_nmea_bridge_zephyr.TcpNmeaSession
use esp_nmea_bridge_zephyr.TcpNmeaSession.{Shared, Turn, Outcome}
use esp_nmea_bridge_zephyr.TcpNmeaSession.Counting.{Agrees, Holds}
use esp_nmea_bridge_zephyr.TcpNmeaSession.Running.{run-Agrees}
use esp_nmea_bridge_zephyr.TcpNmeaServer.{Client, close_client, end_client, accept_client}

-- What the accepting thread does: the threads it creates, by slot, the sockets it closes, its sleep.
pub data Call : Type 0 where
  created closed slept_s : ℕ → Call

abbrev thread_created : Option ℕ → List Call
thread_created none = []
thread_created (some i) = created i ∷ []

-- The endless loop, over the results of `zsock_accept`, `none` for an error, and what the clients'
-- threads do to the slots while it waits.
pub server_loop :
    List Client → List ((List Client → List Client) × Option ℕ) → List Client × List Call
server_loop cs [] = (cs, [])
server_loop cs ((others, none) ∷ rs) =
    let (cs', calls) = server_loop (others cs) rs in (cs', slept_s 1 ∷ calls)
server_loop cs ((others, some fd) ∷ rs) =
    let (taken, slot, refused) = accept_client (others cs) fd in
    let (cs', calls) = server_loop taken rs in
    (cs', thread_created slot ++ map closed refused ++ calls)

listens : List Client → Listening → List Client × List Call → Option ℕ → List Client × List Call
listens cs l run none = (cs, [])
listens cs l run (some fd) =
    if not l.bind_ok
    then (cs, closed fd ∷ [])
    else if not l.listen_ok
    then (cs, closed fd ∷ [])
    else run

unfoldable pub server_thread :
    List Client
    → Listening
    → List ((List Client → List Client) × Option ℕ)
    → List Client × List Call
unfolding server_loop listens
server_thread cs l rs = listens cs l (server_loop cs rs) l.socket

-- What a client's thread leaves: the shared state, the slots, and the sockets that it has closed.
pub record Left (Q : Type 0) : Type 0 where
  pub shared : Shared Q
  pub clients : List Client
  pub closed_fds : List ℕ

-- The sockets that `close_client` closes at the end of the thread.
closed_by_slot : Option Client → List ℕ
closed_by_slot none = []
closed_by_slot (some c) = (close_client (record c { fd = none })).1

module _ {Q : Type 0} ⦃m : Msgq Frame Q⦄ (cfg : Config) where
  -- The thread once its session has returned, which leaves the socket to the session.
  after_run : List Client → ℕ → Option (Outcome Q) → Option (Left Q)
  unfolding closed_by_slot
  after_run cs i none = none
  after_run cs i (some o) = some (record {
    shared = o.shared;
    clients = modify cs i end_client;
    closed_fds = o.closed ++ closed_by_slot (get_elem? cs i);
  })

  -- `client_thread` of slot `i`, which holds `fd`; `cs` are the slots when its session ends.
  pub client_thread : Shared Q → ℕ → ℕ → List (Turn Q) → List Client → Option (Left Q)
  unfolding after_run
  client_thread w i fd es cs =
      after_run cs i (TcpNmeaSession.run cfg w fd (some "tcp-server-client") es)

  -- What the end of a client's thread must leave of the slots that it finds.
  pub record Released (i fd : ℕ) (cs : List Client) (left : Left Q) : Type 0 where
    pub free : get_elem? left.clients i ≡ some (record { fd = none; active = false })
    pub others : (j : ℕ) → i ≢ j → get_elem? left.clients j ≡ get_elem? cs j
    pub once : left.closed_fds ≡ fd ∷ []
    pub agrees : Agrees cfg left.shared

  after_run-Released :
      (cs : List Client) (i fd : ℕ) (c : Client) (o : Outcome Q)
      → get_elem? cs i ≡ some c
      → Agrees cfg o.shared
      → o.closed ≡ fd ∷ []
      → (left : Left Q) × (after_run cs i (some o) ≡ some left) × Released i fd cs left
  unfolding after_run closed_by_slot close_client end_client
  after_run-Released cs i fd c o at a once = (
    _,
    refl,
    record {
      free = get_elem?-modify_self cs i end_client c at;
      others = λ j ne. get_elem?-modify_ne cs end_client ne;
      once = rw (at, once) refl;
      agrees = a;
    },
  )

  -- A client's thread, once its session has ended, leaves its slot free and every other slot as it is.
  -- Its socket is closed exactly once, by the session and not again with the slot, and the counts of
  -- sessions are right if they were and the other threads keep them so.
  pub client_thread-Released :
      (w : Shared Q) (i fd : ℕ) (es : List (Turn Q)) (cs : List Client) (c : Client) (o : Outcome Q)
      → InRange cfg
      → Agrees cfg w
      → ((i k : ℕ) (b : Bridge Q) (e : Turn Q) (s : Shared Q)
          → sink_open w.bridge (some (record { id = none })) (some "tcp-server-client")
            ≡ (ok, some (record { id = some i }), b)
          → get_elem? es k ≡ some e
          → Holds cfg i s
          → Holds cfg i (e.others s))
      → get_elem? cs i ≡ some c
      → TcpNmeaSession.run cfg w fd (some "tcp-server-client") es ≡ some o
      → (left : Left Q) × (client_thread w i fd es cs ≡ some left) × Released i fd cs left
  unfolding client_thread
  client_thread-Released w i fd es cs c o range a keep at ran =
      let (a', once) = run-Agrees cfg w fd (some "tcp-server-client") es o range a keep ran in
      rw ran (after_run-Released cs i fd c o at a' once)
