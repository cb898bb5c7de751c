-- ===== src/WebApp/Listener/Serving.antt =====
-- The web app's thread over any sequence of connections: each is answered and closed in its turn.
use esp_nmea_bridge_zephyr.Zephyr.{Listening}
use esp_nmea_bridge_zephyr.Base.{
  ℕ, ◌≡◌, refl, Bool, true, false, Option, none, some, List, [], ◌∷◌, All,
}
use esp_nmea_bridge_zephyr.Text.{Bytes}
use esp_nmea_bridge_zephyr.BridgeTelemetry.Live.{Firmware}
use esp_nmea_bridge_zephyr.WebApp.{Site}
use esp_nmea_bridge_zephyr.WebApp.Client.Answers.{HasRoom}
use esp_nmea_bridge_zephyr.WebApp.Client.Routes.{Gets, handle_client-Gets}
use esp_nmea_bridge_zephyr.WebApp.Listener.{
  Accepted, accepted, accept_failed, Call, served, closed, slept_s, accept_loop, served_then,
  slept_then, web_app_thread, with_socket,
}

module _ {Q : Type 0} (site : Site) where
  -- The calls of the loop: for a connection, what it gets and the closing of its socket; for a failed
  -- call of `zsock_accept`, a second of sleep.
  pub InTurn :
      Firmware Q → List ((Firmware Q → Firmware Q) × Accepted) → Firmware Q → List Call → Type 0
  InTurn fw [] fw' calls = (calls ≡ []) × (fw' ≡ fw)
  InTurn fw ((others, accept_failed) ∷ rs) fw' calls =
      (more : List Call) × (calls ≡ slept_s 1 ∷ more) × InTurn (others fw) rs fw' more
  InTurn fw ((others, accepted fd conn) ∷ rs) fw' calls =
      (next : Firmware Q) × (wire : Bytes) × (more : List Call) × (calls
        ≡ served fd wire ∷ closed fd ∷ more)
      × Gets site conn conn.received (others fw) next wire
      × InTurn next rs fw' more

  -- Every connection has enough moving calls.
  abbrev pub Roomy : (Firmware Q → Firmware Q) × Accepted → Type 0
  Roomy (others, accept_failed) = Unit
  Roomy (others, accepted fd conn) = HasRoom site conn

  accept_loop-InTurn :
      (fw : Firmware Q) (rs : List ((Firmware Q → Firmware Q) × Accepted))
      → All Roomy rs
      → (fw' : Firmware Q) × (calls : List Call) × (accept_loop site fw rs ≡ some (fw', calls))
        × InTurn fw rs fw' calls
  unfolding accept_loop served_then slept_then InTurn
  accept_loop-InTurn fw [] h = (fw, [], refl, (refl, refl))
  accept_loop-InTurn fw ((others, accept_failed) ∷ rs) h =
      let (fw', more, e, turn) = accept_loop-InTurn (others fw) rs h.1 in
      (fw', slept_s 1 ∷ more, rw e refl, (more, refl, turn))
  accept_loop-InTurn fw ((others, accepted fd conn) ∷ rs) h =
      let (next, s, e, gets) = handle_client-Gets site conn (others fw) conn.received h.0 refl in
      let (fw', more, e', turn) = accept_loop-InTurn next rs h.1 in
      (
        fw',
        served fd s.wire ∷ closed fd ∷ more,
        rw (e, e') refl,
        (next, s.wire, more, refl, gets, turn),
      )

  -- How the thread goes, by the answers of `zsock_socket`, `zsock_bind` and `zsock_listen`.
  pub Goes :
      Firmware Q
      → List ((Firmware Q → Firmware Q) × Accepted)
      → Option (Firmware Q × List Call)
      → Option ℕ
      → Bool
      → Bool
      → Type 0
  unfolding InTurn
  Goes fw rs o none bind_ok listen_ok = o ≡ some (fw, [])
  Goes fw rs o (some fd) false listen_ok = o ≡ some (fw, closed fd ∷ [])
  Goes fw rs o (some fd) true false = o ≡ some (fw, closed fd ∷ [])
  Goes fw rs o (some fd) true true =
      (fw' : Firmware Q) × (calls : List Call) × (o ≡ some (fw', calls)) × InTurn fw rs fw' calls

  with_socket-Goes :
      (fw : Firmware Q) (rs : List ((Firmware Q → Firmware Q) × Accepted))
      → All Roomy rs
      → (l : Listening) (socket : Option ℕ) (bind_ok listen_ok : Bool) → l.bind_ok ≡ bind_ok
      → l.listen_ok ≡ listen_ok
      → Goes fw rs (with_socket site fw l (accept_loop site fw rs) socket) socket bind_ok listen_ok
  unfolding with_socket Goes
  with_socket-Goes fw rs h l none b c eb ec = refl
  with_socket-Goes fw rs h l (some fd) false c eb ec = rw eb refl
  with_socket-Goes fw rs h l (some fd) true false eb ec = rw (eb, ec) refl
  with_socket-Goes fw rs h l (some fd) true true eb ec = rw (eb, ec) (accept_loop-InTurn fw rs h)

-- Once the socket listens, whatever the other threads do between the calls of `zsock_accept`, the
-- thread takes every connection in its turn, if enough sending calls of each move something: it sends
-- the answer to its request, or nothing where none comes, and then closes its socket. A failed call of
-- `zsock_accept` costs a second of sleep and ends nothing. Where the socket cannot be bound or cannot
-- listen, it is closed and no connection is served; where there is none, the thread ends.
pub web_app_thread-Goes :
    {Q : Type 0} (site : Site) (fw : Firmware Q) (l : Listening)
    (rs : List ((Firmware Q → Firmware Q) × Accepted))
    → All (Roomy site) rs
    → Goes site fw rs (web_app_thread site fw l rs) l.socket l.bind_ok l.listen_ok
unfolding web_app_thread
web_app_thread-Goes site fw l rs h =
    with_socket-Goes site fw rs h l l.socket l.bind_ok l.listen_ok refl refl
