-- ===== src/TcpNmeaClient/Backoff.antt =====
-- The client's back-off over a history of rounds.
use esp_nmea_bridge_zephyr.Base.{
  ℕ, suc, ◌+◌, ◌*◌, ◌^◌, ◌≡◌, refl, ap, sym, ◌∙◌, subst, Bool, true, false, Option, none, some,
  List, [], ◌∷◌, ◌++◌, arith, min, map,
}
use native.Mathlib.Nat.{pow-suc}
use esp_nmea_bridge_zephyr.Zephyr.{Status, ok, err, Msgq}
use esp_nmea_bridge_zephyr.Config.{Config}
use esp_nmea_bridge_zephyr.NmeaBridge.{Frame}
use esp_nmea_bridge_zephyr.TcpNmeaSession.{Shared, Outcome}
use esp_nmea_bridge_zephyr.TcpNmeaClient.{
  Fd, opened, refused, Round, Progress, connect_server, wait_for_host, next_backoff, after_session,
  after_connect, client_round, and_then, client_rounds,
}

-- Whether a round gets a connection.
abbrev pub is_served : {Q : Type 0} → Round Q → Bool
is_served r = elim r.socket [
  | refused e ↦ false
  | opened fd ↦ elim r.connect [ ok ↦ true | err e ↦ false ]
]

-- The wait behind the `n`-th failure in a row, counted from 0.
abbrev pub backoff : ℕ → ℕ
backoff n = min (2 ^ n) 30

-- The waits behind rounds that get a connection or not, after `n` failures in a row.
abbrev pub waits : ℕ → List Bool → List ℕ
waits n [] = []
waits n (true ∷ bs) = 1 ∷ waits 1 bs
waits n (false ∷ bs) = backoff n ∷ waits (n + 1) bs

pow_step : (n : ℕ) → 2 ^ (n + 1) ≡ 2 ^ n * 2
pow_step n = let e : n + 1 ≡ suc n = omega arith in rw e (pow-suc 2 n)

next_backoff_lem : (n : ℕ) → next_backoff (backoff n) ≡ backoff (n + 1)
unfolding next_backoff
next_backoff_lem n = ground (arith, pow_step n)

module _ {Q : Type 0} ⦃m : Msgq Frame Q⦄ (cfg : Config) where
  Waits : Bool → ℕ → Option (Progress Q) → Type 0
  Waits served n none = Unit
  Waits true n (some x) = (x.slept_s ≡ 1 ∷ []) × (x.backoff_s ≡ backoff 1)
  Waits false n (some x) = (x.slept_s ≡ backoff n ∷ []) × (x.backoff_s ≡ backoff (n + 1))

  after_session-Waits : (n : ℕ) (o : Option (Outcome Q)) → Waits true n (after_session cfg o)
  unfolding Waits after_session next_backoff
  after_session-Waits n none = tt
  after_session-Waits n (some o) = (refl, refl)

  after_connect-Waits :
      (w : Shared Q) (n : ℕ) (r : Round Q) (s : Fd) (ret : Status)
      → let c = connect_server s ret in
        Waits
          (is_served (record r { socket = s; connect = ret }))
          n
          (after_connect cfg w (backoff n) r.turns c c.result)
  unfolding Waits after_connect connect_server
  after_connect-Waits w n r (refused e) ret = (refl, next_backoff_lem n)
  after_connect-Waits w n r (opened fd) (err e) = (refl, next_backoff_lem n)
  after_connect-Waits w n r (opened fd) ok = after_session-Waits n _

  waited-Waits :
      (served : Bool) (n : ℕ) (o : Option (ℕ × ℕ)) (then_ : Option (Progress Q))
      → Waits served n then_
      → Waits served n (elim o [ none ↦ none | some _ ↦ then_ ])
  unfolding Waits
  waited-Waits served n none then_ h = tt
  waited-Waits served n (some a) then_ h = h

  client_round-Waits :
      (pton : List ℕ → Option ℕ) (setting : List ℕ) (w : Shared Q) (n : ℕ) (r : Round Q)
      → Waits (is_served r) n (client_round cfg pton setting w (backoff n) r)
  unfolding client_round
  client_round-Waits pton setting w n r =
      waited-Waits (is_served r) n (wait_for_host pton setting r.polls 0) _
        (after_connect-Waits _ n r r.socket r.connect)

  Slept : ℕ → List Bool → Option (Progress Q) → Type 0
  Slept n bs none = Unit
  Slept n bs (some x) = x.slept_s ≡ waits n bs

  and_then-Slept :
      (served : Bool) (n k : ℕ) (bs : List Bool) (x : Progress Q) (o : Option (Progress Q))
      → waits n (served ∷ bs) ≡ x.slept_s ++ waits k bs
      → Slept k bs o
      → Slept n (served ∷ bs) (and_then cfg x o)
  unfolding Slept and_then
  and_then-Slept served n k bs x none e h = tt
  and_then-Slept served n k bs x (some y) e h = ap (λ t. x.slept_s ++ t) h ∙ sym e

  cons-Slept :
      (served : Bool) (n : ℕ) (bs : List Bool) (o : Option (Progress Q))
      (rest : Progress Q → Option (Progress Q))
      → Waits served n o
      → ((k : ℕ) (x : Progress Q) → x.backoff_s ≡ backoff k → Slept k bs (rest x))
      → Slept n (served ∷ bs) (elim o [ none ↦ none | some x ↦ and_then cfg x (rest x) ])
  unfolding Waits Slept
  cons-Slept served n bs none rest h k = tt
  cons-Slept true n bs (some x) rest h k =
      and_then-Slept true n 1 bs x (rest x) (ap (λ t. t ++ waits 1 bs) (sym h.0)) (k 1 x h.1)
  cons-Slept false n bs (some x) rest h k =
      and_then-Slept false n (n + 1) bs x (rest x) (ap (λ t. t ++ waits (n + 1) bs) (sym h.0))
        (k (n + 1) x h.1)

  rounds-Slept :
      (pton : List ℕ → Option ℕ) (setting : List ℕ) (rs : List (Round Q)) (w : Shared Q) (n b : ℕ)
      → b ≡ backoff n
      → Slept n (map is_served rs) (client_rounds cfg pton setting w b rs)
  unfolding Slept client_rounds
  rounds-Slept pton setting [] w n b e = refl
  rounds-Slept pton setting (r ∷ rs) w n b e =
      cons-Slept (is_served r) n (map is_served rs) _ _
        (rw e (client_round-Waits pton setting w n r))
        (λ k x. rounds-Slept pton setting rs x.shared k x.backoff_s)

-- From its start, the client waits 1, 2, 4, 8, 16 and then 30 seconds behind failures in a row, the
-- same again from 2 seconds on behind the first failure after a session, and 1 second behind each
-- session: the waits of any rounds that have ended depend only on which of them got a connection.
pub client_rounds-waits :
    {Q : Type 0} ⦃m : Msgq Frame Q⦄ (cfg : Config) (pton : List ℕ → Option ℕ) (setting : List ℕ)
    (w : Shared Q) (rs : List (Round Q)) (x : Progress Q)
    → client_rounds cfg pton setting w 1 rs ≡ some x
    → x.slept_s ≡ waits 0 (map is_served rs)
unfolding Slept
client_rounds-waits cfg pton setting w rs x e =
    subst (Slept cfg 0 (map is_served rs)) e (rounds-Slept cfg pton setting rs w 0 1 refl)
