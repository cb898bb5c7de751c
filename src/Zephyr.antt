-- ===== src/Zephyr.antt =====
-- What the firmware uses of Zephyr: the error numbers, time-outs, and the message queue, an
-- interface whose laws are the documented behaviour of `k_msgq_*`.
use esp_nmea_bridge_zephyr.Base.{
  ℕ, ◌≤◌, ◌<◌, ◌≡◌, Option, none, some, List, [], ◌∷◌, ◌++◌, length, Bool,
}

pub data Errno : Type 0 where
  einval emsgsize enotconn enomem enomsg eagain enodev eintr eio econnreset : Errno

-- An `int` result: 0, or a negated error number.
pub data Status : Type 0 where
  ok : Status
  err : Errno → Status

-- The result of `zsock_recv` or `zsock_send`: a number of bytes, or -1 with `errno`. EWOULDBLOCK is
-- another name of EAGAIN.
pub data SockResult : Type 0 where
  got : ℕ → SockResult
  fault : Errno → SockResult

pub data Timeout : Type 0 where
  no_wait forever : Timeout
  msec : ℕ → Timeout

-- The result of a queue read that has found nothing when its time is over.
abbrev pub expired : Timeout → Errno
expired no_wait = enomsg
expired forever = eagain
expired (msec n) = eagain

-- How getting a listening socket goes: the answers of `zsock_socket`, `none` for an error, of
-- `zsock_bind` and of `zsock_listen`.
pub record Listening : Type 0 where
  pub socket : Option ℕ
  pub bind_ok : Bool
  pub listen_ok : Bool

-- `struct k_msgq` holding items `A` in a queue object `Q`, with the calls the firmware makes.
-- `get` is read at the end of its wait, and `put` is called with K_NO_WAIT only.
pub record Msgq (A Q : Type 0) : Type 0 where
  pub contents : Q → List A
  pub capacity : Q → ℕ
  pub init : ℕ → Q
  pub put : Q → A → Status × Q
  pub get : Timeout → Q → Status × Option A × Q
  pub purge : Q → Q
  pub contents-init : (d : ℕ) → contents (init d) ≡ []
  pub capacity-init : (d : ℕ) → capacity (init d) ≡ d
  pub contents-purge : (q : Q) → contents (purge q) ≡ []
  pub capacity-purge : (q : Q) → capacity (purge q) ≡ capacity q
  pub capacity-put : (q : Q) (a : A) → capacity (put q a).1 ≡ capacity q
  pub capacity-get : (t : Timeout) (q : Q) → capacity (get t q).2 ≡ capacity q
  pub put_room :
      (q : Q) (a : A)
      → length (contents q) < capacity q
      → ((put q a).0 ≡ ok) × (contents (put q a).1 ≡ contents q ++ a ∷ [])
  pub put_full :
      (q : Q) (a : A)
      → capacity q ≤ length (contents q)
      → ((put q a).0 ≡ err enomsg) × (contents (put q a).1 ≡ contents q)
  -- No queue is purged while another thread waits on it: a sink is closed by its own reader.
  pub get_empty :
      (t : Timeout) (q : Q)
      → contents q ≡ []
      → ((get t q).0 ≡ err (expired t)) × ((get t q).1 ≡ none) × (contents (get t q).2 ≡ [])
  pub get_first :
      (t : Timeout) (q : Q) (a : A) (rest : List A)
      → contents q ≡ a ∷ rest
      → ((get t q).0 ≡ ok) × ((get t q).1 ≡ some a) × (contents (get t q).2 ≡ rest)
