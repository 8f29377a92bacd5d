-- ===== src/Ping.antt =====
-- The data of src/Ping.h: one ping of a task.
use Prim.Native.String.{String}
use async_ping.Prelude.{
  ℕ, ◌+◌, ◌<◌, ◌≡◌, Bool, true, false, some, List, [], ◌∷◌, arith, if◌then◌else◌, length, get_elem?,
  set,
}
use async_ping.Prelude.Int.{ℤ}

-- PING_TIMEOUT, PING_UNINITED, PING_DOING, PING_SEND_ERROR, PING_SUCCESS.
pub data Status : Type 0 where
  timeout uninited doing send_error success : Status

-- `timer` says whether a libevent timer is pending for the ping.
pub record Ping : Type 0 where
  pub index : ℕ
  pub ip : String
  pub limit : ℤ
  pub status : Status
  pub sendtime : ℕ
  pub recvtime : ℕ
  pub timer : Bool

-- `status == PING_UNINITED || status == PING_DOING`, the test before a ping is counted as done.
abbrev pub is_open : Status → Bool
is_open uninited = true
is_open doing = true
is_open _ = false

abbrev pub is_doing : Status → Bool
is_doing doing = true
is_doing _ = false

abbrev pub is_uninited : Status → Bool
is_uninited uninited = true
is_uninited _ = false

abbrev pub is_success : Status → Bool
is_success success = true
is_success _ = false

-- What `new Ping[size]` leaves: `sendtime`, `recvtime` and the like are not initialised, so they
-- hold whatever `raw` says; no timer is set.
abbrev pub new_ping : ℕ → Ping
new_ping raw = record {
  index = raw;
  ip = "";
  limit = ℤ.pos raw;
  status = uninited;
  sendtime = raw;
  recvtime = raw;
  timer = false;
}

-- How many pings of a task are done.
unfoldable pub closed : List Ping → ℕ
closed [] = 0
closed (p ∷ ps) = (if is_open p.status then 0 else 1) + closed ps

-- A timer is pending exactly while the ping waits for its answer.
abbrev pub IsTimed : Ping → Type 0
IsTimed p = p.timer ≡ is_doing p.status

pub closed-set :
    (ps : List Ping) (i : ℕ) (p q : Ping)
    → get_elem? ps i ≡ some p
    → closed (set ps i q) + (if is_open p.status then 0 else 1)
      ≡ closed ps + (if is_open q.status then 0 else 1)
unfolding closed
closed-set [] i p q h = cc
closed-set (x ∷ xs) ℕ.zero p q h = ground arith
closed-set (x ∷ xs) (ℕ.suc i) p q h = ground (arith, closed-set xs i p q)

-- One open ping keeps the count below the number of pings.
pub closed-lt :
    (ps : List Ping) (i : ℕ) (p : Ping)
    → get_elem? ps i ≡ some p
    → is_open p.status ≡ true
    → closed ps < length ps
unfolding closed
closed-lt [] i p h o = cc
closed-lt (x ∷ xs) ℕ.zero p h o = ground (arith, closed-le xs)
  where
    closed-le : (ys : List Ping) → closed ys < ℕ.suc (length ys)
    closed-le [] = omega arith
    closed-le (y ∷ ys) = ground (arith, closed-le ys)
closed-lt (x ∷ xs) (ℕ.suc i) p h o = ground (arith, closed-lt xs i p)
