-- ===== src/HttpServer/Liveness.antt =====
-- What a waiting request waits for, and the requests whose tasks have no pings.
use async_ping.Prelude.{
  ℕ, zero, suc, ◌≤◌, ◌<◌, ◌≡◌, ◌≢◌, refl, ◌⊎◌, inl, inr, true, false, some, List, [], ◌∷◌, arith,
  length, get_elem?, ◌∙◌, Bool-cases, All-get,
}
use native.Mathlib.Decide.{ℕ_discrete, dec_lt}
use async_ping.Fifo.{occurs}
use async_ping.Dictionary.{find, has-find, values-find, find_of_values}
use async_ping.Ping.{
  Ping, Status, timeout, uninited, doing, send_error, success, IsTimed, is_open, is_uninited,
  is_doing, closed,
}
use async_ping.Task.{Task}
use async_ping.TaskWorker.Invariant.{own, IsRunning}
use async_ping.TaskWorker.Local.{waits, started_of}
use async_ping.TaskWorker.Effect.Kept.{IsStuck, Effect-IsStuck}
use async_ping.HttpServer.{HttpServer}
use async_ping.HttpServer.Invariant.{ServerInv}
use async_ping.HttpServer.Run.{
  Step, Unused, Apart, Run, start, next, init, Run-ServerInv, Stepped, Step-Stepped,
}
use async_ping.HttpServer.Steps.{Step-Effect, Run-AllStarted, Step-waiting}

-- A ping that waits for its answer, with its timer pending.
abbrev pub IsPending : Task → Type 0
IsPending t = (i : ℕ) × ((me : Ping) × (get_elem? t.pings i ≡ some me) × (me.timer ≡ true))

-- Of a task that is not done some ping is open.
open_ping :
    (ps : List Ping)
    → closed ps < length ps
    → (i : ℕ) × ((me : Ping) × (get_elem? ps i ≡ some me) × (is_open me.status ≡ true))
unfolding closed
open_ping [] h = absurd (omega arith)
open_ping (x ∷ xs) h = elim (Bool-cases (is_open x.status)) [
  | inl o ↦ (zero, (x, refl, o))
  | inr shut ↦ let rest = open_ping xs (ground arith) in (suc rest.0, rest.1)
]

doing_of : (s : Status) → is_open s ≡ true → is_uninited s ≡ false → is_doing s ≡ true
doing_of doing o u = refl
doing_of uninited o u = cc
doing_of timeout o u = cc
doing_of send_error o u = cc
doing_of success o u = cc

running-IsPending :
    (ts : ℕ) (t : Task)
    → IsRunning ts t
    → ((j : ℕ) → waits t.pings j ≡ false)
    → t.total_count ≢ 0
    → IsPending t
running-IsPending ts t run all some_pings = elim run.unfinished [
  | inr none_left ↦ absurd (some_pings none_left)
  | inl more ↦
      let found = open_ping t.pings (omega (arith, run.counts.sized, run.counts.counted)) in
      let me = found.1.0 in
      let timed = All-get IsTimed t.pings found.0 me run.counts.timed found.1.1 in
      (
        found.0,
        (
          me,
          found.1.1,
          timed
              ∙ doing_of me.status found.1.2
                  (started_of t.pings found.0 me found.1.1 (all found.0)),
        ),
      )
]

occurs_nil : (p : ℕ) (q : List ℕ) → length q ≡ 0 → occurs p q ≡ 0
unfolding occurs
occurs_nil p [] h = refl
occurs_nil p (x ∷ xs) h = absurd (omega arith)

-- After any history in which each task that is taken finds a time of its own, for a request that
-- waits, the worker or the master has been woken, or the task is at work with a timer pending, or it
-- is at work without pings.
pub Run-progress :
    (memory : ℕ → Task) {s : HttpServer} {rs : List ℕ} (p r : ℕ) (run : Run (init memory) s rs)
    → Apart run
    → find p s.doing_request ≡ some r
    → (1 ≤ s.worker.task_pipe)
      ⊎ ((1 ≤ s.worker.response_pipe)
          ⊎ ((own s.worker p ≡ 1) × IsPending (s.worker.tasks p)
              ⊎ (ts : ℕ) × IsStuck s.worker p ts))
Run-progress memory {s} p r run apart here = elim (dec_lt 0 s.worker.task_pipe) [
  | yes woken ↦ inl woken
  | no asleep ↦ elim (dec_lt 0 s.worker.response_pipe) [
    | yes woken ↦ inr (inl woken)
    | no quiet ↦
        let inv = Run-ServerInv memory run apart in
        let w = inv.worker in
        let owned : own s.worker p ≡ 1 =
          omega (arith, inv.owned p, has-find p r s.doing_request here) in
        let empty_queue = occurs_nil p s.worker.task_queue (omega (arith, w.task_wakeups)) in
        let empty_answers =
          occurs_nil p s.worker.response_queue (omega (arith, w.response_wakeups)) in
        let key = find_of_values p s.worker.doing_map w.is_map (omega arith) in
        elim (ℕ_discrete (s.worker.tasks p).total_count 0) [
          | yes none_left ↦ inr (inr (inr (key.0, record { here = key.1; empty = none_left })))
          | no some_pings ↦ inr (
              inr (
                inl (
                  owned,
                  running-IsPending key.0 (s.worker.tasks p) (w.running key.0 p key.1)
                      (Run-AllStarted memory run apart key.0 p key.1) some_pings,
                )))
        ]
  ]
]

-- A request whose task is at work without pings waits in every later state: it is never answered.
Stuck : HttpServer → (p ts r : ℕ) → Type 0
Stuck s p ts r = IsStuck s.worker p ts × (find p s.doing_request ≡ some r)

Step-Stuck :
    {s s' : HttpServer} (p ts r : ℕ) (st : Step s s')
    → Unused st
    → ServerInv s
    → Stuck s p ts r
    → Stuck s' p ts r
unfolding Stuck
Step-Stuck {s} p ts r st unused inv stuck = (
  Effect-IsStuck p ts inv.worker (Step-Effect st unused inv) stuck.0,
  Step-waiting st p r inv stuck.1 (values-find ts p s.worker.doing_map stuck.0.here),
)

Run_keeps :
    {s u : HttpServer} {rs : List ℕ} → ServerInv s → (run : Run s u rs) → Apart run → ServerInv u
unfolding Stepped
Run_keeps inv start apart = inv
Run_keeps inv (next run st e) (unused, apart) = (Step-Stepped (Run_keeps inv run apart) st unused).0

-- In a state in which the invariant of the server holds, let the task of a request be at work without
-- pings. After any history from there in which each task that is taken finds a time of its own, the
-- request still waits: it is not answered.
pub Run-IsStuck :
    {s u : HttpServer} {rs : List ℕ} (p ts r : ℕ)
    → ServerInv s
    → IsStuck s.worker p ts
    → find p s.doing_request ≡ some r
    → (run : Run s u rs) → Apart run
    → IsStuck u.worker p ts × (find p u.doing_request ≡ some r)
unfolding Stuck
Run-IsStuck p ts r inv stuck here start apart = (stuck, here)
Run-IsStuck p ts r inv stuck here (next run st e) (unused, apart) =
    let before = Run-IsStuck p ts r inv stuck here run apart in
    Step-Stuck p ts r st unused (Run_keeps inv run apart) before
