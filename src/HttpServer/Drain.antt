-- ===== src/HttpServer/Drain.antt =====
-- The server left to itself, with no handlers but its own.
use async_ping.Prelude.{
  ℕ, suc, ◌+◌, ◌≤◌, ◌<◌, ◌≡◌, Bool, true, false, some, List, [], ◌∷◌, arith, sym, ap, subst, All,
}
use async_ping.Dictionary.{Dictionary, find, find_of_values}
use async_ping.Task.{Task}
use async_ping.TaskWorker.{SendResult}
use async_ping.TaskWorker.Weight.{weight, opened, sum_queue, sum_map, open_at}
use async_ping.TaskWorker.Falling.{handle_timeout-falls, notify_event-falls}
use async_ping.TaskWorker.Effect.Kept.{IsStuck}
use async_ping.HttpServer.{HttpServer}
use async_ping.HttpServer.Invariant.{ServerInv}
use async_ping.HttpServer.Responses.{Answers, try_resp_event-Answers}
use async_ping.HttpServer.Run.{
  Step, request, notify, expire, receive, respond, Unused, Apart, Run, init, timer_at_work,
  Run-ServerInv, Stepped, Step-Stepped,
}

-- The handlers that the server itself has set going: not a new request, nor a datagram.
abbrev pub is_own : {s s' : HttpServer} → Step s s' → Bool
is_own (request raw fuel p req new e) = false
is_own (notify now env v woken e f) = true
is_own (expire p i me v live at set e f) = true
is_own (receive now ts seq index v e f) = false
is_own (respond woken e) = true

respond-falls : (s s' : HttpServer) → Answers s s' → weight s'.worker < weight s.worker
unfolding weight
respond-falls s s' done =
    let same : open_at s'.worker ≡ open_at s.worker =
      ap {B = ℕ → ℕ} (λ (f : ℕ → Task) (p : ℕ). opened (f p).pings) done.same_tasks in
    omega (
      arith,
      done.popped_one,
      ap (λ (f : ℕ → ℕ). sum_queue f s'.worker.task_queue) same,
      ap (λ (f : ℕ → ℕ). sum_map f s'.worker.doing_map) same,
      ap (sum_queue (open_at s.worker)) done.same_queue,
      ap (sum_map (open_at s.worker)) done.same_map,
    )

Step-falls :
    {s s' : HttpServer} (st : Step s s')
    → Unused st
    → ServerInv s
    → is_own st ≡ true
    → weight s'.worker < weight s.worker
Step-falls (request raw fuel p req new e) u inv o = cc
Step-falls {s} (notify now env v woken e f) unused inv o =
    subst (λ u. weight u < weight s.worker) (sym (ap (λ u. u.worker) f))
      (notify_event-falls now env s.worker v inv.worker woken unused e)
Step-falls {s} (expire p i me v live at set e f) x inv o =
    let key =
      find_of_values p s.worker.doing_map inv.worker.is_map
        (timer_at_work s.worker p i me inv.worker live at set) in
    subst (λ u. weight u < weight s.worker) (sym (ap (λ u. u.worker) f))
      (handle_timeout-falls s.worker p key.0 i me v inv.worker key.1 at set e)
Step-falls (receive now ts seq index v e f) u inv o = cc
Step-falls {s} {s'} (respond woken e) x inv o =
    respond-falls s s' (subst (Answers s) (sym e) (try_resp_event-Answers s inv woken))

-- A number above all keys.
above : Dictionary → ℕ
above [] = 0
above ((k, v) ∷ m) = suc k + above m

-- A run of `n` handlers of the server's own, in which each task that is taken finds a time of its
-- own.
pub data OwnRun (s : HttpServer) : HttpServer → ℕ → Type 0 where
  stop : OwnRun s s 0
  go :
      {t u : HttpServer} {n : ℕ}
      → OwnRun s t n
      → (st : Step t u) → Unused st
      → is_own st ≡ true
      → OwnRun s u (n + 1)

OwnRun-ServerInv : {s u : HttpServer} {n : ℕ} → ServerInv s → OwnRun s u n → ServerInv u
unfolding Stepped
OwnRun-ServerInv inv stop = inv
OwnRun-ServerInv inv (go run st unused o) = (Step-Stepped (OwnRun-ServerInv inv run) st unused).0

-- From a state in which the invariant of the server holds, no run of its own handlers, in which each
-- task that is taken finds a time of its own, is longer than the weight of the tables there.
pub OwnRun-bounded :
    {s u : HttpServer} {n : ℕ} → ServerInv s → OwnRun s u n → n + weight u.worker ≤ weight s.worker
OwnRun-bounded inv stop = omega arith
OwnRun-bounded inv (go run st unused o) =
    omega (arith, OwnRun-bounded inv run, Step-falls st unused (OwnRun-ServerInv inv run) o)

-- Every entry of a map is found in it.
Found : Dictionary → Dictionary → Type 0
Found whole m = All (λ (e : ℕ × ℕ). find e.0 whole ≡ some e.1) m

-- All waiting requests are those of tasks at work without pings.
abbrev pub AllStuck : HttpServer → Type 0
AllStuck s = All (λ (e : ℕ × ℕ). (ts : ℕ) × IsStuck s.worker e.0 ts) s.doing_request

module _ (memory : ℕ → Task) (net : ℕ → SendResult) {s : HttpServer} {rs : List ℕ}
    (run : Run (init memory) s rs) (apart : Apart run) where
  inv : ServerInv s
  inv = Run-ServerInv memory run apart

  -- A handler of the server's own that can run.
  Ready : Type 0
  Ready = (u : HttpServer) × (st : Step s u) × Unused st × (is_own st ≡ true)
