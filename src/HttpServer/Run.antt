-- ===== src/HttpServer/Run.antt =====
-- Every history of the server, as a sequence of the handlers that the two event loops run. A timer
-- fires only while it is pending; all else is left to the environment.
use native.Mathlib.Decide.{dec_lt}
use async_ping.Prelude.{
  ℕ, ◌+◌, ◌≤◌, ◌≡◌, refl, inl, inr, true, false, none, some, List, [], ◌∷◌, ◌++◌, arith, get_elem?,
  ◌∙◌, sym, ap, subst, All-get, ◌==◌, if◌then◌else◌,
}
use async_ping.Fifo.{occurs, occurs-append}
use async_ping.Dictionary.{find, values, has, find_of_values, values-erase}
use async_ping.Ping.{Ping}
use async_ping.Task.{Task, built}
use async_ping.HttpResponse.{Sent}
use async_ping.TaskWorker.{
  TaskWorker, new_task_worker, SendResult, notify_event, handle_timeout, on_receive,
}
use async_ping.TaskWorker.Invariant.{Inv, own, silent_of_fresh}
use async_ping.TaskWorker.Handlers.{Handled, handle_timeout-Handled, on_receive_cases}
use async_ping.TaskWorker.Notify.{notify_event-Handled}
use async_ping.HttpServer.{HttpServer, new_http_server, Request, handle_ping_req, try_resp_event}
use async_ping.HttpServer.Invariant.{ServerInv}
use async_ping.HttpServer.Requests.{handle_ping_req-ServerInv}
use async_ping.HttpServer.Responses.{try_resp_event-Answers}

-- One handler runs. `request` takes a request in, at an address that `new Task` did not give to a
-- task that lives.
pub data Step (s s' : HttpServer) : Type 0 where
  request :
      (raw fuel p : ℕ) (req : Request)
      → own s.worker p ≡ 0
      → handle_ping_req raw fuel s p req ≡ built s'
      → Step s s'
  notify :
      (now : ℕ) (env : ℕ → SendResult) (v : TaskWorker)
      → 1 ≤ s.worker.task_pipe
      → notify_event now env s.worker ≡ some v
      → s' ≡ record s { worker = v }
      → Step s s'
  expire :
      (p i : ℕ) (me : Ping) (v : TaskWorker)
      → own s.worker p ≡ 1
      → get_elem? (s.worker.tasks p).pings i ≡ some me
      → me.timer ≡ true
      → handle_timeout s.worker p i ≡ some v
      → s' ≡ record s { worker = v }
      → Step s s'
  receive :
      (now ts seq index : ℕ) (v : TaskWorker)
      → on_receive now s.worker ts seq index ≡ some v
      → s' ≡ record s { worker = v }
      → Step s s'
  respond : 1 ≤ s.worker.response_pipe → s' ≡ try_resp_event s → Step s s'

-- The request that a step takes in.
abbrev pub taken : {s s' : HttpServer} → Step s s' → List ℕ
taken (request raw fuel p req new e) = req.id ∷ []
taken (notify now env v woken e f) = []
taken (expire p i me v live at set e f) = []
taken (receive now ts seq index v e f) = []
taken (respond woken e) = []

-- The clock shows a time that no task at work has, whenever a task is taken from the queue. The
-- source does not test it: TaskWorker/Collision is about the times when it fails.
abbrev pub Unused : {s s' : HttpServer} → Step s s' → Type 0
Unused (request raw fuel p req new e) = Unit {0}
Unused {s} (notify now env v woken e f) = find now s.worker.doing_map ≡ none
Unused (expire p i me v live at set e f) = Unit {0}
Unused (receive now ts seq index v e f) = Unit {0}
Unused (respond woken e) = Unit {0}

-- How often a request was answered.
abbrev pub answers : ℕ → List (ℕ × Sent) → ℕ
answers r [] = 0
answers r ((q, a) ∷ rest) = (if r == q then 1 else 0) + answers r rest

-- How often it waits or was answered.
abbrev pub accounted : HttpServer → ℕ → ℕ
accounted s r = values r s.doing_request + answers r s.sent

-- A task with a pending timer is at work.
pub timer_at_work :
    (w : TaskWorker) (p i : ℕ) (me : Ping)
    → Inv w
    → own w p ≡ 1
    → get_elem? (w.tasks p).pings i ≡ some me
    → me.timer ≡ true
    → 1 ≤ values p w.doing_map
timer_at_work w p i me inv live at set = elim (dec_lt 0 (values p w.doing_map)) [
  | yes work ↦ work
  | no idle ↦ elim (dec_lt 0 (occurs p w.task_queue)) [
    | yes queued ↦
        let ready = inv.queued p queued in
        let off = silent_of_fresh (w.tasks p).pings ready.fresh ready.counts.timed in
        let quiet : me.timer ≡ false = All-get _ (w.tasks p).pings i me off at in absurd (cc)
    | no unqueued ↦
        let quiet : me.timer ≡ false =
          All-get _ (w.tasks p).pings i me (inv.answered p (omega arith)).silent at in
        absurd (cc)
  ]
]

-- What a worker's handler leaves fits the master's table.
worker-ServerInv :
    (s : HttpServer) (v : TaskWorker)
    → ServerInv s
    → Handled s.worker v
    → ServerInv (record s { worker = v })
worker-ServerInv s v inv done = record {
  worker = done.inv;
  is_map = inv.is_map;
  owned = λ q. done.owned q ∙ inv.owned q;
}

-- The worker's three handlers.
notified :
    (now : ℕ) (env : ℕ → SendResult) (w v : TaskWorker)
    → Inv w
    → 1 ≤ w.task_pipe
    → find now w.doing_map ≡ none
    → notify_event now env w ≡ some v
    → Handled w v
notified now env w v inv woken unused e =
    let done = notify_event-Handled now env w inv woken unused in
    let same : done.0 ≡ v = cc (done.1) in subst (Handled w) same done.2

expired :
    (w : TaskWorker) (p i : ℕ) (me : Ping) (v : TaskWorker)
    → Inv w
    → own w p ≡ 1
    → get_elem? (w.tasks p).pings i ≡ some me
    → me.timer ≡ true
    → handle_timeout w p i ≡ some v
    → Handled w v
expired w p i me v inv live at set e =
    let key = find_of_values p w.doing_map inv.is_map (timer_at_work w p i me inv live at set) in
    let done = handle_timeout-Handled w p i key.0 me inv key.1 at in
    let same : done.0 ≡ v = cc (done.1) in subst (Handled w) same done.2

received :
    (now : ℕ) (w : TaskWorker) (ts seq index : ℕ) (v : TaskWorker)
    → Inv w
    → on_receive now w ts seq index ≡ some v
    → Handled w v
received now w ts seq index v inv e = elim (on_receive_cases now w ts seq index inv) [
  | inl (p, here, beyond, fault) ↦ absurd (cc)
  | inr (u, ok, done) ↦ let same : u ≡ v = cc in subst (Handled w) same done
]

-- What one step does to the server: its invariant holds again, and the requests that wait or were
-- answered are those from before with the one that was taken in.
unfoldable pub Stepped : (s s' : HttpServer) → List ℕ → Type 0
Stepped s s' new = ServerInv s' × ((r : ℕ) → accounted s' r ≡ accounted s r + occurs r new)

module _ {s s' : HttpServer} (inv : ServerInv s) where
  worker-Stepped :
      (v : TaskWorker) → Handled s.worker v → s' ≡ record s { worker = v } → Stepped s s' []
  unfolding Stepped occurs
  worker-Stepped v done e = (
    subst ServerInv (sym e) (worker-ServerInv s v inv done),
    λ r. ap (λ t. accounted t r) e ∙ omega arith,
  )

  pub Step-Stepped : (st : Step s s') → Unused st → Stepped s s' (taken st)
  unfolding Stepped occurs values
  Step-Stepped (request raw fuel p req new e) u =
      let done = handle_ping_req-ServerInv raw fuel s s' p req inv new e in
      (done.0, λ r. ground (arith, ap (values r) done.1, ap (answers r) done.2))
  Step-Stepped (notify now env v woken e f) unused =
      worker-Stepped v (notified now env s.worker v inv.worker woken unused e) f
  Step-Stepped (expire p i me v live at set e f) u =
      worker-Stepped v (expired s.worker p i me v inv.worker live at set e) f
  Step-Stepped (receive now ts seq index v e f) u =
      worker-Stepped v (received now s.worker ts seq index v inv.worker e) f
  Step-Stepped (respond woken e) u =
      let done = try_resp_event-Answers s inv woken in
      (
        subst ServerInv (sym e) done.inv,
        λ r.
            ap (λ t. accounted t r) e
            ∙ ground (
              arith,
              ap (values r) done.forgotten,
              ap (answers r) done.sent,
              values-erase r done.task done.request s.doing_request done.waiting,
            ),
      )

-- The server before its first request, over any memory.
abbrev pub init : (ℕ → Task) → HttpServer
init memory = new_http_server (new_task_worker memory)

-- A history with the requests that it took in, the latest first.
pub data Run (s : HttpServer) : HttpServer → List ℕ → Type 0 where
  start : Run s s []
  next :
      {t u : HttpServer} {rs rs' : List ℕ}
      → Run s t rs
      → (st : Step t u) → rs' ≡ taken st ++ rs
      → Run s u rs'

-- In all of a history.
abbrev pub Apart : {s t : HttpServer} {rs : List ℕ} → Run s t rs → Type 0
Apart start = Unit {0}
Apart (next run st e) = Unused st × Apart run

init-ServerInv : (memory : ℕ → Task) → ServerInv (init memory)
unfolding occurs values has find
init-ServerInv memory = record {
  worker = record {
    is_map = tt;
    counted = refl;
    bounded = omega arith;
    task_wakeups = refl;
    response_wakeups = refl;
    unique = λ p. omega arith;
    running = λ ts p h. cc;
    queued = λ p h. absurd (omega arith);
    answered = λ p h. absurd (omega arith);
  };
  is_map = tt;
  owned = λ p. refl;
}

-- After any history in which each task that is taken finds a time of its own, the invariant of the
-- server and its worker holds.
pub Run-ServerInv :
    (memory : ℕ → Task) {s : HttpServer} {rs : List ℕ} (run : Run (init memory) s rs)
    → Apart run
    → ServerInv s
unfolding Stepped
Run-ServerInv memory start apart = init-ServerInv memory
Run-ServerInv memory (next run st e) (unused, apart) =
    (Step-Stepped (Run-ServerInv memory run apart) st unused).0

-- After any history in which each task that is taken finds a time of its own, each request waits,
-- or was answered, exactly as often as it was taken in: none is lost, and none is answered twice.
pub Run-accounted :
    (memory : ℕ → Task) {s : HttpServer} {rs : List ℕ} (run : Run (init memory) s rs)
    → Apart run
    → (r : ℕ) → accounted s r ≡ occurs r rs
unfolding Stepped
Run-accounted memory start apart r = unfold values occurs in refl
Run-accounted memory (next {rs = old} run st e) (unused, apart) r = omega (
  arith,
  (Step-Stepped (Run-ServerInv memory run apart) st unused).1 r,
  Run-accounted memory run apart r,
  ap (occurs r) e,
  occurs-append r (taken st) old,
)
