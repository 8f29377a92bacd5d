-- ===== src/HttpServer/Steps.antt =====
-- What each step of a history means for the tasks at work, and for the requests that wait.
use async_ping.Prelude.{
  ℕ, ◌≤◌, ◌≡◌, ◌≢◌, refl, Bool, true, false, some, List, arith, ◌∙◌, sym, ap, subst, if◌then◌else◌,
}
use async_ping.Fifo.{occurs}
use async_ping.Dictionary.{find, values, find-erase_ne}
use async_ping.Task.{Task}
use async_ping.TaskWorker.{TaskWorker, put_task, enqueue_task, send_to_master}
use async_ping.TaskWorker.Invariant.{own}
use async_ping.TaskWorker.Effect.{
  Effect, outside, within, handle_timeout-Local, on_receive-Effect, notify_event-Effect,
}
use async_ping.TaskWorker.Effect.Kept.{AllStarted, Effect-AllStarted}
use async_ping.Dictionary.{find_of_values}
use async_ping.HttpServer.{HttpServer}
use async_ping.HttpServer.Invariant.{ServerInv}
use async_ping.HttpServer.Requests.{
  submitted, submitted_other, handle_ping_req_worker, handle_ping_req-ServerInv,
}
use async_ping.HttpServer.Responses.{try_resp_event-Answers}
use async_ping.HttpServer.Run.{
  Step, request, notify, expire, receive, respond, Run, start, next, init, timer_at_work, Unused,
  Apart, Run-ServerInv,
}

submitted-Effect :
    (s : HttpServer) (p : ℕ) (t : Task) → own s.worker p ≡ 0 → Effect s.worker (submitted s p t)
submitted-Effect s p t new =
    outside (same t.prepare_error) (λ q h. submitted_other s p q t (ne q h))
  where
    ne : (q : ℕ) → 1 ≤ values q s.worker.doing_map → q ≢ p
    ne q h e = omega (arith, new, ap (λ r. values r s.worker.doing_map) e)

    same :
        (bad : Bool)
        → (if bad
            then send_to_master (put_task s.worker p t) p
            else enqueue_task (put_task s.worker p t) p).doing_map
          ≡ s.worker.doing_map
    same true = unfold send_to_master put_task in refl
    same false = unfold enqueue_task put_task in refl

to_worker :
    {s s' : HttpServer} {v : TaskWorker}
    → s' ≡ record s { worker = v }
    → Effect s.worker v
    → Effect s.worker s'.worker
to_worker {s} e f = subst (λ u. Effect s.worker u) (sym (ap (λ u. u.worker) e)) f

pub Step-Effect :
    {s s' : HttpServer} (st : Step s s') → Unused st → ServerInv s → Effect s.worker s'.worker
Step-Effect {s} {s'} (request raw fuel p req new e) u inv =
    let made = handle_ping_req_worker raw fuel s s' p req inv new e in
    subst (λ u. Effect s.worker u) (sym made.1) (submitted-Effect s p made.0 new)
Step-Effect {s} (notify now env v woken e f) unused inv =
    to_worker f (notify_event-Effect now env s.worker v inv.worker woken unused e)
Step-Effect {s} (expire p i me v live at set e f) u inv =
    let key =
      find_of_values p s.worker.doing_map inv.worker.is_map
        (timer_at_work s.worker p i me inv.worker live at set) in
    to_worker f (within p key.0 i me key.1 at (handle_timeout-Local s.worker p i me v at e))
Step-Effect {s} (receive now ts seq index v e f) u inv =
    to_worker f (on_receive-Effect now s.worker ts seq index v e)
Step-Effect {s} {s'} (respond woken e) u inv =
    let done = try_resp_event-Answers s inv woken in
    outside (ap (λ u. u.worker.doing_map) e ∙ done.same_map)
      (λ q h. ap (λ u. u.worker.tasks q) e ∙ ap (λ f. f q) done.same_tasks)

-- In every history with times of their own the pings of each task at work were started.
pub Run-AllStarted :
    (memory : ℕ → Task) {s : HttpServer} {rs : List ℕ} (run : Run (init memory) s rs)
    → Apart run
    → AllStarted s.worker
unfolding find
Run-AllStarted memory start apart = λ ts p h j. cc
Run-AllStarted memory (next run st e) (unused, apart) =
    let inv = Run-ServerInv memory run apart in
    Effect-AllStarted inv.worker (Step-Effect st unused inv) (Run-AllStarted memory run apart)

-- A step forgets no request but one whose task is in the master's queue.
pub Step-waiting :
    {s s' : HttpServer} (st : Step s s') (p r : ℕ)
    → ServerInv s
    → find p s.doing_request ≡ some r
    → 1 ≤ values p s.worker.doing_map
    → find p s'.doing_request ≡ some r
Step-waiting {s} {s'} (request raw fuel q req new e) p r inv here work =
    let done = handle_ping_req-ServerInv raw fuel s s' q req inv new e in
    let ne : p ≢ q = λ same. omega (arith, new, ap (λ k. values k s.worker.doing_map) same) in
    rw (done.1) (unfold find in ground arith)
Step-waiting (notify now env v woken e f) p r inv here work =
    ap (λ u. find p u.doing_request) f ∙ here
Step-waiting (expire q i me v live at set e f) p r inv here work =
    ap (λ u. find p u.doing_request) f ∙ here
Step-waiting (receive now ts seq index v e f) p r inv here work =
    ap (λ u. find p u.doing_request) f ∙ here
Step-waiting {s} (respond woken e) p r inv here work =
    let done = try_resp_event-Answers s inv woken in
    let ne : p ≢ done.task = λ same.
      omega (
        arith,
        done.queued,
        inv.worker.unique p,
        ap (λ k. occurs k s.worker.response_queue) same,
      ) in
    ap (λ u. find p u.doing_request) e
    ∙ ap (find p) done.forgotten
    ∙ find-erase_ne done.task p s.doing_request ne
    ∙ here
