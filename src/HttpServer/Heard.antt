-- ===== src/HttpServer/Heard.antt =====
-- What the history of the server shows of the worker, and how it tells the tasks that requests wait
-- for.
use native.Mathlib.Decide.{ℕ_discrete}
use async_ping.Prelude.{ℕ, ◌≤◌, ◌≡◌, ◌≢◌, some, List, [], ◌∷◌, ◌++◌, arith, ◌∙◌, sym, ap, subst}
use async_ping.Dictionary.{find, erase, find-erase_ne, find-erase_self}
use async_ping.Task.{Task, built}
use async_ping.TaskWorker.{TaskWorker}
use async_ping.TaskWorker.Invariant.{own}
use async_ping.TaskWorker.Effect.Kept.{AllStarted}
use async_ping.TaskWorker.Told.{Event, came, fired, TaskTold, TaskTold-more}
use async_ping.TaskWorker.Told.Handlers.{
  shown_by, handle_timeout-told, notify_event-told, on_receive-told,
}
use async_ping.HttpServer.{HttpServer, Request, handle_ping_req, try_resp_event}
use async_ping.HttpServer.Invariant.{ServerInv}
use async_ping.HttpServer.Requests.{
  submitted_other, submitted_self, handle_ping_req_worker, handle_ping_req-ServerInv,
}
use async_ping.HttpServer.Responses.{try_resp_event-Answers}
use async_ping.HttpServer.Run.{
  Step, request, notify, expire, receive, respond, Run, start, next, init, Apart, Run-ServerInv,
}
use async_ping.HttpServer.Steps.{Run-AllStarted}
use async_ping.HttpServer.Reported.{make_task-TaskTold}

-- What a step shows, and a history, the latest first.
abbrev pub shows : {s s' : HttpServer} → Step s s' → List Event
shows (request raw fuel p req new e) = []
shows {s} (notify now env v woken e f) = shown_by now env s.worker ∷ []
shows {s} (expire p i me v live at set e f) = fired (s.worker.tasks p).timestamp i ∷ []
shows (receive now ts seq index v e f) = came ts index now ∷ []
shows (respond woken e) = []

abbrev pub shown_in : {s t : HttpServer} {rs : List ℕ} → Run s t rs → List Event
shown_in start = []
shown_in (next run st e) = shows st ++ shown_in run

-- It holds of the tasks that requests wait for.
pub record IsHeard (events : List Event) (s : HttpServer) : Type 0 where
  pub waiting : (p r : ℕ) → find p s.doing_request ≡ some r → TaskTold events (s.worker.tasks p)

-- A handler of the worker.
worker-IsHeard :
    (events more : List Event) (s s' : HttpServer) (v : TaskWorker)
    → IsHeard events s
    → s' ≡ record s { worker = v }
    → ((p : ℕ) → TaskTold events (s.worker.tasks p) → TaskTold more (v.tasks p))
    → IsHeard more s'
worker-IsHeard events more s s' v i e keeps =
    subst (IsHeard more) (sym e) (record { waiting = λ p r h. keeps p (i.waiting p r h) })

module _ (events : List Event) (s : HttpServer) (inv : ServerInv s) (i : IsHeard events s) where
  request-IsHeard :
      (raw fuel p : ℕ) (req : Request) (s' : HttpServer)
      → own s.worker p ≡ 0
      → handle_ping_req raw fuel s p req ≡ built s'
      → IsHeard events s'
  request-IsHeard raw fuel p req s' new e =
      let (state, table, sent) = handle_ping_req-ServerInv raw fuel s s' p req inv new e in
      let (t, worker, made) = handle_ping_req_worker raw fuel s s' p req inv new e in
      record {
        waiting = λ q r h. elim (ℕ_discrete q p) [
          | yes same ↦
              subst (TaskTold events)
                (sym (
                  ap (λ k. s'.worker.tasks k) same
                  ∙ ap (λ w. w.tasks p) worker
                  ∙ submitted_self s p t))
                (make_task-TaskTold events raw fuel req t made)
          | no other ↦
              let at : find q ((p, req.id) ∷ s.doing_request) ≡ some r =
                ap (find q) (sym table) ∙ h in
              let down : find q ((p, req.id) ∷ s.doing_request) ≡ find q s.doing_request =
                unfold find in ground arith in
              subst (TaskTold events)
                (sym (ap (λ w. w.tasks q) worker ∙ submitted_other s p q t other))
                (i.waiting q r (sym down ∙ at))
        ];
      }

  respond-IsHeard : 1 ≤ s.worker.response_pipe → IsHeard events (try_resp_event s)
  respond-IsHeard woken =
      let done = try_resp_event-Answers s inv woken in
      record {
        waiting = λ p r h.
            let left : find p (erase done.task s.doing_request) ≡ some r =
              ap (find p) (sym done.forgotten) ∙ h in
            let ne : p ≢ done.task = λ same.
              let gone = find-erase_self done.task s.doing_request inv.is_map in
              let at = ap (λ k. find k (erase done.task s.doing_request)) (sym same) ∙ left in cc in
            subst (TaskTold events) (sym (ap (λ f. f p) done.same_tasks))
              (i.waiting p r (sym (find-erase_ne done.task p s.doing_request ne) ∙ left));
      }

  Step-IsHeard :
      {s' : HttpServer} (st : Step s s') → AllStarted s.worker → IsHeard (shows st ++ events) s'
  Step-IsHeard {s'} (request raw fuel p req new e) all = request-IsHeard raw fuel p req s' new e
  Step-IsHeard {s'} (notify now env v woken e f) all =
      worker-IsHeard events (shown_by now env s.worker ∷ events) s s' v i f
        (notify_event-told events now env s.worker v inv.worker woken e)
  Step-IsHeard {s'} (expire p k me v live at set e f) all =
      let one = fired (s.worker.tasks p).timestamp k in
      worker-IsHeard events (one ∷ events) s s' v i f (λ q h.
        (handle_timeout-told events s.worker p k me v at e).each q
          (TaskTold-more (one ∷ []) events (s.worker.tasks q) h))
  Step-IsHeard {s'} (receive now ts seq index v e f) all =
      let one = came ts index now in
      worker-IsHeard events (one ∷ events) s s' v i f (λ q h.
        (on_receive-told events now s.worker ts seq index v inv.worker (all ts) e).each q
          (TaskTold-more (one ∷ []) events (s.worker.tasks q) h))
  Step-IsHeard {s'} (respond woken e) all = subst (IsHeard events) (sym e) (respond-IsHeard woken)

pub Run-IsHeard :
    (memory : ℕ → Task) {s : HttpServer} {rs : List ℕ} (run : Run (init memory) s rs)
    → Apart run
    → IsHeard (shown_in run) s
Run-IsHeard memory start apart = record { waiting = λ p r h. unfold find in cc (h) }
Run-IsHeard memory (next run st e) (unused, apart) =
    Step-IsHeard (shown_in run) _ (Run-ServerInv memory run apart) (Run-IsHeard memory run apart) st
      (Run-AllStarted memory run apart)
