-- ===== src/HttpServer/Responses.antt =====
-- `tryRespEventHandler`: each wake-up answers one request.
use async_ping.Prelude.{
  ℕ, ◌+◌, ◌-◌, ◌≤◌, ◌≡◌, refl, false, ◌&&◌, Option, none, some, List, [], ◌∷◌, arith, length,
  length-append, ◌∙◌, ap, ◌==◌, if◌then◌else◌, ltb,
}
use async_ping.Fifo.{pop_tail, occurs, occurs-pop_tail, pop_tail-some, pop_tail-none}
use async_ping.Dictionary.{find, erase, erase-IsMap}
use async_ping.Task.{Task, build_response}
use async_ping.HttpResponse.{Sent, reply, new_response, fill_http_response, do_response}
use async_ping.TaskWorker.{TaskWorker}
use async_ping.TaskWorker.Invariant.{IsAnswered, Inv}
use async_ping.HttpServer.{HttpServer, try_resp_event}
use async_ping.HttpServer.Invariant.{ServerInv}
use async_ping.HttpServer.Requests.{find_of_has_one, has-erase}

-- What a client gets for a task.
unfoldable pub answer : Task → Sent
unfolding new_response fill_http_response do_response
answer t = do_response (fill_http_response t (new_response 0))

abbrev popped : TaskWorker → List ℕ → TaskWorker
popped w rest = record w { response_pipe = w.response_pipe - 1; response_queue = rest }

-- The state after the answer to `req` for the task at `p`.
abbrev answered_state : HttpServer → (p req : ℕ) → List ℕ → HttpServer
answered_state s p req rest = record s {
  worker = popped s.worker rest;
  doing_request = erase p s.doing_request;
  sent = (req, answer (s.worker.tasks p)) ∷ s.sent;
}

module _ (s : HttpServer) (p : ℕ) (rest : List ℕ) (inv : ServerInv s)
    (pop : pop_tail s.worker.response_queue ≡ some (p, rest)) where
  queue_split :
      (q : ℕ) → occurs q s.worker.response_queue ≡ occurs q rest + (if q == p then 1 else 0)
  queue_split q = occurs-pop_tail q s.worker.response_queue p rest pop

  was_answered : 1 ≤ occurs p s.worker.response_queue
  was_answered = ground (arith, queue_split p)

  known : (req : ℕ) × (find p s.doing_request ≡ some req)
  known = find_of_has_one p s.doing_request (omega (arith, was_answered, inv.owned p))

  popped-Inv : Inv (popped s.worker rest)
  popped-Inv =
      let inner = inv.worker in
      let size = ap length (pop_tail-some s.worker.response_queue p rest pop) in
      record {
        is_map = inner.is_map;
        counted = inner.counted;
        bounded = inner.bounded;
        task_wakeups = inner.task_wakeups;
        response_wakeups = omega (arith, inner.response_wakeups, size, length-append rest (p ∷ []));
        unique = λ q. omega (arith, inner.unique q, queue_split q);
        running = inner.running;
        queued = inner.queued;
        answered = λ q h. inner.answered q (omega (arith, queue_split q));
      }

  answered-ServerInv : ServerInv (answered_state s p known.0 rest)
  answered-ServerInv = record {
    worker = popped-Inv;
    is_map = erase-IsMap p s.doing_request inv.is_map;
    owned = λ q. omega (
      arith,
      inv.owned q,
      queue_split q,
      has-erase p known.0 s.doing_request q inv.is_map known.1,
    );
  }

  try_resp_event_lem : try_resp_event s ≡ answered_state s p known.0 rest
  unfolding try_resp_event answer
  try_resp_event_lem = rw (pop, try_resp_event) (rw (known.1) (ground arith))

-- What one wake-up does.
pub record Answers (s s' : HttpServer) : Type 0 where
  pub task : ℕ
  pub request : ℕ
  pub waiting : find task s.doing_request ≡ some request
  pub queued : 1 ≤ occurs task s.worker.response_queue
  pub same_map : s'.worker.doing_map ≡ s.worker.doing_map
  pub same_tasks : s'.worker.tasks ≡ s.worker.tasks
  pub same_queue : s'.worker.task_queue ≡ s.worker.task_queue
  pub popped_one : length s.worker.response_queue ≡ length s'.worker.response_queue + 1
  pub done : IsAnswered (s.worker.tasks task)
  pub forgotten : s'.doing_request ≡ erase task s.doing_request
  pub sent : s'.sent ≡ (request, answer (s.worker.tasks task)) ∷ s.sent
  pub inv : ServerInv s'

-- A master that is woken finds an answered task and its request: one request is answered, from a
-- queued task that is an error or has all of its pings done and no timer pending, and is forgotten.
-- The tasks at work stay as they are.
pub try_resp_event-Answers :
    (s : HttpServer) → ServerInv s → 1 ≤ s.worker.response_pipe → Answers s (try_resp_event s)
try_resp_event-Answers s inv woken = go (pop_tail s.worker.response_queue) refl
  where
    go :
        (o : Option (ℕ × List ℕ))
        → pop_tail s.worker.response_queue ≡ o
        → Answers s (try_resp_event s)
    go none empty =
        let e = ap length (pop_tail-none s.worker.response_queue empty) in
        absurd (omega (arith, inv.worker.response_wakeups))
    go (some (p, rest)) pop =
        let got = known s p rest inv pop in
        rw (try_resp_event_lem s p rest inv pop) (record {
          task = p;
          request = got.0;
          waiting = got.1;
          queued = was_answered s p rest inv pop;
          same_map = refl;
          same_tasks = refl;
          same_queue = refl;
          popped_one =
              ap length (pop_tail-some s.worker.response_queue p rest pop)
              ∙ length-append rest (p ∷ []);
          done = inv.worker.answered p (was_answered s p rest inv pop);
          forgotten = refl;
          sent = refl;
          inv = answered-ServerInv s p rest inv pop;
        })

-- A task without an HTTP error code is answered by its response.
pub answer_of_response :
    (t : Task)
    → (ltb 0 t.pre_error_code && ltb t.pre_error_code 1000) ≡ false
    → answer t ≡ reply 200 "OK" (build_response t ∷ [])
unfolding answer
answer_of_response t plain = rw plain refl
