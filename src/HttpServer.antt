-- ===== src/HttpServer.antt =====
-- src/HttpServer.cpp and src/HttpHandler.cpp: the master, with the one worker that src/Main.cpp
-- starts. `worker` holds the heap of tasks and both queues.
pub mod Invariant
pub mod Requests
pub mod Responses
pub mod Answers
pub mod Input
pub mod Run
pub mod Steps
pub mod Liveness
pub mod Drain
pub mod Registry
pub mod Verdict
pub mod Service
pub mod Table
pub mod Refinement
pub mod Reported
pub mod Heard
use async_ping.Prelude.{
  ℕ, ◌+◌, ◌-◌, ◌%◌, Bool, true, false, not, Option, none, some, List, [], ◌∷◌, ◌++◌, ◌==◌, ltb,
  if◌then◌else◌, get_elem?,
}
use async_ping.Fifo.{pop_tail}
use async_ping.Dictionary.{Dictionary, find, insert, erase}
use async_ping.Task.{Task, Body, Built, built, threw, looping, error_task, new_task}
use async_ping.HttpResponse.{Sent, new_response, fill_http_response, do_response}
use async_ping.TaskWorker.{TaskWorker, put_task, enqueue_task, send_to_master}

-- `doing_request` maps the address of a task to its request; `sent` is what was sent, newest first.
pub record HttpServer : Type 0 where
  pub worker : TaskWorker
  pub doing_request : Dictionary
  pub sent : List (ℕ × Sent)

-- The constructor, for a worker that `registerWorker` adds.
abbrev pub new_http_server : TaskWorker → HttpServer
new_http_server w = record { worker = w; doing_request = []; sent = [] }

-- `recvReqInput`: each call of evbuffer_remove gives a chunk of at most 4096 bytes, which is
-- appended as a C string, up to its first zero.
unfoldable pub c_string : List ℕ → List ℕ
c_string [] = []
c_string (b ∷ bs) = if b == 0 then [] else b ∷ c_string bs

unfoldable pub recv_req_input : List ℕ → List (List ℕ) → List ℕ
unfolding c_string
recv_req_input ret_data [] = ret_data
recv_req_input ret_data (chunk ∷ chunks) = recv_req_input (ret_data ++ c_string chunk) chunks

-- `recvReqInput(struct evhttp_request *, JsonValue &)`, with jsoncpp's `parse`.
unfoldable pub recv_json_input : (parse : List ℕ → Option Body) → List (List ℕ) → Option Body
unfolding recv_req_input
recv_json_input parse chunks = parse (recv_req_input [] chunks)

-- What handlePingReq sees of a request: whether its method is POST, and its body, if it is JSON.
pub record Request : Type 0 where
  pub id : ℕ
  pub is_post : Bool
  pub body : Option Body

-- The task that `handlePingReq` makes of a request.
unfoldable pub make_task : (raw fuel : ℕ) → Request → Built Task
make_task raw fuel req =
    if not req.is_post
    then built (error_task raw 405)
    else elim req.body [ none ↦ built (error_task raw 415) | some body ↦ new_task raw fuel body ]

-- From the label `finally` on. `p` is where `new Task` put the task.
unfoldable pub submit : HttpServer → (p request : ℕ) → Task → HttpServer
unfolding put_task enqueue_task send_to_master
submit s p request t = elim (find p s.doing_request) [
  | some _ ↦ s
  | none ↦
      let stored = put_task s.worker p t in
      record s {
        doing_request = insert p request s.doing_request;
        worker = if t.prepare_error then send_to_master stored p else enqueue_task stored p;
      }
]

abbrev pub then_submit : HttpServer → (p request : ℕ) → Built Task → Built HttpServer
then_submit s p request (built t) = built (submit s p request t)
then_submit s p request threw = threw
then_submit s p request looping = looping

unfoldable pub handle_ping_req : (raw fuel : ℕ) → HttpServer → ℕ → Request → Built HttpServer
unfolding make_task submit
handle_ping_req raw fuel s p req = then_submit s p req.id (make_task raw fuel req)

-- `tryRespEventHandler`. The source deletes the answered task; here the heap keeps it.
unfoldable pub try_resp_event : HttpServer → HttpServer
unfolding new_response fill_http_response do_response
try_resp_event s =
    let w = s.worker in
    let pipe = w.response_pipe - 1 in
    elim (pop_tail w.response_queue) [
      | none ↦ record s { worker = record w { response_pipe = pipe } }
      | some (p, rest) ↦
          let popped = record w { response_pipe = pipe; response_queue = rest } in
          elim (find p s.doing_request) [
            | none ↦ record s { worker = popped }
            | some req ↦ record s {
              worker = popped;
              doing_request = erase p s.doing_request;
              sent =
                  (req, do_response (fill_http_response (w.tasks p) (new_response req))) ∷ s.sent;
            }
          ]
    ]

-- `sendToWorker` chooses a worker by the static `randed_index`, and moves the index on.
abbrev pub worker_num : ℕ
worker_num = 1

unfoldable pub choose_worker : {A : Type 0} → List A → (randed_index : ℕ) → Option A × ℕ
choose_worker workers randed_index =
    (get_elem? workers randed_index, (randed_index + 1) % worker_num)
