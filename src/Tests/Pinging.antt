-- ===== src/Tests/Pinging.antt =====
-- A request for one server is taken in, its ping is sent and answered, and the request is answered.
use async_ping.Prelude.{
  ℕ, ◌≤◌, ◌≡◌, refl, true, false, Option, none, some, List, [], ◌∷◌, arith, map,
}
use async_ping.Prelude.Int.{pos, ◌-ℤ◌}
use async_ping.Fifo.{occurs, pop_tail}
use async_ping.Dictionary.{find, insert, values}
use async_ping.Task.{Task, Body, built, init_ping, new_task, build_response}
use async_ping.HttpResponse.{reply}
use async_ping.TaskWorker.{TaskWorker, SendResult, notify_event, on_receive}
use async_ping.TaskWorker.Invariant.{own}
use async_ping.HttpServer.{HttpServer, Request, submit, handle_ping_req, try_resp_event}
use async_ping.HttpServer.Run.{request, notify, receive, respond, Run, start, next, Apart}
use async_ping.TaskWorker.Told.{Event, came, began}
use async_ping.HttpServer.Service.{Service}
use async_ping.HttpServer.Service
use async_ping.HttpServer.Table.{told}
use async_ping.HttpServer.Refinement.{Run-refines}
use async_ping.Tests.Server.{memory, empty}

abbrev body : Body
body = record {
  is_object = true;
  timeout = some (pos 5);
  servers_null = false;
  servers_array = true;
  servers_size = 1;
  server = λ i. some "10.0.0.1";
}

abbrev post : Request
post = record { id = 7; is_post = true; body = some body }

abbrev made : Task
made = record {
  prepare_error = false;
  pre_error_code = 0;
  timestamp = 0;
  total_count = 1;
  done_count = 0;
  pings = init_ping 0 0 "10.0.0.1" (pos 5) ∷ [];
}

abbrev taken_in : HttpServer
taken_in = submit empty 1 7 made

-- The clock shows 5 when the task is taken and when its packet is sent, 9 when the answer comes.
abbrev all_sent : ℕ → SendResult
all_sent i = record { converted = true; now = 5; sent = true }

abbrev worker_of : Option TaskWorker → TaskWorker
worker_of none = empty.worker
worker_of (some w) = w

abbrev started : TaskWorker
started = worker_of (notify_event 5 all_sent taken_in.worker)

abbrev answered : TaskWorker
answered = worker_of (on_receive 9 started 5 0 0)

taken_in_lem : handle_ping_req 0 2 empty 1 post ≡ built taken_in
unfolding handle_ping_req new_task
taken_in_lem = refl

unused : own empty.worker 1 ≡ 0
unfolding occurs values
unused = refl

task_woken : 1 ≤ taken_in.worker.task_pipe
unfolding submit find
task_woken = omega arith

free_time : find 5 taken_in.worker.doing_map ≡ none
unfolding submit find
free_time = refl

started_lem : notify_event 5 all_sent taken_in.worker ≡ some started
unfolding notify_event submit find insert pop_tail async_ping.TaskWorker.start
started_lem = refl

answered_lem : on_receive 9 started 5 0 0 ≡ some answered
unfolding on_receive notify_event submit find insert pop_tail async_ping.TaskWorker.start
answered_lem = refl

woken : 1 ≤ answered.response_pipe
unfolding on_receive notify_event submit find insert pop_tail async_ping.TaskWorker.start
woken = omega arith

abbrev ready : HttpServer
ready = record taken_in { worker = answered }

run : Run empty (try_resp_event ready) (7 ∷ [])
run =
    next
      (next
        (next (next start (request 0 2 1 post unused taken_in_lem) refl)
          (notify 5 all_sent started task_woken started_lem refl) refl)
        (receive 9 5 0 0 answered answered_lem refl) refl)
      (respond woken refl) refl

-- The server is reached after 4 microseconds.
run_sent :
    (try_resp_event ready).sent
    ≡ (
      7,
      reply 200 "OK" (
          record {
            success = true;
            err_msg = "";
            results = record { ip = "10.0.0.1"; lost = false; avg_rtt = some (pos 4) } ∷ [];
          }
          ∷ []),
    )
      ∷ []
unfolding try_resp_event on_receive notify_event submit find insert pop_tail
    async_ping.TaskWorker.start build_response ◌-ℤ◌
run_sent = refl

run-Apart : Apart run
unfolding run
run-Apart = (tt, (tt, (free_time, (tt, tt))))

-- The answer came, and the ping began.
abbrev seen : List Event
seen = came 5 0 9 ∷ began 5 all_sent ∷ []

Run-refines_example :
    (service : Service) × Service.Run service
    × (service.taken ≡ post ∷ [])
    × (service.events ≡ seen)
    × (told service.answered ≡ (try_resp_event ready).sent)
    × (map (λ req. req.id) service.pending ≡ map (λ e. e.1) (try_resp_event ready).doing_request)
unfolding run submit find
Run-refines_example = Run-refines memory run run-Apart
