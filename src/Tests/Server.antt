-- ===== src/Tests/Server.antt =====
-- A server over unused memory that takes in a GET request, and answers it.
use async_ping.Prelude.{ℕ, ◌≤◌, ◌≡◌, refl, true, false, none, List, [], ◌∷◌, arith}
use async_ping.Fifo.{pop_tail, occurs}
use async_ping.Dictionary.{find, insert, values, IsMap}
use async_ping.Task.{Task, built, error_task}
use async_ping.HttpResponse.{error}
use async_ping.TaskWorker.Invariant.{own}
use async_ping.HttpServer.{HttpServer, Request, submit, handle_ping_req, try_resp_event}
use async_ping.HttpServer.Invariant.{ServerInv}
use async_ping.HttpServer.Registry.{
  do_register, register_all, register_handler, first_for, do_register-first,
}
use async_ping.HttpServer.Requests.{handle_ping_req-ServerInv}
use async_ping.HttpServer.Responses.{Answers, try_resp_event-Answers}
use async_ping.HttpServer.Run.{
  request, respond, accounted, init, Run, start, next, Apart, Run-ServerInv, Run-accounted,
}

abbrev pub memory : ℕ → Task
memory p = error_task p 0

-- Request 7, with the method GET.
abbrev get : Request
get = record { id = 7; is_post = false; body = none }

abbrev pub empty : HttpServer
empty = init memory

-- Its task is put at address 1.
abbrev pub asked : HttpServer
asked = submit empty 1 7 (error_task 0 405)

asked_lem : handle_ping_req 0 0 empty 1 get ≡ built asked
unfolding handle_ping_req
asked_lem = refl

unused : own empty.worker 1 ≡ 0
unfolding occurs values
unused = refl

pub woken : 1 ≤ asked.worker.response_pipe
unfolding submit find
woken = omega arith

pub asked_run : Run empty asked (7 ∷ [])
asked_run = next start (request 0 0 1 get unused asked_lem) refl

answered_run : Run empty (try_resp_event asked) (7 ∷ [])
answered_run = next asked_run (respond woken refl) refl

pub asked_run-Apart : Apart asked_run
unfolding asked_run
asked_run-Apart = (tt, tt)

answered_run-Apart : Apart answered_run
unfolding answered_run
answered_run-Apart = (tt, asked_run-Apart)

answered_run_sent : (try_resp_event asked).sent ≡ (7, error 405 "Method Not Allowed") ∷ []
unfolding try_resp_event submit find insert pop_tail
answered_run_sent = refl

Run-ServerInv_example : ServerInv (try_resp_event asked)
Run-ServerInv_example = Run-ServerInv memory answered_run answered_run-Apart

Run-accounted_example : accounted (try_resp_event asked) 7 ≡ occurs 7 (7 ∷ [])
Run-accounted_example = Run-accounted memory answered_run answered_run-Apart 7

empty-ServerInv : ServerInv empty
empty-ServerInv = Run-ServerInv memory start tt

handle_ping_req-ServerInv_example :
    ServerInv asked × (asked.doing_request ≡ (1, 7) ∷ []) × (asked.sent ≡ [])
handle_ping_req-ServerInv_example =
    handle_ping_req-ServerInv 0 0 empty asked 1 get empty-ServerInv unused asked_lem

try_resp_event-Answers_example : Answers asked (try_resp_event asked)
try_resp_event-Answers_example =
    try_resp_event-Answers asked (Run-ServerInv memory asked_run asked_run-Apart) woken

-- The path 2 is registered twice.
abbrev calls : List (ℕ × ℕ)
calls = (2, 20) ∷ (1, 10) ∷ (2, 21) ∷ []

calls_run : do_register (register_all [] calls).0 ≡ (1, 10) ∷ (2, 20) ∷ []
unfolding do_register register_all register_handler find
calls_run = refl

calls_returned : (register_all [] calls).1 ≡ true ∷ true ∷ false ∷ []
unfolding register_all register_handler find
calls_returned = refl

do_register-first_example :
    IsMap (do_register (register_all [] calls).0)
    × ((path : ℕ) → find path (do_register (register_all [] calls).0) ≡ first_for path calls)
do_register-first_example = do_register-first calls
