-- ===== src/Tests/Tasks.antt =====
-- Tasks of src/Task.cpp from concrete bodies, and what a client is told.
use Prim.Native.String.{String}
use async_ping.Prelude.{
  ℕ, zero, suc, ◌<◌, ◌≡◌, ◌≢◌, refl, true, false, Option, none, some, List, [], ◌∷◌, arith,
  get_elem?, length,
}
use async_ping.Prelude.Int.{pos, negsuc, ◌-ℤ◌}
use async_ping.Ping.{success, send_error, new_ping}
use async_ping.Task.{
  Task, Body, built, threw, looping, error_task, new_task, init_ping, build_response,
}
use async_ping.Task.Construct.{IsAccepted, new_task_fills, new_task_loops}
use async_ping.HttpServer.{Request, make_task, recv_json_input}
use async_ping.HttpServer.Input.{recv_json_input-concat}

abbrev ips : ℕ → String
ips zero = "1.1.1.1"
ips (suc n) = "2.2.2.2"

abbrev body : ℕ → Body
body n = record {
  is_object = true;
  timeout = some (pos 10);
  servers_null = false;
  servers_array = true;
  servers_size = n;
  server = λ i. some (ips i);
}

body-IsAccepted : (n : ℕ) → IsAccepted (body n) (pos 10) ips
body-IsAccepted n = record {
  object = refl;
  timed = refl;
  positive = refl;
  present = refl;
  array = refl;
  strings = λ j h. refl;
}

new_task_fills_example :
    (t : Task) × (new_task 99 3 (body 2) ≡ built t)
    × (t.prepare_error ≡ false)
    × (t.total_count ≡ 2)
    × (t.done_count ≡ 0)
    × ((j : ℕ) → j < 2 → get_elem? t.pings j ≡ some (init_ping 99 j (ips j) (pos 10)))
new_task_fills_example = new_task_fills 99 (body 2) (pos 10) ips (body-IsAccepted 2) (omega arith)

new_task_loops_example : new_task 99 1000000 (body 65536) ≡ looping
new_task_loops_example =
    new_task_loops 99 (body 65536) (pos 10) ips (body-IsAccepted 65536) refl 1000000

-- "timeout": "soon" makes asInt throw.
timeout_throws : new_task 99 3 (record (body 2) { timeout = none }) ≡ threw
unfolding new_task
timeout_throws = refl

negative_timeout :
    new_task 99 3 (record (body 2) { timeout = some (negsuc 0) }) ≡ built (error_task 99 1002)
unfolding new_task
negative_timeout = refl

too_many : new_task 99 3 (body 65537) ≡ built (error_task 99 1004)
unfolding new_task
too_many = refl

-- A GET request.
abbrev get : Request
get = record { id = 7; is_post = false; body = some (body 2) }

made : make_task 0 3 get ≡ built (error_task 0 405)
unfolding make_task
made = refl

mixed : Task
mixed = record {
  prepare_error = false;
  pre_error_code = 0;
  timestamp = 5;
  total_count = 2;
  done_count = 2;
  pings =
      record (new_ping 0) { ip = "1.1.1.1"; status = success; sendtime = 100; recvtime = 350 }
      ∷ record (new_ping 9) { ip = "nowhere"; status = send_error }
      ∷ [];
}

mixed_response : build_response mixed ≡ record {
  success = true;
  err_msg = "";
  results =
      record { ip = "1.1.1.1"; lost = false; avg_rtt = some (pos 250) }
      ∷ record { ip = "nowhere"; lost = true; avg_rtt = none }
      ∷ [];
}
unfolding build_response mixed ◌-ℤ◌
mixed_response = refl

-- A parser that takes every text for a body with as many servers as it has bytes.
abbrev as_body : List ℕ → Option Body
as_body text = some (body (length text))

recv_json_input-concat_example :
    recv_json_input as_body ((123 ∷ 34 ∷ []) ∷ (34 ∷ 125 ∷ []) ∷ []) ≡ some (body 4)
recv_json_input-concat_example =
    recv_json_input-concat as_body ((123 ∷ 34 ∷ []) ∷ (34 ∷ 125 ∷ []) ∷ [])
      ((λ e. byte_ne e, (λ e. quote_ne e, tt)), ((λ e. quote_ne e, (λ e. brace_ne e, tt)), tt))
  where
    byte_ne : ◌≢◌ {A = ℕ} 123 0
    byte_ne e = omega arith

    quote_ne : ◌≢◌ {A = ℕ} 34 0
    quote_ne e = omega arith

    brace_ne : ◌≢◌ {A = ℕ} 125 0
    brace_ne e = omega arith
