-- ===== src/Tests/Progress.antt =====
-- A request with an empty list of servers at work, and a request that is answered.
use async_ping.Prelude.{
  ℕ, ◌+◌, ◌≤◌, ◌≡◌, ◌⊎◌, refl, true, false, some, [], ◌∷◌, arith, inr, sym, subst,
}
use async_ping.Prelude.Int.{pos}
use async_ping.Fifo.{occurs}
use async_ping.Dictionary.{find, insert, values, has}
use async_ping.Ping.{closed}
use async_ping.Task.{Task}
use async_ping.TaskWorker.{TaskWorker, SendResult, on_receive}
use async_ping.TaskWorker.Invariant.{IsRunning, own}
use async_ping.TaskWorker.Effect.Kept.{IsStuck}
use async_ping.TaskWorker.Weight.{weight}
use async_ping.HttpServer.{HttpServer, submit, try_resp_event}
use async_ping.HttpServer.Invariant.{ServerInv}
use async_ping.HttpServer.Run.{receive, respond, Run, start, next, Apart, Run-ServerInv}
use async_ping.HttpServer.Liveness.{IsPending, Run-progress, Run-IsStuck}
use async_ping.HttpServer.Drain.{OwnRun, stop, go, OwnRun-bounded}
use async_ping.Tests.Server.{memory, asked, asked_run, asked_run-Apart, woken}

abbrev no_pings : Task
no_pings = record {
  prepare_error = false;
  pre_error_code = 0;
  timestamp = 5;
  total_count = 0;
  done_count = 0;
  pings = [];
}

-- The task at 1 is at work for request 8.
abbrev lonely_worker : TaskWorker
lonely_worker = record {
  tasks = λ p. no_pings;
  doing_map = (5, 1) ∷ [];
  doing_count = pos 1;
  task_queue = [];
  task_pipe = 0;
  response_queue = [];
  response_pipe = 0;
}

abbrev lonely : HttpServer
lonely = record { worker = lonely_worker; doing_request = (1, 8) ∷ []; sent = [] }

no_pings-IsRunning : IsRunning 5 no_pings
unfolding closed
no_pings-IsRunning = record {
  counts = record { sized = refl; counted = refl; timed = tt };
  valid = refl;
  stamp = refl;
  unfinished = inr refl;
}

lonely-ServerInv : ServerInv lonely
unfolding occurs values find has
lonely-ServerInv = record {
  worker = record {
    is_map = (refl, tt);
    counted = refl;
    bounded = omega arith;
    task_wakeups = refl;
    response_wakeups = refl;
    unique = λ p. ground arith;
    running = λ ts p h.
        let stamp : ts ≡ 5 = ground arith in
        subst (λ s. IsRunning s no_pings) (sym stamp) no_pings-IsRunning;
    queued = λ p h. absurd (omega arith);
    answered = λ p h. absurd (omega arith);
  };
  is_map = (refl, tt);
  owned = λ p. ground arith;
}

lonely-IsStuck : IsStuck lonely_worker 1 5
unfolding find
lonely-IsStuck = record { here = refl; empty = refl }

-- A stray datagram comes in.
stray : Run lonely lonely []
unfolding on_receive find
stray = next start (receive 9 5 0 1 lonely_worker refl refl) refl

stray-Apart : Apart stray
unfolding stray
stray-Apart = (tt, tt)

Run-IsStuck_example : IsStuck lonely_worker 1 5 × (find 1 lonely.doing_request ≡ some 8)
unfolding find
Run-IsStuck_example = Run-IsStuck 1 5 8 lonely-ServerInv lonely-IsStuck refl stray stray-Apart

known : find 1 asked.doing_request ≡ some 7
unfolding find submit insert
known = refl

Run-progress_example :
    (1 ≤ asked.worker.task_pipe)
    ⊎ ((1 ≤ asked.worker.response_pipe)
        ⊎ ((own asked.worker 1 ≡ 1) × IsPending (asked.worker.tasks 1)
            ⊎ (ts : ℕ) × IsStuck asked.worker 1 ts))
Run-progress_example = Run-progress memory 1 7 asked_run asked_run-Apart known

answers_it : OwnRun asked (try_resp_event asked) 1
answers_it = go stop (respond woken refl) tt refl

OwnRun-bounded_example : 1 + weight (try_resp_event asked).worker ≤ weight asked.worker
OwnRun-bounded_example = OwnRun-bounded (Run-ServerInv memory asked_run asked_run-Apart) answers_it

-- The network takes no packet.
abbrev no_net : ℕ → SendResult
no_net i = record { converted = true; now = 3; sent = false }
