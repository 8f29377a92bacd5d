-- ===== src/Tests/Threads.antt =====
-- Runs of the queue's nodes, the logger, the thread object and the set-up at concrete inputs.
use async_ping.Prelude.{
  ℕ, ◌≡◌, ◌≢◌, refl, Bool, true, false, Option, some, [], ◌∷◌, ◌==◌, ◌||◌, if◌then◌else◌, arith,
}
use async_ping.Fifo
use async_ping.CommonList.{Heap}
use async_ping.CommonList.Dequeue.{Dequeue, pop_tail}
use async_ping.CommonList.Dequeue.Operations.{IsDequeue}
use async_ping.CommonList.Dequeue.Pop.{Holds, Took}
use async_ping.CommonList.Dequeue.Refinement.{pop_tail-Took}
use async_ping.CommonList.Stack.{push, pop}
use async_ping.CommonList.Stack.RoundTrip.{pop-push}
use async_ping.Logger.{
  LogEventBody, new_logger, make_body, enqueue, notify, truncate, log_event_handler,
}
use async_ping.Logger.Run.{
  System, Run, here, next, queued, notified, handled, LoggerInv, empty_system, Run-LoggerInv,
}
use async_ping.ThreadWorker.{ThreadWorker, null, new_thread_worker, run_it, destroy}
use async_ping.ThreadWorker.Run.{constructed, started, destroy-joins}
use async_ping.Startup.{Env, init_worker, init_server, init_logger, do_run, bind_socket, set_rcvbuf}
use async_ping.Startup.Order.{supplied, do_run-supplied}

abbrev sentinels : Dequeue
sentinels = record { head = 1; tail = 2 }

-- One node at 3 between the sentinels, with the value 7.
abbrev one_node : Heap ℕ
one_node = record {
  live = λ p. p == 1 || p == 2 || p == 3;
  next = λ p. if p == 1 then 3 else if p == 3 then 2 else 0;
  prev = λ p. if p == 2 then 3 else if p == 3 then 1 else 0;
  value = λ p. if p == 3 then 7 else 0;
}

one_two : ◌≢◌ {A = ℕ} 1 2
one_two e = omega arith

three_one : ◌≢◌ {A = ℕ} 3 1
three_one e = omega arith

three_two : ◌≢◌ {A = ℕ} 3 2
three_two e = omega arith

one_node-IsDequeue : IsDequeue sentinels one_node ((3, 7) ∷ [])
one_node-IsDequeue = record {
  links = (refl, refl, refl, (refl, refl));
  live_head = refl;
  live_tail = refl;
  live = (refl, tt);
  ends = λ e. one_two e;
  out_head = (λ e. three_one e, tt);
  out_tail = (λ e. three_two e, tt);
  distinct = (tt, tt);
}

one_node-Holds : Holds sentinels one_node (7 ∷ [])
one_node-Holds = record { cells = (3, 7) ∷ []; order = refl; chain = one_node-IsDequeue }

pop_tail-Took_example :
    (o : Option ℕ) × ((g : Heap ℕ) × (pop_tail 0 sentinels one_node ≡ some (o, g))
      × Took sentinels one_node g (7 ∷ []) false o)
pop_tail-Took_example = pop_tail-Took sentinels one_node (7 ∷ []) one_node-Holds

destroy-joins_example :
    (v : ThreadWorker) × ((destroy ((run_it (some 5) new_thread_worker).1) ≡ some v)
      × (v.joined ≡ 5 ∷ [])
      × (v.thread_inst ≡ null))
unfolding new_thread_worker
destroy-joins_example = destroy-joins _ (5 ∷ []) (started 5 constructed refl)

-- The process may not force the buffer's size, and the port is taken.
abbrev no_force : Env
no_force c = elim c as (λ _. Bool) [ set_rcvbuf ↦ false | bind_socket ↦ false | _ ↦ true ]

do_run-supplied_example :
    (supplied no_force [] (do_run (init_worker no_force)) ≡ true)
    × (supplied no_force [] (do_run (init_server no_force)) ≡ true)
    × (supplied no_force [] (init_logger no_force).1 ≡ true)
do_run-supplied_example = do_run-supplied no_force

abbrev line_body : LogEventBody
line_body = record {
  content = 104 ∷ 105 ∷ [];
  src_file_name = 1;
  level = 30;
  line = 29;
  now = 1000;
}

abbrev after_one_line : System
unfolding new_logger
after_one_line = record {
  logger = record { log_level = 30; log_queue = []; pipe = 0; file = line_body ∷ [] };
  pending = 0;
  accepted = line_body ∷ [];
}

-- One line is queued, notified and written.
one_line : Run empty_system after_one_line
unfolding new_logger make_body truncate enqueue notify log_event_handler Fifo.pop_tail
one_line =
    next (next (next here (queued 1000 30 1 29 (104 ∷ 105 ∷ []) line_body refl)) (notified 0 refl))
      (handled 0 refl)

Run-LoggerInv_example : LoggerInv after_one_line
Run-LoggerInv_example = Run-LoggerInv after_one_line one_line

four_zero : ◌≢◌ {A = ℕ} 4 0
four_zero e = omega arith

pop-push_example :
    (g : Heap ℕ) × ((k : Heap ℕ) × (push 4 9 1 one_node ≡ some (true, g))
      × (pop 1 g ≡ some (some 9, k))
      × (k.next 1 ≡ one_node.next 1)
      × ((x : ℕ) → k.live x ≡ one_node.live x))
pop-push_example = pop-push one_node 1 4 9 refl refl (λ e. four_zero e)
