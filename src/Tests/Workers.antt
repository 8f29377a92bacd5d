-- ===== src/Tests/Workers.antt =====
-- A worker with one task of two pings at work under time 5, and the runs of its handlers.
use async_ping.Prelude.{
  ℕ, ◌+◌, ◌≡◌, ◌≢◌, length, refl, ◌⊎◌, true, false, none, some, [], ◌∷◌, arith, inl, sym, subst,
  ◌==◌, if◌then◌else◌,
}
use async_ping.Prelude.Int.{pos}
use async_ping.Fifo.{occurs, pop_tail}
use async_ping.Dictionary.{find, values}
use async_ping.Ping.{Ping, doing, new_ping, closed}
use async_ping.Task.{Task}
use async_ping.TaskWorker.{TaskWorker, SendResult, on_receive, handle_timeout, notify_event}
use async_ping.TaskWorker.Invariant.{IsRunning, IsReady, Inv, own}
use async_ping.TaskWorker.Handlers.{Handled, on_receive_cases, handle_timeout-Handled}
use async_ping.TaskWorker.Taking.{Takes, notify_event-Takes}
use async_ping.TaskWorker.Collision.{notify_event-collides}

abbrev pub waiting : Ping
waiting = record (new_ping 0) { status = doing; timer = true }

abbrev pair : Task
pair = record {
  prepare_error = false;
  pre_error_code = 0;
  timestamp = 5;
  total_count = 2;
  done_count = 0;
  pings = waiting ∷ waiting ∷ [];
}

abbrev fresh : Task
fresh = record pair { timestamp = 0; pings = new_ping 0 ∷ new_ping 1 ∷ [] }

-- The task at 1 is at work, the task at 2 waits in the queue.
abbrev pub busy : TaskWorker
busy = record {
  tasks = λ p. if p == 1 then pair else fresh;
  doing_map = (5, 1) ∷ [];
  doing_count = pos 1;
  task_queue = 2 ∷ [];
  task_pipe = 1;
  response_queue = [];
  response_pipe = 0;
}

pair-IsRunning : IsRunning 5 pair
unfolding closed
pair-IsRunning = record {
  counts = record { sized = refl; counted = refl; timed = (refl, (refl, tt)) };
  valid = refl;
  stamp = refl;
  unfinished = inl (omega arith);
}

fresh-IsReady : IsReady fresh
unfolding closed
fresh-IsReady = record {
  counts = record { sized = refl; counted = refl; timed = (refl, (refl, tt)) };
  valid = refl;
  fresh = (refl, (refl, tt));
}

pub busy-Inv : Inv busy
unfolding occurs values find closed
busy-Inv = record {
  is_map = (refl, tt);
  counted = refl;
  bounded = omega arith;
  task_wakeups = refl;
  response_wakeups = refl;
  unique = λ p. ground arith;
  running = λ ts p h.
      let stamp : ts ≡ 5 = ground arith in
      let at : p ≡ 1 = ground arith in
      subst (λ q. IsRunning ts (busy.tasks q)) (sym at)
        (subst (λ s. IsRunning s pair) (sym stamp) pair-IsRunning);
  queued = λ p h.
      let at : p ≡ 2 = ground arith in subst (λ q. IsReady (busy.tasks q)) (sym at) fresh-IsReady;
  answered = λ p h. absurd (omega arith);
}

unused : find 6 busy.doing_map ≡ none
unfolding find
unused = refl

pub found : find 5 busy.doing_map ≡ some 1
unfolding find
found = refl

-- The network takes every packet at time 6.
abbrev all_sent : ℕ → SendResult
all_sent i = record { converted = true; now = 6; sent = true }

notify_event-Takes_example :
    (v : TaskWorker) × (notify_event 6 all_sent busy ≡ some v) × Handled busy v × Takes 6 busy v
notify_event-Takes_example = notify_event-Takes 6 all_sent busy busy-Inv (omega arith) unused

on_receive_cases_example :
    ((p : ℕ) × (find 5 busy.doing_map ≡ some p)
      × (◌≡◌ {A = ℕ} 1 (busy.tasks p).total_count)
      × (on_receive 9 busy 5 0 1 ≡ none))
    ⊎ ((v : TaskWorker) × (on_receive 9 busy 5 0 1 ≡ some v) × Handled busy v)
on_receive_cases_example = on_receive_cases 9 busy 5 0 1 busy-Inv

handle_timeout-Handled_example :
    (v : TaskWorker) × (handle_timeout busy 1 0 ≡ some v) × Handled busy v
handle_timeout-Handled_example = handle_timeout-Handled busy 1 0 5 waiting busy-Inv found refl

-- The index 2 of a task with two pings passes the test, and leads behind its array.
receive_beyond : on_receive 9 busy 5 0 2 ≡ none
unfolding on_receive find
receive_beyond = refl

-- The clock still shows 5 when the next task is taken.
notify_event-collides_example :
    (v : TaskWorker) × (notify_event 5 all_sent busy ≡ some v)
    × (own v 2 ≡ 0)
    × ((v.tasks 2).timestamp ≡ 5)
    × (find 5 v.doing_map ≡ some 1)
    × (◌≢◌ {A = ℕ} 1 2)
    × (v.doing_count ≡ pos (length v.doing_map + 1))
unfolding pop_tail
notify_event-collides_example =
    notify_event-collides 5 all_sent busy 2 1 [] busy-Inv refl refl found (λ i. (refl, refl))
