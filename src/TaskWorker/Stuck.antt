-- ===== src/TaskWorker/Stuck.antt =====
-- A task without pings, which src/Task.cpp builds from an empty list of servers.
use async_ping.Prelude.{ℕ, ◌-◌, ◌≡◌, refl, true, none, some, List, arith, ◌==◌, ◌∙◌}
use async_ping.Prelude.Int.{pos, ltb_ℤ}
use async_ping.Fifo.{pop_tail}
use async_ping.Dictionary.{find, insert-fresh}
use async_ping.TaskWorker.{
  TaskWorker, SendResult, doing_task_capacity, notify_event, do_task, start_loop, register_task,
  put_task,
}

do_task_empty :
    (env : ℕ → SendResult) (v : TaskWorker) (p : ℕ)
    → (v.tasks p).total_count ≡ 0
    → do_task env v p ≡ some v
unfolding do_task start_loop
do_task_empty env v p e = rw e refl

registered_count :
    (now : ℕ) (w : TaskWorker) (p : ℕ)
    → ((register_task now w p).tasks p).total_count ≡ (w.tasks p).total_count
unfolding register_task put_task
registered_count now w p = let same : (p == p) ≡ true = ground arith in rw same refl

registered_find :
    (now : ℕ) (w : TaskWorker) (p : ℕ)
    → find now w.doing_map ≡ none
    → find now (register_task now w p).doing_map ≡ some p
unfolding register_task find
registered_find now w p unused = ground (arith, insert-fresh now p w.doing_map unused)

-- A task without pings that a woken worker with room registers stays at work: the handler returns
-- with the task registered, and hands nothing to the master.
notify_event-stuck :
    (now : ℕ) (env : ℕ → SendResult) (w : TaskWorker) (p : ℕ) (rest : List ℕ)
    → pop_tail w.task_queue ≡ some (p, rest)
    → (w.tasks p).total_count ≡ 0
    → ltb_ℤ w.doing_count (pos doing_task_capacity) ≡ true
    → find now w.doing_map ≡ none
    → (v : TaskWorker) × ((notify_event now env w ≡ some v)
        × (find now v.doing_map ≡ some p)
        × (v.response_queue ≡ w.response_queue))
unfolding notify_event
notify_event-stuck now env w p rest pop empty room unused =
    let popped = record w { task_pipe = w.task_pipe - 1; task_queue = rest } in
    let none_started =
      do_task_empty env (register_task now popped p) p (registered_count now popped p ∙ empty) in
    (
      register_task now popped p,
      (
        rw (pop, notify_event) (rw room none_started),
        registered_find now popped p unused,
        unfold register_task put_task in refl,
      ),
    )
