-- ===== src/TaskWorker/Invariant.antt =====
-- The invariant of a worker: what its map, its counters, its queues and its tasks have in common.
use async_ping.Prelude.{
  ℕ, ◌+◌, ◌≤◌, ◌<◌, ◌≡◌, ◌≢◌, ◌⊎◌, true, false, some, List, [], ◌∷◌, arith, length, All,
}
use async_ping.Prelude.Int.{pos}
use async_ping.Fifo.{occurs}
use async_ping.Dictionary.{find, IsMap, values}
use async_ping.Ping.{
  Ping, Status, timeout, uninited, doing, send_error, success, IsTimed, is_open, is_uninited,
  is_doing, closed,
}
use async_ping.Task.{Task}
use async_ping.TaskWorker.{TaskWorker, doing_task_capacity}

-- The counters of a task tell the truth: each ping that is done is counted once, and a timer is
-- pending for those that wait.
pub record IsCounted (t : Task) : Type 0 where
  pub sized : t.total_count ≡ length t.pings
  pub counted : t.done_count ≡ closed t.pings
  pub timed : All IsTimed t.pings

-- A task that no worker has touched.
pub record IsReady (t : Task) : Type 0 where
  pub counts : IsCounted t
  pub valid : t.prepare_error ≡ false
  pub fresh : All (λ q. is_uninited q.status ≡ true) t.pings

-- A task that a worker has registered under `ts`. One with no pings is never complete.
pub record IsRunning (ts : ℕ) (t : Task) : Type 0 where
  pub counts : IsCounted t
  pub valid : t.prepare_error ≡ false
  pub stamp : t.timestamp ≡ ts
  pub unfinished : (t.done_count < t.total_count) ⊎ (t.total_count ≡ 0)

-- A task that may be answered and deleted: no timer points into it, and it is an error or all of
-- its pings are done.
pub record IsAnswered (t : Task) : Type 0 where
  pub silent : All (λ q. q.timer ≡ false) t.pings
  pub settled :
      (t.prepare_error ≡ true)
      ⊎ ((t.done_count ≡ t.total_count) × (closed t.pings ≡ length t.pings))

-- In how many places a task is.
abbrev pub own : TaskWorker → ℕ → ℕ
own w p = occurs p w.task_queue + values p w.doing_map + occurs p w.response_queue

pub record Inv (w : TaskWorker) : Type 0 where
  pub is_map : IsMap w.doing_map
  pub counted : w.doing_count ≡ pos (length w.doing_map)
  pub bounded : length w.doing_map ≤ doing_task_capacity
  pub task_wakeups : w.task_pipe ≡ length w.task_queue
  pub response_wakeups : w.response_pipe ≡ length w.response_queue
  pub unique : (p : ℕ) → own w p ≤ 1
  pub running : (ts p : ℕ) → find ts w.doing_map ≡ some p → IsRunning ts (w.tasks p)
  pub queued : (p : ℕ) → 1 ≤ occurs p w.task_queue → IsReady (w.tasks p)
  pub answered : (p : ℕ) → 1 ≤ occurs p w.response_queue → IsAnswered (w.tasks p)

-- `v` differs from `w` in the task at `p` only.
pub record Touch (w v : TaskWorker) (p : ℕ) : Type 0 where
  pub doing_map : v.doing_map ≡ w.doing_map
  pub doing_count : v.doing_count ≡ w.doing_count
  pub task_queue : v.task_queue ≡ w.task_queue
  pub task_pipe : v.task_pipe ≡ w.task_pipe
  pub response_queue : v.response_queue ≡ w.response_queue
  pub response_pipe : v.response_pipe ≡ w.response_pipe
  pub others : (q : ℕ) → q ≢ p → v.tasks q ≡ w.tasks q

pub closed-le : (ps : List Ping) → closed ps ≤ length ps
unfolding closed
closed-le [] = omega arith
closed-le (p ∷ ps) = ground (arith, closed-le ps)

-- With no open ping no timer is left.
pub silent_of_closed :
    (ps : List Ping) → closed ps ≡ length ps → All IsTimed ps → All (λ q. q.timer ≡ false) ps
unfolding closed
silent_of_closed [] h t = tt
silent_of_closed (p ∷ ps) h t = (
  timer_off p.status t.0 (ground (arith, closed-le ps)),
  silent_of_closed ps (ground (arith, closed-le ps)) t.1,
)
  where
    timer_off : (s : Status) → p.timer ≡ is_doing s → is_open s ≡ false → p.timer ≡ false
    timer_off timeout e o = e
    timer_off uninited e o = e
    timer_off doing e o = cc
    timer_off send_error e o = e
    timer_off success e o = e

-- Nor is one set in a task that was not started.
pub silent_of_fresh :
    (ps : List Ping)
    → All (λ q. is_uninited q.status ≡ true) ps
    → All IsTimed ps
    → All (λ q. q.timer ≡ false) ps
silent_of_fresh [] h t = tt
silent_of_fresh (p ∷ ps) h t = (timer_off p.status t.0 h.0, silent_of_fresh ps h.1 t.1)
  where
    timer_off : (s : Status) → p.timer ≡ is_doing s → is_uninited s ≡ true → p.timer ≡ false
    timer_off timeout e o = e
    timer_off uninited e o = e
    timer_off doing e o = cc
    timer_off send_error e o = e
    timer_off success e o = e
