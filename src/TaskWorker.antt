-- ===== src/TaskWorker.antt =====
-- src/TaskWorker.cpp and the methods of src/Ping.cpp that act on it: the handlers of one worker's
-- event loop. A task is an address in `tasks`, a ping is a task with an index into its array.
pub mod Invariant
pub mod Moves
pub mod Pings
pub mod Starting
pub mod Handlers
pub mod Notify
pub mod Stuck
pub mod Collision
pub mod Local
pub mod Weight
pub mod Falling
pub mod Effect
pub mod Alike
pub mod Grown
pub mod Outcomes
pub mod Told
pub mod Taking
use async_ping.Prelude.{
  ℕ, zero, suc, ◌+◌, ◌-◌, Bool, true, false, not, Option, none, some, List, [], ◌∷◌, ltb, leb, ◌==◌,
  if◌then◌else◌, get_elem?, set,
}
use async_ping.Prelude.Int.{ℤ, pos, ltb_ℤ, ◌-ℤ◌, ◌+ℤ◌}
use async_ping.Fifo.{push_head, pop_tail}
use async_ping.Dictionary.{Dictionary, find, insert, erase}
use async_ping.Ping.{Ping, Status, timeout, uninited, doing, send_error, success, is_open}
use async_ping.Task.{Task, is_complete}

abbrev pub doing_task_capacity : ℕ
doing_task_capacity = 1024

-- One worker with what it shares with its master: `task_queue` is written by the master's
-- `enqueueTask`, `response_queue` is the master's queue, written by `enqueueResponse`. A pipe is
-- the number of bytes written and not yet read.
pub record TaskWorker : Type 0 where
  pub tasks : ℕ → Task
  pub doing_map : Dictionary
  pub doing_count : ℤ
  pub task_queue : List ℕ
  pub task_pipe : ℕ
  pub response_queue : List ℕ
  pub response_pipe : ℕ

-- The constructor, over any memory, with the queue of a new master.
abbrev pub new_task_worker : (ℕ → Task) → TaskWorker
new_task_worker memory = record {
  tasks = memory;
  doing_map = [];
  doing_count = pos 0;
  task_queue = [];
  task_pipe = 0;
  response_queue = [];
  response_pipe = 0;
}

-- Write to the task at `p`.
unfoldable pub put_task : TaskWorker → ℕ → Task → TaskWorker
put_task w p t = record w { tasks = λ q. if q == p then t else w.tasks q }

-- Write to ping `i` of the task at `p`.
unfoldable pub put_ping : TaskWorker → ℕ → ℕ → Ping → TaskWorker
unfolding put_task
put_ping w p i me = let t = w.tasks p in put_task w p (record t { pings = set t.pings i me })

-- `enqueueTask` and `notify`, as the master calls them.
unfoldable pub enqueue_task : TaskWorker → ℕ → TaskWorker
enqueue_task w p = record w { task_queue = push_head p w.task_queue; task_pipe = w.task_pipe + 1 }

-- `master->enqueueResponse(response); master->notify()`.
unfoldable pub send_to_master : TaskWorker → ℕ → TaskWorker
send_to_master w p = record w {
  response_queue = push_head p w.response_queue;
  response_pipe = w.response_pipe + 1;
}

unfoldable pub on_complete : TaskWorker → ℕ → TaskWorker
unfolding send_to_master
on_complete w p =
    let left = record w { doing_count = w.doing_count -ℤ pos 1 } in
    let timestamp = (w.tasks p).timestamp in
    elim (find timestamp w.doing_map) [
      | none ↦ send_to_master left p
      | some _ ↦ send_to_master (record left { doing_map = erase timestamp w.doing_map }) p
    ]

-- `doneCount ++`, and `onComplete` once all pings are done.
unfoldable pub count_done : TaskWorker → ℕ → TaskWorker
unfolding put_task on_complete
count_done w p =
    let t = w.tasks p in
    let counted = record t { done_count = t.done_count + 1 } in
    let next = put_task w p counted in if is_complete counted then on_complete next p else next

-- The branch of `Ping::start` that both of its errors take.
unfoldable pub fail_send : TaskWorker → ℕ → ℕ → Ping → TaskWorker
unfolding put_ping count_done
fail_send w p i me =
    if is_open me.status
    then count_done (put_ping w p i (record me { status = send_error })) p
    else w

-- What the environment answers to one `Ping::start`: whether inet_pton takes the address, the time,
-- whether sendto succeeds.
pub record SendResult : Type 0 where
  pub converted : Bool
  pub now : ℕ
  pub sent : Bool

-- `none` stands for an access beyond the array of pings.
unfoldable pub start : SendResult → TaskWorker → ℕ → ℕ → Option TaskWorker
unfolding fail_send put_ping
start env w p i = elim (get_elem? (w.tasks p).pings i) [
  | none ↦ none
  | some me ↦ some (
      if not env.converted
      then fail_send w p i me
      else let sending = record me { sendtime = env.now } in
        if not env.sent
        then fail_send (put_ping w p i sending) p i sending
        else put_ping w p i (record sending { status = doing; timer = true }))
]

-- `for (int i = 0; i < task->totalCount; i++)` with `rest` rounds to go. The source reads totalCount
-- again in each round, also once the task was handed to the master; here it is read once.
unfoldable pub start_loop : (ℕ → SendResult) → (rest i : ℕ) → TaskWorker → ℕ → Option TaskWorker
start_loop env zero i w p = some w
start_loop env (suc rest) i w p = elim (start (env i) w p i) [
  | none ↦ none
  | some next ↦ start_loop env rest (i + 1) next p
]

unfoldable pub do_task : (ℕ → SendResult) → TaskWorker → ℕ → Option TaskWorker
unfolding start_loop
do_task env w p = start_loop env (w.tasks p).total_count 0 w p

-- `Ping::handleTimeout`: the timer of ping `i` fires, once.
unfoldable pub handle_timeout : TaskWorker → ℕ → ℕ → Option TaskWorker
unfolding put_ping count_done
handle_timeout w p i = elim (get_elem? (w.tasks p).pings i) [
  | none ↦ none
  | some me ↦ some (
      let fired = record me { timer = false } in
      if not (is_open me.status)
      then put_ping w p i fired
      else count_done (put_ping w p i (record fired { status = timeout })) p)
]

-- `TaskWorker::onReceive` at the time `now`.
unfoldable pub on_receive : (now : ℕ) → TaskWorker → (timestamp seq index : ℕ) → Option TaskWorker
unfolding put_ping count_done
on_receive now w timestamp seq index = elim (find timestamp w.doing_map) [
  | none ↦ some w
  | some p ↦
      if ltb (w.tasks p).total_count index
      then some w
      else elim (get_elem? (w.tasks p).pings index) [
        | none ↦ none
        | some me ↦ some (
            if not (is_open me.status)
            then w
            else let done = record me { status = success; recvtime = now; timer = false } in
              count_done (put_ping w p index done) p)
      ]
]

-- `notifyEventHandler` from the capacity test on: too many tasks.
unfoldable pub refuse_task : TaskWorker → ℕ → TaskWorker
unfolding put_task send_to_master
refuse_task w p =
    send_to_master
      (put_task w p (record (w.tasks p) { prepare_error = true; pre_error_code = 1005 })) p

-- The same: the task is registered under the time `now`, before it starts.
unfoldable pub register_task : (now : ℕ) → TaskWorker → ℕ → TaskWorker
unfolding put_task
register_task now w p =
    let stamped = put_task w p (record (w.tasks p) { timestamp = now }) in
    record stamped { doing_map = insert now p w.doing_map; doing_count = w.doing_count +ℤ pos 1 }

unfoldable pub notify_event : (now : ℕ) → (ℕ → SendResult) → TaskWorker → Option TaskWorker
unfolding refuse_task register_task do_task
notify_event now env w =
    let read = record w { task_pipe = w.task_pipe - 1 } in
    elim (pop_tail w.task_queue) [
      | none ↦ some read
      | some (p, rest) ↦
          let popped = record read { task_queue = rest } in
          if not (ltb_ℤ popped.doing_count (pos doing_task_capacity))
          then some (refuse_task popped p)
          else do_task env (register_task now popped p) p
    ]
