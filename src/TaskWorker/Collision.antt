-- ===== src/TaskWorker/Collision.antt =====
-- Two tasks that are taken within one microsecond get the same timestamp.
use async_ping.Prelude.{
  ℕ, zero, suc, ◌+◌, ◌≤◌, ◌≡◌, ◌≢◌, refl, true, some, List, arith, length, get_elem?-lt, length-set,
  ◌∙◌, ap,
}
use async_ping.Prelude.Int.{pos, ltb_ℤ, ◌+ℤ◌}
use async_ping.Fifo.{pop_tail, occurs}
use async_ping.Dictionary.{find, values, values-find, insert-taken}
use async_ping.Ping.{doing}
use async_ping.TaskWorker.{
  TaskWorker, SendResult, start, start_loop, do_task, notify_event, register_task, put_task,
  put_ping, doing_task_capacity,
}
use async_ping.TaskWorker.Invariant.{Inv, own, Touch}
use async_ping.TaskWorker.Moves.{put_task_self, Touch-trans}
use async_ping.TaskWorker.Pings.{put_ping-tasks, put_ping-Touch}
use async_ping.TaskWorker.Notify.{popped, nowhere, ready}

-- The network takes every packet.
abbrev pub AllSent : (ℕ → SendResult) → Type 0
AllSent env = (i : ℕ) → ((env i).converted ≡ true) × ((env i).sent ≡ true)

Touch-refl : (w : TaskWorker) (p : ℕ) → Touch w w p
Touch-refl w p = record {
  doing_map = refl;
  doing_count = refl;
  task_queue = refl;
  task_pipe = refl;
  response_queue = refl;
  response_pipe = refl;
  others = λ q ne. refl;
}

-- Then the loop of `doTask` writes to the task only, and keeps its stamp.
start_loop_sent :
    (env : ℕ → SendResult) (rest i : ℕ) (w : TaskWorker) (p : ℕ)
    → AllSent env
    → i + rest ≤ length (w.tasks p).pings
    → (v : TaskWorker) × (start_loop env rest i w p ≡ some v)
      × Touch w v p
      × ((v.tasks p).timestamp ≡ (w.tasks p).timestamp)
unfolding start_loop start
start_loop_sent env zero i w p all fits = (w, refl, Touch-refl w p, refl)
start_loop_sent env (suc rest) i w p all fits =
    let (me, at) = get_elem?-lt (w.tasks p).pings i (omega arith) in
    let next = record me { sendtime = (env i).now; status = doing; timer = true } in
    let u = put_ping w p i next in
    let task = put_ping-tasks w p i next in
    let one : start (env i) w p i ≡ some u = rw (at, start) (rw ((all i).0, (all i).1) refl) in
    let sized = ap (λ t. length t.pings) task ∙ length-set (w.tasks p).pings i next in
    let others = start_loop_sent env rest (i + 1) u p all (omega arith) in
    (
      others.0,
      rw (one, start_loop) others.1,
      Touch-trans (put_ping-Touch w p i next) others.2,
      others.3 ∙ ap (λ t. t.timestamp) task,
    )

-- If the clock shows the stamp of a task `q` at work when a worker with room takes the task `p`, and
-- every packet of `p` is sent, then `p` is in no table, its stamp leads to `q`, as replies to its
-- probes will, and the counter runs ahead of the map.
pub notify_event-collides :
    (now : ℕ) (env : ℕ → SendResult) (w : TaskWorker) (p q : ℕ) (rest : List ℕ)
    → Inv w
    → pop_tail w.task_queue ≡ some (p, rest)
    → ltb_ℤ w.doing_count (pos doing_task_capacity) ≡ true
    → find now w.doing_map ≡ some q
    → AllSent env
    → (v : TaskWorker) × (notify_event now env w ≡ some v)
      × (own v p ≡ 0)
      × ((v.tasks p).timestamp ≡ now)
      × (find now v.doing_map ≡ some q)
      × (q ≢ p)
      × (v.doing_count ≡ pos (length v.doing_map + 1))
unfolding notify_event do_task
notify_event-collides now env w p q rest inv pop room taken all =
    let u = register_task now (popped w rest) p in
    let stamped = record (w.tasks p) { timestamp = now } in
    let self : u.tasks p ≡ stamped =
      unfold register_task in put_task_self (popped w rest) p stamped in
    let same_map : u.doing_map ≡ w.doing_map =
      unfold register_task put_task in insert-taken now p q w.doing_map taken in
    let counts = (ready w p rest inv pop).counts in
    let out = nowhere w p rest inv pop in
    let sized : 0 + (u.tasks p).total_count ≤ length (u.tasks p).pings =
      omega (arith, ap (λ t. t.total_count) self, ap (λ t. length t.pings) self, counts.sized) in
    let loop = start_loop_sent env (u.tasks p).total_count 0 u p all sized in
    let v = loop.0 in
    let map = loop.2.doing_map ∙ same_map in
    let queue : v.task_queue ≡ rest = loop.2.task_queue ∙ (unfold register_task put_task in refl) in
    let answers : v.response_queue ≡ w.response_queue =
      loop.2.response_queue ∙ (unfold register_task put_task in refl) in
    let count : v.doing_count ≡ w.doing_count +ℤ pos 1 =
      loop.2.doing_count ∙ (unfold register_task put_task in refl) in
    (
      v,
      rw (pop, notify_event) (rw room loop.1),
      omega (arith, out, ap (occurs p) queue, ap (values p) map, ap (occurs p) answers),
      loop.3 ∙ ap (λ t. t.timestamp) self,
      ap (find now) map ∙ taken,
      (λ e.
          omega
            (arith, out, values-find now q w.doing_map taken, ap (λ r. values r w.doing_map) e)),
      count ∙ ap (λ c. c +ℤ pos 1) inv.counted ∙ (unfold ◌+ℤ◌ in ground (arith, ap length map)),
    )
