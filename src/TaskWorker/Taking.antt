-- ===== src/TaskWorker/Taking.antt =====
-- What `notifyEventHandler` does with the queue of a worker.
use async_ping.Prelude.{
  ℕ, zero, suc, ◌+◌, ◌-◌, ◌≤◌, ◌<◌, ◌≡◌, ◌≢◌, refl, inl, inr, true, false, none, some, List, ◌∷◌,
  arith, get_elem?, length, ◌∙◌, sym, ap, subst, Bool-cases, Option-cases,
}
use async_ping.Fifo.{pop_tail, pop_cases, pop_tail-none, occurs, occurs-pop_tail}
use async_ping.Prelude.Int.{pos, ltb_ℤ}
use async_ping.Dictionary.{find, values}
use async_ping.Ping.{Ping, doing, is_open}
use async_ping.Task.{is_complete}
use async_ping.TaskWorker.{
  TaskWorker, SendResult, put_task, put_ping, on_complete, count_done, fail_send, start, start_loop,
  send_to_master, register_task, refuse_task, do_task, notify_event, doing_task_capacity,
}
use async_ping.TaskWorker.Invariant.{Inv, own}
use async_ping.TaskWorker.Local.{waits}
use async_ping.TaskWorker.Local.Starts.{start_loop-Local}
use async_ping.TaskWorker.Moves.{put_task_self}
use async_ping.TaskWorker.Handlers.{Handled}
use async_ping.TaskWorker.Outcomes.{notify_event_outcome}
use async_ping.TaskWorker.Notify.{popped, registered, nowhere, refuse_other, notify_event-Handled}
use async_ping.TaskWorker.Effect.{do_task-Taken}

-- The queue and the pipe of the worker stay.
record SameQueue (w v : TaskWorker) : Type 0 where
  queue : v.task_queue ≡ w.task_queue
  pipe : v.task_pipe ≡ w.task_pipe

SameQueue-trans : {u v w : TaskWorker} → SameQueue u v → SameQueue v w → SameQueue u w
SameQueue-trans a b = record { queue = b.queue ∙ a.queue; pipe = b.pipe ∙ a.pipe }

put_ping-SameQueue : (w : TaskWorker) (p i : ℕ) (me : Ping) → SameQueue w (put_ping w p i me)
unfolding put_ping put_task
put_ping-SameQueue w p i me = record { queue = refl; pipe = refl }

on_complete-SameQueue : (w : TaskWorker) (p : ℕ) → SameQueue w (on_complete w p)
unfolding on_complete send_to_master
on_complete-SameQueue w p = record { queue = ground arith; pipe = ground arith }

count_done-SameQueue : (w : TaskWorker) (p : ℕ) → SameQueue w (count_done w p)
unfolding count_done put_task
count_done-SameQueue w p =
    let t = record (w.tasks p) { done_count = (w.tasks p).done_count + 1 } in
    elim (Bool-cases (is_complete t)) [
      | inl last ↦
          let whole = on_complete-SameQueue (put_task w p t) p in
          rw last (record { queue = whole.queue; pipe = whole.pipe })
      | inr more ↦ rw more (record { queue = refl; pipe = refl })
    ]

fail_send-SameQueue : (w : TaskWorker) (p i : ℕ) (me : Ping) → SameQueue w (fail_send w p i me)
unfolding fail_send
fail_send-SameQueue w p i me = elim (Bool-cases (is_open me.status)) [
  | inl opened ↦ rw opened (SameQueue-trans (put_ping-SameQueue w p i _) (count_done-SameQueue _ p))
  | inr shut ↦ rw shut (record { queue = refl; pipe = refl })
]

start-SameQueue :
    (env : SendResult) (w : TaskWorker) (p i : ℕ) (me : Ping)
    → get_elem? (w.tasks p).pings i ≡ some me
    → (v : TaskWorker) × (start env w p i ≡ some v) × SameQueue w v
unfolding start
start-SameQueue env w p i me at = elim (Bool-cases env.converted) [
  | inr bad ↦ (_, rw (at, start) (rw bad refl), fail_send-SameQueue w p i me)
  | inl good ↦
      let sending = record me { sendtime = env.now } in
      elim (Bool-cases env.sent) [
        | inr bad ↦ (
          _,
          rw (at, start) (rw (good, bad) refl),
          SameQueue-trans (put_ping-SameQueue w p i sending)
              (fail_send-SameQueue (put_ping w p i sending) p i sending),
        )
        | inl sent ↦ (
          _,
          rw (at, start) (rw (good, sent) refl),
          put_ping-SameQueue w p i (record sending { status = doing; timer = true }),
        )
      ]
]

start_loop-SameQueue :
    (env : ℕ → SendResult) (rest i : ℕ) (w : TaskWorker) (p : ℕ) (v : TaskWorker)
    → start_loop env rest i w p ≡ some v
    → SameQueue w v
unfolding start_loop
start_loop-SameQueue env zero i w p v e =
    let same : w ≡ v = cc in subst (SameQueue w) same (record { queue = refl; pipe = refl })
start_loop-SameQueue env (suc rest) i w p v e =
    elim (Option-cases (get_elem? (w.tasks p).pings i)) [
      | inl out ↦
          let fault : start (env i) w p i ≡ none = unfold start in rw (out, start) refl in
          let fails : start_loop env (suc rest) i w p ≡ none = rw (fault, start_loop) refl in
          absurd (cc)
      | inr (me, at) ↦
          let (next, runs, one) = start-SameQueue (env i) w p i me at in
          let goes : start_loop env rest (i + 1) next p ≡ some v = rw (runs, start_loop) at e in
          SameQueue-trans one (start_loop-SameQueue env rest (i + 1) next p v goes)
    ]

-- The task at `p` leaves the queue with one byte, and no other task changes.
pub record Leaves (w v : TaskWorker) (p : ℕ) : Type 0 where
  pub oldest : pop_tail w.task_queue ≡ some (p, v.task_queue)
  pub byte : v.task_pipe + 1 ≡ w.task_pipe
  pub others : (q : ℕ) → q ≢ p → v.tasks q ≡ w.tasks q

-- With 1024 tasks at work it is sent back with the error 1005. Else it carries the time, none of its
-- pings waits for a start, and it is at work or, with all pings done, answered.
pub data Takes (now : ℕ) (w v : TaskWorker) : Type 0 where
  refuses :
      (p : ℕ)
      → Leaves w v p
      → 1024 ≤ length w.doing_map
      → (v.tasks p).prepare_error ≡ true
      → (v.tasks p).pre_error_code ≡ 1005
      → v.response_queue ≡ p ∷ w.response_queue
      → v.response_pipe ≡ w.response_pipe + 1
      → v.doing_map ≡ w.doing_map
      → Takes now w v
  starts :
      (p : ℕ)
      → Leaves w v p
      → length w.doing_map < 1024
      → (v.tasks p).timestamp ≡ now
      → ((j : ℕ) → waits (v.tasks p).pings j ≡ false)
      → values p v.doing_map + occurs p v.response_queue ≡ 1
      → ((s : ℕ) → s ≢ now → find s v.doing_map ≡ find s w.doing_map)
      → Takes now w v

module _ (now : ℕ) (env : ℕ → SendResult) (w v : TaskWorker) (inv : Inv w) (woken : 1 ≤ w.task_pipe)
    (p : ℕ) (rest : List ℕ) (pop : pop_tail w.task_queue ≡ some (p, rest)) where
  refused-Takes : 1024 ≤ length w.doing_map → v ≡ refuse_task (popped w rest) p → Takes now w v
  unfolding refuse_task put_task send_to_master
  refused-Takes crowded e =
      let self =
        put_task_self (popped w rest) p
          (record (w.tasks p) { prepare_error = true; pre_error_code = 1005 }) in
      subst (Takes now w) (sym e) (
        refuses p
          (record {
            oldest = pop;
            byte = omega (arith, woken);
            others = refuse_other w p rest inv pop;
          })
          crowded (ap (λ t. t.prepare_error) self) (ap (λ t. t.pre_error_code) self) refl refl refl)

  started-Takes :
      Handled w v
      → (room : ltb_ℤ w.doing_count (pos doing_task_capacity) ≡ true)
      → (unused : find now w.doing_map ≡ none)
      → do_task env (register_task now (popped w rest) p) p ≡ some v
      → Takes now w v
  started-Takes done room unused run =
      let reg = register_task now (popped w rest) p in
      let kept =
        start_loop-SameQueue env (reg.tasks p).total_count 0 reg p v (unfold do_task in run) in
      let left : v.task_queue ≡ rest = kept.queue ∙ (unfold register_task put_task in refl) in
      let loop = start_loop-Local env (reg.tasks p).total_count 0 reg p v (unfold do_task in run) in
      let taken = do_task-Taken now env w v p rest inv pop room unused (unfold registered in run) in
      let once = nowhere w p rest inv pop in
      starts p
        (record {
          oldest = pop ∙ ap (λ l. some (p, l)) (sym left);
          byte = omega (arith, woken, kept.pipe, pipe_reg);
          others = taken.others;
        })
        (ground (arith, inv.counted))
        (loop.0.stamp
          ∙ (unfold register_task in
              ap (λ t. t.timestamp)
                (put_task_self (popped w rest) p (record (w.tasks p) { timestamp = now }))))
        taken.started (omega (arith, done.owned p, own_one, once, ap (occurs p) left)) taken.entries
    where
      pipe_reg : (register_task now (popped w rest) p).task_pipe ≡ w.task_pipe - 1
      pipe_reg = unfold register_task put_task in refl

      own_one : own w p ≡ 1
      own_one =
          let once = nowhere w p rest inv pop in
          ground (arith, occurs-pop_tail p w.task_queue p rest pop, once)

-- A woken worker takes the oldest task from its queue. If no task at work carries the time's stamp,
-- the handler returns, whatever the network answers to the pings; the invariant holds again, and
-- every task is in as many places as before. With 1024 tasks at work the task that it takes is sent
-- back with the error 1005; else the task carries the time, every ping of it is started, and it is
-- at work or sent back. No other task changes.
pub notify_event-Takes :
    (now : ℕ) (env : ℕ → SendResult) (w : TaskWorker)
    → Inv w
    → 1 ≤ w.task_pipe
    → find now w.doing_map ≡ none
    → (v : TaskWorker) × (notify_event now env w ≡ some v) × Handled w v × Takes now w v
notify_event-Takes now env w inv woken unused =
    let (v, e, done) = notify_event-Handled now env w inv woken unused in
    (
      v,
      e,
      done,
      elim (pop_cases w.task_queue) [
        | inl empty ↦
            let none_left = ap length (pop_tail-none w.task_queue empty) in
            absurd (omega (arith, inv.task_wakeups))
        | inr (p, rest, pop) ↦ elim (notify_event_outcome now env w v p rest pop e) [
          | inr (room, run) ↦ started-Takes now env w v inv woken p rest pop done room unused run
          | inl (crowded, refused) ↦
              refused-Takes now env w v inv woken p rest pop (ground (arith, inv.counted)) refused
        ]
      ],
    )
