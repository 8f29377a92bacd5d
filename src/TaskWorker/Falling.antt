-- ===== src/TaskWorker/Falling.antt =====
-- A handler of the worker that finds work takes some of its weight away.
use async_ping.Prelude.{
  ℕ, ◌+◌, ◌≤◌, ◌<◌, ◌≡◌, ◌≢◌, refl, inl, inr, true, false, none, some, List, [], ◌∷◌, ◌++◌, arith,
  length, get_elem?, ◌∙◌, sym, ap, subst, Bool-cases, All-get,
}
use async_ping.Prelude.Int.{pos, ltb_ℤ}
use async_ping.Fifo.{pop_tail, pop_tail-some, pop_tail-none, pop_cases}
use async_ping.Dictionary.{find}
use async_ping.Ping.{Ping, Status, timeout, uninited, doing, send_error, success, is_open, is_doing}
use async_ping.TaskWorker.{
  TaskWorker, SendResult, put_ping, count_done, do_task, notify_event, handle_timeout, refuse_task,
  register_task, send_to_master, put_task, doing_task_capacity,
}
use async_ping.TaskWorker.Invariant.{Inv}
use async_ping.TaskWorker.Weight.{
  weight, opened, open_at, sum_queue, sum_map, sum_queue_same, sum_map_same, count_done-weight,
}
use async_ping.TaskWorker.Notify.{
  popped, registered, registered_other, registered_self, registered-map, nowhere, refuse_other,
  accept-Handled,
}

-- The timer of a ping fires.
pub handle_timeout-falls :
    (w : TaskWorker) (p ts i : ℕ) (me : Ping) (v : TaskWorker)
    → Inv w
    → find ts w.doing_map ≡ some p
    → get_elem? (w.tasks p).pings i ≡ some me
    → me.timer ≡ true
    → handle_timeout w p i ≡ some v
    → weight v < weight w
unfolding handle_timeout
handle_timeout-falls w p ts i me v inv here at set e =
    let timed = All-get _ (w.tasks p).pings i me (inv.running ts p here).counts.timed at in
    let opened : is_open me.status ≡ true = open_of me.status (sym timed ∙ set) in
    let fired = record me { timer = false; status = timeout } in
    let run : handle_timeout w p i ≡ some (count_done (put_ping w p i fired) p) =
      rw (at, handle_timeout) (rw opened refl) in
    subst (λ u. weight u < weight w) (cc)
      (count_done-weight w p ts i me fired inv here at opened refl)
  where
    open_of : (s : Status) → is_doing s ≡ true → is_open s ≡ true
    open_of doing d = refl
    open_of uninited d = cc
    open_of timeout d = cc
    open_of send_error d = cc
    open_of success d = cc

sum_queue-append :
    (f : ℕ → ℕ) (xs : List ℕ) (p : ℕ) → sum_queue f (xs ++ p ∷ []) ≡ sum_queue f xs + 2 + f p
unfolding sum_queue
sum_queue-append f [] p = omega arith
sum_queue-append f (x ∷ xs) p = omega (arith, sum_queue-append f xs p)

module _ (w : TaskWorker) (p : ℕ) (rest : List ℕ) (inv : Inv w)
    (pop : pop_tail w.task_queue ≡ some (p, rest)) where
  split : sum_queue (open_at w) w.task_queue ≡ sum_queue (open_at w) rest + 2 + open_at w p
  split =
      ap (sum_queue (open_at w)) (pop_tail-some w.task_queue p rest pop)
      ∙ sum_queue-append (open_at w) rest p

  refuse-falls : weight (refuse_task (popped w rest) p) < weight w
  unfolding weight
  refuse-falls =
      let v = refuse_task (popped w rest) p in
      let other =
        λ (x : ℕ) (ne : x ≢ p). ap (λ t. opened t.pings) (refuse_other w p rest inv pop x ne) in
      let out = nowhere w p rest inv pop in
      let queue = sum_queue_same (open_at v) (open_at w) p rest out.0 other in
      let map = sum_map_same (open_at v) (open_at w) p w.doing_map out.1 other in
      unfold refuse_task put_task send_to_master in omega (arith, split, queue, map)

  registered-falls :
      (now : ℕ) (room : ltb_ℤ w.doing_count (pos doing_task_capacity) ≡ true)
      (unused : find now w.doing_map ≡ none)
      → weight (registered w p rest inv pop now room unused) < weight w
  unfolding weight sum_map
  registered-falls now room unused =
      let v = registered w p rest inv pop now room unused in
      let other = λ (x : ℕ) (ne : x ≢ p).
        ap (λ t. opened t.pings) (registered_other w p rest inv pop now room unused x ne) in
      let self = ap (λ t. opened t.pings) (registered_self w p rest inv pop now room unused) in
      let out = nowhere w p rest inv pop in
      let queue = sum_queue_same (open_at v) (open_at w) p rest out.0 other in
      let map = sum_map_same (open_at v) (open_at w) p w.doing_map out.1 other in
      let entry : sum_map (open_at v) v.doing_map
          ≡ 1 + open_at v p + sum_map (open_at v) w.doing_map =
        ap (sum_map (open_at v)) (registered-map w p rest inv pop now room unused) in
      let left : v.task_queue ≡ rest = unfold registered register_task put_task in refl in
      let same : v.response_queue ≡ w.response_queue =
        unfold registered register_task put_task in refl in
      omega (arith, split, queue, map, entry, self, ap (sum_queue (open_at v)) left, ap length same)

-- A worker that is woken.
pub notify_event-falls :
    (now : ℕ) (env : ℕ → SendResult) (w v : TaskWorker)
    → Inv w
    → 1 ≤ w.task_pipe
    → find now w.doing_map ≡ none
    → notify_event now env w ≡ some v
    → weight v < weight w
unfolding notify_event
notify_event-falls now env w v inv woken unused e = elim (pop_cases w.task_queue) [
  | inl empty ↦
      let none_left = ap length (pop_tail-none w.task_queue empty) in
      absurd (omega (arith, inv.task_wakeups))
  | inr (p, rest, pop) ↦ elim (Bool-cases (ltb_ℤ w.doing_count (pos doing_task_capacity))) [
    | inl room ↦
        let run : notify_event now env w
            ≡ do_task env (registered w p rest inv pop now room unused) p =
          rw (pop, notify_event) (rw room (unfold registered in refl)) in
        let done = accept-Handled w p rest inv pop now room unused env in
        let same : done.0 ≡ v = cc (done.1) in
        let less : weight done.0 < weight w =
          omega (arith, done.3, registered-falls w p rest inv pop now room unused) in
        subst (λ u. weight u < weight w) same less
    | inr full ↦
        let run : notify_event now env w ≡ some (refuse_task (popped w rest) p) =
          rw (pop, notify_event) (rw full refl) in
        subst (λ u. weight u < weight w) (cc) (refuse-falls w p rest inv pop)
  ]
]
