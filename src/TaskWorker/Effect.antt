-- ===== src/TaskWorker/Effect.antt =====
-- What each handler of a worker can do, seen from the tasks at work.
pub mod Kept
use async_ping.Prelude.{
  ℕ, zero, suc, ◌≤◌, ◌≡◌, ◌≢◌, refl, inl, inr, true, false, none, some, List, [], ◌∷◌, arith,
  get_elem?, length, ◌∙◌, sym, ap, subst, Bool-cases, Option-cases, ltb,
}
use async_ping.Prelude.Int.{pos, ltb_ℤ}
use native.Mathlib.Decide.{ℕ_discrete, dec_lt}
use async_ping.Fifo.{pop_tail, pop_cases, pop_tail-none}
use async_ping.Dictionary.{find, values, values-find}
use async_ping.Ping.{Ping, timeout, success, is_open}
use async_ping.TaskWorker.{
  TaskWorker, SendResult, put_ping, count_done, do_task, notify_event, handle_timeout, on_receive,
  refuse_task, send_to_master, put_task, doing_task_capacity,
}
use async_ping.TaskWorker.Invariant.{Inv}
use async_ping.TaskWorker.Local.{Local, Local-trans, waits, put_ping-Local, count_done-Local}
use async_ping.TaskWorker.Local.Starts.{start_loop-Local}
use async_ping.TaskWorker.Outcomes.{
  timed_out, received, handle_timeout_outcome, on_receive_outcome, notify_event_outcome,
}
use async_ping.TaskWorker.Notify.{
  popped, registered, registered_other, registered_self, registered-map, registered-find,
  registered-Inv, nowhere, ready, refuse_other,
}

-- A task is registered and started.
pub record Taken (w v : TaskWorker) (p now : ℕ) : Type 0 where
  pub unused : find now w.doing_map ≡ none
  pub absent : values p w.doing_map ≡ 0
  pub others : (q : ℕ) → q ≢ p → v.tasks q ≡ w.tasks q
  pub entries : (s : ℕ) → s ≢ now → find s v.doing_map ≡ find s w.doing_map
  pub entry : (q : ℕ) → find now v.doing_map ≡ some q → q ≡ p
  pub started : (j : ℕ) → waits (v.tasks p).pings j ≡ false

pub data Effect (w v : TaskWorker) : Type 0 where
  outside :
      v.doing_map ≡ w.doing_map
      → ((q : ℕ) → 1 ≤ values q w.doing_map → v.tasks q ≡ w.tasks q)
      → Effect w v
  within :
      (p ts i : ℕ) (me : Ping)
      → find ts w.doing_map ≡ some p
      → get_elem? (w.tasks p).pings i ≡ some me
      → Local w v p
      → Effect w v
  took : (p now : ℕ) → Taken w v p now → Effect w v

nothing : {w v : TaskWorker} → v ≡ w → Effect w v
nothing e = outside (ap (λ u. u.doing_map) e) (λ q h. ap (λ u. u.tasks q) e)

waits_of_ge : (ps : List Ping) (j : ℕ) → length ps ≤ j → waits ps j ≡ false
unfolding waits
waits_of_ge [] j h = refl
waits_of_ge (x ∷ xs) zero h = absurd (omega arith)
waits_of_ge (x ∷ xs) (suc j) h = waits_of_ge xs j (omega arith)

pub handle_timeout-Local :
    (w : TaskWorker) (p i : ℕ) (me : Ping) (v : TaskWorker)
    → get_elem? (w.tasks p).pings i ≡ some me
    → handle_timeout w p i ≡ some v
    → Local w v p
handle_timeout-Local w p i me v at e = elim (handle_timeout_outcome w p i me v at e) [
  | inl closed ↦
      subst (λ u. Local w u p) (sym closed)
        (Local-trans (put_ping-Local w p i me (timed_out me) at (λ h. refl))
          (count_done-Local (put_ping w p i (timed_out me)) p))
  | inr kept ↦
      subst (λ u. Local w u p) (sym kept)
        (put_ping-Local w p i me (record me { timer = false }) at (λ h. h))
]

pub on_receive-Effect :
    (now : ℕ) (w : TaskWorker) (ts seq index : ℕ) (v : TaskWorker)
    → on_receive now w ts seq index ≡ some v
    → Effect w v
on_receive-Effect now w ts seq index v e = elim (on_receive_outcome now w ts seq index v e) [
  | inl kept ↦ nothing kept
  | inr (p, me, here, at, opened, closed) ↦ within p ts index me here at (
      subst (λ u. Local w u p) (sym closed)
        (Local-trans (put_ping-Local w p index me (received now me) at (λ h. refl))
          (count_done-Local (put_ping w p index (received now me)) p)))
]

pub do_task-Taken :
    (now : ℕ) (env : ℕ → SendResult) (w v : TaskWorker) (p : ℕ) (rest : List ℕ)
    → (inv : Inv w) → (pop : pop_tail w.task_queue ≡ some (p, rest))
    → (room : ltb_ℤ w.doing_count (pos doing_task_capacity) ≡ true)
    → (unused : find now w.doing_map ≡ none)
    → do_task env (registered w p rest inv pop now room unused) p ≡ some v
    → Taken w v p now
unfolding do_task
do_task-Taken now env w v p rest inv pop room unused e =
    let reg = registered w p rest inv pop now room unused in
    let self = registered_self w p rest inv pop now room unused in
    let reg_map = registered-map w p rest inv pop now room unused in
    let size = (ready w p rest inv pop).counts.sized in
    let loop = start_loop-Local env (reg.tasks p).total_count 0 reg p v e in
    let stamp : (reg.tasks p).timestamp ≡ now = ap (λ t. t.timestamp) self in
    record {
      unused = unused;
      absent = (nowhere w p rest inv pop).1;
      others = λ q ne. loop.0.others q ne ∙ registered_other w p rest inv pop now room unused q ne;
      entries = λ s ne.
          loop.0.entries s (λ same. ne (same ∙ stamp))
          ∙ ap (find s) reg_map
          ∙ (unfold find in ground arith);
      entry = λ q h.
          let there =
            loop.0.shrinks (registered-Inv w p rest inv pop now room unused).is_map now q h in
          let mine = registered-find w p rest inv pop now room unused in cc;
      started = λ j. elim (dec_lt j (reg.tasks p).total_count) [
        | yes low ↦ loop.1 j (omega arith) (omega arith)
        | no high ↦
            let sized : (reg.tasks p).total_count ≡ length (reg.tasks p).pings =
              ap (λ t. t.total_count) self ∙ size ∙ sym (ap (λ t. length t.pings) self) in
            loop.0.advanced j (waits_of_ge (reg.tasks p).pings j (omega arith))
      ];
    }

pub notify_event-Effect :
    (now : ℕ) (env : ℕ → SendResult) (w v : TaskWorker)
    → Inv w
    → 1 ≤ w.task_pipe
    → find now w.doing_map ≡ none
    → notify_event now env w ≡ some v
    → Effect w v
notify_event-Effect now env w v inv woken unused e = elim (pop_cases w.task_queue) [
  | inl empty ↦
      let none_left = ap length (pop_tail-none w.task_queue empty) in
      absurd (omega (arith, inv.task_wakeups))
  | inr (p, rest, pop) ↦ elim (notify_event_outcome now env w v p rest pop e) [
    | inr (room, run) ↦
        took p now (do_task-Taken now env w v p rest inv pop room unused (unfold registered in run))
    | inl (crowded, refused) ↦
        outside
          (ap (λ u. u.doing_map) refused ∙ (unfold refuse_task put_task send_to_master in refl))
          (λ q h.
            ap (λ u. u.tasks q) refused
            ∙ refuse_other w p rest inv pop q (λ e.
              omega (arith, (nowhere w p rest inv pop).1, ap (λ r. values r w.doing_map) e)))
  ]
]
