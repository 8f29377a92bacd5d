-- ===== src/TaskWorker/Grown.antt =====
-- What a worker makes of a task: the same task, further on, or the error of a full worker.
use native.Mathlib.Decide.{ℕ_discrete}
use async_ping.Prelude.{
  ℕ, ◌≤◌, ◌≡◌, ◌⊎◌, refl, inl, inr, true, false, some, List, arith, ◌∙◌, sym, ap, subst, length,
}
use async_ping.Fifo.{pop_tail, pop_cases, pop_tail-none}
use async_ping.Task.{Task}
use async_ping.Task.Servers.{targets}
use async_ping.TaskWorker.{
  TaskWorker, SendResult, send_to_master, register_task, refuse_task, do_task, notify_event,
}
use async_ping.TaskWorker.Alike.{
  Alike, AllAlike, put_task-AllAlike, AllAlike-trans, start_loop-AllAlike,
}
use async_ping.TaskWorker.Invariant.{Inv}
use async_ping.TaskWorker.Moves.{put_task_self}
use async_ping.TaskWorker.Notify.{popped, ready, refuse_other}
use async_ping.TaskWorker.Outcomes.{notify_event_outcome}

-- What the worker leaves of a task that was valid: the same, or the error of a full worker.
pub record Grown (t u : Task) : Type 0 where
  pub same_targets : targets u.pings ≡ targets t.pings
  pub verdict :
      ((u.prepare_error ≡ t.prepare_error) × (u.pre_error_code ≡ t.pre_error_code))
      ⊎ ((t.prepare_error ≡ false) × (u.prepare_error ≡ true) × (u.pre_error_code ≡ 1005))

pub Grown-refl : (t : Task) → Grown t t
Grown-refl t = record { same_targets = refl; verdict = inl (refl, refl) }

pub of_Alike : {t u : Task} → Alike t u → Grown t u
of_Alike a = record { same_targets = a.same_targets; verdict = inl (a.same_error, a.same_code) }

pub Grown-trans : {t u s : Task} → Grown t u → Grown u s → Grown t s
Grown-trans {t} {u} {s} a b = record {
  same_targets = b.same_targets ∙ a.same_targets;
  verdict = both a.verdict b.verdict;
}
  where
    both :
        ((u.prepare_error ≡ t.prepare_error) × (u.pre_error_code ≡ t.pre_error_code))
          ⊎ ((t.prepare_error ≡ false) × (u.prepare_error ≡ true) × (u.pre_error_code ≡ 1005))
        → ((s.prepare_error ≡ u.prepare_error) × (s.pre_error_code ≡ u.pre_error_code))
          ⊎ ((u.prepare_error ≡ false) × (s.prepare_error ≡ true) × (s.pre_error_code ≡ 1005))
        → ((s.prepare_error ≡ t.prepare_error) × (s.pre_error_code ≡ t.pre_error_code))
          ⊎ ((t.prepare_error ≡ false) × (s.prepare_error ≡ true) × (s.pre_error_code ≡ 1005))
    both (inl x) (inl y) = inl (y.0 ∙ x.0, y.1 ∙ x.1)
    both (inl x) (inr y) = inr (sym x.0 ∙ y.0, y.1, y.2)
    both (inr x) (inl y) = inr (x.0, y.0 ∙ x.1, y.1 ∙ x.2)
    both (inr x) (inr y) = inr (x.0, y.1, y.2)

pub record AllGrown (w v : TaskWorker) : Type 0 where
  pub each : (q : ℕ) → Grown (w.tasks q) (v.tasks q)

pub of_AllAlike : {w v : TaskWorker} → AllAlike w v → AllGrown w v
of_AllAlike a = record { each = λ q. of_Alike (a.each q) }

-- A task that is registered and started.
do_task-AllAlike :
    (now : ℕ) (env : ℕ → SendResult) (w v : TaskWorker) (p : ℕ)
    → do_task env (register_task now w p) p ≡ some v
    → AllAlike w v
unfolding do_task register_task
do_task-AllAlike now env w v p e =
    let stamped = record (w.tasks p) { timestamp = now } in
    let written =
      put_task-AllAlike w p stamped
        (record { same_targets = refl; same_error = refl; same_code = refl }) in
    AllAlike-trans (record { each = written.each })
      (start_loop-AllAlike env ((register_task now w p).tasks p).total_count 0
        (register_task now w p) p v e)

refuse-Grown :
    (w : TaskWorker) (p : ℕ) (rest : List ℕ)
    → Inv w
    → pop_tail w.task_queue ≡ some (p, rest)
    → AllGrown w (refuse_task (popped w rest) p)
unfolding refuse_task send_to_master
refuse-Grown w p rest inv pop = record {
  each = λ q. elim (ℕ_discrete q p) [
    | yes e ↦
        let refused = record (w.tasks p) { prepare_error = true; pre_error_code = 1005 } in
        subst (λ k. Grown (w.tasks k) ((refuse_task (popped w rest) p).tasks k)) (sym e)
          (subst (Grown (w.tasks p)) (sym (put_task_self (popped w rest) p refused)) (record {
            same_targets = refl;
            verdict = inr ((ready w p rest inv pop).valid, refl, refl);
          }))
    | no ne ↦
        subst (Grown (w.tasks q)) (sym (refuse_other w p rest inv pop q ne))
          (Grown-refl (w.tasks q))
  ];
}

pub notify_event-AllGrown :
    (now : ℕ) (env : ℕ → SendResult) (w v : TaskWorker)
    → Inv w
    → 1 ≤ w.task_pipe
    → notify_event now env w ≡ some v
    → AllGrown w v
notify_event-AllGrown now env w v inv woken e = elim (pop_cases w.task_queue) [
  | inl empty ↦
      let none_left = ap length (pop_tail-none w.task_queue empty) in
      absurd (omega (arith, inv.task_wakeups))
  | inr (p, rest, pop) ↦ elim (notify_event_outcome now env w v p rest pop e) [
    | inr (room, run) ↦
        of_AllAlike (record { each = (do_task-AllAlike now env (popped w rest) v p run).each })
    | inl (crowded, refused) ↦ subst (AllGrown w) (sym refused) (refuse-Grown w p rest inv pop)
  ]
]
