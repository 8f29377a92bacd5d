-- ===== src/TaskWorker/Alike.antt =====
-- What a task was asked for: no handler changes the addresses of its pings, and only a worker without
-- room makes an error of it.
use native.Mathlib.Decide.{ℕ_discrete}
use async_ping.Prelude.{
  ℕ, zero, suc, ◌+◌, ◌≡◌, refl, inl, inr, true, false, none, some, List, [], ◌∷◌, arith, get_elem?,
  get_elem?-set_self, set, ◌∙◌, sym, ap, subst, Bool-cases, Option-cases,
}
use async_ping.Ping.{Ping, doing, send_error, is_open}
use async_ping.Task.{Task, is_complete}
use async_ping.Task.Servers.{targets}
use async_ping.TaskWorker.{
  TaskWorker, SendResult, put_task, put_ping, on_complete, send_to_master, count_done, fail_send,
  start, start_loop, handle_timeout, on_receive,
}
use async_ping.TaskWorker.Outcomes.{timed_out, received, handle_timeout_outcome, on_receive_outcome}
use async_ping.TaskWorker.Moves.{put_task_self, put_task-Touch}
use async_ping.TaskWorker.Pings.{put_ping-tasks}

pub record Alike (t u : Task) : Type 0 where
  pub same_targets : targets u.pings ≡ targets t.pings
  pub same_error : u.prepare_error ≡ t.prepare_error
  pub same_code : u.pre_error_code ≡ t.pre_error_code

pub record AllAlike (w v : TaskWorker) : Type 0 where
  pub each : (q : ℕ) → Alike (w.tasks q) (v.tasks q)

pub Alike-refl : (t : Task) → Alike t t
Alike-refl t = record { same_targets = refl; same_error = refl; same_code = refl }

pub Alike-trans : {t u s : Task} → Alike t u → Alike u s → Alike t s
Alike-trans a b = record {
  same_targets = b.same_targets ∙ a.same_targets;
  same_error = b.same_error ∙ a.same_error;
  same_code = b.same_code ∙ a.same_code;
}

pub AllAlike-refl : (w : TaskWorker) → AllAlike w w
AllAlike-refl w = record { each = λ q. Alike-refl (w.tasks q) }

pub AllAlike-trans : {u v w : TaskWorker} → AllAlike u v → AllAlike v w → AllAlike u w
AllAlike-trans a b = record { each = λ q. Alike-trans (a.each q) (b.each q) }

targets-set :
    (ps : List Ping) (i : ℕ) (me next : Ping)
    → get_elem? ps i ≡ some me
    → next.ip ≡ me.ip
    → targets (set ps i next) ≡ targets ps
targets-set [] i me next at e = refl
targets-set (x ∷ xs) zero me next at e = ground (arith, at, e)
targets-set (x ∷ xs) (suc i) me next at e = ap (λ l. x.ip ∷ l) (targets-set xs i me next at e)

-- A write to one task.
pub put_task-AllAlike :
    (w : TaskWorker) (p : ℕ) (t : Task) → Alike (w.tasks p) t → AllAlike w (put_task w p t)
put_task-AllAlike w p t a = record {
  each = λ q. elim (ℕ_discrete q p) [
    | yes e ↦
        subst (λ k. Alike (w.tasks k) ((put_task w p t).tasks k)) (sym e)
          (subst (Alike (w.tasks p)) (sym (put_task_self w p t)) a)
    | no ne ↦
        subst (Alike (w.tasks q)) (sym ((put_task-Touch w p t).others q ne))
          (Alike-refl (w.tasks q))
  ];
}

put_ping-AllAlike :
    (w : TaskWorker) (p i : ℕ) (me next : Ping)
    → get_elem? (w.tasks p).pings i ≡ some me
    → next.ip ≡ me.ip
    → AllAlike w (put_ping w p i next)
unfolding put_ping
put_ping-AllAlike w p i me next at e =
    put_task-AllAlike w p (record (w.tasks p) { pings = set (w.tasks p).pings i next })
      (record {
        same_targets = targets-set (w.tasks p).pings i me next at e;
        same_error = refl;
        same_code = refl;
      })

pub on_complete-tasks : (w : TaskWorker) (p : ℕ) → (on_complete w p).tasks ≡ w.tasks
unfolding on_complete send_to_master
on_complete-tasks w p = ground arith

count_done-AllAlike : (w : TaskWorker) (p : ℕ) → AllAlike w (count_done w p)
unfolding count_done
count_done-AllAlike w p =
    let t = record (w.tasks p) { done_count = (w.tasks p).done_count + 1 } in
    let counted =
      put_task-AllAlike w p t
        (record { same_targets = refl; same_error = refl; same_code = refl }) in
    elim (Bool-cases (is_complete t)) [
      | inl last ↦ rw last (record {
        each = λ q.
            subst (λ f. Alike (w.tasks q) (f q)) (sym (on_complete-tasks (put_task w p t) p))
              (counted.each q);
      })
      | inr more ↦ rw more counted
    ]

-- A ping is written to and counted.
close-AllAlike :
    (w : TaskWorker) (p i : ℕ) (me next : Ping)
    → get_elem? (w.tasks p).pings i ≡ some me
    → next.ip ≡ me.ip
    → AllAlike w (count_done (put_ping w p i next) p)
close-AllAlike w p i me next at e =
    AllAlike-trans (put_ping-AllAlike w p i me next at e)
      (count_done-AllAlike (put_ping w p i next) p)

fail_send-AllAlike :
    (w : TaskWorker) (p i : ℕ) (me : Ping)
    → get_elem? (w.tasks p).pings i ≡ some me
    → AllAlike w (fail_send w p i me)
unfolding fail_send
fail_send-AllAlike w p i me at = elim (Bool-cases (is_open me.status)) [
  | inl opened ↦ rw opened (close-AllAlike w p i me (record me { status = send_error }) at refl)
  | inr shut ↦ rw shut (AllAlike-refl w)
]

start-AllAlike :
    (env : SendResult) (w : TaskWorker) (p i : ℕ) (me : Ping)
    → get_elem? (w.tasks p).pings i ≡ some me
    → (v : TaskWorker) × (start env w p i ≡ some v) × AllAlike w v
unfolding start
start-AllAlike env w p i me at = elim (Bool-cases env.converted) [
  | inr bad ↦ (_, rw (at, start) (rw bad refl), fail_send-AllAlike w p i me at)
  | inl good ↦
      let sending = record me { sendtime = env.now } in
      elim (Bool-cases env.sent) [
        | inr bad ↦
            let at' =
              ap (λ t. get_elem? t.pings i) (put_ping-tasks w p i sending)
              ∙ get_elem?-set_self (w.tasks p).pings i me sending at in
            (
              _,
              rw (at, start) (rw (good, bad) refl),
              AllAlike-trans (put_ping-AllAlike w p i me sending at refl)
                  (fail_send-AllAlike (put_ping w p i sending) p i sending at'),
            )
        | inl sent ↦ (
          _,
          rw (at, start) (rw (good, sent) refl),
          put_ping-AllAlike w p i me (record sending { status = doing; timer = true }) at refl,
        )
      ]
]

pub start_loop-AllAlike :
    (env : ℕ → SendResult) (rest i : ℕ) (w : TaskWorker) (p : ℕ) (v : TaskWorker)
    → start_loop env rest i w p ≡ some v
    → AllAlike w v
unfolding start_loop
start_loop-AllAlike env zero i w p v e = subst (AllAlike w) (cc) (AllAlike-refl w)
start_loop-AllAlike env (suc rest) i w p v e = elim (Option-cases (get_elem? (w.tasks p).pings i)) [
  | inl out ↦
      let fault : start (env i) w p i ≡ none = unfold start in rw (out, start) refl in
      let fails : start_loop env (suc rest) i w p ≡ none = rw (fault, start_loop) refl in
      absurd (cc)
  | inr (me, at) ↦
      let (next, runs, one) = start-AllAlike (env i) w p i me at in
      let goes : start_loop env rest (i + 1) next p ≡ some v = rw (runs, start_loop) at e in
      AllAlike-trans one (start_loop-AllAlike env rest (i + 1) next p v goes)
]

pub handle_timeout-AllAlike :
    (w : TaskWorker) (p i : ℕ) (me : Ping) (v : TaskWorker)
    → get_elem? (w.tasks p).pings i ≡ some me
    → handle_timeout w p i ≡ some v
    → AllAlike w v
handle_timeout-AllAlike w p i me v at e = elim (handle_timeout_outcome w p i me v at e) [
  | inl closed ↦ subst (AllAlike w) (sym closed) (close-AllAlike w p i me (timed_out me) at refl)
  | inr kept ↦
      subst (AllAlike w) (sym kept)
        (put_ping-AllAlike w p i me (record me { timer = false }) at refl)
]

pub on_receive-AllAlike :
    (now : ℕ) (w : TaskWorker) (ts seq index : ℕ) (v : TaskWorker)
    → on_receive now w ts seq index ≡ some v
    → AllAlike w v
on_receive-AllAlike now w ts seq index v e = elim (on_receive_outcome now w ts seq index v e) [
  | inl kept ↦ subst (AllAlike w) (sym kept) (AllAlike-refl w)
  | inr (p, me, here, at, opened, closed) ↦
      subst (AllAlike w) (sym closed) (close-AllAlike w p index me (received now me) at refl)
]
