-- ===== src/TaskWorker/Moves.antt =====
-- How the invariant survives the two ends of a handler: a write to a running task, and its
-- completion.
use async_ping.Prelude.{ℕ, ◌≤◌, ◌≡◌, ◌≢◌, some, arith, length, ◌∙◌, sym, ap, subst}
use native.Mathlib.Decide.{ℕ_discrete}
use async_ping.Prelude.Int.{pos, ◌-ℤ◌}
use async_ping.Fifo.{occurs}
use async_ping.Dictionary.{
  find, IsMap, erase, values-find, erase-IsMap, length-erase, values-erase, find-erase_ne,
  find-erase_self,
}
use async_ping.Task.{Task}
use async_ping.TaskWorker.{TaskWorker, put_task, on_complete, send_to_master, doing_task_capacity}
use async_ping.TaskWorker.Invariant.{IsRunning, IsAnswered, IsReady, Inv, Touch, own}

pub put_task_self : (w : TaskWorker) (p : ℕ) (t : Task) → (put_task w p t).tasks p ≡ t
unfolding put_task
put_task_self w p t = ground arith

pub put_task-Touch : (w : TaskWorker) (p : ℕ) (t : Task) → Touch w (put_task w p t) p
unfolding put_task
put_task-Touch w p t = ground arith

pub Touch-trans : {u v w : TaskWorker} {p : ℕ} → Touch u v p → Touch v w p → Touch u w p
Touch-trans a b = record {
  doing_map = b.doing_map ∙ a.doing_map;
  doing_count = b.doing_count ∙ a.doing_count;
  task_queue = b.task_queue ∙ a.task_queue;
  task_pipe = b.task_pipe ∙ a.task_pipe;
  response_queue = b.response_queue ∙ a.response_queue;
  response_pipe = b.response_pipe ∙ a.response_pipe;
  others = λ q ne. b.others q ne ∙ a.others q ne;
}

module _ (w v : TaskWorker) (p ts : ℕ) (inv : Inv w) (touch : Touch w v p)
    (here : find ts w.doing_map ≡ some p) where
  not_queued : (q : ℕ) → 1 ≤ occurs q w.task_queue → q ≢ p
  not_queued q h e =
      let same = ap (λ r. occurs r w.task_queue) e in
      absurd (omega (arith, inv.unique p, values-find ts p w.doing_map here, same))

  not_answered : (q : ℕ) → 1 ≤ occurs q w.response_queue → q ≢ p
  not_answered q h e =
      let same = ap (λ r. occurs r w.response_queue) e in
      absurd (omega (arith, inv.unique p, values-find ts p w.doing_map here, same))

  -- Only `ts` leads to `p`.
  other_stamp : (s q : ℕ) → find s w.doing_map ≡ some q → s ≢ ts → q ≢ p
  other_stamp s q h ne e =
      ne (sym (inv.running s p (h ∙ ap some e)).stamp ∙ (inv.running ts p here).stamp)

  pub own-Touch : (q : ℕ) → own v q ≡ own w q
  own-Touch q = rw (touch.doing_map, touch.task_queue, touch.response_queue)

  queued_kept : (q : ℕ) → 1 ≤ occurs q v.task_queue → IsReady (v.tasks q)
  queued_kept q h =
      let h' : 1 ≤ occurs q w.task_queue = rw touch.task_queue at h in
      rw (touch.others q (not_queued q h')) (inv.queued q h')

  IsAnswered-kept : (q : ℕ) → 1 ≤ occurs q v.response_queue → IsAnswered (v.tasks q)
  IsAnswered-kept q h =
      let h' : 1 ≤ occurs q w.response_queue = rw touch.response_queue at h in
      rw (touch.others q (not_answered q h')) (inv.answered q h')

  IsRunning-kept : (s q : ℕ) → find s w.doing_map ≡ some q → s ≢ ts → IsRunning s (v.tasks q)
  IsRunning-kept s q h ne = rw (touch.others q (other_stamp s q h ne)) (inv.running s q h)

  -- A running task is written to, and still runs.
  pub Inv-Touch : IsRunning ts (v.tasks p) → Inv v
  Inv-Touch run = record {
    is_map = rw touch.doing_map inv.is_map;
    counted = rw (touch.doing_map, touch.doing_count) inv.counted;
    bounded = rw touch.doing_map inv.bounded;
    task_wakeups = rw (touch.task_pipe, touch.task_queue) inv.task_wakeups;
    response_wakeups = rw (touch.response_pipe, touch.response_queue) inv.response_wakeups;
    unique = λ q. omega (arith, own-Touch q, inv.unique q);
    running = λ s q h.
        let h' : find s w.doing_map ≡ some q = rw touch.doing_map at h in
        elim (ℕ_discrete s ts) [
          | yes e ↦
              let same : q ≡ p = cc in
              subst (λ r. IsRunning r (v.tasks q)) (sym e)
                (subst (λ r. IsRunning ts (v.tasks r)) (sym same) run)
          | no ne ↦ IsRunning-kept s q h' ne
        ];
    queued = queued_kept;
    answered = IsAnswered-kept;
  }

  -- What `onComplete` makes of it, if the timestamp is still that of the entry.
  pub completed :
      (v.tasks p).timestamp ≡ ts
      → on_complete v p
        ≡ send_to_master
            (record v { doing_count = v.doing_count -ℤ pos 1; doing_map = erase ts v.doing_map })
            p
  unfolding on_complete
  completed e =
      let found : find (v.tasks p).timestamp v.doing_map ≡ some p =
        rw e (rw touch.doing_map here) in
      ground (arith, found)

  pub own-on_complete : (v.tasks p).timestamp ≡ ts → (q : ℕ) → own (on_complete v p) q ≡ own w q
  unfolding send_to_master occurs
  own-on_complete e q =
      rw (completed e, touch.doing_map, touch.task_queue, touch.response_queue)
        (ground (arith, values-erase q ts p w.doing_map here))

  -- A task that is done leaves the map, and is handed to the master.
  pub Inv-on_complete : (v.tasks p).timestamp ≡ ts → IsAnswered (v.tasks p) → Inv (on_complete v p)
  Inv-on_complete e done = record {
    is_map = left_map;
    counted = left_counted;
    bounded = left_bounded;
    task_wakeups = left_task_pipe;
    response_wakeups = left_response_pipe;
    unique = λ q. omega (arith, own-on_complete e q, inv.unique q);
    running = left_running;
    queued = rw (completed e) (unfold send_to_master in queued_kept);
    answered = left_answered;
  }
    where
      left_map : IsMap (on_complete v p).doing_map
      left_map =
          rw (completed e)
            (unfold send_to_master in rw touch.doing_map (erase-IsMap ts w.doing_map inv.is_map))

      left_counted : (on_complete v p).doing_count ≡ pos (length (on_complete v p).doing_map)
      left_counted = rw (completed e) (
          unfold send_to_master ◌-ℤ◌ in
          rw (touch.doing_map, touch.doing_count, inv.counted)
            (ground (arith, length-erase ts p w.doing_map here)))

      left_bounded : length (on_complete v p).doing_map ≤ doing_task_capacity
      left_bounded = rw (completed e) (
          unfold send_to_master in
          rw touch.doing_map (omega (arith, inv.bounded, length-erase ts p w.doing_map here)))

      left_task_pipe : (on_complete v p).task_pipe ≡ length (on_complete v p).task_queue
      left_task_pipe =
          rw (completed e)
            (unfold send_to_master in rw (touch.task_pipe, touch.task_queue) inv.task_wakeups)

      left_response_pipe : (on_complete v p).response_pipe ≡ length (on_complete v p).response_queue
      left_response_pipe = rw (completed e) (
          unfold send_to_master in
          rw (touch.response_pipe, touch.response_queue) (omega (arith, inv.response_wakeups)))

      left_running :
          (s q : ℕ)
          → find s (on_complete v p).doing_map ≡ some q
          → IsRunning s ((on_complete v p).tasks q)
      left_running s q = rw (completed e) (
          unfold send_to_master in
          rw touch.doing_map (λ h. elim (ℕ_discrete s ts) [
            | yes same ↦
                let gone = find-erase_self ts w.doing_map inv.is_map in
                let there : find ts (erase ts w.doing_map) ≡ some q =
                  ap (λ r. find r (erase ts w.doing_map)) (sym same) ∙ h in
                absurd (cc)
            | no ne ↦ IsRunning-kept s q (sym (find-erase_ne ts s w.doing_map ne) ∙ h) ne
          ]))

      left_answered :
          (q : ℕ)
          → 1 ≤ occurs q (on_complete v p).response_queue
          → IsAnswered ((on_complete v p).tasks q)
      left_answered q = rw (completed e) (
          unfold send_to_master occurs in
          λ h. elim (ℕ_discrete q p) [
            | yes same ↦ subst (λ r. IsAnswered (v.tasks r)) (sym same) done
            | no ne ↦ IsAnswered-kept q (ground arith)
          ])
