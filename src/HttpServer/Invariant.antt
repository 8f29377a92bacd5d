-- ===== src/HttpServer/Invariant.antt =====
-- The master and its worker together: a request waits exactly as long as its task is in one of the
-- queues or at work.
use native.Mathlib.Decide.{ℕ_discrete}
use async_ping.Prelude.{
  ℕ, ◌+◌, ◌≤◌, ◌≡◌, ◌≢◌, refl, ◌⊎◌, inl, inr, true, false, some, List, [], ◌∷◌, arith, length, All,
  ◌∙◌, sym, ap, subst, Bool-cases, Option-cases, ◌==◌, if◌then◌else◌,
}
use async_ping.Fifo.{occurs}
use async_ping.Dictionary.{find, values, has, IsMap, values-find}
use async_ping.Ping.{Ping, IsTimed, is_uninited}
use async_ping.Task.{
  Task, Body, Built, built, threw, looping, error_task, new_task, new_pings, with_pings,
}
use async_ping.Task.Construct.{
  IsFresh, fill_loop_keeps, new_task_cases, new_pings-IsFresh, length-new_pings,
}
use async_ping.TaskWorker.{TaskWorker, put_task, enqueue_task, send_to_master}
use async_ping.TaskWorker.Invariant.{IsReady, IsRunning, IsAnswered, Inv, own}
use async_ping.TaskWorker.Moves.{put_task_self, put_task-Touch}
use async_ping.TaskWorker.Notify.{closed_of_fresh}
use async_ping.HttpServer.{HttpServer, Request, make_task}

pub record ServerInv (s : HttpServer) : Type 0 where
  pub worker : Inv s.worker
  pub is_map : IsMap s.doing_request
  pub owned : (p : ℕ) → own s.worker p ≡ has p s.doing_request

-- A new task is an error to be answered, or ready for the worker.
abbrev pub IsMade : Task → Type 0
IsMade t = (t.prepare_error ≡ true) × IsAnswered t ⊎ IsReady t

error_task-IsMade : (raw code : ℕ) → IsMade (error_task raw code)
error_task-IsMade raw code = inl (refl, record { silent = tt; settled = inl refl })

IsTimed-of_fresh : (ps : List Ping) → All IsFresh ps → All IsTimed ps
IsTimed-of_fresh [] h = tt
IsTimed-of_fresh (p ∷ ps) h = (ground (arith, h.0), IsTimed-of_fresh ps h.1)

unstarted_of_fresh : (ps : List Ping) → All IsFresh ps → All (λ q. is_uninited q.status ≡ true) ps
unstarted_of_fresh [] h = tt
unstarted_of_fresh (p ∷ ps) h = (h.0.0, unstarted_of_fresh ps h.1)

filled-IsMade :
    (raw size : ℕ) (loop : Built (List Ping)) (t : Task)
    → ((qs : List Ping) → loop ≡ built qs → (length qs ≡ size) × All IsFresh qs)
    → with_pings raw size loop ≡ built t
    → IsMade t
filled-IsMade raw size (built qs) t fresh e =
    let facts = fresh qs refl in
    let whole : Task = record {
      prepare_error = false;
      pre_error_code = 0;
      timestamp = raw;
      total_count = size;
      done_count = 0;
      pings = qs;
    } in
    let same : whole ≡ t = cc in
    subst IsMade same (
      inr (record {
        counts = record {
          sized = sym facts.0;
          counted = sym (closed_of_fresh qs (unstarted_of_fresh qs facts.1));
          timed = IsTimed-of_fresh qs facts.1;
        };
        valid = refl;
        fresh = unstarted_of_fresh qs facts.1;
      }))
filled-IsMade raw size threw t fresh e = cc
filled-IsMade raw size looping t fresh e = cc

new_task-IsMade :
    (raw fuel : ℕ) (body : Body) (t : Task) → new_task raw fuel body ≡ built t → IsMade t
new_task-IsMade raw fuel body t e = elim (new_task_cases raw fuel body) [
  | inl bad ↦ absurd (cc)
  | inr (inl (code, reason, error)) ↦ subst IsMade (cc) (error_task-IsMade raw code)
  | inr (inr (limit, fits, loop)) ↦
      filled-IsMade raw body.servers_size _ t
        (λ qs h.
          let kept =
            fill_loop_keeps raw body.server limit body.servers_size fuel 0
              (new_pings raw body.servers_size) qs h (new_pings-IsFresh raw body.servers_size) in
          (kept.0 ∙ length-new_pings raw body.servers_size, kept.1))
        (sym loop ∙ e)
]

pub make_task-IsMade :
    (raw fuel : ℕ) (req : Request) (t : Task) → make_task raw fuel req ≡ built t → IsMade t
unfolding make_task
make_task-IsMade raw fuel req t e = elim (Bool-cases req.is_post) [
  | inr no_post ↦
      let made : make_task raw fuel req ≡ built (error_task raw 405) = rw no_post refl in
      subst IsMade (cc) (error_task-IsMade raw 405)
  | inl post ↦ elim (Option-cases req.body) [
    | inl bad ↦
        let made : make_task raw fuel req ≡ built (error_task raw 415) = rw post (rw bad refl) in
        subst IsMade (cc) (error_task-IsMade raw 415)
    | inr (body, json) ↦
        let made : make_task raw fuel req ≡ new_task raw fuel body = rw post (rw json refl) in
        new_task-IsMade raw fuel body t (sym made ∙ e)
  ]
]

-- The worker's tables with a task at a new address.
module _ (w : TaskWorker) (p : ℕ) (t : Task) (inv : Inv w) (new : own w p ≡ 0) where
  unfoldable pub stored : TaskWorker
  stored = put_task w p t

  stored_other : (q : ℕ) → q ≢ p → stored.tasks q ≡ w.tasks q
  unfolding stored
  stored_other q ne = (put_task-Touch w p t).others q ne

  stored_self : stored.tasks p ≡ t
  unfolding stored
  stored_self = put_task_self w p t

  absent :
      (occurs p w.task_queue ≡ 0) × (values p w.doing_map ≡ 0) × (occurs p w.response_queue ≡ 0)
  absent = omega (arith, new)

  kept-IsRunning : (s q : ℕ) → find s w.doing_map ≡ some q → IsRunning s (stored.tasks q)
  kept-IsRunning s q h =
      let ne : q ≢ p = λ e.
        omega (arith, absent, values-find s q w.doing_map h, ap (λ r. values r w.doing_map) e) in
      subst (IsRunning s) (sym (stored_other q ne)) (inv.running s q h)

  kept_queued : (q : ℕ) → 1 ≤ occurs q w.task_queue → IsReady (stored.tasks q)
  kept_queued q h =
      let ne : q ≢ p = λ e. omega (arith, absent, ap (λ r. occurs r w.task_queue) e) in
      subst IsReady (sym (stored_other q ne)) (inv.queued q h)

  kept-IsAnswered : (q : ℕ) → 1 ≤ occurs q w.response_queue → IsAnswered (stored.tasks q)
  kept-IsAnswered q h =
      let ne : q ≢ p = λ e. omega (arith, absent, ap (λ r. occurs r w.response_queue) e) in
      subst IsAnswered (sym (stored_other q ne)) (inv.answered q h)

  pub enqueue-own : (q : ℕ) → own (enqueue_task stored p) q ≡ own w q + (if q == p then 1 else 0)
  unfolding enqueue_task stored put_task occurs
  enqueue-own q = ground arith

  pub enqueue-Inv : IsReady t → Inv (enqueue_task stored p)
  enqueue-Inv made = record {
    is_map = unfold enqueue_task stored put_task in inv.is_map;
    counted = unfold enqueue_task stored put_task in inv.counted;
    bounded = unfold enqueue_task stored put_task in inv.bounded;
    task_wakeups = unfold enqueue_task stored put_task in omega (arith, inv.task_wakeups);
    response_wakeups = unfold enqueue_task stored put_task in inv.response_wakeups;
    unique = λ q. enqueue_unique q;
    running = unfold enqueue_task stored put_task in kept-IsRunning;
    queued = λ q h. elim (ℕ_discrete q p) [
      | yes e ↦
          unfold enqueue_task in
          subst (λ r. IsReady (stored.tasks r)) (sym e) (subst IsReady (sym stored_self) made)
      | no ne ↦
          let old : 1 ≤ occurs q w.task_queue =
            unfold enqueue_task stored put_task occurs in ground arith in
          unfold enqueue_task in kept_queued q old
    ];
    answered = unfold enqueue_task stored put_task in kept-IsAnswered;
  }
    where
      enqueue_unique : (q : ℕ) → own (enqueue_task stored p) q ≤ 1
      enqueue_unique q = elim (ℕ_discrete q p) [
        | yes e ↦ ground (arith, enqueue-own q, new, ap (own w) e)
        | no ne ↦ ground (arith, enqueue-own q, inv.unique q)
      ]

  pub send-own : (q : ℕ) → own (send_to_master stored p) q ≡ own w q + (if q == p then 1 else 0)
  unfolding send_to_master stored put_task occurs
  send-own q = ground arith

  pub send-Inv : IsAnswered t → Inv (send_to_master stored p)
  send-Inv made = record {
    is_map = unfold send_to_master stored put_task in inv.is_map;
    counted = unfold send_to_master stored put_task in inv.counted;
    bounded = unfold send_to_master stored put_task in inv.bounded;
    task_wakeups = unfold send_to_master stored put_task in inv.task_wakeups;
    response_wakeups = unfold send_to_master stored put_task in omega (arith, inv.response_wakeups);
    unique = λ q. send_unique q;
    running = unfold send_to_master stored put_task in kept-IsRunning;
    queued = unfold send_to_master stored put_task in kept_queued;
    answered = λ q h. elim (ℕ_discrete q p) [
      | yes e ↦
          unfold send_to_master in
          subst (λ r. IsAnswered (stored.tasks r)) (sym e) (subst IsAnswered (sym stored_self) made)
      | no ne ↦
          let old : 1 ≤ occurs q w.response_queue =
            unfold send_to_master stored put_task occurs in ground arith in
          unfold send_to_master in kept-IsAnswered q old
    ];
  }
    where
      send_unique : (q : ℕ) → own (send_to_master stored p) q ≤ 1
      send_unique q = elim (ℕ_discrete q p) [
        | yes e ↦ ground (arith, send-own q, new, ap (own w) e)
        | no ne ↦ ground (arith, send-own q, inv.unique q)
      ]
