-- ===== src/HttpServer/Requests.antt =====
-- The two handlers of the master: `handlePingReq` takes a request in, `tryRespEventHandler` answers
-- one.
use native.Mathlib.Decide.{ℕ_discrete}
use async_ping.Prelude.{
  ℕ, ◌+◌, ◌≤◌, ◌≡◌, ◌≢◌, Bool, refl, inl, inr, true, false, none, some, ◌∷◌, arith, ◌∙◌, sym, ap,
  subst, Bool-cases, Option-cases, ◌==◌, if◌then◌else◌,
}
use async_ping.Dictionary.{
  Dictionary, find, erase, has, has-find, has-none, has-cong, IsMap, insert-fresh, find-erase_ne,
  find-erase_self,
}
use async_ping.Task.{Task, Built, built, threw, looping}
use async_ping.TaskWorker.{TaskWorker, put_task, enqueue_task, send_to_master}
use async_ping.TaskWorker.Invariant.{Inv, own}
use async_ping.TaskWorker.Moves.{put_task_self, put_task-Touch}
use async_ping.HttpServer.{HttpServer, Request, make_task, submit, handle_ping_req, then_submit}
use async_ping.HttpServer.Invariant.{
  ServerInv, IsMade, make_task-IsMade, stored, enqueue-own, enqueue-Inv, send-own, send-Inv,
}

find_of_has : (k : ℕ) (m : Dictionary) → has k m ≡ 0 → find k m ≡ none
find_of_has k m h = elim (Option-cases (find k m)) [
  | inl e ↦ e
  | inr (v, e) ↦ absurd (omega (arith, has-find k v m e))
]

pub find_of_has_one : (k : ℕ) (m : Dictionary) → 1 ≤ has k m → (v : ℕ) × (find k m ≡ some v)
find_of_has_one k m h = elim (Option-cases (find k m)) [
  | inl e ↦ absurd (omega (arith, has-none k m e))
  | inr (v, e) ↦ (v, e)
]

has-cons :
    (p r : ℕ) (m : Dictionary) (q : ℕ)
    → find p m ≡ none
    → has q ((p, r) ∷ m) ≡ has q m + (if q == p then 1 else 0)
has-cons p r m q new = elim (ℕ_discrete q p) [
  | yes e ↦
      let top : find q ((p, r) ∷ m) ≡ some r = unfold find in ground arith in
      let test : (q == p) ≡ true = ground arith in
      rw test (omega (arith, has-find q r ((p, r) ∷ m) top, has-none p m new, ap (λ k. has k m) e))
  | no ne ↦
      let down : find q ((p, r) ∷ m) ≡ find q m = unfold find in ground arith in
      let test : (q == p) ≡ false = ground arith in
      rw test (omega (arith, has-cong q ((p, r) ∷ m) m down))
]

pub has-erase :
    (p r : ℕ) (m : Dictionary) (q : ℕ)
    → IsMap m
    → find p m ≡ some r
    → has q (erase p m) + (if q == p then 1 else 0) ≡ has q m
has-erase p r m q unique there = elim (ℕ_discrete q p) [
  | yes e ↦
      let test : (q == p) ≡ true = ground arith in
      rw test (
        omega (
          arith,
          has-none p (erase p m) (find-erase_self p m unique),
          has-find p r m there,
          ap (λ k. has k m) e,
          ap (λ k. has k (erase p m)) e,
        ))
  | no ne ↦
      let test : (q == p) ≡ false = ground arith in
      rw test (omega (arith, has-cong q (erase p m) m (find-erase_ne p q m ne)))
]

-- The worker's tables after `submit`.
abbrev pub submitted : HttpServer → ℕ → Task → TaskWorker
submitted s p t =
    if t.prepare_error
    then send_to_master (put_task s.worker p t) p
    else enqueue_task (put_task s.worker p t) p

module _ (s : HttpServer) (p request : ℕ) (t : Task) (inv : ServerInv s)
    (new : own s.worker p ≡ 0) where
  unknown : find p s.doing_request ≡ none
  unknown = find_of_has p s.doing_request (omega (arith, inv.owned p, new))

  pub submit_lem :
      submit s p request t
      ≡ record s { doing_request = (p, request) ∷ s.doing_request; worker = submitted s p t }
  unfolding submit
  submit_lem = rw (unknown, submit) (rw (insert-fresh p request s.doing_request unknown) refl)

  submitted-Inv : IsMade t → Inv (submitted s p t)
  submitted-Inv (inl (error, made)) =
      simp error (unfold stored in send-Inv s.worker p t inv.worker new made)
  submitted-Inv (inr made) =
      simp (made.valid) (unfold stored in enqueue-Inv s.worker p t inv.worker new made)

  submitted-own : (q : ℕ) → own (submitted s p t) q ≡ own s.worker q + (if q == p then 1 else 0)
  submitted-own q = elim (Bool-cases t.prepare_error) [
    | inl error ↦ simp error (unfold stored in send-own s.worker p t inv.worker new q)
    | inr valid ↦ simp valid (unfold stored in enqueue-own s.worker p t inv.worker new q)
  ]

  -- A request is registered with its task, which goes to the worker or straight back.
  pub submit-ServerInv : IsMade t → ServerInv (submit s p request t)
  submit-ServerInv made = rw submit_lem (record {
    worker = submitted-Inv made;
    is_map = (unknown, inv.is_map);
    owned = λ q.
        submitted-own q ∙ omega (arith, inv.owned q, has-cons p request s.doing_request q unknown);
  })

-- `handlePingReq` at an unused address: either the request's body makes the constructor of the task
-- throw or run on, or the request is registered.
pub handle_ping_req-ServerInv :
    (raw fuel : ℕ) (s s' : HttpServer) (p : ℕ) (req : Request)
    → ServerInv s
    → own s.worker p ≡ 0
    → handle_ping_req raw fuel s p req ≡ built s'
    → ServerInv s' × (s'.doing_request ≡ (p, req.id) ∷ s.doing_request) × (s'.sent ≡ s.sent)
unfolding handle_ping_req
handle_ping_req-ServerInv raw fuel s s' p req inv new e = go (make_task raw fuel req) refl e
  where
    go :
        (m : Built Task)
        → make_task raw fuel req ≡ m
        → then_submit s p req.id m ≡ built s'
        → ServerInv s' × (s'.doing_request ≡ (p, req.id) ∷ s.doing_request) × (s'.sent ≡ s.sent)
    go (built t) made h =
        let same : submit s p req.id t ≡ s' = cc in
        subst
          (λ r. ServerInv r × (r.doing_request ≡ (p, req.id) ∷ s.doing_request) × (r.sent ≡ s.sent))
          same
          (
            submit-ServerInv s p req.id t inv new (make_task-IsMade raw fuel req t made),
            ap (λ r. r.doing_request) (submit_lem s p req.id t inv new),
            ap (λ r. r.sent) (submit_lem s p req.id t inv new),
          )
    go threw made h = cc
    go looping made h = cc

-- What it does to the worker.
pub handle_ping_req_worker :
    (raw fuel : ℕ) (s s' : HttpServer) (p : ℕ) (req : Request)
    → ServerInv s
    → own s.worker p ≡ 0
    → handle_ping_req raw fuel s p req ≡ built s'
    → (t : Task) × (s'.worker ≡ submitted s p t) × (make_task raw fuel req ≡ built t)
unfolding handle_ping_req
handle_ping_req_worker raw fuel s s' p req inv new e = go (make_task raw fuel req) refl e
  where
    go :
        (m : Built Task)
        → make_task raw fuel req ≡ m
        → then_submit s p req.id m ≡ built s'
        → (t : Task) × (s'.worker ≡ submitted s p t) × (make_task raw fuel req ≡ built t)
    go (built t) made h =
        let same : submit s p req.id t ≡ s' = cc in
        (t, ap (λ r. r.worker) (sym same ∙ submit_lem s p req.id t inv new), made)
    go threw made h = cc
    go looping made h = cc

-- It writes to no other task.
pub submitted_other :
    (s : HttpServer) (p q : ℕ) (t : Task) → q ≢ p → (submitted s p t).tasks q ≡ s.worker.tasks q
submitted_other s p q t ne = go t.prepare_error
  where
    go :
        (bad : Bool)
        → (if bad
              then send_to_master (put_task s.worker p t) p
              else enqueue_task (put_task s.worker p t) p).tasks
            q
          ≡ s.worker.tasks q
    go true = unfold send_to_master in (put_task-Touch s.worker p t).others q ne
    go false = unfold enqueue_task in (put_task-Touch s.worker p t).others q ne

pub submitted_self : (s : HttpServer) (p : ℕ) (t : Task) → (submitted s p t).tasks p ≡ t
submitted_self s p t = go t.prepare_error
  where
    go :
        (bad : Bool)
        → (if bad
              then send_to_master (put_task s.worker p t) p
              else enqueue_task (put_task s.worker p t) p).tasks
            p
          ≡ t
    go true = unfold send_to_master in put_task_self s.worker p t
    go false = unfold enqueue_task in put_task_self s.worker p t
