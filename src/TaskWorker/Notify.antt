-- ===== src/TaskWorker/Notify.antt =====
-- `notifyEventHandler`: a queued task is refused or registered and started.
use native.Mathlib.Decide.{ℕ_discrete}
use async_ping.Prelude.{
  ℕ, suc, ◌+◌, ◌-◌, ◌≤◌, ◌<◌, ◌≡◌, ◌≢◌, refl, inl, inr, true, none, some, List, [], ◌∷◌, arith,
  length, length-append, get_elem?, get_elem?-lt, ◌∙◌, sym, ap, subst, Bool-cases, if◌then◌else◌,
  All, All-get, ◌==◌,
}
use async_ping.Prelude.Int.{pos, ltb_ℤ, ◌+ℤ◌}
use async_ping.Fifo.{pop_tail, pop_cases, occurs, occurs-pop_tail, pop_tail-some, pop_tail-none}
use async_ping.Dictionary.{find, insert-fresh, values, values-find}
use async_ping.Ping.{
  Ping, Status, timeout, uninited, doing, send_error, success, is_uninited, closed,
}
use async_ping.TaskWorker.{
  TaskWorker, SendResult, put_task, refuse_task, register_task, do_task, notify_event,
  send_to_master, doing_task_capacity,
}
use async_ping.TaskWorker.Invariant.{IsReady, IsRunning, IsAnswered, Inv, own, silent_of_fresh}
use async_ping.TaskWorker.Moves.{put_task_self, put_task-Touch}
use async_ping.TaskWorker.Weight.{weight}
use async_ping.TaskWorker.Starting.{start_loop_lem, IsWaiting}
use async_ping.TaskWorker.Handlers.{Handled}

pub closed_of_fresh : (ps : List Ping) → All (λ q. is_uninited q.status ≡ true) ps → closed ps ≡ 0
unfolding closed
closed_of_fresh [] h = refl
closed_of_fresh (p ∷ ps) h = go p.status h.0 (closed_of_fresh ps h.1)
  where
    go :
        (s : Status)
        → is_uninited s ≡ true
        → closed ps ≡ 0
        → closed (record p { status = s } ∷ ps) ≡ 0
    go uninited e rest = ground arith
    go timeout e rest = cc
    go doing e rest = cc
    go send_error e rest = cc
    go success e rest = cc

uninited_of : (s : Status) → is_uninited s ≡ true → s ≡ uninited
uninited_of uninited e = refl
uninited_of timeout e = cc
uninited_of doing e = cc
uninited_of send_error e = cc
uninited_of success e = cc

-- The worker once `p` is popped and the byte is read.
abbrev pub popped : TaskWorker → List ℕ → TaskWorker
popped w rest = record w { task_pipe = w.task_pipe - 1; task_queue = rest }

module _ (w : TaskWorker) (p : ℕ) (rest : List ℕ) (inv : Inv w)
    (pop : pop_tail w.task_queue ≡ some (p, rest)) where
  queue_split : (q : ℕ) → occurs q w.task_queue ≡ occurs q rest + (if q == p then 1 else 0)
  queue_split q = occurs-pop_tail q w.task_queue p rest pop

  was_queued : 1 ≤ occurs p w.task_queue
  was_queued = ground (arith, queue_split p)

  pub ready : IsReady (w.tasks p)
  ready = inv.queued p was_queued

  -- It stands nowhere else.
  pub nowhere : (occurs p rest ≡ 0) × (values p w.doing_map ≡ 0) × (occurs p w.response_queue ≡ 0)
  nowhere = ground (arith, queue_split p, inv.unique p)

  queue_length : length w.task_queue ≡ suc (length rest)
  queue_length =
      ap length (pop_tail-some w.task_queue p rest pop) ∙ omega (arith, length-append rest (p ∷ []))

  not_running : (s q : ℕ) → find s w.doing_map ≡ some q → q ≢ p
  not_running s q h e =
      absurd
        (omega (arith, nowhere, values-find s q w.doing_map h, ap (λ r. values r w.doing_map) e))

  not_waiting : (q : ℕ) → 1 ≤ occurs q rest → q ≢ p
  not_waiting q h e = absurd (omega (arith, nowhere, ap (λ r. occurs r rest) e))

  not_sent : (q : ℕ) → 1 ≤ occurs q w.response_queue → q ≢ p
  not_sent q h e = absurd (omega (arith, nowhere, ap (λ r. occurs r w.response_queue) e))

  refuse-own : (q : ℕ) → own (refuse_task (popped w rest) p) q ≡ own w q
  unfolding refuse_task put_task send_to_master occurs
  refuse-own q = ground (arith, queue_split q)

  pub refuse_other : (q : ℕ) → q ≢ p → (refuse_task (popped w rest) p).tasks q ≡ w.tasks q
  unfolding refuse_task
  refuse_other q ne = (put_task-Touch (popped w rest) p _).others q ne

  refused-IsAnswered : IsAnswered ((refuse_task (popped w rest) p).tasks p)
  unfolding refuse_task
  refused-IsAnswered = subst IsAnswered (sym (put_task_self (popped w rest) p _)) (record {
    silent = silent_of_fresh (w.tasks p).pings ready.fresh ready.counts.timed;
    settled = inl refl;
  })

  refuse-IsAnswered :
      (q : ℕ)
      → 1 ≤ occurs q (refuse_task (popped w rest) p).response_queue
      → IsAnswered ((refuse_task (popped w rest) p).tasks q)
  refuse-IsAnswered q h = elim (ℕ_discrete q p) [
    | yes e ↦
        subst (λ r. IsAnswered ((refuse_task (popped w rest) p).tasks r)) (sym e) refused-IsAnswered
    | no ne ↦
        let old : 1 ≤ occurs q w.response_queue =
          unfold refuse_task send_to_master occurs in ground arith in
        subst IsAnswered (sym (refuse_other q ne)) (inv.answered q old)
  ]

  -- With too many tasks at work the task is answered at once, by error 1005.
  refuse-Handled : Handled w (refuse_task (popped w rest) p)
  refuse-Handled = record {
    inv = record {
      is_map = unfold refuse_task put_task send_to_master in inv.is_map;
      counted = unfold refuse_task put_task send_to_master in inv.counted;
      bounded = unfold refuse_task put_task send_to_master in inv.bounded;
      task_wakeups =
          unfold refuse_task put_task send_to_master in
          omega (arith, inv.task_wakeups, queue_length);
      response_wakeups =
          unfold refuse_task put_task send_to_master in omega (arith, inv.response_wakeups);
      unique = λ q. omega (arith, refuse-own q, inv.unique q);
      running = λ s q h.
          let old : find s w.doing_map ≡ some q = unfold refuse_task put_task send_to_master in h in
          subst (IsRunning s) (sym (refuse_other q (not_running s q old))) (inv.running s q old);
      queued = λ q h.
          let old : 1 ≤ occurs q rest = unfold refuse_task put_task send_to_master in h in
          subst IsReady (sym (refuse_other q (not_waiting q old)))
            (inv.queued q (omega (arith, queue_split q)));
      answered = refuse-IsAnswered;
    };
    owned = refuse-own;
  }

  module _ (now : ℕ) (room : ltb_ℤ w.doing_count (pos doing_task_capacity) ≡ true)
      (unused : find now w.doing_map ≡ none) where
    unfoldable pub registered : TaskWorker
    registered = register_task now (popped w rest) p

    pub registered_other : (q : ℕ) → q ≢ p → registered.tasks q ≡ w.tasks q
    unfolding registered register_task
    registered_other q ne = (put_task-Touch (popped w rest) p _).others q ne

    pub registered_self : registered.tasks p ≡ record (w.tasks p) { timestamp = now }
    unfolding registered register_task
    registered_self = put_task_self (popped w rest) p _

    pub registered-map : registered.doing_map ≡ (now, p) ∷ w.doing_map
    unfolding registered register_task
    registered-map = insert-fresh now p w.doing_map unused

    pub registered-find : find now registered.doing_map ≡ some p
    registered-find = rw registered-map (unfold find in ground arith)

    registered-own : (q : ℕ) → own registered q ≡ own w q
    registered-own q =
        rw registered-map
          (unfold registered register_task put_task values in ground (arith, queue_split q))

    started-IsRunning : IsRunning now (registered.tasks p)
    started-IsRunning = subst (IsRunning now) (sym registered_self) (record {
      counts = record {
        sized = ready.counts.sized;
        counted = ready.counts.counted;
        timed = ready.counts.timed;
      };
      valid = ready.valid;
      stamp = refl;
      unfinished =
          omega (arith, ready.counts.counted, closed_of_fresh (w.tasks p).pings ready.fresh);
    })

    registered-IsRunning :
        (s q : ℕ) → find s registered.doing_map ≡ some q → IsRunning s (registered.tasks q)
    registered-IsRunning s q h = elim (ℕ_discrete s now) [
      | yes e ↦
          let same : q ≡ p = cc (registered-find) in
          subst (λ r. IsRunning r (registered.tasks q)) (sym e)
            (subst (λ r. IsRunning now (registered.tasks r)) (sym same) started-IsRunning)
      | no ne ↦
          let old : find s w.doing_map ≡ some q = unfold find in ground (arith, registered-map) in
          subst (IsRunning s) (sym (registered_other q (not_running s q old))) (inv.running s q old)
    ]

    pub registered-Inv : Inv registered
    registered-Inv = record {
      is_map = rw registered-map (unused, inv.is_map);
      counted =
          rw registered-map
            (unfold registered register_task put_task ◌+ℤ◌ in rw inv.counted (ground arith));
      bounded = rw registered-map (ground (arith, inv.counted));
      task_wakeups =
          unfold registered register_task put_task in omega (arith, inv.task_wakeups, queue_length);
      response_wakeups =
          unfold registered register_task put_task in omega (arith, inv.response_wakeups);
      unique = λ q. omega (arith, registered-own q, inv.unique q);
      running = registered-IsRunning;
      queued = λ q h.
          let old : 1 ≤ occurs q rest = unfold registered register_task put_task in h in
          subst IsReady (sym (registered_other q (not_waiting q old)))
            (inv.queued q (omega (arith, queue_split q)));
      answered = λ q h.
          let old : 1 ≤ occurs q w.response_queue = unfold registered register_task put_task in h in
          subst IsAnswered (sym (registered_other q (not_sent q old))) (inv.answered q old);
    }

    -- Else it is registered, and all of its pings are started.
    pub accept-Handled :
        (env : ℕ → SendResult)
        → (v : TaskWorker) × (do_task env registered p ≡ some v)
          × Handled w v
          × (weight v ≤ weight registered)
    unfolding do_task
    accept-Handled env =
        let done =
          start_loop_lem env (registered.tasks p).total_count 0 registered p now registered-Inv
            registered-find (omega arith) waiting in
        (done.0, done.1, record { inv = done.2; owned = λ q. done.3 q ∙ registered-own q }, done.4)
      where
        waiting :
            (j : ℕ) → 0 ≤ j → j < 0 + (registered.tasks p).total_count → IsWaiting registered p j
        waiting j low high =
            let size = ap (λ t. t.total_count) registered_self in
            let me = get_elem?-lt (w.tasks p).pings j (omega (arith, ready.counts.sized)) in
            (
              me.0,
              ap (λ t. get_elem? t.pings j) registered_self ∙ me.1,
              uninited_of (me.0).status (All-get _ (w.tasks p).pings j me.0 ready.fresh me.1),
            )

-- A worker that is woken finds a task. If no task at work carries the time's stamp, the handler
-- returns, whatever the network answers to the pings; the invariant holds again, and every task is
-- in as many places as before.
pub notify_event-Handled :
    (now : ℕ) (env : ℕ → SendResult) (w : TaskWorker)
    → Inv w
    → 1 ≤ w.task_pipe
    → find now w.doing_map ≡ none
    → (v : TaskWorker) × (notify_event now env w ≡ some v) × Handled w v
unfolding notify_event
notify_event-Handled now env w inv woken unused = elim (pop_cases w.task_queue) [
  | inl empty ↦
      let e = ap length (pop_tail-none w.task_queue empty) in
      absurd (omega (arith, inv.task_wakeups))
  | inr (p, rest, pop) ↦ elim (Bool-cases (ltb_ℤ w.doing_count (pos doing_task_capacity))) [
    | inl room ↦
        let done = accept-Handled w p rest inv pop now room unused env in
        (done.0, rw (pop, notify_event) (rw room (unfold registered in done.1)), done.2)
    | inr full ↦ (_, rw (pop, notify_event) (rw full refl), refuse-Handled w p rest inv pop)
  ]
]
