-- ===== src/TaskWorker/Told.antt =====
-- What the history of a worker shows, and how the pings of a task are told by it.
pub mod Handlers
use native.Mathlib.Decide.{ℕ_discrete}
use async_ping.Prelude.{
  ℕ, zero, suc, ◌+◌, ◌≤◌, ◌≡◌, ◌≢◌, ◌⊎◌, refl, inl, inr, Bool, true, false, none, some, List, [],
  ◌∷◌, ◌++◌, arith, get_elem?, get_elem?-set_self, set, length, All, ◌∙◌, sym, ap, subst,
  Bool-cases, ◌&&◌, if◌then◌else◌,
}
use async_ping.Ping.{
  Ping, Status, timeout, uninited, doing, send_error, success, is_open, is_success, is_uninited,
}
use async_ping.Task.{Task, is_complete}
use async_ping.TaskWorker.{TaskWorker, SendResult, put_task, put_ping, count_done}
use async_ping.TaskWorker.Alike.{on_complete-tasks}
use async_ping.TaskWorker.Moves.{put_task_self, put_task-Touch}

-- A datagram for ping `index` of the task with the time `ts` came at the time `now`; the timer of
-- that ping fired; a task was taken under `ts`, and `env` is what its sends met; a task was taken while
-- 1024 were at work.
pub data Event : Type 0 where
  came : (ts index now : ℕ) → Event
  fired : (ts index : ℕ) → Event
  began : (ts : ℕ) (env : ℕ → SendResult) → Event
  full : Event

abbrev pub In : Event → List Event → Type 0
In x [] = ⊥
In x (y ∷ l) = (x ≡ y) ⊎ In x l

pub In-more : (new events : List Event) (x : Event) → In x events → In x (new ++ events)
In-more [] events x h = h
In-more (y ∷ new) events x h = inr (In-more new events x h)

-- What must have happened to ping `i` for it to have the status, with its two times.
abbrev pub Known : List Event → (ts i sent received : ℕ) → Status → Type 0
Known events ts i sent received timeout = In (fired ts i) events
Known events ts i sent received uninited = Unit
Known events ts i sent received doing =
    (env : ℕ → SendResult) × In (began ts env) events × (sent ≡ (env i).now)
Known events ts i sent received send_error =
    (env : ℕ → SendResult) × In (began ts env) events
    × (((env i).converted && (env i).sent) ≡ false)
Known events ts i sent received success =
    (env : ℕ → SendResult) × In (began ts env) events
    × (sent ≡ (env i).now)
    × In (came ts i received) events

abbrev pub PingKnown : List Event → (ts i : ℕ) → Ping → Type 0
PingKnown events ts i q = Known events ts i q.sendtime q.recvtime q.status

-- From index `i` on.
abbrev pub Told : List Event → (ts i : ℕ) → List Ping → Type 0
Told events ts i [] = Unit
Told events ts i (q ∷ qs) = PingKnown events ts i q × Told events ts (suc i) qs

-- The error of a full worker was met by a full worker.
pub record TaskTold (events : List Event) (t : Task) : Type 0 where
  pub refused : (t.pre_error_code ≢ 1005) ⊎ In full events
  pub pings : Told events t.timestamp 0 t.pings

Known-more :
    (new events : List Event) (ts i sent received : ℕ) (s : Status)
    → Known events ts i sent received s
    → Known (new ++ events) ts i sent received s
Known-more new events ts i sent received timeout h = In-more new events (fired ts i) h
Known-more new events ts i sent received uninited h = tt
Known-more new events ts i sent received doing (env, h, e) =
    (env, In-more new events (began ts env) h, e)
Known-more new events ts i sent received send_error (env, h, e) =
    (env, In-more new events (began ts env) h, e)
Known-more new events ts i sent received success (env, h, e, k) =
    (env, In-more new events (began ts env) h, e, In-more new events (came ts i received) k)

Told-more :
    (new events : List Event) (ts i : ℕ) (ps : List Ping)
    → Told events ts i ps
    → Told (new ++ events) ts i ps
Told-more new events ts i [] h = tt
Told-more new events ts i (q ∷ qs) h = (
  Known-more new events ts i q.sendtime q.recvtime q.status h.0,
  Told-more new events ts (suc i) qs h.1,
)

pub TaskTold-more :
    (new events : List Event) (t : Task) → TaskTold events t → TaskTold (new ++ events) t
TaskTold-more new events t h = record {
  refused = elim h.refused [ inl other ↦ inl other | inr met ↦ inr (In-more new events full met) ];
  pings = Told-more new events t.timestamp 0 t.pings h.pings;
}

-- Pings that no worker has touched.
pub Told-fresh :
    (events : List Event) (ts i : ℕ) (ps : List Ping)
    → All (λ q. is_uninited q.status ≡ true) ps
    → Told events ts i ps
Told-fresh events ts i [] h = tt
Told-fresh events ts i (q ∷ qs) h = (untouched q.status h.0, Told-fresh events ts (suc i) qs h.1)
  where
    untouched : (s : Status) → is_uninited s ≡ true → Known events ts i q.sendtime q.recvtime s
    untouched uninited e = tt
    untouched timeout e = cc
    untouched doing e = cc
    untouched send_error e = cc
    untouched success e = cc

Told-set :
    (events : List Event) (ts k i : ℕ) (ps : List Ping) (me next : Ping)
    → get_elem? ps i ≡ some me
    → (PingKnown events ts (k + i) me → PingKnown events ts (k + i) next)
    → Told events ts k ps
    → Told events ts k (set ps i next)
Told-set events ts k i [] me next at f h = h
Told-set events ts k zero (x ∷ xs) me next at f h =
    let here : k + 0 ≡ k = omega arith in
    let same : x ≡ me = cc in
    (
      subst (λ n. PingKnown events ts n next) here
          (f (
            subst (λ n. PingKnown events ts n me) (sym here)
              (subst (λ q. PingKnown events ts k q) same h.0))),
      h.1,
    )
Told-set events ts k (suc i) (x ∷ xs) me next at f h =
    let there : k + suc i ≡ suc k + i = omega arith in
    (
      h.0,
      Told-set events ts (suc k) i xs me next at
          (subst (λ n. PingKnown events ts n me → PingKnown events ts n next) there f) h.1,
    )

module _ (events : List Event) where
  -- Tasks that were told stay so, with their times.
  pub record Keeps (w v : TaskWorker) : Type 0 where
    pub each : (q : ℕ) → TaskTold events (w.tasks q) → TaskTold events (v.tasks q)
    pub stamp : (q : ℕ) → (v.tasks q).timestamp ≡ (w.tasks q).timestamp

  pub Keeps-refl : (w : TaskWorker) → Keeps w w
  Keeps-refl w = record { each = λ q h. h; stamp = λ q. refl }

  pub Keeps-trans : {u v w : TaskWorker} → Keeps u v → Keeps v w → Keeps u w
  Keeps-trans a b = record {
    each = λ q h. b.each q (a.each q h);
    stamp = λ q. b.stamp q ∙ a.stamp q;
  }

  pub put_task-each :
      (w : TaskWorker) (p : ℕ) (t : Task)
      → (TaskTold events (w.tasks p) → TaskTold events t)
      → (q : ℕ) → TaskTold events (w.tasks q)
      → TaskTold events ((put_task w p t).tasks q)
  put_task-each w p t f q h = elim (ℕ_discrete q p) [
    | yes e ↦
        subst (λ k. TaskTold events ((put_task w p t).tasks k)) (sym e)
          (subst (TaskTold events) (sym (put_task_self w p t))
            (f (subst (λ k. TaskTold events (w.tasks k)) e h)))
    | no ne ↦ subst (TaskTold events) (sym ((put_task-Touch w p t).others q ne)) h
  ]

  put_task-Keeps :
      (w : TaskWorker) (p : ℕ) (t : Task)
      → t.timestamp ≡ (w.tasks p).timestamp
      → (TaskTold events (w.tasks p) → TaskTold events t)
      → Keeps w (put_task w p t)
  put_task-Keeps w p t same f = record {
    each = put_task-each w p t f;
    stamp = λ q. elim (ℕ_discrete q p) [
      | yes e ↦
          ap (λ k. ((put_task w p t).tasks k).timestamp) e
          ∙ ap (λ u. u.timestamp) (put_task_self w p t)
          ∙ same
          ∙ sym (ap (λ k. (w.tasks k).timestamp) e)
      | no ne ↦ ap (λ u. u.timestamp) ((put_task-Touch w p t).others q ne)
    ];
  }

  pub put_ping-Keeps :
      (w : TaskWorker) (p i : ℕ) (me next : Ping)
      → get_elem? (w.tasks p).pings i ≡ some me
      → (PingKnown events (w.tasks p).timestamp i me
          → PingKnown events (w.tasks p).timestamp i next)
      → Keeps w (put_ping w p i next)
  unfolding put_ping
  put_ping-Keeps w p i me next at f =
      let ts = (w.tasks p).timestamp in
      let from : i ≡ 0 + i = omega arith in
      let g = subst (λ n. PingKnown events ts n me → PingKnown events ts n next) from f in
      put_task-Keeps w p (record (w.tasks p) { pings = set (w.tasks p).pings i next }) refl
        (λ h. record {
          refused = h.refused;
          pings = Told-set events ts 0 i (w.tasks p).pings me next at g h.pings;
        })

  count_done-Keeps : (w : TaskWorker) (p : ℕ) → Keeps w (count_done w p)
  unfolding count_done
  count_done-Keeps w p =
      let t = record (w.tasks p) { done_count = (w.tasks p).done_count + 1 } in
      let counted =
        put_task-Keeps w p t refl (λ h. record { refused = h.refused; pings = h.pings }) in
      let same = on_complete-tasks (put_task w p t) p in
      elim (Bool-cases (is_complete t)) [
        | inl last ↦ rw last (record {
          each = λ q h. subst (λ f. TaskTold events (f q)) (sym same) (counted.each q h);
          stamp = λ q. ap (λ f. (f q).timestamp) same ∙ counted.stamp q;
        })
        | inr more ↦ rw more counted
      ]

  pub close-Keeps :
      (w : TaskWorker) (p i : ℕ) (me next : Ping)
      → get_elem? (w.tasks p).pings i ≡ some me
      → (PingKnown events (w.tasks p).timestamp i me
          → PingKnown events (w.tasks p).timestamp i next)
      → Keeps w (count_done (put_ping w p i next) p)
  close-Keeps w p i me next at f =
      Keeps-trans (put_ping-Keeps w p i me next at f) (count_done-Keeps (put_ping w p i next) p)
