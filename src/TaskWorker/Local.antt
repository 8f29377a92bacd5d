-- ===== src/TaskWorker/Local.antt =====
-- What a handler does stays with one task: the others keep their fields and their entries in the
-- map, and no ping goes back to waiting for its start.
pub mod Starts
use async_ping.Prelude.{
  ℕ, zero, suc, ◌+◌, ◌≤◌, ◌<◌, ◌≡◌, ◌≢◌, refl, inl, inr, Bool, true, false, none, some, List, [],
  ◌∷◌, arith, get_elem?, get_elem?-set_self, set, ◌∙◌, sym, ap, subst, Bool-cases, Option-cases,
}
use native.Mathlib.Decide.{ℕ_discrete}
use async_ping.Dictionary.{find, IsMap, erase, erase-IsMap, find-erase_ne, find-erase_self}
use async_ping.Ping.{
  Ping, Status, timeout, uninited, doing, send_error, success, is_open, is_uninited,
}
use async_ping.Task.{is_complete}
use async_ping.TaskWorker.{
  TaskWorker, SendResult, put_task, put_ping, send_to_master, on_complete, count_done, fail_send,
  start, start_loop,
}
use async_ping.TaskWorker.Invariant.{Touch}
use async_ping.TaskWorker.Moves.{put_task_self, put_task-Touch}
use async_ping.TaskWorker.Pings.{put_ping-tasks, put_ping-Touch}

-- Whether ping `j` was never started.
unfoldable pub waits : List Ping → ℕ → Bool
waits [] j = false
waits (me ∷ ps) zero = is_uninited me.status
waits (me ∷ ps) (suc j) = waits ps j

waits-set :
    (ps : List Ping) (i j : ℕ) (me next : Ping)
    → get_elem? ps i ≡ some me
    → (is_uninited me.status ≡ false → is_uninited next.status ≡ false)
    → waits ps j ≡ false
    → waits (set ps i next) j ≡ false
unfolding waits
waits-set [] i j me next at keep h = h
waits-set (x ∷ xs) zero zero me next at keep h = keep (ground arith)
waits-set (x ∷ xs) zero (suc j) me next at keep h = h
waits-set (x ∷ xs) (suc i) zero me next at keep h = h
waits-set (x ∷ xs) (suc i) (suc j) me next at keep h = waits-set xs i j me next at keep h

waits-set_self :
    (ps : List Ping) (i : ℕ) (me next : Ping)
    → get_elem? ps i ≡ some me
    → is_uninited next.status ≡ false
    → waits (set ps i next) i ≡ false
unfolding waits
waits-set_self [] i me next at h = refl
waits-set_self (x ∷ xs) zero me next at h = h
waits-set_self (x ∷ xs) (suc i) me next at h = waits-set_self xs i me next at h

waits-get :
    (ps : List Ping) (i : ℕ) (me : Ping)
    → get_elem? ps i ≡ some me
    → waits ps i ≡ is_uninited me.status
unfolding waits
waits-get [] i me at = cc
waits-get (x ∷ xs) zero me at = ground arith
waits-get (x ∷ xs) (suc i) me at = waits-get xs i me at

pub record Local (w v : TaskWorker) (p : ℕ) : Type 0 where
  pub others : (q : ℕ) → q ≢ p → v.tasks q ≡ w.tasks q
  pub stamp : (v.tasks p).timestamp ≡ (w.tasks p).timestamp
  pub total : (v.tasks p).total_count ≡ (w.tasks p).total_count
  pub entries : (s : ℕ) → s ≢ (w.tasks p).timestamp → find s v.doing_map ≡ find s w.doing_map
  pub map : IsMap w.doing_map → IsMap v.doing_map
  pub shrinks :
      IsMap w.doing_map → (s q : ℕ) → find s v.doing_map ≡ some q → find s w.doing_map ≡ some q
  pub advanced : (j : ℕ) → waits (w.tasks p).pings j ≡ false → waits (v.tasks p).pings j ≡ false

pub Local-refl : (w : TaskWorker) (p : ℕ) → Local w w p
Local-refl w p = record {
  others = λ q ne. refl;
  stamp = refl;
  total = refl;
  entries = λ s ne. refl;
  map = λ m. m;
  shrinks = λ m s q h. h;
  advanced = λ j h. h;
}

pub Local-trans : {u v w : TaskWorker} {p : ℕ} → Local u v p → Local v w p → Local u w p
Local-trans a b = record {
  others = λ q ne. b.others q ne ∙ a.others q ne;
  stamp = b.stamp ∙ a.stamp;
  total = b.total ∙ a.total;
  entries = λ s ne. b.entries s (λ e. ne (e ∙ a.stamp)) ∙ a.entries s ne;
  map = λ m. b.map (a.map m);
  shrinks = λ m s q h. a.shrinks m s q (b.shrinks (a.map m) s q h);
  advanced = λ j h. b.advanced j (a.advanced j h);
}

module _ (w : TaskWorker) (p : ℕ) where
  -- A write to the task that keeps its stamp and its size.
  Touch-Local :
      (v : TaskWorker)
      → Touch w v p
      → (v.tasks p).timestamp ≡ (w.tasks p).timestamp
      → (v.tasks p).total_count ≡ (w.tasks p).total_count
      → ((j : ℕ) → waits (w.tasks p).pings j ≡ false → waits (v.tasks p).pings j ≡ false)
      → Local w v p
  Touch-Local v touch e f adv = record {
    others = touch.others;
    stamp = e;
    total = f;
    entries = λ s ne. ap (find s) touch.doing_map;
    map = λ m. subst IsMap (sym touch.doing_map) m;
    shrinks = λ m s q h. sym (ap (find s) touch.doing_map) ∙ h;
    advanced = adv;
  }

  pub put_ping-Local :
      (i : ℕ) (me next : Ping)
      → get_elem? (w.tasks p).pings i ≡ some me
      → (is_uninited me.status ≡ false → is_uninited next.status ≡ false)
      → Local w (put_ping w p i next) p
  put_ping-Local i me next at keep =
      let e = put_ping-tasks w p i next in
      Touch-Local (put_ping w p i next) (put_ping-Touch w p i next) (ap (λ t. t.timestamp) e)
        (ap (λ t. t.total_count) e)
        (λ j h. ap (λ t. waits t.pings j) e ∙ waits-set (w.tasks p).pings i j me next at keep h)

  pub put_ping_started :
      (i : ℕ) (me next : Ping)
      → get_elem? (w.tasks p).pings i ≡ some me
      → is_uninited next.status ≡ false
      → waits ((put_ping w p i next).tasks p).pings i ≡ false
  put_ping_started i me next at h =
      ap (λ t. waits t.pings i) (put_ping-tasks w p i next)
      ∙ waits-set_self (w.tasks p).pings i me next at h

  on_complete-Local : Local w (on_complete w p) p
  unfolding on_complete send_to_master
  on_complete-Local = elim (Option-cases (find (w.tasks p).timestamp w.doing_map)) [
    | inl gone ↦
        rw (gone, on_complete)
          (record {
            others = λ q ne. refl;
            stamp = refl;
            total = refl;
            entries = λ s ne. refl;
            map = λ m. m;
            shrinks = λ m s q h. h;
            advanced = λ j h. h;
          })
    | inr (q, here) ↦
        rw (here, on_complete)
          (record {
            others = λ q ne. refl;
            stamp = refl;
            total = refl;
            entries = λ s ne. find-erase_ne (w.tasks p).timestamp s w.doing_map ne;
            map = λ m. erase-IsMap (w.tasks p).timestamp w.doing_map m;
            shrinks = λ m s r h. erased m s r h;
            advanced = λ j h. h;
          })
  ]
    where
      erased :
          IsMap w.doing_map
          → (s r : ℕ) → find s (erase (w.tasks p).timestamp w.doing_map) ≡ some r
          → find s w.doing_map ≡ some r
      erased m s r h = elim (ℕ_discrete s (w.tasks p).timestamp) [
        | yes e ↦
            let there = ap (λ k. find k (erase (w.tasks p).timestamp w.doing_map)) (sym e) ∙ h in
            absurd (cc (find-erase_self (w.tasks p).timestamp w.doing_map m))
        | no ne ↦ sym (find-erase_ne (w.tasks p).timestamp s w.doing_map ne) ∙ h
      ]

-- `doneCount ++`, and what may follow.
pub count_done-Local : (w : TaskWorker) (p : ℕ) → Local w (count_done w p) p
unfolding count_done
count_done-Local w p =
    let t = record (w.tasks p) { done_count = (w.tasks p).done_count + 1 } in
    let e = put_task_self w p t in
    let counted =
      Touch-Local w p (put_task w p t) (put_task-Touch w p t) (ap (λ u. u.timestamp) e)
        (ap (λ u. u.total_count) e) (λ j h. ap (λ u. waits u.pings j) e ∙ h) in
    elim (Bool-cases (is_complete t)) [
      | inl last ↦ rw last (Local-trans counted (on_complete-Local (put_task w p t) p))
      | inr more ↦ rw more counted
    ]

-- A ping that does not wait for its start was started.
pub started_of :
    (ps : List Ping) (i : ℕ) (me : Ping)
    → get_elem? ps i ≡ some me
    → waits ps i ≡ false
    → is_uninited me.status ≡ false
unfolding waits
started_of [] i me at h = cc
started_of (x ∷ xs) zero me at h = ground arith
started_of (x ∷ xs) (suc i) me at h = started_of xs i me at h
