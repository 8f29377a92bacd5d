-- ===== src/TaskWorker/Weight.antt =====
-- How much work is left in the tables of a worker: a queued task weighs two and its open pings, a
-- task at work one and its open pings, a task to be answered one.
use async_ping.Prelude.{
  ℕ, zero, suc, ◌+◌, ◌<◌, ◌≡◌, ◌≢◌, refl, inl, inr, true, false, some, List, [], ◌∷◌, arith, length,
  get_elem?, set, ◌∙◌, ap, Bool-cases, if◌then◌else◌,
}
use native.Mathlib.Decide.{ℕ_discrete}
use async_ping.Fifo.{occurs}
use async_ping.Dictionary.{Dictionary, find, values, erase, values-find}
use async_ping.Ping.{Ping, is_open}
use async_ping.Task.{is_complete}
use async_ping.TaskWorker.{TaskWorker, put_ping, count_done, on_complete, send_to_master}
use async_ping.TaskWorker.Invariant.{Inv, Touch}
use async_ping.TaskWorker.Moves.{completed}
use async_ping.TaskWorker.Pings.{
  close_ping, put_ping-tasks, put_ping-Touch, counted, counted-tasks, counted-Touch,
  count_done-counted,
}

unfoldable pub opened : List Ping → ℕ
opened [] = 0
opened (me ∷ ps) = (if is_open me.status then 1 else 0) + opened ps

opened-set :
    (ps : List Ping) (i : ℕ) (me next : Ping)
    → get_elem? ps i ≡ some me
    → opened (set ps i next) + (if is_open me.status then 1 else 0)
      ≡ opened ps + (if is_open next.status then 1 else 0)
unfolding opened
opened-set [] i me next h = cc
opened-set (x ∷ xs) zero me next h = ground arith
opened-set (x ∷ xs) (suc i) me next h = ground (arith, opened-set xs i me next h)

-- Sums of `f` over a queue and over the values of a map.
unfoldable pub sum_queue : (ℕ → ℕ) → List ℕ → ℕ
sum_queue f [] = 0
sum_queue f (p ∷ q) = 2 + f p + sum_queue f q

unfoldable pub sum_map : (ℕ → ℕ) → Dictionary → ℕ
sum_map f [] = 0
sum_map f ((k, p) ∷ m) = 1 + f p + sum_map f m

abbrev pub open_at : TaskWorker → ℕ → ℕ
open_at w p = opened (w.tasks p).pings

unfoldable pub weight : TaskWorker → ℕ
unfolding sum_queue sum_map
weight w =
    sum_queue (open_at w) w.task_queue + sum_map (open_at w) w.doing_map + length w.response_queue

pub sum_queue_same :
    (f g : ℕ → ℕ) (p : ℕ) (q : List ℕ)
    → occurs p q ≡ 0
    → ((x : ℕ) → x ≢ p → f x ≡ g x)
    → sum_queue f q ≡ sum_queue g q
unfolding sum_queue occurs
sum_queue_same f g p [] h e = refl
sum_queue_same f g p (x ∷ xs) h e = elim (ℕ_discrete x p) [
  | yes s ↦ absurd (ground arith)
  | no ne ↦ ground (arith, sum_queue_same f g p xs, e x ne)
]

pub sum_map_same :
    (f g : ℕ → ℕ) (p : ℕ) (m : Dictionary)
    → values p m ≡ 0
    → ((x : ℕ) → x ≢ p → f x ≡ g x)
    → sum_map f m ≡ sum_map g m
unfolding sum_map values
sum_map_same f g p [] h e = refl
sum_map_same f g p ((k, x) ∷ m) h e = elim (ℕ_discrete x p) [
  | yes s ↦ absurd (ground arith)
  | no ne ↦ ground (arith, sum_map_same f g p m, e x ne)
]

sum_map_once :
    (f g : ℕ → ℕ) (p : ℕ) (m : Dictionary)
    → values p m ≡ 1
    → ((x : ℕ) → x ≢ p → f x ≡ g x)
    → sum_map f m + g p ≡ sum_map g m + f p
unfolding sum_map values
sum_map_once f g p [] h e = absurd (omega arith)
sum_map_once f g p ((k, x) ∷ m) h e = elim (ℕ_discrete x p) [
  | yes s ↦
      let rest = sum_map_same f g p m (ground arith) e in
      let same = ap f s in let same' = ap g s in omega arith
  | no ne ↦ let head = e x ne in let rest = sum_map_once f g p m (ground arith) e in omega arith
]

sum_map-erase :
    (f : ℕ → ℕ) (k p : ℕ) (m : Dictionary)
    → find k m ≡ some p
    → sum_map f m ≡ sum_map f (erase k m) + f p + 1
unfolding sum_map find erase
sum_map-erase f k p [] h = cc
sum_map-erase f k p ((j, x) ∷ m) h = ground (arith, sum_map-erase f k p m)

module _ (w v : TaskWorker) (p ts : ℕ) (inv : Inv w) (touch : Touch w v p)
    (here : find ts w.doing_map ≡ some p) where
  once : (occurs p w.task_queue ≡ 0) × (values p w.doing_map ≡ 1)
  once = omega (arith, inv.unique p, values-find ts p w.doing_map here)

  weight-Touch : weight v + open_at w p ≡ weight w + open_at v p
  unfolding weight
  weight-Touch =
      let other = λ (x : ℕ) (ne : x ≢ p). ap (λ t. opened t.pings) (touch.others x ne) in
      rw (touch.doing_map, touch.task_queue, touch.response_queue)
        (omega (
          arith,
          sum_queue_same (open_at v) (open_at w) p w.task_queue once.0 other,
          sum_map_once (open_at v) (open_at w) p w.doing_map once.1 other,
        ))

  weight-on_complete :
      (v.tasks p).timestamp ≡ ts → weight (on_complete v p) + open_at v p ≡ weight v
  unfolding weight send_to_master
  weight-on_complete e =
      let there : find ts v.doing_map ≡ some p = ap (find ts) touch.doing_map ∙ here in
      rw (completed w v p ts inv touch here e)
        (omega (arith, sum_map-erase (open_at v) ts p v.doing_map there))

module _ (w : TaskWorker) (p ts i : ℕ) (me next : Ping) (inv : Inv w)
    (here : find ts w.doing_map ≡ some p) (at : get_elem? (w.tasks p).pings i ≡ some me) where
  -- A write that leaves a ping open, or done, leaves the weight.
  pub put_ping-weight :
      is_open next.status ≡ is_open me.status → weight (put_ping w p i next) ≡ weight w
  put_ping-weight same =
      let e = ap (λ t. opened t.pings) (put_ping-tasks w p i next) in
      let moved = weight-Touch w (put_ping w p i next) p ts inv (put_ping-Touch w p i next) here in
      let change = opened-set (w.tasks p).pings i me next at in ground (arith, e, moved, change)

  -- Counting a ping as done takes at least one away.
  pub count_done-weight :
      is_open me.status ≡ true
      → is_open next.status ≡ false
      → weight (count_done (put_ping w p i next) p) < weight w
  count_done-weight was now =
      let v = counted w p i next in
      let task = counted-tasks w p i next in
      let e = ap (λ t. opened t.pings) task in
      let moved = weight-Touch w v p ts inv (counted-Touch w p i next) here in
      let change = opened-set (w.tasks p).pings i me next at in
      let less : weight v < weight w = ground (arith, e, moved, change) in
      let stamp : (v.tasks p).timestamp ≡ ts =
        ap (λ t. t.timestamp) task ∙ (inv.running ts p here).stamp in
      rw (count_done-counted w p i next)
        (elim (Bool-cases (is_complete (close_ping (w.tasks p) i next))) [
          | inl last ↦
              rw last (
                omega
                  (arith, weight-on_complete w v p ts inv (counted-Touch w p i next) here stamp))
          | inr more ↦ rw more less
        ])
