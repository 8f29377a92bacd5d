-- ===== src/Tests/Queue.antt =====
-- A queue that is made, refuses a value, takes one and gives it back.
use async_ping.Prelude.{
  ℕ, ◌≡◌, ◌≢◌, refl, true, false, Option, none, some, List, [], ◌∷◌, arith, ◌+◌, length,
}
use async_ping.CommonList.{
  Heap, load_next, load_prev, load_value, store_next, store_prev, new_node, delete_node,
}
use async_ping.CommonList.Dequeue.{
  Dequeue, new_dequeue, link_head, push_head, unlink, pop_tail, try_pop_tail, delete_dequeue,
}
use async_ping.CommonList.Dequeue.Extent.{bit}
use async_ping.CommonList.Dequeue.Leak.{Run-leaks}
use async_ping.Fifo.{occurs}
use async_ping.CommonList.Dequeue.History.{
  Trace, Run, here, next, pushes, pops, try_pops, IsFifo, Run-IsFifo,
}

abbrev unused : Heap ℕ
unused = record { live = λ p. false; next = λ p. 0; prev = λ p. 0; value = λ p. 0 }

abbrev sentinels : Dequeue
sentinels = record { head = 1; tail = 2 }

abbrev heap_of : {B : Type 0} → Option (B × Heap ℕ) → Heap ℕ
heap_of none = unused
heap_of (some (b, h)) = h

abbrev made : Heap ℕ
made = heap_of (new_dequeue 1 2 0 unused)

abbrev refused : Heap ℕ
refused = heap_of (push_head 16 3 7 sentinels made)

abbrev full : Heap ℕ
full = heap_of (push_head 0 3 8 sentinels refused)

abbrev emptied : Heap ℕ
emptied = heap_of (pop_tail 0 sentinels full)

made_run : new_dequeue 1 2 0 unused ≡ some (sentinels, made)
unfolding new_dequeue new_node store_next store_prev
made_run = refl

abbrev history : Trace ℕ
history = record { heap = emptied; accepted = 8 ∷ []; given = 8 ∷ [] }

three_zero : ◌≢◌ {A = ℕ} 3 0
three_zero e = omega arith

history-Run : Run sentinels (record { heap = made; accepted = []; given = [] }) history
unfolding new_dequeue new_node delete_node store_next store_prev push_head link_head load_next
    load_prev load_value unlink pop_tail
history-Run =
    next
      (next (next here (pushes 16 3 7 false refused refl (λ e. three_zero e) refl))
        (pushes 0 3 8 true full refl (λ e. three_zero e) refl))
      (pops 0 (some 8) emptied refl)

one_two : ◌≢◌ {A = ℕ} 1 2
one_two e = omega arith

Run-IsFifo_example : IsFifo sentinels history
Run-IsFifo_example =
    Run-IsFifo unused made 1 2 0 sentinels history (λ e. one_two e) made_run history-Run

-- A queue that takes a value, gives it by `tryPopTail`, and is destroyed.
abbrev one : Heap ℕ
one = heap_of (push_head 0 3 8 sentinels made)

abbrev tried : Heap ℕ
tried = heap_of (try_pop_tail 0 sentinels one)

abbrev tries : Trace ℕ
tries = record { heap = tried; accepted = 8 ∷ []; given = 8 ∷ [] }

tries-Run : Run sentinels (record { heap = made; accepted = []; given = [] }) tries
unfolding new_dequeue new_node delete_node store_next store_prev push_head link_head load_next
    load_prev load_value unlink try_pop_tail
tries-Run =
    next (next here (pushes 0 3 8 true one refl (λ e. three_zero e) refl))
      (try_pops 0 (some 8) tried refl)

two_zero : ◌≢◌ {A = ℕ} 2 0
two_zero e = omega arith

Run-leaks_example :
    (fuel : ℕ) × (k : Heap ℕ) × (leaked : List ℕ) × (delete_dequeue fuel sentinels tried
      ≡ some (tt, k))
    × (length leaked ≡ 1)
    × ((x : ℕ) → bit (k.live x) ≡ 0 + occurs x leaked)
unfolding tries-Run
Run-leaks_example =
    Run-leaks unused made 1 2 0 sentinels tries (λ e. one_two e) (λ e. two_zero e) refl refl
      made_run tries-Run
