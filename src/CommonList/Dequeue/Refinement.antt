-- ===== src/CommonList/Dequeue/Refinement.antt =====
-- `ConcurrentDequeue` implements the queue of Fifo.
use async_ping.Prelude.{
  ℕ, ◌≡◌, ◌≢◌, refl, inl, inr, true, false, Option, none, some, List, [], ◌∷◌, arith, ◌∙◌, sym, ap,
  subst, ◌==◌,
}
use async_ping.Fifo
use async_ping.CommonList.{Heap, update, store_next, store_prev, new_node}
use async_ping.CommonList.Dequeue.{Dequeue, new_dequeue, push_head, pop_tail, try_pop_tail}
use async_ping.CommonList.Dequeue.Operations.{IsDequeue, push_head-runs}
use async_ping.CommonList.Dequeue.Pop.{
  values, snoc_cases, Holds, Took, nothing, pop_empty, pop_last,
}

module _ {A : Type 0} where
  -- The heap that the constructor leaves.
  unfoldable pub constructed : Heap A → (head tail : ℕ) → A → Heap A
  constructed h head tail blank = record {
    live = update (update h.live head true) tail true;
    next = update (update (update (update h.next head 0) tail 0) head tail) tail 0;
    prev = update (update (update (update h.prev head 0) tail 0) head 0) tail head;
    value = update (update h.value head blank) tail blank;
  }

  pub new_dequeue_run :
      (h : Heap A) (head tail : ℕ) (blank : A)
      → head ≢ tail
      → new_dequeue head tail blank h
        ≡ some (record { head = head; tail = tail }, constructed h head tail blank)
  unfolding new_dequeue new_node store_next store_prev constructed
  new_dequeue_run h head tail blank ne =
      let a : (head == tail) ≡ false = ground arith in
      let b : (head == head) ≡ true = ground arith in
      let c : (tail == tail) ≡ true = ground arith in ground arith

  pub constructed-IsDequeue :
      (h : Heap A) (head tail : ℕ) (blank : A)
      → head ≢ tail
      → IsDequeue (record { head = head; tail = tail }) (constructed h head tail blank) []
  unfolding constructed
  constructed-IsDequeue h head tail blank ne = record {
    links = (ground arith, ground arith);
    live_head = ground arith;
    live_tail = ground arith;
    live = tt;
    ends = ne;
    out_head = tt;
    out_tail = tt;
    distinct = tt;
  }

  -- The constructor, given two new addresses, touches live nodes only and makes an empty queue.
  pub new_dequeue-Holds :
      (h : Heap A) (head tail : ℕ) (blank : A)
      → head ≢ tail
      → (d : Dequeue) × ((g : Heap A) × (new_dequeue head tail blank h ≡ some (d, g))
          × Holds d g [])
  new_dequeue-Holds h head tail blank ne = (
    record { head = head; tail = tail },
    (
      constructed h head tail blank,
      new_dequeue_run h head tail blank ne,
      record { cells = []; order = refl; chain = constructed-IsDequeue h head tail blank ne },
    ),
  )

  -- What it leaves holds the empty queue.
  pub made-Holds :
      (h g : Heap A) (head tail : ℕ) (blank : A) (d : Dequeue)
      → head ≢ tail
      → new_dequeue head tail blank h ≡ some (d, g)
      → Holds d g []
  made-Holds h g head tail blank d ne made =
      let (e, (k, makes, empty)) = new_dequeue-Holds h head tail blank ne in
      let same_queue : e ≡ d = cc in
      let same_heap : k ≡ g = cc in
      subst (λ x. Holds x g []) same_queue (subst (λ x. Holds e x []) same_heap empty)

  -- A push, given a new address, touches live nodes only. With the lock it succeeds and puts the
  -- value at the head.
  pub push_head-Holds :
      (d : Dequeue) (h : Heap A) (q : List A) (fresh : ℕ) (v : A)
      → h.live fresh ≡ false
      → Holds d h q
      → (g : Heap A) × (push_head 0 fresh v d h ≡ some (true, g)) × Holds d g (Fifo.push_head v q)
  push_head-Holds d h q fresh v new i =
      let done = push_head-runs d h fresh v new i.cells i.chain in
      (
        done.0,
        done.1,
        record { cells = (fresh, v) ∷ i.cells; order = ap (λ l. v ∷ l) i.order; chain = done.2 },
      )

  emptied :
      (d : Dequeue) (h : Heap A) (q : List A) (i : Holds d h q)
      → i.cells ≡ []
      → Fifo.pop_tail q ≡ none
  unfolding Fifo.pop_tail
  emptied d h q i e = subst (λ l. Fifo.pop_tail l ≡ none) (sym (ap values e) ∙ i.order) refl

  pop_none :
      (d : Dequeue) (h : Heap A) (q : List A) (i : Holds d h q)
      → i.cells ≡ []
      → (pop_tail 0 d h ≡ some (none, h)) × (try_pop_tail 0 d h ≡ some (none, h))
  pop_none d h q i e =
      let chain = subst (IsDequeue d h) e i.chain in pop_empty d h chain.live_tail chain.links.1

  -- `popTail` with the lock touches live nodes only, gives the last value of the queue, or nothing
  -- when it is empty, and frees the node that held it.
  pub pop_tail-Took :
      (d : Dequeue) (h : Heap A) (q : List A)
      → Holds d h q
      → (o : Option A) × ((g : Heap A) × (pop_tail 0 d h ≡ some (o, g)) × Took d h g q false o)
  pop_tail-Took d h q i = elim (snoc_cases i.cells) [
    | inl e ↦ (none, (h, (pop_none d h q i e).0, nothing (emptied d h q i e) refl))
    | inr (xs, a, v, e) ↦
        let last =
          pop_last d h xs a v q (subst (IsDequeue d h) e i.chain)
            (subst (λ l. values l ≡ q) e i.order) in
        (some v, last.0)
  ]

  -- `tryPopTail` with the lock does the same, but leaves the node that held the value allocated.
  pub try_pop_tail-Took :
      (d : Dequeue) (h : Heap A) (q : List A)
      → Holds d h q
      → (o : Option A) × ((g : Heap A) × (try_pop_tail 0 d h ≡ some (o, g)) × Took d h g q true o)
  try_pop_tail-Took d h q i = elim (snoc_cases i.cells) [
    | inl e ↦ (none, (h, (pop_none d h q i e).1, nothing (emptied d h q i e) refl))
    | inr (xs, a, v, e) ↦
        let last =
          pop_last d h xs a v q (subst (IsDequeue d h) e i.chain)
            (subst (λ l. values l ≡ q) e i.order) in
        (some v, last.1)
  ]
