-- ===== src/CommonList/Dequeue/History.antt =====
-- Histories of a `ConcurrentDequeue`: the spin lock makes the calls of all threads a sequence.
use native.Mathlib.Decide.{ℕ_discrete}
use async_ping.Prelude.{
  ◌≢◌, ℕ, ◌≡◌, refl, Bool, true, false, Option, none, some, List, [], ◌∷◌, ◌++◌, append_assoc,
  append-nil, ◌∙◌, sym, ap, subst,
}
use async_ping.Fifo
use async_ping.Fifo.{when, to_list}
use async_ping.CommonList.{Heap}
use async_ping.CommonList.Dequeue.{Dequeue, new_dequeue, push_head, pop_tail, try_pop_tail}
use async_ping.CommonList.Dequeue.Pop.{Holds, Took, nothing, took}
use async_ping.CommonList.Dequeue.Refinement.{
  made-Holds, push_head-Holds, pop_tail-Took, try_pop_tail-Took,
}
use async_ping.CommonList.Dequeue.Refused.{discarded, push_head-refused, pop-refused}

-- The heap, the values whose push returned true, and the values that pops gave, both in order.
pub record Trace (A : Type 0) : Type 0 where
  pub heap : Heap A
  pub accepted : List A
  pub given : List A

module _ {A : Type 0} where
  -- A call that returns; `status` is what the lock returns, and `fresh` what `new` does.
  pub data Step (d : Dequeue) (s : Trace A) : Trace A → Type 0 where
    pushes :
        (status fresh : ℕ) (v : A) (b : Bool) (g : Heap A)
        → s.heap.live fresh ≡ false
        → fresh ≢ 0
        → push_head status fresh v d s.heap ≡ some (b, g)
        → Step d s (record { heap = g; accepted = s.accepted ++ when b v; given = s.given })
    pops :
        (status : ℕ) (o : Option A) (g : Heap A)
        → pop_tail status d s.heap ≡ some (o, g)
        → Step d s (record { heap = g; accepted = s.accepted; given = s.given ++ to_list o })
    try_pops :
        (status : ℕ) (o : Option A) (g : Heap A)
        → try_pop_tail status d s.heap ≡ some (o, g)
        → Step d s (record { heap = g; accepted = s.accepted; given = s.given ++ to_list o })

  pub data Run (d : Dequeue) (s : Trace A) : Trace A → Type 0 where
    here : Run d s s
    next : {t u : Trace A} → Run d s t → Step d t u → Run d s u

  -- The nodes hold a queue that makes up, with what was given, what was accepted.
  pub record IsFifo (d : Dequeue) (s : Trace A) : Type 0 where
    pub queue : List A
    pub holds : Holds d s.heap queue
    pub order : s.given ++ Fifo.in_order queue ≡ s.accepted

  -- What a pop does to it, whether the lock is refused or not.
  pub data Popped (d : Dequeue) (h : Heap A) (q : List A) (g : Heap A) : Option A → Type 0 where
    missed : Holds d g q → Popped d h q g none
    gave : (v : A) (r : List A) → q ≡ r ++ v ∷ [] → Holds d g r → Popped d h q g (some v)

  of_Took :
      (d : Dequeue) (h g : Heap A) (q : List A) (kept : Bool) (o : Option A)
      → Holds d h q
      → Took d h g q kept o
      → Popped d h q g o
  of_Took d h g q kept none i (nothing e same) = missed (subst (λ k. Holds d k q) (sym same) i)
  of_Took d h g q kept (some w) i (took v r e after live) =
      gave v r (Fifo.pop_tail-some q v r e) after

  Popped-IsFifo :
      (d : Dequeue) (s : Trace A) (i : IsFifo d s) (g : Heap A) (o : Option A)
      → Popped d s.heap i.queue g o
      → IsFifo d (record { heap = g; accepted = s.accepted; given = s.given ++ to_list o })
  Popped-IsFifo d s i g none (missed after) = record {
    queue = i.queue;
    holds = after;
    order = ap (λ l. l ++ Fifo.in_order i.queue) (append-nil s.given) ∙ i.order;
  }
  Popped-IsFifo d s i g (some w) (gave v r e after) = record {
    queue = r;
    holds = after;
    order =
        append_assoc s.given (v ∷ []) (Fifo.in_order r)
        ∙ ap (λ l. s.given ++ l) (sym (Fifo.in_order-append r v))
        ∙ ap (λ q. s.given ++ Fifo.in_order q) (sym e)
        ∙ i.order;
  }

  -- A call has one outcome.
  same_outcome :
      (d : Dequeue) (h : Heap A) (q : List A) (k g : Heap A) (p o : Option A)
      {m : Option (Option A × Heap A)}
      → m ≡ some (p, k)
      → m ≡ some (o, g)
      → Popped d h q k p
      → Popped d h q g o
  same_outcome d h q k g p o runs run popped =
      let same_value : p ≡ o = cc in
      let same_heap : k ≡ g = cc in
      subst (λ x. Popped d h q g x) same_value (subst (λ x. Popped d h q x p) same_heap popped)

  -- Both pops, whatever the lock returns.
  pub pop-Popped :
      (d : Dequeue) (h : Heap A) (q : List A) (status : ℕ) (o : Option A) (g : Heap A)
      → Holds d h q
      → pop_tail status d h ≡ some (o, g)
      → Popped d h q g o
  pop-Popped d h q status o g i run = elim (ℕ_discrete status 0) [
    | yes e ↦
        let (p, (k, runs, result)) = pop_tail-Took d h q i in
        same_outcome d h q k g p o runs (subst (λ n. pop_tail n d h ≡ some (o, g)) e run)
          (of_Took d h k q false p i result)
    | no ne ↦ same_outcome d h q h g none o (pop-refused d h status ne).0 run (missed i)
  ]

  try_pop-Popped :
      (d : Dequeue) (h : Heap A) (q : List A) (status : ℕ) (o : Option A) (g : Heap A)
      → Holds d h q
      → try_pop_tail status d h ≡ some (o, g)
      → Popped d h q g o
  try_pop-Popped d h q status o g i run = elim (ℕ_discrete status 0) [
    | yes e ↦
        let (p, (k, runs, result)) = try_pop_tail-Took d h q i in
        same_outcome d h q k g p o runs (subst (λ n. try_pop_tail n d h ≡ some (o, g)) e run)
          (of_Took d h k q true p i result)
    | no ne ↦ same_outcome d h q h g none o (pop-refused d h status ne).1 run (missed i)
  ]

  -- A push puts the value at the head when it returns true, and nothing otherwise.
  pub push-Holds :
      (d : Dequeue) (h : Heap A) (q : List A) (status fresh : ℕ) (v : A) (b : Bool) (g : Heap A)
      → Holds d h q
      → h.live fresh ≡ false
      → push_head status fresh v d h ≡ some (b, g)
      → Holds d g (when b v ++ q)
  push-Holds d h q status fresh v b g i new run = elim (ℕ_discrete status 0) [
    | yes e ↦
        let (k, runs, after) = push_head-Holds d h q fresh v new i in
        let locked = subst (λ n. push_head n fresh v d h ≡ some (b, g)) e run in
        let same_flag : true ≡ b = cc in
        let same_heap : k ≡ g = cc in
        subst (λ x. Holds d g (when x v ++ q)) same_flag
          (subst (λ x. Holds d x (v ∷ q)) same_heap after)
    | no ne ↦
        let k = discarded h fresh v in
        let (runs, chain) = push_head-refused d h status fresh v i.cells ne new i.chain in
        let same_flag : false ≡ b = cc in
        let same_heap : k ≡ g = cc in
        subst (λ x. Holds d g (when x v ++ q)) same_flag
          (subst (λ x. Holds d x q) same_heap
            (record { cells = i.cells; order = i.order; chain = chain }))
  ]

  Step-IsFifo : (d : Dequeue) (s t : Trace A) → Step d s t → IsFifo d s → IsFifo d t
  Step-IsFifo d s t (pushes status fresh v b g new nonnull run) i = record {
    queue = when b v ++ i.queue;
    holds = push-Holds d s.heap i.queue status fresh v b g i.holds new run;
    order =
        ap (λ l. s.given ++ l) (Fifo.in_order-when b v i.queue)
        ∙ sym (append_assoc s.given (Fifo.in_order i.queue) (when b v))
        ∙ ap (λ l. l ++ when b v) i.order;
  }
  Step-IsFifo d s t (pops status o g run) i =
      Popped-IsFifo d s i g o (pop-Popped d s.heap i.queue status o g i.holds run)
  Step-IsFifo d s t (try_pops status o g run) i =
      Popped-IsFifo d s i g o (try_pop-Popped d s.heap i.queue status o g i.holds run)

  from_Holds :
      (d : Dequeue) (h : Heap A) (s : Trace A)
      → Holds d h []
      → Run d (record { heap = h; accepted = []; given = [] }) s
      → IsFifo d s
  from_Holds d h s empty here = record { queue = []; holds = empty; order = refl }
  from_Holds d h s empty (next run step) = Step-IsFifo d _ s step (from_Holds d h _ empty run)

  -- In every history of pushes and pops of a new ConcurrentDequeue by any threads, refused locks
  -- included, its nodes hold a queue, and the values given so far, then those queued, are the
  -- accepted ones in order.
  pub Run-IsFifo :
      (h g : Heap A) (head tail : ℕ) (blank : A) (d : Dequeue) (s : Trace A)
      → head ≢ tail
      → new_dequeue head tail blank h ≡ some (d, g)
      → Run d (record { heap = g; accepted = []; given = [] }) s
      → IsFifo d s
  Run-IsFifo h g head tail blank d s ne made run =
      from_Holds d g s (made-Holds h g head tail blank d ne made) run
