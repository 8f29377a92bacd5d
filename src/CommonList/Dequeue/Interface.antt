-- ===== src/CommonList/Dequeue/Interface.antt =====
-- `ConcurrentDequeue` as an implementation of the interface `Queue`.
use async_ping.Prelude.{ℕ, ◌≡◌, false, Option, none, some, List, ◌++◌, append-nil, sym}
use async_ping.Fifo.{Queue, to_list}
use async_ping.CommonList.{Heap}
use async_ping.CommonList.Dequeue.{Dequeue, push_head, pop_tail}
use async_ping.CommonList.Dequeue.Pop.{Holds}
use async_ping.CommonList.Dequeue.History.{Popped, missed, gave, push-Holds, pop-Popped}

module _ {A : Type 0} where
  pub rest_of :
      (d : Dequeue) (h g : Heap A) (q : List A) (o : Option A)
      → Popped d h q g o
      → (r : List A) × Holds d g r × (q ≡ r ++ to_list o)
  rest_of d h g q none (missed after) = (q, after, sym (append-nil q))
  rest_of d h g q (some w) (gave v r e after) = (r, after, e)

  -- The state is the heap. `status` is what the lock returns, `fresh` what `new` does.
  abbrev pub dequeue : Dequeue → Queue A
  dequeue d = record {
    State = Heap A;
    Push = λ h v b g.
        (status : ℕ) × (fresh : ℕ) × (h.live fresh ≡ false)
        × (push_head status fresh v d h ≡ some (b, g));
    Pop = λ h o g. (status : ℕ) × (pop_tail status d h ≡ some (o, g));
    Holds = Holds d;
    pushed = λ h g q v b holds (status, fresh, new, run).
        push-Holds d h q status fresh v b g holds new run;
    popped =
        λ h g q o holds (status, run). rest_of d h g q o (pop-Popped d h q status o g holds run);
  }
