-- ===== src/CommonList/Dequeue/Refused.antt =====
-- The operations of `ConcurrentDequeue` when the lock is refused.
use async_ping.Prelude.{ℕ, ◌≡◌, ◌≢◌, true, false, none, some, arith, ◌==◌}
use async_ping.CommonList.{Heap, update, new_node, delete_node}
use async_ping.CommonList.Dequeue.{Dequeue, push_head, pop_tail, try_pop_tail}
use async_ping.CommonList.Dequeue.Links.{Cells, All-map, frame}
use async_ping.CommonList.Dequeue.Operations.{IsDequeue, new_ne}

module _ {A : Type 0} where
  -- The heap after `new` and `delete` of a node.
  unfoldable pub discarded : Heap A → ℕ → A → Heap A
  discarded h fresh v = record {
    live = update (update h.live fresh true) fresh false;
    next = update h.next fresh 0;
    prev = update h.prev fresh 0;
    value = update h.value fresh v;
  }

  pub discarded-IsDequeue :
      (d : Dequeue) (h : Heap A) (fresh : ℕ) (v : A) (xs : Cells A)
      → h.live fresh ≡ false
      → IsDequeue d h xs
      → IsDequeue d (discarded h fresh v) xs
  unfolding discarded
  discarded-IsDequeue d h fresh v xs new i =
      let live_head = i.live_head in
      let live_tail = i.live_tail in
      let head_new = new_ne h d.head fresh live_head new in
      let tail_new = new_ne h d.tail fresh live_tail new in
      record {
        links =
            frame h (discarded h fresh v) d.head xs d.tail i.links (ground arith)
              (All-map _ _ xs i.live (λ c live.
                let c_new = new_ne h c.0 fresh live new in
                (ground arith, ground arith, ground arith)))
              (ground arith);
        live_head = ground arith;
        live_tail = ground arith;
        live =
            All-map _ _ xs i.live
              (λ c live. let c_new = new_ne h c.0 fresh live new in ground arith);
        ends = i.ends;
        out_head = i.out_head;
        out_tail = i.out_tail;
        distinct = i.distinct;
      }

  -- A push frees the node that it made, and fails.
  pub push_head-refused :
      (d : Dequeue) (h : Heap A) (status fresh : ℕ) (v : A) (xs : Cells A)
      → status ≢ 0
      → h.live fresh ≡ false
      → IsDequeue d h xs
      → (push_head status fresh v d h ≡ some (false, discarded h fresh v))
        × IsDequeue d (discarded h fresh v) xs
  unfolding push_head new_node delete_node discarded
  push_head-refused d h status fresh v xs ne new i =
      let made : (fresh == fresh) ≡ true = ground arith in
      let no_lock : (status == 0) ≡ false = ground arith in
      (ground (arith, made, no_lock), discarded-IsDequeue d h fresh v xs new i)

  -- Both pops fail and leave the heap.
  pub pop-refused :
      (d : Dequeue) (h : Heap A) (status : ℕ)
      → status ≢ 0
      → (pop_tail status d h ≡ some (none, h)) × (try_pop_tail status d h ≡ some (none, h))
  unfolding pop_tail try_pop_tail
  pop-refused d h status ne =
      let no_lock : (status == 0) ≡ false = ground arith in (ground arith, ground arith)
