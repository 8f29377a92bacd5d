-- ===== src/CommonList/Dequeue/Pop.antt =====
-- The tail of `ConcurrentDequeue` on well-formed nodes.
use async_ping.Prelude.{
  ℕ, ◌≡◌, ◌≢◌, refl, inl, inr, ◌⊎◌, Bool, true, false, Option, none, some, List, [], ◌∷◌, ◌++◌,
  arith, All, ◌∙◌, sym, ap, subst, ◌==◌,
}
use async_ping.Fifo
use async_ping.CommonList.{
  Heap, update, load_next, load_prev, load_value, store_next, store_prev, delete_node,
}
use async_ping.CommonList.Dequeue.{Dequeue, pop_tail, unlink, try_pop_tail}
use async_ping.CommonList.Dequeue.Links.{
  Cells, Links, Avoids, Distinct, All-map, All-both, All-append, unsnoc, relink,
}
use async_ping.CommonList.Dequeue.Operations.{IsDequeue}

module _ {A : Type 0} where
  -- The heap after the node `last` behind `before` is unlinked, and after it is deleted.
  unfoldable pub unlinked : Heap A → (tail before : ℕ) → Heap A
  unlinked h tail before = record h {
    prev = update h.prev tail before;
    next = update h.next before tail;
  }

  unfoldable pub popped : Heap A → (tail last before : ℕ) → Heap A
  popped h tail last before = record (unlinked h tail before) { live = update h.live last false }

  -- The node at the end of a chain is live.
  before_live :
      (h : Heap A) (p : ℕ) (xs : Cells A) (q : ℕ)
      → Links h p xs q
      → h.live p ≡ true
      → All (λ c. h.live c.0 ≡ true) xs
      → h.live (h.prev q) ≡ true
  before_live h p [] q l live lives = ap h.live l.1 ∙ live
  before_live h p ((a, v) ∷ xs) q l live lives = before_live h a xs q l.3 lives.0 lives.1

  -- The last of distinct nodes is none of the others.
  last_out :
      (xs : Cells A) (a : ℕ) (v : A) → Distinct (xs ++ (a, v) ∷ []) → Distinct xs × Avoids a xs
  last_out [] a v d = (tt, tt)
  last_out ((b, w) ∷ xs) a v d =
      let rest = last_out xs a v d.1 in
      let ends = All-append _ xs ((a, v) ∷ []) d.0 in
      ((ends.0, rest.0), (λ e. ends.1.0 (sym e), rest.1))

  pop_run :
      (d : Dequeue) (h : Heap A) (a before : ℕ)
      → h.live d.tail ≡ true
      → h.prev d.tail ≡ a
      → a ≢ d.head
      → a ≢ d.tail
      → h.live a ≡ true
      → h.prev a ≡ before
      → h.live before ≡ true
      → (pop_tail 0 d h ≡ some (some (h.value a), popped h d.tail a before))
        × (try_pop_tail 0 d h ≡ some (some (h.value a), unlinked h d.tail before))
  unfolding pop_tail try_pop_tail unlink load_next load_prev load_value store_next store_prev
      delete_node popped unlinked
  pop_run d h a before live_tail at ne_head ne_tail live_a prev_a live_before =
      let head_test : (a == d.head) ≡ false = ground arith in
      let tail_test : (d.tail == d.tail) ≡ true = ground arith in (ground arith, ground arith)

  -- Without its last node the chain is a chain again.
  unlinked_chain :
      (d : Dequeue) (h : Heap A) (live : ℕ → Bool) (xs : Cells A) (a : ℕ) (v : A)
      → IsDequeue d h (xs ++ (a, v) ∷ [])
      → All (λ c. live c.0 ≡ true) xs
      → live d.head ≡ true
      → live d.tail ≡ true
      → IsDequeue d (record (unlinked h d.tail (h.prev a)) { live = live }) xs
  unfolding unlinked
  unlinked_chain d h live xs a v i lives live_head live_tail =
      let chain = unsnoc h d.head xs a v d.tail i.links in
      let out_head = All-append _ xs ((a, v) ∷ []) i.out_head in
      let out_tail = All-append _ xs ((a, v) ∷ []) i.out_tail in
      let distinct = last_out xs a v i.distinct in
      record {
        links =
            relink h (record (unlinked h d.tail (h.prev a)) { live = live }) d.head xs a d.tail
              chain.0 out_head.0 distinct.0 out_tail.0 (λ x ne. ground arith) (ground arith)
              (λ x ne. ground arith) (ground arith) (λ x. refl);
        live_head = live_head;
        live_tail = live_tail;
        live = lives;
        ends = i.ends;
        out_head = out_head.0;
        out_tail = out_tail.0;
        distinct = distinct.0;
      }

  abbrev pub values : Cells A → List A
  values [] = []
  values ((a, v) ∷ xs) = v ∷ values xs

  values-append : (xs : Cells A) (a : ℕ) (v : A) → values (xs ++ (a, v) ∷ []) ≡ values xs ++ v ∷ []
  values-append [] a v = refl
  values-append ((b, w) ∷ xs) a v = ap (λ l. w ∷ l) (values-append xs a v)

  -- A list is empty or has a last element.
  pub snoc_cases :
      (xs : Cells A) → (xs ≡ []) ⊎ ((ys : Cells A) × (a : ℕ) × (v : A) × (xs ≡ ys ++ (a, v) ∷ []))
  snoc_cases [] = inl refl
  snoc_cases (x ∷ xs) = elim (snoc_cases xs) [
    | inl e ↦ inr ([], x.0, x.1, ap (λ l. x ∷ l) e)
    | inr (ys, a, v, e) ↦ inr (x ∷ ys, a, v, ap (λ l. x ∷ l) e)
  ]

  -- The heap holds the queue `q` between the sentinels.
  pub record Holds (d : Dequeue) (h : Heap A) (q : List A) : Type 0 where
    pub cells : Cells A
    pub order : values cells ≡ q
    pub chain : IsDequeue d h cells

  -- What a pop gives on the queue `q`; `freed` is whether it leaves the node allocated.
  pub data Took (d : Dequeue) (h g : Heap A) (q : List A) (kept : Bool) : Option A → Type 0 where
    nothing : Fifo.pop_tail q ≡ none → g ≡ h → Took d h g q kept none
    took :
        (v : A) (r : List A)
        → Fifo.pop_tail q ≡ some (v, r)
        → Holds d g r
        → g.live (h.prev d.tail) ≡ kept
        → Took d h g q kept (some v)

  -- On the empty queue both pops fail and leave the heap.
  pub pop_empty :
      (d : Dequeue) (h : Heap A)
      → h.live d.tail ≡ true
      → h.prev d.tail ≡ d.head
      → (pop_tail 0 d h ≡ some (none, h)) × (try_pop_tail 0 d h ≡ some (none, h))
  unfolding pop_tail try_pop_tail load_prev
  pop_empty d h live e =
      let test : (h.prev d.tail == d.head) ≡ true = ground arith in (ground arith, ground arith)

  -- Nodes other than a deleted one stay live.
  still_live :
      (h : Heap A) (a : ℕ) (xs : Cells A)
      → All (λ c. h.live c.0 ≡ true) xs
      → Avoids a xs
      → All (λ c. update h.live a false c.0 ≡ true) xs
  still_live h a xs lives out =
      All-map _ _ xs (All-both _ _ xs lives out) (λ c k. ground (arith, k.0, k.1))

  -- On a queue with a last node both pops take its value, and the first deletes the node.
  pub pop_chain :
      (d : Dequeue) (h : Heap A) (xs : Cells A) (a : ℕ) (v : A)
      → IsDequeue d h (xs ++ (a, v) ∷ [])
      → (h.prev d.tail ≡ a)
        × (pop_tail 0 d h ≡ some (some v, popped h d.tail a (h.prev a)))
        × IsDequeue d (popped h d.tail a (h.prev a)) xs
        × (try_pop_tail 0 d h ≡ some (some v, unlinked h d.tail (h.prev a)))
        × IsDequeue d (unlinked h d.tail (h.prev a)) xs
  unfolding popped unlinked
  pop_chain d h xs a v i =
      let chain = unsnoc h d.head xs a v d.tail i.links in
      let lives = All-append _ xs ((a, v) ∷ []) i.live in
      let out_head = All-append _ xs ((a, v) ∷ []) i.out_head in
      let out_tail = All-append _ xs ((a, v) ∷ []) i.out_tail in
      let distinct = last_out xs a v i.distinct in
      let at = chain.2 in
      let a_head = out_head.1.0 in
      let a_tail = out_tail.1.0 in
      let live_tail = i.live_tail in
      let live_head = i.live_head in
      let run =
        pop_run d h a (h.prev a) i.live_tail at a_head a_tail lives.1.0 refl
          (before_live h d.head xs a chain.0 i.live_head lives.0) in
      let others = still_live h a xs lives.0 distinct.1 in
      (
        at,
        run.0 ∙ ap (λ w. some (some w, popped h d.tail a (h.prev a))) chain.1,
        unlinked_chain d h (update h.live a false) xs a v i others (ground arith) (ground arith),
        run.1 ∙ ap (λ w. some (some w, unlinked h d.tail (h.prev a))) chain.1,
        unlinked_chain d h h.live xs a v i lives.0 i.live_head i.live_tail,
      )

  pub pop_last :
      (d : Dequeue) (h : Heap A) (xs : Cells A) (a : ℕ) (v : A) (q : List A)
      → IsDequeue d h (xs ++ (a, v) ∷ [])
      → values (xs ++ (a, v) ∷ []) ≡ q
      → ((g : Heap A) × (pop_tail 0 d h ≡ some (some v, g)) × Took d h g q false (some v))
        × ((g : Heap A) × (try_pop_tail 0 d h ≡ some (some v, g)) × Took d h g q true (some v))
  unfolding popped unlinked
  pop_last d h xs a v q i e =
      let (at, pops, after, tries, kept) = pop_chain d h xs a v i in
      let lives = All-append _ xs ((a, v) ∷ []) i.live in
      let last : Fifo.pop_tail q ≡ some (v, values xs) =
        subst (λ l. Fifo.pop_tail l ≡ some (v, values xs)) (sym (values-append xs a v) ∙ e)
          (Fifo.pop_tail-append (values xs) v) in
      (
        (
          popped h d.tail a (h.prev a),
          pops,
          took v (values xs) last (record { cells = xs; order = refl; chain = after })
              (ground arith),
        ),
        (
          unlinked h d.tail (h.prev a),
          tries,
          took v (values xs) last (record { cells = xs; order = refl; chain = kept })
              (ap h.live at ∙ lives.1.0),
        ),
      )
