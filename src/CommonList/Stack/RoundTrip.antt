-- ===== src/CommonList/Stack/RoundTrip.antt =====
-- `pushHead` and then `popHead` of `List`.
use async_ping.Prelude.{ℕ, ◌≡◌, ◌≢◌, true, false, some, arith, ap, ◌==◌}
use async_ping.CommonList.{Heap, update, load_next, load_value, store_next, new_node, delete_node}
use async_ping.CommonList.Stack.{push, pop}

module _ {A : Type 0} where
  after_push : Heap A → (head fresh : ℕ) → A → Heap A
  after_push h head fresh v = record {
    live = update h.live fresh true;
    next = update (update (update h.next fresh 0) fresh (h.next head)) head fresh;
    prev = update h.prev fresh 0;
    value = update h.value fresh v;
  }

  after_pop : Heap A → (head fresh first : ℕ) → Heap A
  after_pop h head fresh first = record h {
    next = update h.next head first;
    live = update h.live fresh false;
  }

  push_run :
      (h : Heap A) (head fresh : ℕ) (v : A)
      → h.live head ≡ true
      → head ≢ fresh
      → push fresh v head h ≡ some (true, after_push h head fresh v)
  unfolding push load_next store_next new_node after_push
  push_run h head fresh v live ne =
      let a : (head == fresh) ≡ false = ground arith in
      let b : (fresh == fresh) ≡ true = ground arith in ground arith

  pop_run :
      (h : Heap A) (head fresh first : ℕ) (v : A)
      → h.live head ≡ true
      → h.live fresh ≡ true
      → h.next head ≡ fresh
      → fresh ≢ 0
      → h.next fresh ≡ first
      → h.value fresh ≡ v
      → pop head h ≡ some (some v, after_pop h head fresh first)
  unfolding pop load_next load_value store_next delete_node after_pop
  pop_run h head fresh first v live live' n nz n' e =
      let a : (h.next head == 0) ≡ false = ground arith in ground arith

  -- A value pushed at a new address comes back from the pop after it; the first node and the
  -- allocated nodes are then the old ones.
  pub pop-push :
      (h : Heap A) (head fresh : ℕ) (v : A)
      → h.live head ≡ true
      → h.live fresh ≡ false
      → fresh ≢ 0
      → (g : Heap A) × ((k : Heap A) × (push fresh v head h ≡ some (true, g))
          × (pop head g ≡ some (some v, k))
          × (k.next head ≡ h.next head)
          × ((x : ℕ) → k.live x ≡ h.live x))
  unfolding after_push after_pop
  pop-push h head fresh v live new nz =
      let ne : head ≢ fresh = λ e. distinct e in
      let g = after_push h head fresh v in
      (
        g,
        (
          after_pop g head fresh (h.next head),
          push_run h head fresh v live ne,
          pop_run g head fresh (h.next head) v (ground arith) (ground arith) (ground arith) nz
              (ground arith) (ground arith),
          ground arith,
          λ x. ground arith,
        ),
      )
    where
      distinct : head ≡ fresh → ⊥
      distinct e = let same = ap h.live e in cc
