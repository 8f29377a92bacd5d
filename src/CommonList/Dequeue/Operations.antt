-- ===== src/CommonList/Dequeue/Operations.antt =====
-- The operations of `ConcurrentDequeue` on well-formed nodes: they touch no dead node, and do to the
-- chain what they should.
use async_ping.Prelude.{ℕ, ◌≡◌, ◌≢◌, true, false, some, [], ◌∷◌, arith, All, ◌∙◌, sym, ap, ◌==◌}
use async_ping.CommonList.{Heap, update, load_next, load_prev, store_next, store_prev, new_node}
use async_ping.CommonList.Dequeue.{Dequeue, push_head}
use async_ping.CommonList.Dequeue.Links.{Cells, Links, Avoids, Distinct, All-map, All-both, frame}

module _ {A : Type 0} where
  -- The nodes of `xs` hang between the sentinels, all are allocated, and no two are the same.
  pub record IsDequeue (d : Dequeue) (h : Heap A) (xs : Cells A) : Type 0 where
    pub links : Links h d.head xs d.tail
    pub live_head : h.live d.head ≡ true
    pub live_tail : h.live d.tail ≡ true
    pub live : All (λ c. h.live c.0 ≡ true) xs
    pub ends : d.head ≢ d.tail
    pub out_head : Avoids d.head xs
    pub out_tail : Avoids d.tail xs
    pub distinct : Distinct xs

  -- The heap after a push, where `first` is the node behind the head.
  unfoldable pub pushed : Heap A → ℕ → (first fresh : ℕ) → A → Heap A
  pushed h head first fresh v = record {
    live = update h.live fresh true;
    next = update (update (update h.next fresh 0) fresh first) head fresh;
    prev = update (update (update h.prev fresh 0) first fresh) fresh head;
    value = update h.value fresh v;
  }

  push_run :
      (d : Dequeue) (h : Heap A) (fresh : ℕ) (v : A)
      → h.live d.head ≡ true
      → h.live (h.next d.head) ≡ true
      → d.head ≢ fresh
      → h.next d.head ≢ fresh
      → push_head 0 fresh v d h ≡ some (true, pushed h d.head (h.next d.head) fresh v)
  unfolding push_head load_next load_prev store_next store_prev new_node pushed
  push_run d h fresh v live live' ne ne' =
      let a : (d.head == fresh) ≡ false = ground arith in
      let b : (fresh == d.head) ≡ false = ground arith in
      let c : (fresh == fresh) ≡ true = ground arith in
      let e : (h.next d.head == fresh) ≡ false = ground arith in ground arith

  -- Addresses of live nodes differ from a new one.
  pub new_ne : (h : Heap A) (p fresh : ℕ) → h.live p ≡ true → h.live fresh ≡ false → p ≢ fresh
  new_ne h p fresh live new e = let same = ap h.live e in cc

  first_live :
      (d : Dequeue) (h : Heap A) (xs : Cells A) → IsDequeue d h xs → h.live (h.next d.head) ≡ true
  first_live d h [] i = ap h.live (i.links.0) ∙ i.live_tail
  first_live d h (x ∷ xs) i = ap h.live (i.links.0) ∙ i.live.0

  module _ (d : Dequeue) (h : Heap A) (fresh : ℕ) (v : A) (new : h.live fresh ≡ false) where
    after_push : Heap A
    after_push = pushed h d.head (h.next d.head) fresh v

    -- What is no part of the push keeps its fields.
    pushed_other :
        (first : ℕ) (c : ℕ × A)
        → h.next d.head ≡ first
        → (c.0 ≢ fresh) × ((c.0 ≢ d.head) × (c.0 ≢ first))
        → (after_push.next c.0 ≡ h.next c.0)
          × (after_push.prev c.0 ≡ h.prev c.0)
          × (after_push.value c.0 ≡ h.value c.0)
    unfolding after_push pushed
    pushed_other first c e k =
        let a = k.0 in let b = k.1.0 in let n = k.1.1 in (ground arith, ground arith, ground arith)

    pushed-Links : (xs : Cells A) → IsDequeue d h xs → Links after_push fresh xs d.tail
    unfolding after_push pushed
    pushed-Links [] i =
        let head_new = new_ne h d.head fresh i.live_head new in
        let first = i.links.0 in
        let tail_new = new_ne h d.tail fresh i.live_tail new in
        let ends = i.ends in (ground arith, ground arith)
    pushed-Links ((a, w) ∷ ys) i =
        let head_new = new_ne h d.head fresh i.live_head new in
        let tail_new = new_ne h d.tail fresh i.live_tail new in
        let a_new = new_ne h a fresh i.live.0 new in
        let first = i.links.0 in
        let value = i.links.2 in
        let a_head = i.out_head.0 in
        let a_tail = i.out_tail.0 in
        let both =
          All-both _ _ ys (All-map _ _ ys i.live.1 (λ c live. new_ne h c.0 fresh live new))
            (All-both _ _ ys i.out_head.1 i.distinct.0) in
        (
          ground arith,
          ground arith,
          ground arith,
          frame h after_push a ys d.tail i.links.3 (ground arith)
              (All-map _ _ ys both (λ c k. pushed_other a c first k)) (ground arith),
        )

    new-Avoids : (xs : Cells A) → All (λ c. h.live c.0 ≡ true) xs → Avoids fresh xs
    new-Avoids xs live = All-map _ _ xs live (λ c l. new_ne h c.0 fresh l new)

    pushed_live :
        (xs : Cells A) → All (λ c. h.live c.0 ≡ true) xs → All (λ c. after_push.live c.0 ≡ true) xs
    unfolding after_push pushed
    pushed_live xs live = All-map _ _ xs live (λ c l. ground arith)

    push_head-IsDequeue :
        (xs : Cells A) → IsDequeue d h xs → IsDequeue d after_push ((fresh, v) ∷ xs)
    unfolding after_push pushed
    push_head-IsDequeue xs i =
        let head_new = new_ne h d.head fresh i.live_head new in
        let tail_new = new_ne h d.tail fresh i.live_tail new in
        let live_head = i.live_head in
        let live_tail = i.live_tail in
        record {
          links = (ground arith, ground arith, ground arith, pushed-Links xs i);
          live_head = ground arith;
          live_tail = ground arith;
          live = (ground arith, pushed_live xs i.live);
          ends = i.ends;
          out_head = (λ e. head_new (sym e), i.out_head);
          out_tail = (λ e. tail_new (sym e), i.out_tail);
          distinct = (new-Avoids xs i.live, i.distinct);
        }

    -- A push that gets the lock touches live nodes only, and hangs the value in behind the head.
    pub push_chain :
        (xs : Cells A)
        → IsDequeue d h xs
        → (push_head 0 fresh v d h ≡ some (true, pushed h d.head (h.next d.head) fresh v))
          × IsDequeue d (pushed h d.head (h.next d.head) fresh v) ((fresh, v) ∷ xs)
    unfolding after_push
    push_chain xs i = (
      push_run d h fresh v i.live_head (first_live d h xs i) (new_ne h d.head fresh i.live_head new)
          (new_ne h (h.next d.head) fresh (first_live d h xs i) new),
      push_head-IsDequeue xs i,
    )

    pub push_head-runs :
        (xs : Cells A)
        → IsDequeue d h xs
        → (g : Heap A) × (push_head 0 fresh v d h ≡ some (true, g))
          × IsDequeue d g ((fresh, v) ∷ xs)
    push_head-runs xs i =
        let (runs, after) = push_chain xs i in
        (pushed h d.head (h.next d.head) fresh v, runs, after)
