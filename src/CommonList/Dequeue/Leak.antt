-- ===== src/CommonList/Dequeue/Leak.antt =====
-- What a `ConcurrentDequeue` leaves allocated when it is destroyed: the nodes of the values that
-- `tryPopTail` gave.
pub mod Walk
use native.Mathlib.Decide.{ℕ_discrete, dec_lt}
use async_ping.Prelude.{
  ℕ, suc, ◌+◌, ◌≤◌, ◌≡◌, ◌≢◌, refl, inl, inr, Bool, true, false, Option, none, some, List, [], ◌∷◌,
  ◌++◌, arith, All, ◌∙◌, sym, ap, subst, ◌==◌, ◌||◌, if◌then◌else◌, length, Bool-cases,
}
use async_ping.Fifo.{occurs, occurs-append}
use async_ping.Fifo.{to_list}
use async_ping.CommonList.{Heap}
use async_ping.CommonList.Dequeue.{
  Dequeue, new_dequeue, push_head, pop_tail, try_pop_tail, delete_dequeue,
}
use async_ping.CommonList.Dequeue.Links.{Cells, Links, Avoids, Distinct}
use async_ping.CommonList.Dequeue.Operations.{push_chain}
use async_ping.CommonList.Dequeue.Pop.{snoc_cases, pop_empty, pop_chain}
use async_ping.CommonList.Dequeue.Refused.{push_head-refused, pop-refused}
use async_ping.CommonList.Dequeue.Refinement.{constructed, new_dequeue_run}
use async_ping.CommonList.Dequeue.History.{Trace, Step, pushes, pops, try_pops, Run, here, next}
use async_ping.CommonList.Dequeue.Extent.{
  bit, addresses, Owned, constructed-Owned, push-Owned, refused-Owned, pop-Owned, try_pop-Owned,
}
use async_ping.CommonList.Dequeue.Destructor.{delete_dequeue-frees}
use async_ping.CommonList.Dequeue.Leak.Walk.{Links-Chain, after_destructor}

module _ {A : Type 0} where
  -- The nodes that the calls left behind.
  abbrev pub lost : {d : Dequeue} {s t : Trace A} → Step d s t → ℕ
  lost (pushes status fresh v b g new nonnull run) = 0
  lost (pops status o g run) = 0
  lost (try_pops status o g run) = length (to_list o)

  abbrev pub all_lost : {d : Dequeue} {s t : Trace A} → Run d s t → ℕ
  all_lost here = 0
  all_lost (next run step) = lost step + all_lost run

  -- Of the allocated nodes `n` are out of the chain.
  record Extent (d : Dequeue) (base : ℕ → Bool) (h : Heap A) (n : ℕ) : Type 0 where
    cells : Cells A
    leaked : List ℕ
    owned : Owned d base h cells leaked
    size : length leaked ≡ n

  module _ (d : Dequeue) (base : ℕ → Bool) (h : Heap A) (n : ℕ) (i : Extent d base h n) where
    -- A call has one outcome.
    settled :
        {B : Type 0} (p o : B) (k g : Heap A) (m : ℕ) {c : Option (B × Heap A)}
        → c ≡ some (p, k)
        → c ≡ some (o, g)
        → Extent d base k m
        → Extent d base g m
    settled p o k g m runs run e = let same : k ≡ g = cc in subst (λ x. Extent d base x m) same e

    push-Extent :
        (status fresh : ℕ) (v : A) (b : Bool) (g : Heap A)
        → h.live fresh ≡ false
        → fresh ≢ 0
        → push_head status fresh v d h ≡ some (b, g)
        → Extent d base g n
    push-Extent status fresh v b g new nonnull run = elim (ℕ_discrete status 0) [
      | yes e ↦
          settled true b _ g n (push_chain d h fresh v new i.cells i.owned.chain).0
            (subst (λ k. push_head k fresh v d h ≡ some (b, g)) e run)
            (record {
              cells = (fresh, v) ∷ i.cells;
              leaked = i.leaked;
              owned = push-Owned d base h i.cells i.leaked fresh v i.owned new nonnull;
              size = i.size;
            })
      | no ne ↦
          settled false b _ g n
            (push_head-refused d h status fresh v i.cells ne new i.owned.chain).0 run
            (record {
              cells = i.cells;
              leaked = i.leaked;
              owned = refused-Owned d base h i.cells i.leaked fresh v i.owned new;
              size = i.size;
            })
    ]

    -- The chain is empty, or its last node is told.
    empty_runs :
        i.cells ≡ [] → (pop_tail 0 d h ≡ some (none, h)) × (try_pop_tail 0 d h ≡ some (none, h))
    empty_runs e =
        let links = subst (λ xs. Links h d.head xs d.tail) e i.owned.chain.links in
        pop_empty d h i.owned.chain.live_tail links.1

    pop-Extent :
        (status : ℕ) (o : Option A) (g : Heap A)
        → pop_tail status d h ≡ some (o, g)
        → Extent d base g n
    pop-Extent status o g run = elim (ℕ_discrete status 0) [
      | no ne ↦ settled none o h g n (pop-refused d h status ne).0 run i
      | yes e ↦
          let locked = subst (λ k. pop_tail k d h ≡ some (o, g)) e run in
          elim (snoc_cases i.cells) [
            | inl empty ↦ settled none o h g n (empty_runs empty).0 locked i
            | inr (xs, a, v, last) ↦
                let owned = subst (λ ys. Owned d base h ys i.leaked) last i.owned in
                let (at, frees, after, tries, kept) = pop_chain d h xs a v owned.chain in
                settled (some v) o _ g n frees locked (record {
                  cells = xs;
                  leaked = i.leaked;
                  owned = pop-Owned d base h xs i.leaked a v owned;
                  size = i.size;
                })
          ]
    ]

    try_pop-Extent :
        (status : ℕ) (o : Option A) (g : Heap A)
        → try_pop_tail status d h ≡ some (o, g)
        → Extent d base g (length (to_list o) + n)
    try_pop-Extent status o g run = elim (ℕ_discrete status 0) [
      | no ne ↦ missed (pop-refused d h status ne).1 run
      | yes e ↦
          let locked = subst (λ k. try_pop_tail k d h ≡ some (o, g)) e run in
          elim (snoc_cases i.cells) [
            | inl empty ↦ missed (empty_runs empty).1 locked
            | inr (xs, a, v, last) ↦
                let owned = subst (λ ys. Owned d base h ys i.leaked) last i.owned in
                let (at, frees, after, tries, kept) = pop_chain d h xs a v owned.chain in
                let gave : some v ≡ o = cc in
                let size = i.size in
                subst (λ w. Extent d base g (length (to_list w) + n)) gave
                  (settled (some v) o _ g (1 + n) tries locked (record {
                    cells = xs;
                    leaked = a ∷ i.leaked;
                    owned = try_pop-Owned d base h xs i.leaked a v owned;
                    size = omega arith;
                  }))
          ]
    ]
      where
        missed :
            {c : Option (Option A × Heap A)}
            → c ≡ some (none, h)
            → c ≡ some (o, g)
            → Extent d base g (length (to_list o) + n)
        missed runs ends =
            let gave : none ≡ o = cc in
            let same : n ≡ 0 + n = omega arith in
            subst (λ w. Extent d base g (length (to_list w) + n)) gave
              (subst (Extent d base g) same (settled none o h g n runs ends i))

  Step-Extent :
      (d : Dequeue) (base : ℕ → Bool) (s t : Trace A) (n : ℕ) (st : Step d s t)
      → Extent d base s.heap n
      → Extent d base t.heap (lost st + n)
  Step-Extent d base s t n (pushes status fresh v b g new nonnull run) i =
      let same : n ≡ 0 + n = omega arith in
      subst (Extent d base g) same
        (push-Extent d base s.heap n i status fresh v b g new nonnull run)
  Step-Extent d base s t n (pops status o g run) i =
      let same : n ≡ 0 + n = omega arith in
      subst (Extent d base g) same (pop-Extent d base s.heap n i status o g run)
  Step-Extent d base s t n (try_pops status o g run) i =
      try_pop-Extent d base s.heap n i status o g run

  Run-Extent :
      (d : Dequeue) (base : ℕ → Bool) (s t : Trace A) (run : Run d s t)
      → Extent d base s.heap 0
      → Extent d base t.heap (all_lost run)
  Run-Extent d base s t here i = i
  Run-Extent d base s t (next {t = u} run step) i =
      Step-Extent d base u t (all_lost run) step (Run-Extent d base s u run i)

  Extent-freed :
      (d : Dequeue) (base : ℕ → Bool) (h : Heap A) (n : ℕ)
      → Extent d base h n
      → (fuel : ℕ) × (k : Heap A) × (leaked : List ℕ) × (delete_dequeue fuel d h ≡ some (tt, k))
        × (length leaked ≡ n)
        × ((x : ℕ) → bit (k.live x) ≡ bit (base x) + occurs x leaked)
  Extent-freed d base h n i =
      let c = i.owned.chain in
      let chain =
        Links-Chain h d.head i.cells d.tail c.links i.owned.end_null i.owned.tail_nonnull
          c.live_head c.live_tail c.live c.ends c.out_head c.out_tail c.distinct i.owned.nonnull in
      let (k, runs, freed) = delete_dequeue-frees h d (addresses i.cells ++ d.tail ∷ []) chain in
      (
        suc (length (addresses i.cells ++ d.tail ∷ [])),
        k,
        i.leaked,
        runs,
        i.size,
        λ x.
            after_destructor (h.live x) (base x) (k.live x) x d.head d.tail (addresses i.cells)
              i.leaked (freed x) (i.owned.extent x),
      )

  -- After any history of a new ConcurrentDequeue whose nodes get new addresses that are not NULL,
  -- the destructor ends, and of the nodes that it and the calls made, exactly one stays allocated
  -- for each value that tryPopTail gave; no other address changes.
  pub Run-leaks :
      (h g : Heap A) (head tail : ℕ) (blank : A) (d : Dequeue) (s : Trace A)
      → head ≢ tail
      → tail ≢ 0
      → h.live head ≡ false
      → h.live tail ≡ false
      → new_dequeue head tail blank h ≡ some (d, g)
      → (run : Run d (record { heap = g; accepted = []; given = [] }) s)
      → (fuel : ℕ) × (k : Heap A) × (leaked : List ℕ) × (delete_dequeue fuel d s.heap
          ≡ some (tt, k))
        × (length leaked ≡ all_lost run)
        × ((x : ℕ) → bit (k.live x) ≡ bit (h.live x) + occurs x leaked)
  Run-leaks h g head tail blank d s ne nz new new' made run =
      let makes = new_dequeue_run h head tail blank ne in
      let same_queue : record { head = head; tail = tail } ≡ d = cc in
      let same_heap : constructed h head tail blank ≡ g = cc in
      let empty =
        subst (λ e. Owned e h.live g [] []) same_queue
          (subst (λ k. Owned (record { head = head; tail = tail }) h.live k [] []) same_heap
            (constructed-Owned h head tail blank ne nz new new')) in
      Extent-freed d h.live s.heap (all_lost run) (
        Run-Extent d h.live (record { heap = g; accepted = []; given = [] }) s run
          (record { cells = []; leaked = []; owned = empty; size = refl }))
