-- ===== src/CommonList/Dequeue/Extent.antt =====
-- Which nodes of a `ConcurrentDequeue` are allocated: those in the chain, and those that
-- `tryPopTail` took out of it.
use async_ping.Prelude.{
  ℕ, ◌+◌, ◌≡◌, ◌≢◌, Bool, false, List, [], ◌∷◌, ◌++◌, arith, ◌∙◌, sym, if◌then◌else◌,
}
use async_ping.Fifo.{occurs}
use async_ping.CommonList.{Heap}
use async_ping.CommonList.Dequeue.{Dequeue}
use async_ping.CommonList.Dequeue.Links.{Cells, Links, Avoids, All-append, unsnoc}
use async_ping.CommonList.Dequeue.Operations.{IsDequeue, pushed, push_chain, new_ne}
use async_ping.CommonList.Dequeue.Pop.{unlinked, popped, pop_chain}
use async_ping.CommonList.Dequeue.Refused.{discarded, discarded-IsDequeue}
use async_ping.CommonList.Dequeue.Refinement.{constructed, constructed-IsDequeue}

abbrev pub bit : Bool → ℕ
bit b = if b then 1 else 0

module _ {A : Type 0} where
  abbrev pub addresses : Cells A → List ℕ
  addresses [] = []
  addresses ((a, v) ∷ xs) = a ∷ addresses xs

  addresses_last :
      (x : ℕ) (xs : Cells A) (a : ℕ) (v : A)
      → occurs x (addresses (xs ++ (a, v) ∷ [])) ≡ occurs x (addresses xs) + occurs x (a ∷ [])
  unfolding occurs
  addresses_last x [] a v = omega arith
  addresses_last x ((b, w) ∷ xs) a v = let rest = addresses_last x xs a v in ground arith

  -- Beside what `base` has, the sentinels, the nodes of the chain and `leaked` are allocated, each
  -- once. None is NULL, and the chain ends in NULL.
  pub record Owned (d : Dequeue) (base : ℕ → Bool) (h : Heap A) (xs : Cells A) (leaked : List ℕ)
      : Type 0 where
    pub chain : IsDequeue d h xs
    pub end_null : h.next d.tail ≡ 0
    pub tail_nonnull : d.tail ≢ 0
    pub nonnull : Avoids 0 xs
    pub extent :
        (x : ℕ)
        → bit (h.live x)
          ≡ bit (base x)
            + occurs x (d.head ∷ d.tail ∷ [])
            + occurs x (addresses xs)
            + occurs x leaked

  -- The node behind the last one is no end.
  before_ne :
      (h : Heap A) (t p : ℕ) (xs : Cells A) (q : ℕ)
      → Links h p xs q
      → p ≢ t
      → Avoids t xs
      → h.prev q ≢ t
  before_ne h t p [] q l ne out e = ne (sym l.1 ∙ e)
  before_ne h t p ((a, v) ∷ xs) q l ne out e = before_ne h t a xs q l.3 out.0 out.1 e

  pub constructed-Owned :
      (h : Heap A) (head tail : ℕ) (blank : A)
      → head ≢ tail
      → tail ≢ 0
      → h.live head ≡ false
      → h.live tail ≡ false
      → Owned (record { head = head; tail = tail }) h.live (constructed h head tail blank) [] []
  unfolding constructed occurs
  constructed-Owned h head tail blank ne nz new new' = record {
    chain = constructed-IsDequeue h head tail blank ne;
    end_null = ground arith;
    tail_nonnull = nz;
    nonnull = tt;
    extent = λ x. ground arith;
  }

  module _ (d : Dequeue) (base : ℕ → Bool) (h : Heap A) (xs : Cells A) (leaked : List ℕ) where
    pub push-Owned :
        (fresh : ℕ) (v : A)
        → Owned d base h xs leaked
        → h.live fresh ≡ false
        → fresh ≢ 0
        → Owned d base (pushed h d.head (h.next d.head) fresh v) ((fresh, v) ∷ xs) leaked
    unfolding pushed occurs
    push-Owned fresh v i new nz =
        let end_null = i.end_null in
        let ends = i.chain.ends in
        let tail_new = new_ne h d.tail fresh i.chain.live_tail new in
        record {
          chain = (push_chain d h fresh v new xs i.chain).1;
          end_null = ground arith;
          tail_nonnull = i.tail_nonnull;
          nonnull = (nz, i.nonnull);
          extent = λ x. let old = i.extent x in ground arith;
        }

    pub refused-Owned :
        (fresh : ℕ) (v : A)
        → Owned d base h xs leaked
        → h.live fresh ≡ false
        → Owned d base (discarded h fresh v) xs leaked
    unfolding discarded
    refused-Owned fresh v i new =
        let end_null = i.end_null in
        let tail_new = new_ne h d.tail fresh i.chain.live_tail new in
        record {
          chain = discarded-IsDequeue d h fresh v xs new i.chain;
          end_null = ground arith;
          tail_nonnull = i.tail_nonnull;
          nonnull = i.nonnull;
          extent = λ x. let old = i.extent x in ground arith;
        }

    module _ (a : ℕ) (v : A) (i : Owned d base h (xs ++ (a, v) ∷ []) leaked) where
      before_tail : h.prev a ≢ d.tail
      before_tail =
          before_ne h d.tail d.head xs a (unsnoc h d.head xs a v d.tail i.chain.links).0
            i.chain.ends (All-append _ xs ((a, v) ∷ []) i.chain.out_tail).0

      pub pop-Owned : Owned d base (popped h d.tail a (h.prev a)) xs leaked
      unfolding popped unlinked occurs
      pop-Owned =
          let end_null = i.end_null in
          let apart = before_tail in
          let live = (All-append _ xs ((a, v) ∷ []) i.chain.live).1.0 in
          let (at, pops, after, tries, kept) = pop_chain d h xs a v i.chain in
          record {
            chain = after;
            end_null = ground arith;
            tail_nonnull = i.tail_nonnull;
            nonnull = (All-append _ xs ((a, v) ∷ []) i.nonnull).0;
            extent =
                λ x. let old = i.extent x in let last = addresses_last x xs a v in ground arith;
          }

      pub try_pop-Owned : Owned d base (unlinked h d.tail (h.prev a)) xs (a ∷ leaked)
      unfolding unlinked occurs
      try_pop-Owned =
          let end_null = i.end_null in
          let apart = before_tail in
          let (at, pops, after, tries, kept) = pop_chain d h xs a v i.chain in
          record {
            chain = kept;
            end_null = ground arith;
            tail_nonnull = i.tail_nonnull;
            nonnull = (All-append _ xs ((a, v) ∷ []) i.nonnull).0;
            extent =
                λ x. let old = i.extent x in let last = addresses_last x xs a v in ground arith;
          }
