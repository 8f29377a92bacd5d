-- ===== src/CommonList/Dequeue/Leak/Walk.antt =====
-- The destructor's walk over the nodes that the chain of a `ConcurrentDequeue` links.
use async_ping.Prelude.{
  ℕ, ◌+◌, ◌≤◌, ◌≡◌, ◌≢◌, refl, inl, inr, Bool, true, false, List, [], ◌∷◌, ◌++◌, arith, All, ◌∙◌,
  ◌==◌, if◌then◌else◌, Bool-cases,
}
use async_ping.Fifo.{occurs, occurs-append}
use async_ping.CommonList.{Heap}
use async_ping.CommonList.Dequeue.Links.{Cells, Links, Avoids, Distinct}
use async_ping.CommonList.Dequeue.Extent.{bit, addresses}
use async_ping.CommonList.Dequeue.Destructor.{mem, Chain}

module _ {A : Type 0} where
  -- The chain that the destructor walks.
  pub Links-Chain :
      (h : Heap A) (p : ℕ) (xs : Cells A) (t : ℕ)
      → Links h p xs t
      → h.next t ≡ 0
      → t ≢ 0
      → h.live p ≡ true
      → h.live t ≡ true
      → All (λ c. h.live c.0 ≡ true) xs
      → p ≢ t
      → Avoids p xs
      → Avoids t xs
      → Distinct xs
      → Avoids 0 xs
      → Chain h p (addresses xs ++ t ∷ [])
  unfolding mem
  Links-Chain h p [] t l ends nz live live_t lives ne out out_t distinct nonnull =
      (l.0, nz, live, ground arith, (ends, live_t))
  Links-Chain h p ((a, v) ∷ xs) t l ends nz live live_t lives ne out out_t distinct nonnull = (
    l.0,
    nonnull.0,
    live,
    apart p ((a, v) ∷ xs) out ne,
    Links-Chain h a xs t l.3 ends nz lives.0 live_t lives.1 out_t.0 distinct.0 out_t.1 distinct.1
        nonnull.1,
  )
    where
      apart : (p : ℕ) (ys : Cells A) → Avoids p ys → p ≢ t → mem p (addresses ys ++ t ∷ []) ≡ false
      apart p [] out ne = ground arith
      apart p ((b, w) ∷ ys) out ne =
          let rest = apart p ys out.1 ne in let far = out.0 in ground arith

occurs-mem : (x : ℕ) (l : List ℕ) → mem x l ≡ true → 1 ≤ occurs x l
unfolding mem occurs
occurs-mem x [] e = cc
occurs-mem x (a ∷ l) e = elim (Bool-cases (x == a)) [
  | inl same ↦ ground arith
  | inr other ↦ let rest = occurs-mem x l (ground arith) in ground arith
]

occurs-mem_none : (x : ℕ) (l : List ℕ) → mem x l ≡ false → occurs x l ≡ 0
unfolding mem occurs
occurs-mem_none x [] e = refl
occurs-mem_none x (a ∷ l) e = elim (Bool-cases (x == a)) [
  | inl same ↦ absurd (ground arith)
  | inr other ↦ let rest = occurs-mem_none x l (ground arith) in ground arith
]

-- What the destructor leaves of the allocated nodes.
pub after_destructor :
    (before base : Bool) (after : Bool) (x head tail : ℕ) (cells leaked : List ℕ)
    → after ≡ (if mem x (head ∷ cells ++ tail ∷ []) then false else before)
    → bit before ≡ bit base + occurs x (head ∷ tail ∷ []) + occurs x cells + occurs x leaked
    → bit after ≡ bit base + occurs x leaked
unfolding occurs
after_destructor before base after x head tail cells leaked freed extent =
    let parts = occurs-append x cells (tail ∷ []) in
    elim (Bool-cases (mem x (head ∷ cells ++ tail ∷ []))) [
      | inl in_chain ↦
          let many = occurs-mem x (head ∷ cells ++ tail ∷ []) in_chain in
          let gone : after ≡ false = freed ∙ rw in_chain refl in ground arith
      | inr outside ↦
          let none_there = occurs-mem_none x (head ∷ cells ++ tail ∷ []) outside in
          let kept : after ≡ before = freed ∙ rw outside refl in ground arith
    ]
