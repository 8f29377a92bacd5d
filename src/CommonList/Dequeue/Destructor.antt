-- ===== src/CommonList/Dequeue/Destructor.antt =====
-- The destructor of `ConcurrentDequeue` walks from the head over `next` until NULL.
use async_ping.Prelude.{
  ℕ, suc, ◌≡◌, ◌≢◌, Bool, true, false, some, List, [], ◌∷◌, arith, ◌∙◌, length, ◌==◌, ◌||◌,
  if◌then◌else◌,
}
use async_ping.CommonList.{Heap, update, load_next, store_prev, delete_node}
use async_ping.CommonList.Dequeue.{Dequeue, delete_loop, delete_dequeue}

unfoldable pub mem : ℕ → List ℕ → Bool
mem x [] = false
mem x (a ∷ cs) = x == a || mem x cs

module _ {A : Type 0} where
  -- From `p` on, `next` leads over the addresses to NULL. All are allocated, and no two are the
  -- same.
  abbrev pub Chain : Heap A → ℕ → List ℕ → Type 0
  Chain h p [] = (h.next p ≡ 0) × (h.live p ≡ true)
  Chain h p (a ∷ cs) =
      (h.next p ≡ a) × (a ≢ 0) × (h.live p ≡ true) × (mem p (a ∷ cs) ≡ false) × Chain h a cs

  -- The heap after one round.
  round : Heap A → (p a : ℕ) → Heap A
  round h p a = record h { prev = update h.prev a 0; live = update h.live p false }

  first_live : (h : Heap A) (p : ℕ) (cs : List ℕ) → Chain h p cs → h.live p ≡ true
  first_live h p [] c = c.1
  first_live h p (a ∷ cs) c = c.2

  -- A chain that avoids `p` outlives its node.
  round-Chain :
      (h : Heap A) (p b a : ℕ) (cs : List ℕ)
      → mem p (a ∷ cs) ≡ false
      → Chain h a cs
      → Chain (round h p b) a cs
  unfolding round mem
  round-Chain h p b a [] out c = (c.0, ground (arith, c.1))
  round-Chain h p b a (a' ∷ cs) out c =
      (c.0, c.1, ground (arith, c.2), c.3, round-Chain h p b a' cs (ground arith) c.4)

  round_run :
      (h : Heap A) (d : Dequeue) (a fuel : ℕ)
      → h.next d.head ≡ a
      → a ≢ 0
      → h.live d.head ≡ true
      → h.live a ≡ true
      → delete_dequeue (suc fuel) d h
        ≡ delete_dequeue fuel (record d { head = a }) (round h d.head a)
  unfolding delete_dequeue delete_loop round load_next store_prev delete_node
  round_run h d a fuel n nz live live_a =
      let test : (h.next d.head == 0) ≡ false = ground arith in ground arith

  last_run :
      (h : Heap A) (d : Dequeue) (fuel : ℕ)
      → h.next d.head ≡ 0
      → h.live d.head ≡ true
      → delete_dequeue (suc fuel) d h ≡ some (tt, record h { live = update h.live d.head false })
  unfolding delete_dequeue delete_loop load_next delete_node
  last_run h d fuel n live = let test : (h.next d.head == 0) ≡ true = ground arith in ground arith

  -- With a round for each node the destructor ends, touches allocated nodes only, frees all of the
  -- chain, and nothing else.
  pub delete_dequeue-frees :
      (h : Heap A) (d : Dequeue) (cs : List ℕ)
      → Chain h d.head cs
      → (g : Heap A) × (delete_dequeue (suc (length cs)) d h ≡ some (tt, g))
        × ((x : ℕ) → g.live x ≡ (if mem x (d.head ∷ cs) then false else h.live x))
  unfolding mem round
  delete_dequeue-frees h d [] c =
      (record h { live = update h.live d.head false }, last_run h d 0 c.0 c.1, λ x. ground arith)
  delete_dequeue-frees h d (a ∷ cs) c =
      let rest =
        delete_dequeue-frees (round h d.head a) (record d { head = a }) cs
          (round-Chain h d.head a a cs c.3 c.4) in
      (
        rest.0,
        round_run h d a (suc (length cs)) c.0 c.1 c.2 (first_live h a cs c.4) ∙ rest.1,
        λ x. rest.2 x ∙ after x,
      )
    where
      after :
          (x : ℕ)
          → (if mem x (a ∷ cs) then false else (round h d.head a).live x)
            ≡ (if mem x (d.head ∷ a ∷ cs) then false else h.live x)
      after x = ground arith
