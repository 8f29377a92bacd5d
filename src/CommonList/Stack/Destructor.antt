-- ===== src/CommonList/Stack/Destructor.antt =====
-- The destructor of `List`.
use async_ping.Prelude.{ℕ, suc, ◌≡◌, false, some, List, [], ◌∷◌, arith, ◌∙◌, length, if◌then◌else◌}
use async_ping.CommonList.{Heap, update, load_next, delete_node}
use async_ping.CommonList.Stack.{delete_list}
use async_ping.CommonList.Dequeue.Destructor.{mem, Chain}

module _ {A : Type 0} where
  -- The heap without the node at `p`.
  without : Heap A → ℕ → Heap A
  without h p = record h { live = update h.live p false }

  -- A chain that avoids `p` outlives its node.
  without-Chain :
      (h : Heap A) (p a : ℕ) (cs : List ℕ)
      → mem p (a ∷ cs) ≡ false
      → Chain h a cs
      → Chain (without h p) a cs
  unfolding without mem
  without-Chain h p a [] out c = (c.0, ground (arith, c.1))
  without-Chain h p a (b ∷ cs) out c =
      (c.0, c.1, ground (arith, c.2), c.3, without-Chain h p b cs (ground arith) c.4)

  -- From a sentinel with the nodes `cs` behind it the destructor ends within a round for each node,
  -- touches allocated nodes only, and frees all of them and nothing else.
  pub delete_list-frees :
      (h : Heap A) (head : ℕ) (cs : List ℕ)
      → Chain h head cs
      → (g : Heap A) × (delete_list (suc (length cs)) head h ≡ some (tt, g))
        × ((x : ℕ) → g.live x ≡ (if mem x (head ∷ cs) then false else h.live x))
  unfolding delete_list load_next delete_node without mem
  delete_list-frees h head [] c = (without h head, ground (arith, c.0, c.1), λ x. ground arith)
  delete_list-frees h head (a ∷ cs) c =
      let (g, run, live) =
        delete_list-frees (without h head) a cs (without-Chain h head a cs c.3 c.4) in
      (g, ground (arith, c.0, c.1, c.2, run), λ x. live x ∙ after x)
    where
      after :
          (x : ℕ)
          → (if mem x (a ∷ cs) then false else (without h head).live x)
            ≡ (if mem x (head ∷ a ∷ cs) then false else h.live x)
      after x = ground arith
