-- ===== src/CommonList/Dequeue/Links.antt =====
-- Chains of nodes that are linked both ways.
use async_ping.Prelude.{ℕ, ◌≡◌, ◌≢◌, List, [], ◌∷◌, ◌++◌, All, ◌∙◌, sym, ap}
use async_ping.CommonList.{Heap}

-- Address and value of each node, from the head on.
abbrev pub Cells : Type 0 → Type 0
Cells A = List (ℕ × A)

module _ {A : Type 0} where
  -- From the node at `p` the pointers lead through `xs` to the node at `q`, and back.
  abbrev pub Links : Heap A → ℕ → Cells A → ℕ → Type 0
  Links h p [] q = (h.next p ≡ q) × (h.prev q ≡ p)
  Links h p ((a, v) ∷ xs) q = (h.next p ≡ a) × (h.prev a ≡ p) × (h.value a ≡ v) × Links h a xs q

  -- `a` is none of the addresses.
  abbrev pub Avoids : ℕ → Cells A → Type 0
  Avoids a = All (λ c. c.0 ≢ a)

  abbrev pub Distinct : Cells A → Type 0
  Distinct [] = Unit {0}
  Distinct ((a, v) ∷ xs) = Avoids a xs × Distinct xs

  -- Two heaps agree on the nodes of a chain.
  abbrev pub Agree : Heap A → Heap A → Cells A → Type 0
  Agree h g =
      All (λ c. (g.next c.0 ≡ h.next c.0) × (g.prev c.0 ≡ h.prev c.0) × (g.value c.0 ≡ h.value c.0))

  pub All-map :
      (P Q : ℕ × A → Type 0) (xs : Cells A) → All P xs → ((c : ℕ × A) → P c → Q c) → All Q xs
  All-map P Q [] h f = tt
  All-map P Q (x ∷ xs) h f = (f x h.0, All-map P Q xs h.1 f)

  pub All-both :
      (P Q : ℕ × A → Type 0) (xs : Cells A) → All P xs → All Q xs → All (λ c. P c × Q c) xs
  All-both P Q [] h k = tt
  All-both P Q (x ∷ xs) h k = ((h.0, k.0), All-both P Q xs h.1 k.1)

  pub All-append : (P : ℕ × A → Type 0) (xs ys : Cells A) → All P (xs ++ ys) → All P xs × All P ys
  All-append P [] ys h = (tt, h)
  All-append P (x ∷ xs) ys h = let rest = All-append P xs ys h.1 in ((h.0, rest.0), rest.1)

  -- A change outside a chain keeps it.
  pub frame :
      (h g : Heap A) (p : ℕ) (xs : Cells A) (q : ℕ)
      → Links h p xs q
      → g.next p ≡ h.next p
      → Agree h g xs
      → g.prev q ≡ h.prev q
      → Links g p xs q
  frame h g p [] q l n s r = (n ∙ l.0, r ∙ l.1)
  frame h g p ((a, v) ∷ xs) q l n s r =
      (n ∙ l.0, s.0.1 ∙ l.1, s.0.2 ∙ l.2, frame h g a xs q l.3 s.0.0 s.1 r)

  -- The last node of a chain.
  pub unsnoc :
      (h : Heap A) (p : ℕ) (xs : Cells A) (a : ℕ) (v : A) (q : ℕ)
      → Links h p (xs ++ (a, v) ∷ []) q
      → Links h p xs a × (h.value a ≡ v) × (h.prev q ≡ a)
  unsnoc h p [] a v q l = ((l.0, l.1), l.2, l.3.1)
  unsnoc h p ((b, w) ∷ xs) a v q l =
      let rest = unsnoc h b xs a v q l.3 in ((l.0, l.1, l.2, rest.0), rest.1, rest.2)

  -- The node before the end is none that the chain avoids.
  pub before_ne :
      (h : Heap A) (p : ℕ) (xs : Cells A) (q x : ℕ)
      → Links h p xs q
      → p ≢ x
      → Avoids x xs
      → h.prev q ≢ x
  before_ne h p [] q x l ne s e = ne (sym l.1 ∙ e)
  before_ne h p ((a, v) ∷ xs) q x l ne s e = before_ne h a xs q x l.3 s.0 s.1 e

  -- The end of a chain is moved from `a` to `q`.
  pub relink :
      (h g : Heap A) (p : ℕ) (xs : Cells A) (a q : ℕ)
      → Links h p xs a
      → Avoids p xs
      → Distinct xs
      → Avoids q xs
      → ((x : ℕ) → x ≢ h.prev a → g.next x ≡ h.next x)
      → g.next (h.prev a) ≡ q
      → ((x : ℕ) → x ≢ q → g.prev x ≡ h.prev x)
      → g.prev q ≡ h.prev a
      → ((x : ℕ) → g.value x ≡ h.value x)
      → Links g p xs q
  relink h g p [] a q l out d end n n' r r' v = (ap g.next (sym l.1) ∙ n', r' ∙ l.1)
  relink h g p ((b, w) ∷ xs) a q l out d end n n' r r' v = (
    n p (λ e. before_ne h b xs a p l.3 out.0 out.1 (sym e)) ∙ l.0,
    r b end.0 ∙ l.1,
    v b ∙ l.2,
    relink h g b xs a q l.3 d.0 d.1 end.1 n n' r r' v,
  )
