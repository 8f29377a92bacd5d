-- ===== src/Fifo.antt =====
-- What `ConcurrentDequeue` of src/common/CommonList.h promises its clients: a list that grows at
-- the head and shrinks at the tail. The clients (the server, the workers, the logger) use it so;
-- CommonList/Dequeue proves that the linked nodes implement it.
use async_ping.Prelude.{
  ℕ, ◌+◌, ◌≡◌, refl, ◌⊎◌, inl, inr, Bool, true, false, append-nil, sym, Option, none, some, List,
  [], ◌∷◌, ◌++◌, arith, ◌==◌, if◌then◌else◌, ap,
}

module _ {ℓ} {A : Type ℓ} where
  abbrev pub push_head : A → List A → List A
  push_head x q = x ∷ q

  -- The oldest element and the rest.
  unfoldable pub pop_tail : List A → Option (A × List A)
  pop_tail [] = none
  pop_tail (x ∷ xs) = elim (pop_tail xs) [ none ↦ some (x, []) | some (y, r) ↦ some (y, x ∷ r) ]

  -- It fails on the empty queue only.
  pub pop_tail-none : (q : List A) → pop_tail q ≡ none → q ≡ []
  unfolding pop_tail
  pop_tail-none [] h = refl
  pop_tail-none (x ∷ xs) h = ground (arith, pop_tail-none xs)

  -- It splits off the last element.
  pub pop_tail-some : (q : List A) (y : A) (r : List A) → pop_tail q ≡ some (y, r) → q ≡ r ++ y ∷ []
  unfolding pop_tail
  pop_tail-some [] y r h = cc
  pop_tail-some (x ∷ xs) y r h = elim (cases (pop_tail xs)) [
    | inl e ↦ ground (arith, pop_tail-none xs e)
    | inr (z, s, e) ↦ ground (arith, pop_tail-some xs z s e)
  ]
    where
      cases : (o : Option (A × List A)) → (o ≡ none) ⊎ ((z : A) × (s : List A) × (o ≡ some (z, s)))
      cases none = inl refl
      cases (some (z, s)) = inr (z, s, refl)

  -- The two outcomes of a pop, with the equation kept.
  pub pop_cases :
      (q : List A) → (pop_tail q ≡ none) ⊎ ((y : A) × (r : List A) × (pop_tail q ≡ some (y, r)))
  pop_cases q = go (pop_tail q)
    where
      go : (o : Option (A × List A)) → (o ≡ none) ⊎ ((y : A) × (r : List A) × (o ≡ some (y, r)))
      go none = inl refl
      go (some (y, r)) = inr (y, r, refl)

  -- The last element is popped.
  pub pop_tail-append : (r : List A) (y : A) → pop_tail (r ++ y ∷ []) ≡ some (y, r)
  unfolding pop_tail
  pop_tail-append [] y = refl
  pop_tail-append (x ∷ xs) y = rw (pop_tail-append xs y)

-- The elements in the order in which they are popped.
module _ {ℓ} {A : Type ℓ} where
  abbrev pub in_order : List A → List A
  in_order [] = []
  in_order (x ∷ xs) = in_order xs ++ x ∷ []

  pub in_order-append : (r : List A) (y : A) → in_order (r ++ y ∷ []) ≡ y ∷ in_order r
  in_order-append [] y = refl
  in_order-append (x ∷ xs) y = ap (λ l. l ++ x ∷ []) (in_order-append xs y)

-- How often a pointer stands in a queue.
unfoldable pub occurs : ℕ → List ℕ → ℕ
occurs p [] = 0
occurs p (q ∷ qs) = (if p == q then 1 else 0) + occurs p qs

pub occurs-append : (p : ℕ) (xs ys : List ℕ) → occurs p (xs ++ ys) ≡ occurs p xs + occurs p ys
unfolding occurs
occurs-append p [] ys = omega arith
occurs-append p (x ∷ xs) ys = ground (arith, occurs-append p xs ys)

-- A pop takes one element away, and nothing else.
pub occurs-pop_tail :
    (p : ℕ) (q : List ℕ) (y : ℕ) (r : List ℕ)
    → pop_tail q ≡ some (y, r)
    → occurs p q ≡ occurs p r + (if p == y then 1 else 0)
unfolding occurs
occurs-pop_tail p q y r h = rw (pop_tail-some q y r h) (ground (arith, occurs-append p r (y ∷ [])))

-- The value of a push that was taken, and that of a pop, as lists.
module _ {A : Type 0} where
  abbrev pub when : Bool → A → List A
  when b v = if b then v ∷ [] else []

  abbrev pub to_list : Option A → List A
  to_list none = []
  to_list (some v) = v ∷ []

  pub in_order-when :
      (b : Bool) (v : A) (q : List A) → in_order (when b v ++ q) ≡ in_order q ++ when b v
  in_order-when true v q = refl
  in_order-when false v q = sym (append-nil (in_order q))

-- A queue as its clients see it: each call goes from state to state, may be refused, and does to the
-- values what the laws say. CommonList/Dequeue/Interface implements it, Logger/Shared uses it.
pub record Queue (A : Type 0) : Type 1 where
  pub State : Type 0
  pub Push : State → A → Bool → State → Type 0
  pub Pop : State → Option A → State → Type 0
  pub Holds : State → List A → Type 0
  pub pushed :
      (s t : State) (q : List A) (v : A) (b : Bool)
      → Holds s q
      → Push s v b t
      → Holds t (when b v ++ q)
  pub popped :
      (s t : State) (q : List A) (o : Option A)
      → Holds s q
      → Pop s o t
      → (r : List A) × Holds t r × (q ≡ r ++ to_list o)
