-- ===== src/Singleton/Once.antt =====
-- One object is made, and all threads get it.
use async_ping.Prelude.{
  ℕ, ◌≡◌, ◌≢◌, refl, true, false, none, some, arith, ◌==◌, if◌then◌else◌, ◌⊎◌, inl, inr, ap, sym,
  ◌∙◌, subst,
}
use async_ping.Singleton.{
  Singleton, Place, outside, waiting, testing, making, leaving, returned, go_to, Step, sees, misses,
  locks, finds, enters, makes, unlocks, Run, here, next, new_singleton,
}

-- What holds of a thread at its place.
abbrev Placed : Singleton → ℕ → Place → Type 0
Placed s t outside = Unit {0}
Placed s t waiting = Unit {0}
Placed s t testing = s.mutex ≡ some t
Placed s t making = (s.mutex ≡ some t) × (s.value ≡ none)
Placed s t leaving = (s.mutex ≡ some t) × (s.value ≡ some 0)
Placed s t (returned v) = (v ≡ 0) × (s.value ≡ some 0)

-- The object is none, and none was made, or the first and only.
pub record SingletonInv (s : Singleton) : Type 0 where
  pub once : ((s.value ≡ none) × (s.made ≡ 0)) ⊎ ((s.value ≡ some 0) × (s.made ≡ 1))
  pub placed : (t : ℕ) → Placed s t (s.place t)

-- What holds of a thread survives a step of another.
other :
    (s u : Singleton) (q : ℕ) (pl : Place)
    → (s.mutex ≡ some q → (u.mutex ≡ some q) × (s.value ≡ u.value))
    → (s.value ≡ some 0 → u.value ≡ some 0)
    → Placed s q pl
    → Placed u q pl
other s u q outside h k p = tt
other s u q waiting h k p = tt
other s u q testing h k p = (h p).0
other s u q making h k p = ((h p.0).0, sym (h p.0).1 ∙ p.1)
other s u q leaving h k p = ((h p.0).0, sym (h p.0).1 ∙ p.1)
other s u q (returned v) h k p = (p.0, k p.1)

-- One thread moves, the others stay.
moved :
    (s u : Singleton) (t : ℕ) (pl : Place)
    → SingletonInv s
    → ((q : ℕ) → q ≢ t → s.mutex ≡ some q → (u.mutex ≡ some q) × (s.value ≡ u.value))
    → (s.value ≡ some 0 → u.value ≡ some 0)
    → Placed u t pl
    → (q : ℕ) → Placed u q (if q == t then pl else s.place q)
moved s u t pl i h k p q = elim (same_or_not q t) [
  | inl (e, b) ↦ rw b (subst (λ r. Placed u r pl) (sym e) p)
  | inr (ne, b) ↦ rw b (other s u q (s.place q) (h q ne) k (i.placed q))
]
  where
    same_or_not : (a b : ℕ) → ((a ≡ b) × ((a == b) ≡ true)) ⊎ ((a ≢ b) × ((a == b) ≡ false))
    same_or_not a b = ground arith

-- What the thread that moves knows.
at : (s : Singleton) (t : ℕ) (pl : Place) → SingletonInv s → s.place t ≡ pl → Placed s t pl
at s t pl i e = subst (Placed s t) e (i.placed t)

some_first :
    (s : Singleton) (v : ℕ) → SingletonInv s → s.value ≡ some v → (v ≡ 0) × (s.value ≡ some 0)
some_first s v i e = elim i.once [ inl (n, m) ↦ ground arith | inr (n, m) ↦ ground arith ]

made_first : (s : Singleton) → SingletonInv s → s.value ≡ none → s.made ≡ 0
made_first s i e = elim i.once [ inl (n, m) ↦ m | inr (n, m) ↦ ground arith ]

Step-SingletonInv : (s u : Singleton) → Step s u → SingletonInv s → SingletonInv u
unfolding go_to
Step-SingletonInv s u (sees t v p e) i = record {
  once = i.once;
  placed = moved s u t (returned v) i (λ q ne m. (m, refl)) (λ h. h) (some_first s v i e);
}
Step-SingletonInv s u (misses t p e) i = record {
  once = i.once;
  placed = moved s u t waiting i (λ q ne m. (m, refl)) (λ h. h) tt;
}
Step-SingletonInv s u (locks t p e) i = record {
  once = i.once;
  placed = moved s u t testing i (λ q ne m. ground arith) (λ h. h) refl;
}
Step-SingletonInv s u (finds t v p e) i = record {
  once = i.once;
  placed =
      moved s u t leaving i (λ q ne m. (m, refl)) (λ h. h)
        (at s t testing i p, (some_first s v i e).1);
}
Step-SingletonInv s u (enters t p e) i = record {
  once = i.once;
  placed = moved s u t making i (λ q ne m. (m, refl)) (λ h. h) (at s t testing i p, e);
}
Step-SingletonInv s u (makes t p) i =
    let mine = at s t making i p in
    let first = made_first s i mine.1 in
    let mutex = mine.0 in
    let none_yet = mine.1 in
    record {
      once = inr (ap some first, ground arith);
      placed =
          moved s u t leaving i (λ q ne m. ground arith) (λ h. ground arith) (mutex, ap some first);
    }
Step-SingletonInv s u (unlocks t v p e) i =
    let mine = at s t leaving i p in
    let mutex = mine.0 in
    record {
      once = i.once;
      placed = moved s u t (returned v) i (λ q ne m. ground arith) (λ h. h) (some_first s v i e);
    }

Run-SingletonInv : (s : Singleton) → Run new_singleton s → SingletonInv s
unfolding new_singleton
Run-SingletonInv s here = record { once = inl (refl, refl); placed = λ t. tt }
Run-SingletonInv s (next run step) = Step-SingletonInv _ s step (Run-SingletonInv _ run)

-- In every history of calls at most one object is made, and two threads that have returned have
-- the same one, the one in `value`.
pub Run-once :
    (s : Singleton) (t u v w : ℕ)
    → Run new_singleton s
    → s.place t ≡ returned v
    → s.place u ≡ returned w
    → (s.made ≡ 1) × (s.value ≡ some v) × (v ≡ w)
Run-once s t u v w run e e' =
    let i = Run-SingletonInv s run in
    let mine = at s t (returned v) i e in
    let yours = at s u (returned w) i e' in
    (made_one s i mine.1, mine.1 ∙ ap some (sym mine.0), mine.0 ∙ sym yours.0)
  where
    made_one : (s : Singleton) → SingletonInv s → s.value ≡ some 0 → s.made ≡ 1
    made_one s i h = elim i.once [ inl (n, m) ↦ ground arith | inr (n, m) ↦ m ]
