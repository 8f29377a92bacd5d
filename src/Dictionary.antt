-- ===== src/Dictionary.antt =====
-- `std::map` from numbers to numbers, as an association list: what the program uses of it is find,
-- insert (which keeps an entry that is there) and erase.
use native.Mathlib.Decide.{ℕ_discrete}
use async_ping.Prelude.{
  ap, ℕ, suc, ◌+◌, ◌≤◌, ◌≡◌, ◌≢◌, refl, Option, none, some, List, [], ◌∷◌, arith, ◌==◌,
  if◌then◌else◌, length,
}

abbrev pub Dictionary : Type 0
Dictionary = List (ℕ × ℕ)

unfoldable pub find : ℕ → Dictionary → Option ℕ
find k [] = none
find k ((j, v) ∷ m) = if k == j then some v else find k m

unfoldable pub insert : ℕ → ℕ → Dictionary → Dictionary
unfolding find
insert k v m = elim (find k m) [ none ↦ (k, v) ∷ m | some _ ↦ m ]

unfoldable pub erase : ℕ → Dictionary → Dictionary
erase k [] = []
erase k ((j, v) ∷ m) = if k == j then m else (j, v) ∷ erase k m

-- Each key stands once.
abbrev pub IsMap : Dictionary → Type 0
IsMap [] = Unit {0}
IsMap ((k, v) ∷ m) = (find k m ≡ none) × IsMap m

-- How often a value stands in it.
unfoldable pub values : ℕ → Dictionary → ℕ
values p [] = 0
values p ((k, v) ∷ m) = (if p == v then 1 else 0) + values p m

pub insert-fresh : (k v : ℕ) (m : Dictionary) → find k m ≡ none → insert k v m ≡ (k, v) ∷ m
unfolding insert
insert-fresh k v m h = rw (h, insert)

pub insert-taken : (k v w : ℕ) (m : Dictionary) → find k m ≡ some w → insert k v m ≡ m
unfolding insert
insert-taken k v w m h = rw (h, insert)

pub find-erase_ne : (k j : ℕ) (m : Dictionary) → j ≢ k → find j (erase k m) ≡ find j m
unfolding find erase
find-erase_ne k j [] ne = refl
find-erase_ne k j ((i, v) ∷ m) ne = ground (arith, find-erase_ne k j m ne)

pub find-erase_self : (k : ℕ) (m : Dictionary) → IsMap m → find k (erase k m) ≡ none
unfolding find erase
find-erase_self k [] h = refl
find-erase_self k ((i, v) ∷ m) h = ground (arith, find-erase_self k m h.1)

pub erase-IsMap : (k : ℕ) (m : Dictionary) → IsMap m → IsMap (erase k m)
unfolding erase
erase-IsMap k [] h = h
erase-IsMap k ((i, v) ∷ m) h = ground (arith, erase-IsMap k m h.1, find-erase_ne k i m)

pub length-erase :
    (k p : ℕ) (m : Dictionary) → find k m ≡ some p → length m ≡ suc (length (erase k m))
unfolding find erase
length-erase k p [] h = cc
length-erase k p ((i, v) ∷ m) h = ground (arith, length-erase k p m)

pub values-erase :
    (q k p : ℕ) (m : Dictionary)
    → find k m ≡ some p
    → values q m ≡ values q (erase k m) + (if q == p then 1 else 0)
unfolding find erase values
values-erase q k p [] h = cc
values-erase q k p ((i, v) ∷ m) h = ground (arith, values-erase q k p m)

pub values-find : (k p : ℕ) (m : Dictionary) → find k m ≡ some p → 1 ≤ values p m
unfolding find values
values-find k p [] h = cc
values-find k p ((i, v) ∷ m) h = ground (arith, values-find k p m)

-- A value that stands in it has a key.
pub find_of_values :
    (p : ℕ) (m : Dictionary) → IsMap m → 1 ≤ values p m → (k : ℕ) × (find k m ≡ some p)
unfolding find values
find_of_values p [] u h = absurd (omega arith)
find_of_values p ((k, v) ∷ m) u h = elim (ℕ_discrete p v) [
  | yes e ↦ (k, ground arith)
  | no ne ↦
      let rest = find_of_values p m u.1 (ground arith) in (rest.0, ground (arith, rest.1, u.0))
]

-- 1 for a key of the map, else 0.
unfoldable pub has : ℕ → Dictionary → ℕ
unfolding find
has k m = elim (find k m) [ none ↦ 0 | some _ ↦ 1 ]

pub has-find : (k v : ℕ) (m : Dictionary) → find k m ≡ some v → has k m ≡ 1
unfolding has
has-find k v m h = rw (h, has) refl

pub has-none : (k : ℕ) (m : Dictionary) → find k m ≡ none → has k m ≡ 0
unfolding has
has-none k m h = rw (h, has) refl

pub has-cong : (j : ℕ) (m n : Dictionary) → find j m ≡ find j n → has j m ≡ has j n
unfolding has
has-cong j m n h = ap (λ (o : Option ℕ). elim o as (λ _. ℕ) [ none ↦ 0 | some _ ↦ 1 ]) h
