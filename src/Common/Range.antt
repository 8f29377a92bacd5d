-- ===== src/Common/Range.antt =====
-- The ranges of the helpers, and what they mean for their callers.
use async_ping.Prelude.{
  ℕ, zero, suc, ◌+◌, ◌-◌, ◌*◌, ◌/◌, ◌^◌, ◌≤◌, ◌<◌, ◌≡◌, refl, inl, inr, ◌⊎◌, List, [], ◌∷◌, ◌++◌,
  arith, length, some, get_elem?-lt, ap,
}
use async_ping.Common.{get_rand_intvalue, current_time, to_string}
use async_ping.HttpServer.{choose_worker}

product : (r m n : ℕ) → r < m → r * n + n ≤ m * n
product r m zero h = omega arith
product r m (suc n) h = grind (arith, product r m n h)

scaled : (r n : ℕ) → r < 2 ^ 31 → 1 ≤ n → r * n / 2 ^ 31 < n
scaled r n h k = let p = product r (2 ^ 31) n h in omega arith

-- For numbers start below end that are not negative, a number of rand, and an exact product of
-- doubles, the value lies between start and end, end excluded.
pub get_rand_intvalue_lem :
    (r start end : ℕ)
    → r < 2 ^ 31
    → start < end
    → (start ≤ get_rand_intvalue r start end) × (get_rand_intvalue r start end < end)
unfolding get_rand_intvalue
get_rand_intvalue_lem r start end h k =
    let s = scaled r (end - start) h (omega arith) in (ground arith, ground arith)

-- The value of `randedIndex` at the `n`-th call of `sendToWorker`.
unfoldable pub index_at : {A : Type 0} → (r : ℕ) → List A → (n : ℕ) → ℕ
index_at r workers zero = get_rand_intvalue r 0 (length workers)
index_at r workers (suc n) = (choose_worker workers (index_at r workers n)).1

index_at-lt :
    {A : Type 0} (r : ℕ) (workers : List A) (n : ℕ)
    → r < 2 ^ 31
    → 1 ≤ length workers
    → index_at r workers n < length workers
unfolding index_at choose_worker
index_at-lt r workers zero h k = (get_rand_intvalue_lem r 0 (length workers) h k).1
index_at-lt r workers (suc n) h k = omega arith

-- Each call of `sendToWorker` finds a worker, if one is registered.
pub choose_worker-finds :
    {A : Type 0} (r : ℕ) (workers : List A) (n : ℕ)
    → r < 2 ^ 31
    → 1 ≤ length workers
    → (a : A) × ((choose_worker workers (index_at r workers n)).0 ≡ some a)
unfolding choose_worker
choose_worker-finds r workers n h k =
    get_elem?-lt workers (index_at r workers n) (index_at-lt r workers n h k)

-- Later readings of the clock give larger numbers.
current_time-lt :
    (sec usec sec' usec' : ℕ)
    → usec < 1000000
    → usec' < 1000000
    → sec' < 2 ^ 44
    → (sec < sec') ⊎ ((sec ≡ sec') × (usec < usec'))
    → current_time sec usec < current_time sec' usec'
unfolding current_time
current_time-lt sec usec sec' usec' a b c (inl h) = omega arith
current_time-lt sec usec sec' usec' a b c (inr (e, h)) = omega arith

-- A newline at the end is cut off, once; other text is kept.
pub to_string-newline : (text : List ℕ) → to_string (text ++ 10 ∷ []) ≡ text
unfolding to_string
to_string-newline [] = refl
to_string-newline (c ∷ []) = refl
to_string-newline (c ∷ d ∷ text) = ap (λ l. c ∷ l) (to_string-newline (d ∷ text))
