-- ===== src/ThreadWorker/Run.antt =====
-- A thread object from its constructor to its destructor.
use async_ping.Prelude.{ℕ, ◌≡◌, refl, true, false, Option, some, List, [], ◌∷◌, arith, subst, sym}
use async_ping.ThreadWorker.{ThreadWorker, null, thread, new_thread_worker, run_it, join, destroy}

-- The calls of the object's owner, with the threads created so far, the latest first. The program
-- calls `runIt`, and `join` or nothing.
pub data Run : ThreadWorker → List ℕ → Type 0 where
  constructed : Run new_thread_worker []
  started :
      {w : ThreadWorker} {created : List ℕ} (id : ℕ)
      → Run w created
      → w.end ≡ true
      → Run ((run_it (some id) w).1) (id ∷ created)
  running :
      {w : ThreadWorker} {created : List ℕ} (answer : Option ℕ)
      → Run w created
      → w.end ≡ false
      → Run ((run_it answer w).1) created
  waited :
      {w v : ThreadWorker} {created : List ℕ} (status : ℕ)
      → Run w created
      → join status w ≡ some v
      → status ≡ 0
      → Run v created

-- Every thread that was created is joined, or is the one that the object points to.
pub data Kept (w : ThreadWorker) (created : List ℕ) : Type 0 where
  idle : w.thread_inst ≡ null → created ≡ w.joined → Kept w created
  busy :
      (id : ℕ)
      → w.thread_inst ≡ thread id
      → w.end ≡ false
      → created ≡ id ∷ w.joined
      → Kept w created

started-Kept :
    (w : ThreadWorker) (created : List ℕ) (id : ℕ)
    → w.end ≡ true
    → Kept w created
    → Kept ((run_it (some id) w).1) (id ∷ created)
unfolding run_it
started-Kept w created id e (idle inst same) =
    busy id (ground (arith, e)) (ground (arith, e)) (ground (arith, e))
started-Kept w created id e (busy id' inst end same) = ground (arith, e, end)

running-Kept :
    (w : ThreadWorker) (created : List ℕ) (answer : Option ℕ)
    → w.end ≡ false
    → Kept w created
    → Kept ((run_it answer w).1) created
unfolding run_it
running-Kept w created answer e k = subst (λ u. Kept u created) (ground (arith, e)) k

waited_lem :
    (w v : ThreadWorker) (status : ℕ) → join status w ≡ some v → w.thread_inst ≡ null → w ≡ v
unfolding join
waited_lem w v status e inst = ground (arith, e, inst)

joined_lem :
    (w v : ThreadWorker) (status id : ℕ)
    → join status w ≡ some v
    → status ≡ 0
    → w.thread_inst ≡ thread id
    → record w { joined = id ∷ w.joined; thread_inst = null } ≡ v
unfolding join
joined_lem w v status id e z inst = ground (arith, e, z, inst)

joined-Kept :
    (w v : ThreadWorker) (created : List ℕ) (status : ℕ)
    → join status w ≡ some v
    → status ≡ 0
    → Kept w created
    → Kept v created
unfolding join
joined-Kept w v created status e z (idle inst same) =
    subst (λ u. Kept u created) (waited_lem w v status e inst) (idle inst same)
joined-Kept w v created status e z (busy id inst end same) =
    subst (λ u. Kept u created) (joined_lem w v status id e z inst) (idle refl same)

Run-Kept : (w : ThreadWorker) (created : List ℕ) → Run w created → Kept w created
unfolding new_thread_worker
Run-Kept w created constructed = idle refl refl
Run-Kept w created (started id r e) = started-Kept _ _ id e (Run-Kept _ _ r)
Run-Kept w created (running answer r e) = running-Kept _ _ answer e (Run-Kept _ _ r)
Run-Kept w created (waited status r e z) = joined-Kept _ _ _ status e z (Run-Kept _ _ r)

-- The destructor of an object whose threads all could be created joins each exactly once.
pub destroy-joins :
    (w : ThreadWorker) (created : List ℕ)
    → Run w created
    → (v : ThreadWorker) × ((destroy w ≡ some v) × (v.joined ≡ created) × (v.thread_inst ≡ null))
unfolding destroy
destroy-joins w created r = elim (Run-Kept w created r) [
  | idle inst same ↦ (w, (ground arith, sym same, inst))
  | busy id inst end same ↦ (
    record w { end = true; thread_inst = null; joined = id ∷ w.joined },
    (ground arith, sym same, refl),
  )
]
