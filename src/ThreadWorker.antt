-- ===== src/ThreadWorker.antt =====
-- src/common/ThreadWorker.cpp: an object that starts one thread and joins it. `none` stands for a
-- join of an identifier that was never written.
pub mod Run
use async_ping.Prelude.{
  ℕ, Bool, true, false, Option, none, some, List, [], ◌∷◌, ◌==◌, if◌then◌else◌,
}

-- What `threadInst` points to: storage that `new` gave and nobody wrote, or a thread's identifier.
pub data ThreadInst : Type 0 where
  null : ThreadInst
  uninited : ThreadInst
  thread : ℕ → ThreadInst

-- `joined` are the threads that `pthread_join` was called for, the latest first.
pub record ThreadWorker : Type 0 where
  pub end : Bool
  pub thread_inst : ThreadInst
  pub joined : List ℕ

unfoldable pub new_thread_worker : ThreadWorker
new_thread_worker = record { end = true; thread_inst = null; joined = [] }

-- `created` is what `pthread_create` gives: a thread, or an error, which leaves the identifier.
unfoldable pub run_it : (created : Option ℕ) → ThreadWorker → Bool × ThreadWorker
run_it created w =
    if w.end
    then elim created [
      | none ↦ (false, record w { thread_inst = uninited })
      | some id ↦ (true, record w { thread_inst = thread id; end = false })
    ]
    else (true, w)

unfoldable pub end_thread : ThreadWorker → Bool × ThreadWorker
end_thread w = (true, record w { end = true })

-- `status` is what `pthread_join` returns.
unfoldable pub join : (status : ℕ) → ThreadWorker → Option ThreadWorker
join status w = elim w.thread_inst [
  | null ↦ some w
  | uninited ↦ none
  | thread id ↦
      let waited = record w { joined = id ∷ w.joined } in
      some (if status == 0 then record waited { thread_inst = null } else waited)
]

-- The destructor.
unfoldable pub destroy : ThreadWorker → Option ThreadWorker
destroy w = elim w.thread_inst [
  | null ↦ some w
  | uninited ↦ none
  | thread id ↦ some (record w { end = true; thread_inst = null; joined = id ∷ w.joined })
]
