-- ===== src/Main.antt =====
-- src/Main.cpp: what the main thread does, in order. Calls that log and the setters
-- of a worker are left out.
pub mod Order
use async_ping.Prelude.{ℕ, zero, suc, ◌+◌, Bool, not, List, [], ◌∷◌, ◌++◌, if◌then◌else◌}
use async_ping.HttpServer.{worker_num}

-- A worker is its number.
pub data Action : Type 0 where
  run_logger new_server register_handler sleep run_server join_server delete_server : Action
  join_logger exit_failure : Action
  register_worker run_worker join_worker delete_worker : ℕ → Action

-- `for (int i = 0; i < WORKER_NUM; i ++)` with `rest` rounds to go.
unfoldable pub start_workers : (rest i : ℕ) → List Action
start_workers zero i = []
start_workers (suc rest) i = register_worker i ∷ run_worker i ∷ start_workers rest (i + 1)

-- The loop over the vector of workers.
unfoldable pub end_workers : (rest i : ℕ) → List Action
end_workers zero i = []
end_workers (suc rest) i = join_worker i ∷ delete_worker i ∷ end_workers rest (i + 1)

-- `main` with `n` for WORKER_NUM, where `log_inited` is what `initLogger` returns.
unfoldable pub run_main : (n : ℕ) → (log_inited : Bool) → List Action
unfolding start_workers end_workers
run_main n log_inited =
    if not log_inited
    then exit_failure ∷ []
    else run_logger
      ∷ new_server
      ∷ register_handler
      ∷ (start_workers n 0
          ++ (sleep
              ∷ run_server
              ∷ join_server
              ∷ delete_server
              ∷ (end_workers n 0 ++ join_logger ∷ [])))

unfoldable pub main : Bool → List Action
unfolding run_main
main log_inited = run_main worker_num log_inited
