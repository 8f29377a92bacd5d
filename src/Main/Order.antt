-- ===== src/Main/Order.antt =====
-- Which workers are started and joined.
use async_ping.Prelude.{
  ℕ, zero, suc, ◌+◌, ◌≡◌, refl, true, List, [], ◌∷◌, ◌++◌, ◌==◌, if◌then◌else◌, arith, ◌∙◌,
  get_elem?, some, ◌<◌, sym, ap, append-nil, append_assoc,
}
use async_ping.HttpServer.Registry
use async_ping.HttpServer.{choose_worker}
use async_ping.Main.{
  register_worker, Action, sleep, run_server, join_server, delete_server, join_logger, run_worker,
  join_worker, start_workers, end_workers, run_main,
}

-- How often worker `k` is started, and how often it is joined before it is deleted.
unfoldable pub starts : ℕ → List Action → ℕ
starts k [] = 0
starts k (run_worker i ∷ l) = (if i == k then 1 else 0) + starts k l
starts k (_ ∷ l) = starts k l

unfoldable pub joins : ℕ → List Action → ℕ
joins k [] = 0
joins k (join_worker i ∷ l) = (if i == k then 1 else 0) + joins k l
joins k (_ ∷ l) = joins k l

-- The server's workers after `registerWorker` of each.
unfoldable pub registered : List ℕ → List Action → List ℕ
unfolding Registry.register_worker
registered workers [] = workers
registered workers (register_worker i ∷ l) =
    registered (Registry.register_worker workers (some i)) l
registered workers (_ ∷ l) = registered workers l

registered-end_workers :
    (workers : List ℕ) (rest i : ℕ)
    → registered workers (end_workers rest i ++ join_logger ∷ []) ≡ workers
unfolding registered end_workers
registered-end_workers workers zero i = refl
registered-end_workers workers (suc rest) i = registered-end_workers workers rest (i + 1)

-- `rest` numbers from `i` on.
abbrev numbers : (rest i : ℕ) → List ℕ
numbers zero i = []
numbers (suc rest) i = i ∷ numbers rest (i + 1)

get_elem?-numbers : (rest i j : ℕ) → j < rest → get_elem? (numbers rest i) j ≡ some (i + j)
get_elem?-numbers zero i j h = absurd (omega arith)
get_elem?-numbers (suc rest) i zero h = ap some (omega arith)
get_elem?-numbers (suc rest) i (suc j) h =
    get_elem?-numbers rest (i + 1) j (omega arith) ∙ ap some (omega arith)

registered-start_workers :
    (workers : List ℕ) (rest i : ℕ) (l : List Action)
    → registered workers (start_workers rest i ++ l) ≡ registered (workers ++ numbers rest i) l
unfolding registered start_workers
registered-start_workers workers zero i l = ap (λ w. registered w l) (sym (append-nil workers))
registered-start_workers workers (suc rest) i l =
    registered-start_workers (Registry.register_worker workers (some i)) rest (i + 1) l
    ∙ ap (λ w. registered w l)
        (unfold Registry.register_worker in append_assoc workers (i ∷ []) (numbers rest (i + 1)))

-- With a log file and `n` workers, sendToWorker finds worker `i` at index `i` below `n`.
pub run_main-choose :
    (n i : ℕ) → i < n → (choose_worker (registered [] (run_main n true)) i).0 ≡ some i
unfolding choose_worker run_main registered
run_main-choose n i h =
    ap (λ w. get_elem? w i)
      (registered-start_workers [] n 0
          (sleep ∷ run_server ∷ join_server ∷ delete_server ∷ (end_workers n 0 ++ join_logger ∷ []))
        ∙ registered-end_workers (numbers n 0) n 0)
    ∙ get_elem?-numbers n 0 i h
    ∙ ap some (omega arith)
