-- ===== src/Tests/Helpers.antt =====
-- The helpers, the singleton and a task without pings at concrete inputs.
use async_ping.Prelude.{ℕ, ◌<◌, ◌≤◌, ◌≡◌, refl, true, some, List, [], ◌∷◌, arith}
use async_ping.Common.{get_rand_intvalue, to_string}
use async_ping.Common.Range.{get_rand_intvalue_lem, to_string-newline}
use async_ping.HttpServer.{choose_worker}
use async_ping.Main.{run_main}
use async_ping.Main.Order.{registered, run_main-choose}
use async_ping.Singleton.{
  Singleton, waiting, testing, making, leaving, returned, go_to, misses, locks, finds, enters,
  makes, unlocks, Run, here, next, new_singleton,
}
use async_ping.Singleton.Once.{Run-once}

get_rand_intvalue_lem_example :
    (5 ≤ get_rand_intvalue 2000000000 5 9) × (get_rand_intvalue 2000000000 5 9 < 9)
get_rand_intvalue_lem_example = get_rand_intvalue_lem 2000000000 5 9 (omega arith) (omega arith)

abbrev one_worker : List ℕ
one_worker = 7 ∷ []

to_string-newline_example : to_string (123 ∷ 125 ∷ 10 ∷ []) ≡ 123 ∷ 125 ∷ []
to_string-newline_example = to_string-newline (123 ∷ 125 ∷ [])

-- Two threads miss the object and wait for the lock; the second finds what the first made.
abbrev raced : Singleton
unfolding new_singleton go_to
raced =
    let both = go_to (go_to new_singleton 1 waiting) 2 waiting in
    let one = record (go_to (go_to (go_to both 1 testing) 1 making) 1 leaving) {
      value = some 0;
      made = 1;
    } in
    go_to (go_to (go_to (go_to one 1 (returned 0)) 2 testing) 2 leaving) 2 (returned 0)

raced-Run : Run new_singleton raced
unfolding new_singleton go_to
raced-Run =
    next
      (next
        (next
          (next
            (next
              (next
                (next (next (next here (misses 1 refl refl)) (misses 2 refl refl))
                  (locks 1 refl refl))
                (enters 1 refl refl))
              (makes 1 refl))
            (unlocks 1 0 refl refl))
          (locks 2 refl refl))
        (finds 2 0 refl refl))
      (unlocks 2 0 refl refl)

Run-once_example : (raced.made ≡ 1) × (raced.value ≡ some 0) × (◌≡◌ {A = ℕ} 0 0)
unfolding new_singleton go_to
Run-once_example = Run-once raced 1 2 0 0 raced-Run refl refl

run_main-choose_example : (choose_worker (registered [] (run_main 3 true)) 2).0 ≡ some 2
run_main-choose_example = run_main-choose 3 2 (omega arith)
