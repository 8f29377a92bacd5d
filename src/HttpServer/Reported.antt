-- ===== src/HttpServer/Reported.antt =====
-- What the history of the worker says of the results in a response.
use async_ping.Prelude.{
  ℕ, suc, ◌≡◌, ◌≢◌, refl, inl, inr, true, false, none, some, List, [], ◌∷◌, ◌++◌, map, arith,
  length, ◌∙◌, sym, subst, ◌&&◌, Bool-cases, Option-cases,
}
use async_ping.Prelude.Int.{pos, ◌-ℤ◌}
use async_ping.Ping.{Ping, Status, timeout, uninited, doing, send_error, success, is_open, closed}
use async_ping.Task.{Task, Body, built, error_task, new_task, PingResult, ping_result}
use async_ping.Task.Construct.{Rejected, not_object, not_positive, not_servers, too_many}
use async_ping.Task.Servers.{new_task_outcome}
use async_ping.TaskWorker.{SendResult}
use async_ping.TaskWorker.Invariant.{closed-le}
use async_ping.TaskWorker.Told.{
  Event, came, fired, began, In, In-more, Known, PingKnown, Told, TaskTold, Told-fresh,
}
use async_ping.HttpServer.{Request, make_task}
use async_ping.HttpServer.Invariant.{make_task-IsMade}

-- Why the result at index `i` of a task that was taken under the time `ts` is as it is: a datagram
-- for it came at `at`, its timer fired, or its packet was not sent.
pub data Explained (events : List Event) (ts i : ℕ) (r : PingResult) : Type 0 where
  reached :
      (env : ℕ → SendResult) (at : ℕ)
      → r.lost ≡ false
      → r.avg_rtt ≡ some (pos at -ℤ pos (env i).now)
      → In (began ts env) events
      → In (came ts i at) events
      → Explained events ts i r
  timed_out : r.lost ≡ true → r.avg_rtt ≡ none → In (fired ts i) events → Explained events ts i r
  unsent :
      (env : ℕ → SendResult)
      → r.lost ≡ true
      → r.avg_rtt ≡ none
      → In (began ts env) events
      → ((env i).converted && (env i).sent) ≡ false
      → Explained events ts i r

-- From index `i` on.
abbrev pub AllExplained : List Event → (ts i : ℕ) → List PingResult → Type 0
AllExplained events ts i [] = Unit
AllExplained events ts i (r ∷ rs) = Explained events ts i r × AllExplained events ts (suc i) rs

Explained-more :
    (new events : List Event) (ts i : ℕ) (r : PingResult)
    → Explained events ts i r
    → Explained (new ++ events) ts i r
Explained-more new events ts i r (reached env at l a b c) =
    reached env at l a (In-more new events (began ts env) b) (In-more new events (came ts i at) c)
Explained-more new events ts i r (timed_out l a f) =
    timed_out l a (In-more new events (fired ts i) f)
Explained-more new events ts i r (unsent env l a b bad) =
    unsent env l a (In-more new events (began ts env) b) bad

pub AllExplained-more :
    (new events : List Event) (ts i : ℕ) (rs : List PingResult)
    → AllExplained events ts i rs
    → AllExplained (new ++ events) ts i rs
AllExplained-more new events ts i [] h = tt
AllExplained-more new events ts i (r ∷ rs) h =
    (Explained-more new events ts i r h.0, AllExplained-more new events ts (suc i) rs h.1)

-- The result of a ping that is closed.
explained :
    (events : List Event) (ts i : ℕ) (q : Ping)
    → is_open q.status ≡ false
    → PingKnown events ts i q
    → Explained events ts i (ping_result q)
unfolding ping_result
explained events ts i q shut known = by_status q.status refl
  where
    by_status : (s : Status) → q.status ≡ s → Explained events ts i (ping_result q)
    by_status timeout e =
        timed_out (rw e refl) (rw e refl) (subst (Known events ts i q.sendtime q.recvtime) e known)
    by_status uninited e = absurd (cc)
    by_status doing e = absurd (cc)
    by_status send_error e =
        let (env, b, bad) = subst (Known events ts i q.sendtime q.recvtime) e known in
        unsent env (rw e refl) (rw e refl) b bad
    by_status success e =
        let (env, b, sent, c) = subst (Known events ts i q.sendtime q.recvtime) e known in
        reached env q.recvtime (rw e refl) (rw (e, sent) refl) b c

-- The results of a task of which all pings are closed.
pub results-AllExplained :
    (events : List Event) (ts i : ℕ) (ps : List Ping)
    → closed ps ≡ length ps
    → Told events ts i ps
    → AllExplained events ts i (map ping_result ps)
unfolding closed
results-AllExplained events ts i [] e h = tt
results-AllExplained events ts i (q ∷ qs) e h = elim (Bool-cases (is_open q.status)) [
  | inl opened ↦ absurd (ground (arith, closed-le qs))
  | inr shut ↦ (
    explained events ts i q shut h.0,
    results-AllExplained events ts (suc i) qs (ground arith) h.1,
  )
]

Rejected-code : (body : Body) (code : ℕ) → Rejected body code → code ≢ 1005
Rejected-code body code (not_object a e) = λ h. omega arith
Rejected-code body code (not_positive limit o a b e) = λ h. omega arith
Rejected-code body code (not_servers t a e) = λ h. omega arith
Rejected-code body code (too_many t a b e) = λ h. omega arith

error_task-TaskTold :
    (events : List Event) (raw code : ℕ) → code ≢ 1005 → TaskTold events (error_task raw code)
error_task-TaskTold events raw code ne = record { refused = inl ne; pings = tt }

-- A new task has met nothing.
pub make_task-TaskTold :
    (events : List Event) (raw fuel : ℕ) (req : Request) (t : Task)
    → make_task raw fuel req ≡ built t
    → TaskTold events t
unfolding make_task
make_task-TaskTold events raw fuel req t e = elim (Bool-cases req.is_post) [
  | inr get ↦
      let run : make_task raw fuel req ≡ built (error_task raw 405) = rw (get, make_task) refl in
      let same : error_task raw 405 ≡ t = cc in
      subst (TaskTold events) same (error_task-TaskTold events raw 405 (λ h. omega arith))
  | inl post ↦ elim (Option-cases req.body) [
    | inl no_json ↦
        let run : make_task raw fuel req ≡ built (error_task raw 415) =
          rw (post, make_task) (rw no_json refl) in
        let same : error_task raw 415 ≡ t = cc in
        subst (TaskTold events) same (error_task-TaskTold events raw 415 (λ h. omega arith))
    | inr (body, json) ↦
        let run : make_task raw fuel req ≡ new_task raw fuel body =
          rw (post, make_task) (rw json refl) in
        elim (new_task_outcome raw fuel body t (sym run ∙ e)) [
          | inl (code, reason, same) ↦
              subst (TaskTold events) (sym same)
                (error_task-TaskTold events raw code (Rejected-code body code reason))
          | inr filled ↦ record {
            refused = inl (λ h. omega (arith, filled.1));
            pings = elim (make_task-IsMade raw fuel req t e) [
              | inr ready ↦ Told-fresh events t.timestamp 0 t.pings ready.fresh
              | inl (bad, settled) ↦ let valid = filled.0 in absurd (cc)
            ];
          }
        ]
  ]
]
