-- ===== src/HttpServer/Verdict.antt =====
-- What a request may be answered, told from the request and from what happened so far.
use Prim.Native.String.{String}
use async_ping.Prelude.{
  ℕ, ◌≤◌, ◌≡◌, ◌⊎◌, refl, inl, inr, true, false, none, some, List, [], ◌∷◌, ◌++◌, map, arith,
  length, ◌∙◌, sym, ap, subst, Bool-cases, Option-cases,
}
use async_ping.Ping.{Ping, closed}
use async_ping.Task.{
  Task, Body, built, error_task, new_task, Response, PingResult, error_msg, ping_result,
  build_response,
}
use async_ping.Task.Construct.{Rejected, Rejected-le}
use async_ping.Task.Servers.{targets, Names, IsFilled, new_task_outcome}
use async_ping.HttpResponse.{Sent, reply, error}
use async_ping.TaskWorker.Grown.{Grown}
use async_ping.TaskWorker.Invariant.{IsAnswered}
use async_ping.TaskWorker.Told.{Event, full, In, In-more, TaskTold}
use async_ping.HttpServer.{Request, make_task}
use async_ping.HttpServer.Reported.{AllExplained, AllExplained-more, results-AllExplained}
use async_ping.HttpServer.Responses.{answer, answer_of_response}

-- The addresses of a response, in order.
abbrev pub addresses : List PingResult → List String
addresses results = map (λ r. r.ip) results

-- A response that reports the error `code`.
abbrev pub failure : ℕ → Response
failure code = record { success = false; err_msg = error_msg code; results = [] }

-- Another method than POST, a payload that is no JSON, a body with a fault, a worker that was full
-- at some time, or one result for each server of the body, in order, each explained by what happened
-- to the pings of one task.
pub data RightAnswer (events : List Event) (req : Request) (sent : Sent) : Type 0 where
  wrong_method :
      req.is_post ≡ false → sent ≡ error 405 "Method Not Allowed" → RightAnswer events req sent
  not_json :
      req.is_post ≡ true
      → req.body ≡ none
      → sent ≡ error 415 "Unsupported Media Type"
      → RightAnswer events req sent
  failed :
      (body : Body) (code : ℕ)
      → req.is_post ≡ true
      → req.body ≡ some body
      → Rejected body code ⊎ (code ≡ 1005) × In full events
      → sent ≡ reply 200 "OK" (failure code ∷ [])
      → RightAnswer events req sent
  pinged :
      (body : Body) (results : List PingResult) (ts : ℕ)
      → req.is_post ≡ true
      → req.body ≡ some body
      → length results ≡ body.servers_size
      → Names body.server 0 (addresses results)
      → AllExplained events ts 0 results
      → sent ≡ reply 200 "OK" (record { success = true; err_msg = ""; results = results } ∷ [])
      → RightAnswer events req sent

-- What is right stays right.
pub RightAnswer-more :
    (new events : List Event) (req : Request) (sent : Sent)
    → RightAnswer events req sent
    → RightAnswer (new ++ events) req sent
RightAnswer-more new events req sent (wrong_method a b) = wrong_method a b
RightAnswer-more new events req sent (not_json a b c) = not_json a b c
RightAnswer-more new events req sent (failed body code a b (inl reason) c) =
    failed body code a b (inl reason) c
RightAnswer-more new events req sent (failed body code a b (inr (e, met)) c) =
    failed body code a b (inr (e, In-more new events full met)) c
RightAnswer-more new events req sent (pinged body results ts a b c d h e) =
    pinged body results ts a b c d (AllExplained-more new events ts 0 results h) e

addresses-map : (ps : List Ping) → addresses (map ping_result ps) ≡ targets ps
unfolding ping_result
addresses-map [] = refl
addresses-map (p ∷ ps) = ap (λ l. p.ip ∷ l) (addresses-map ps)

length-addresses :
    (ps : List Ping) (qs : List Ping) → targets ps ≡ targets qs → length ps ≡ length qs
length-addresses [] [] e = refl
length-addresses [] (q ∷ qs) e = cc
length-addresses (p ∷ ps) [] e = cc
length-addresses (p ∷ ps) (q ∷ qs) e = ap ℕ.suc (length-addresses ps qs (cc))

length-results : (ps : List Ping) → length (map ping_result ps) ≡ length ps
length-results [] = refl
length-results (p ∷ ps) = ap ℕ.suc (length-results ps)

-- The two HTTP errors.
refused_method : (u : Task) → u.pre_error_code ≡ 405 → answer u ≡ error 405 "Method Not Allowed"
unfolding answer
refused_method u e = rw e refl

refused_payload :
    (u : Task) → u.pre_error_code ≡ 415 → answer u ≡ error 415 "Unsupported Media Type"
unfolding answer
refused_payload u e = rw e refl

-- A task that failed behind the HTTP checks.
failure_lem :
    (u : Task) (code : ℕ)
    → u.prepare_error ≡ true
    → u.pre_error_code ≡ code
    → 1000 ≤ code
    → answer u ≡ reply 200 "OK" (failure code ∷ [])
unfolding build_response
failure_lem u code bad e large =
    answer_of_response u (ground arith) ∙ ap (λ r. reply 200 "OK" (r ∷ [])) (rw (bad, e) refl)

-- The code of a task that was an error from the start.
kept_code :
    (raw code : ℕ) (u : Task)
    → Grown (error_task raw code) u
    → (u.prepare_error ≡ true) × (u.pre_error_code ≡ code)
kept_code raw code u grown = elim (grown.verdict) [
  | inl same ↦ same
  | inr refused ↦ absurd (cc (refused.0))
]

-- A task that was filled.
filled_answer :
    (events : List Event) (req : Request) (body : Body) (t u : Task)
    → req.is_post ≡ true
    → req.body ≡ some body
    → IsFilled body t
    → Grown t u
    → TaskTold events u
    → IsAnswered u
    → RightAnswer events req (answer u)
unfolding build_response
filled_answer events req body t u post json filled grown told done = elim (grown.verdict) [
  | inr (valid, bad, code) ↦
      let met : In full events = elim (told.refused) [
        | inl other ↦ absurd (other code)
        | inr met ↦ met
      ] in
      failed body 1005 post json (inr (refl, met)) (failure_lem u 1005 bad code (omega arith))
  | inl (valid, code) ↦
      let none_bad : u.prepare_error ≡ false = valid ∙ filled.0 in
      let plain : u.pre_error_code ≡ 0 = code ∙ filled.1 in
      let size =
        length-results u.pings ∙ length-addresses u.pings t.pings grown.same_targets ∙ filled.2 in
      let shut : closed u.pings ≡ length u.pings = elim (done.settled) [
        | inl bad ↦ absurd (cc (bad, none_bad))
        | inr all ↦ all.1
      ] in
      pinged body (map ping_result u.pings) u.timestamp post json size
        (subst (Names body.server 0) (sym (addresses-map u.pings ∙ grown.same_targets)) filled.3)
        (results-AllExplained events u.timestamp 0 u.pings shut told.pings)
        (answer_of_response u (ground arith) ∙ ap (λ r. reply 200 "OK" (r ∷ [])) (rw none_bad refl))
]

-- What is sent for what became of the request's task is right for the request.
pub answer-RightAnswer :
    (events : List Event) (raw fuel : ℕ) (req : Request) (t u : Task)
    → make_task raw fuel req ≡ built t
    → Grown t u
    → TaskTold events u
    → IsAnswered u
    → RightAnswer events req (answer u)
unfolding make_task
answer-RightAnswer events raw fuel req t u made grown told done = elim (Bool-cases req.is_post) [
  | inr get ↦
      let run : make_task raw fuel req ≡ built (error_task raw 405) = rw (get, make_task) refl in
      let same : t ≡ error_task raw 405 = cc in
      wrong_method get
        (refused_method u (kept_code raw 405 u (subst (λ x. Grown x u) same grown)).1)
  | inl post ↦ elim (Option-cases req.body) [
    | inl bad ↦
        let run : make_task raw fuel req ≡ built (error_task raw 415) =
          rw (post, make_task) (rw bad refl) in
        let same : t ≡ error_task raw 415 = cc in
        not_json post bad
          (refused_payload u (kept_code raw 415 u (subst (λ x. Grown x u) same grown)).1)
    | inr (body, json) ↦
        let run : make_task raw fuel req ≡ new_task raw fuel body =
          rw (post, make_task) (rw json refl) in
        elim (new_task_outcome raw fuel body t (sym run ∙ made)) [
          | inr filled ↦ filled_answer events req body t u post json filled grown told done
          | inl (code, reason, same) ↦
              let kept = kept_code raw code u (subst (λ x. Grown x u) same grown) in
              failed body code post json (inl reason)
                (failure_lem u code kept.0 kept.1 (Rejected-le body code reason))
        ]
  ]
]
