-- ===== src/HttpServer/Answers.antt =====
-- From the request to the answer: which error a client is told.
use async_ping.Prelude.{
  ℕ, ◌≡◌, refl, inl, inr, false, not, ◌&&◌, none, some, List, [], ◌∷◌, arith, ltb, ◌∙◌, sym, subst,
  Bool-cases, Option-cases, if◌then◌else◌,
}
use async_ping.Ping.{Ping}
use async_ping.Task.{
  Task, Body, Built, built, threw, looping, error_task, new_task, with_pings, build_response,
}
use async_ping.Task.Construct.{Rejected-le, new_task_cases}
use async_ping.HttpResponse.{Sent, reply, error}
use async_ping.HttpServer.{Request, make_task}
use async_ping.HttpServer.Responses.{answer, answer_of_response}

-- No HTTP error.
abbrev IsPlain : Task → Type 0
IsPlain t = (ltb 0 t.pre_error_code && ltb t.pre_error_code 1000) ≡ false

filled-IsPlain :
    (raw size : ℕ) (loop : Built (List Ping)) (t : Task)
    → with_pings raw size loop ≡ built t
    → IsPlain t
filled-IsPlain raw size (built qs) t e = ground arith
filled-IsPlain raw size threw t e = cc
filled-IsPlain raw size looping t e = cc

new_task-IsPlain :
    (raw fuel : ℕ) (body : Body) (t : Task) → new_task raw fuel body ≡ built t → IsPlain t
new_task-IsPlain raw fuel body t e = elim (new_task_cases raw fuel body) [
  | inl bad ↦ absurd (cc)
  | inr (inl (code, reason, refused)) ↦
      let large = Rejected-le body code reason in
      let same : error_task raw code ≡ t = cc in subst IsPlain same (ground arith)
  | inr (inr (limit, fits, loop)) ↦ filled-IsPlain raw body.servers_size _ t (sym loop ∙ e)
]

-- A request by another method than POST is answered by 405, one whose payload is not JSON by 415;
-- for every other request that becomes a task the client is sent the task's response with 200.
make_task-answer :
    (raw fuel : ℕ) (req : Request) (t : Task)
    → make_task raw fuel req ≡ built t
    → answer t ≡ (
        if not req.is_post then error 405 "Method Not Allowed" else elim req.body as (λ _. Sent) [
          | none ↦ error 415 "Unsupported Media Type"
          | some _ ↦ reply 200 "OK" (build_response t ∷ [])
        ])
make_task-answer raw fuel req t e = elim (Bool-cases req.is_post) [
  | inr no_post ↦
      let made : make_task raw fuel req ≡ built (error_task raw 405) =
        unfold make_task in rw no_post refl in
      let same : error_task raw 405 ≡ t = cc in
      rw no_post
        (subst (λ u. answer u ≡ error 405 "Method Not Allowed") same (unfold answer in refl))
  | inl post ↦ elim (Option-cases req.body) [
    | inl bad ↦
        let made : make_task raw fuel req ≡ built (error_task raw 415) =
          unfold make_task in rw post (rw bad refl) in
        let same : error_task raw 415 ≡ t = cc in
        rw post (
          rw bad (
            subst (λ u. answer u ≡ error 415 "Unsupported Media Type") same
              (unfold answer in refl)))
    | inr (body, json) ↦
        let made : make_task raw fuel req ≡ new_task raw fuel body =
          unfold make_task in rw post (rw json refl) in
        rw post (rw json (answer_of_response t (new_task-IsPlain raw fuel body t (sym made ∙ e))))
  ]
]
