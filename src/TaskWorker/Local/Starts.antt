-- ===== src/TaskWorker/Local/Starts.antt =====
-- The start of the pings of a task stays with the task.
use async_ping.Prelude.{
  ℕ, zero, suc, ◌+◌, ◌≤◌, ◌<◌, ◌≡◌, refl, inl, inr, true, false, none, some, arith, get_elem?,
  get_elem?-set_self, ◌∙◌, sym, ap, subst, Bool-cases, Option-cases,
}
use native.Mathlib.Decide.{ℕ_discrete}
use async_ping.Ping.{
  Ping, Status, timeout, uninited, doing, send_error, success, is_open, is_uninited,
}
use async_ping.TaskWorker.{TaskWorker, SendResult, put_ping, fail_send, start, start_loop}
use async_ping.TaskWorker.Pings.{put_ping-tasks}
use async_ping.TaskWorker.Local.{
  put_ping_started, put_ping-Local, waits, Local, Local-refl, Local-trans, count_done-Local,
  waits-get,
}

-- What one start comes to.
pub LocalStart : TaskWorker → TaskWorker → ℕ → ℕ → Type 0
LocalStart w v p i = Local w v p × (waits (v.tasks p).pings i ≡ false)

uninited_of_shut : (s : Status) → is_open s ≡ false → is_uninited s ≡ false
uninited_of_shut uninited e = cc
uninited_of_shut timeout e = refl
uninited_of_shut doing e = refl
uninited_of_shut send_error e = refl
uninited_of_shut success e = refl

fail_send-LocalStart :
    (w : TaskWorker) (p i : ℕ) (me : Ping)
    → get_elem? (w.tasks p).pings i ≡ some me
    → LocalStart w (fail_send w p i me) p i
unfolding fail_send LocalStart
fail_send-LocalStart w p i me at = elim (Bool-cases (is_open me.status)) [
  | inl opened ↦
      let failed = record me { status = send_error } in
      let one = put_ping-Local w p i me failed at (λ h. refl) in
      let done = count_done-Local (put_ping w p i failed) p in
      rw opened (Local-trans one done, done.advanced i (put_ping_started w p i me failed at refl))
  | inr shut ↦
      rw shut
        (Local-refl w p, waits-get (w.tasks p).pings i me at ∙ uninited_of_shut me.status shut)
]

start-LocalStart :
    (env : SendResult) (w : TaskWorker) (p i : ℕ) (me : Ping)
    → get_elem? (w.tasks p).pings i ≡ some me
    → (v : TaskWorker) × (start env w p i ≡ some v) × LocalStart w v p i
unfolding start LocalStart
start-LocalStart env w p i me at = elim (Bool-cases env.converted) [
  | inr bad ↦ (_, rw (at, start) (rw bad refl), fail_send-LocalStart w p i me at)
  | inl good ↦
      let sending = record me { sendtime = env.now } in
      elim (Bool-cases env.sent) [
        | inr bad ↦
            let one = put_ping-Local w p i me sending at (λ h. h) in
            let at' =
              ap (λ t. get_elem? t.pings i) (put_ping-tasks w p i sending)
              ∙ get_elem?-set_self (w.tasks p).pings i me sending at in
            let rest = fail_send-LocalStart (put_ping w p i sending) p i sending at' in
            (_, rw (at, start) (rw (good, bad) refl), (Local-trans one rest.0, rest.1))
        | inl sent ↦
            let next = record sending { status = doing; timer = true } in
            (
              _,
              rw (at, start) (rw (good, sent) refl),
              (put_ping-Local w p i me next at (λ h. refl), put_ping_started w p i me next at refl),
            )
      ]
]

-- After the loop no ping from `i` on waits for its start.
pub start_loop-Local :
    (env : ℕ → SendResult) (rest i : ℕ) (w : TaskWorker) (p : ℕ) (v : TaskWorker)
    → start_loop env rest i w p ≡ some v
    → Local w v p × ((j : ℕ) → i ≤ j → j < i + rest → waits (v.tasks p).pings j ≡ false)
unfolding start_loop LocalStart
start_loop-Local env zero i w p v e =
    (subst (λ u. Local w u p) (cc) (Local-refl w p), λ j low high. absurd (omega arith))
start_loop-Local env (suc rest) i w p v e = elim (Option-cases (get_elem? (w.tasks p).pings i)) [
  | inl out ↦
      let fault : start (env i) w p i ≡ none = unfold start in rw (out, start) refl in
      let fails : start_loop env (suc rest) i w p ≡ none = rw (fault, start_loop) refl in
      absurd (cc)
  | inr (me, at) ↦
      let one = start-LocalStart (env i) w p i me at in
      let goes : start_loop env rest (i + 1) one.0 p ≡ some v = rw (one.1, start_loop) at e in
      let others = start_loop-Local env rest (i + 1) one.0 p v goes in
      (
        Local-trans one.2.0 others.0,
        λ j low high. elim (ℕ_discrete j i) [
          | yes same ↦
              subst (λ k. waits (v.tasks p).pings k ≡ false) (sym same)
                (others.0.advanced i one.2.1)
          | no ne ↦ others.1 j (omega arith) (omega arith)
        ],
      )
]
