-- ===== src/TaskWorker/Starting.antt =====
-- `doTask`: every ping of a fresh task is started once, whatever the network answers.
use async_ping.Prelude.{
  ℕ, zero, suc, ◌+◌, ◌≤◌, ◌<◌, ◌≡◌, ◌≢◌, refl, inl, inr, true, false, some, arith, get_elem?,
  get_elem?-set_ne, get_elem?-set_self, ◌∙◌, sym, ap, Bool-cases, All-get,
}
use async_ping.Dictionary.{find}
use async_ping.Ping.{Ping, IsTimed, is_open, is_doing, uninited, doing, send_error}
use async_ping.TaskWorker.{TaskWorker, SendResult, put_ping, fail_send, start, start_loop}
use async_ping.TaskWorker.Invariant.{Inv, own}
use async_ping.TaskWorker.Weight.{weight, put_ping-weight, count_done-weight}
use async_ping.TaskWorker.Pings.{
  put_ping-tasks, put_ping-Touch, put_ping-Inv, put_ping-own, counted, counted-tasks, counted-Touch,
  count_done-Inv, count_done-own, count_done_more,
}

-- The task at `p` is still registered, and its pings other than `i` are as they were.
record Kept (w v : TaskWorker) (p i : ℕ) : Type 0 where
  same_map : v.doing_map ≡ w.doing_map
  same_total : (v.tasks p).total_count ≡ (w.tasks p).total_count
  same_pings : (j : ℕ) → i ≢ j → get_elem? (v.tasks p).pings j ≡ get_elem? (w.tasks p).pings j

Kept-trans : {u w v : TaskWorker} {p i : ℕ} → Kept u w p i → Kept w v p i → Kept u v p i
Kept-trans a b = record {
  same_map = b.same_map ∙ a.same_map;
  same_total = b.same_total ∙ a.same_total;
  same_pings = λ j ne. b.same_pings j ne ∙ a.same_pings j ne;
}

-- Ping `j` waits to be started.
abbrev pub IsWaiting : TaskWorker → ℕ → ℕ → Type 0
IsWaiting w p j = (me : Ping) × (get_elem? (w.tasks p).pings j ≡ some me) × (me.status ≡ uninited)

put_ping-Kept : (w : TaskWorker) (p i : ℕ) (next : Ping) → Kept w (put_ping w p i next) p i
put_ping-Kept w p i next =
    let touch = put_ping-Touch w p i next in
    let e = put_ping-tasks w p i next in
    record {
      same_map = touch.doing_map;
      same_total = ap (λ t. t.total_count) e;
      same_pings =
          λ j ne. ap (λ t. get_elem? t.pings j) e ∙ get_elem?-set_ne (w.tasks p).pings i j next ne;
    }

counted-Kept : (w : TaskWorker) (p i : ℕ) (next : Ping) → Kept w (counted w p i next) p i
counted-Kept w p i next =
    let touch = counted-Touch w p i next in
    let e = counted-tasks w p i next in
    record {
      same_map = touch.doing_map;
      same_total = ap (λ t. t.total_count) e;
      same_pings =
          λ j ne. ap (λ t. get_elem? t.pings j) e ∙ get_elem?-set_ne (w.tasks p).pings i j next ne;
    }

-- What one start comes to.
record Started (w v : TaskWorker) (p i : ℕ) : Type 0 where
  inv : Inv v
  owned : (q : ℕ) → own v q ≡ own w q
  weighs : weight v ≤ weight w
  kept : (j : ℕ) → i ≢ j → IsWaiting w p j → Kept w v p i

module _ (w : TaskWorker) (p ts i : ℕ) (me : Ping) (inv : Inv w)
    (here : find ts w.doing_map ≡ some p) (at : get_elem? (w.tasks p).pings i ≡ some me)
    (idle : me.status ≡ uninited) where
  fail_send-Started : me.timer ≡ false → Started w (fail_send w p i me) p i
  unfolding fail_send
  fail_send-Started off =
      let failed = record me { status = send_error } in
      let was : is_open me.status ≡ true = ap is_open idle in
      rw was (record {
        inv = count_done-Inv w p ts i me failed inv here at off was refl;
        owned = count_done-own w p ts i me failed inv here at off was refl;
        weighs = omega (arith, count_done-weight w p ts i me failed inv here at was refl);
        kept = λ j ne waits.
            let same =
              count_done_more w p ts i me failed inv here at off was refl j waits.0 ne waits.1
                (ap is_open waits.2) in
            rw same (counted-Kept w p i failed);
      })

  off_of_idle : me.timer ≡ false
  off_of_idle =
      All-get IsTimed (w.tasks p).pings i me (inv.running ts p here).counts.timed at
      ∙ ap is_doing idle

  -- Once it was started a ping waits for its answer.
  sent-Started :
      (env : SendResult)
      → Started w
          (put_ping w p i (record me { sendtime = env.now; status = doing; timer = true }))
          p
          i
  sent-Started env =
      let next = record me { sendtime = env.now; status = doing; timer = true } in
      let same : is_open next.status ≡ is_open me.status = sym (ap is_open idle) in
      record {
        inv = put_ping-Inv w p ts i me next inv here at refl same;
        owned = put_ping-own w p ts i me next inv here at refl;
        weighs = omega (arith, put_ping-weight w p ts i me next inv here at same);
        kept = λ j ne waits. put_ping-Kept w p i next;
      }

-- sendto fails: the time was noted before.
unsent-Started :
    (env : SendResult) (w : TaskWorker) (p ts i : ℕ) (me : Ping) (inv : Inv w)
    → find ts w.doing_map ≡ some p
    → get_elem? (w.tasks p).pings i ≡ some me
    → me.status ≡ uninited
    → Started w
        (fail_send
          (put_ping w p i (record me { sendtime = env.now }))
          p
          i
          (record me { sendtime = env.now }))
        p
        i
unsent-Started env w p ts i me inv here at idle =
    let sending = record me { sendtime = env.now } in
    let u = put_ping w p i sending in
    let off = off_of_idle w p ts i me inv here at idle in
    let inv' = put_ping-Inv w p ts i me sending inv here at (off ∙ sym (ap is_doing idle)) refl in
    let kept = put_ping-Kept w p i sending in
    let at' =
      ap (λ t. get_elem? t.pings i) (put_ping-tasks w p i sending)
      ∙ get_elem?-set_self (w.tasks p).pings i me sending at in
    let rest =
      fail_send-Started u p ts i sending inv' (ap (find ts) kept.same_map ∙ here) at' idle off in
    record {
      inv = rest.inv;
      owned = λ q.
          rest.owned q
          ∙ put_ping-own w p ts i me sending inv here at (off ∙ sym (ap is_doing idle)) q;
      weighs = omega (arith, rest.weighs, put_ping-weight w p ts i me sending inv here at refl);
      kept = λ j ne waits.
          Kept-trans kept (rest.kept j ne (waits.0, kept.same_pings j ne ∙ waits.1, waits.2));
    }

start-Started :
    (env : SendResult) (w : TaskWorker) (p ts i : ℕ) (me : Ping)
    → Inv w
    → find ts w.doing_map ≡ some p
    → get_elem? (w.tasks p).pings i ≡ some me
    → me.status ≡ uninited
    → (v : TaskWorker) × (start env w p i ≡ some v) × Started w v p i
unfolding start put_ping
start-Started env w p ts i me inv here at idle = elim (Bool-cases env.converted) [
  | inr bad ↦ (
    _,
    rw (at, start) (rw bad refl),
    fail_send-Started w p ts i me inv here at idle (off_of_idle w p ts i me inv here at idle),
  )
  | inl good ↦ elim (Bool-cases env.sent) [
    | inr bad ↦
        (_, rw (at, start) (rw (good, bad) refl), unsent-Started env w p ts i me inv here at idle)
    | inl sent ↦
        (_, rw (at, start) (rw (good, sent) refl), sent-Started w p ts i me inv here at idle env)
  ]
]

-- The loop runs to its end, within the array, neither loses the task nor answers it twice, and adds
-- no weight.
pub start_loop_lem :
    (env : ℕ → SendResult) (rest i : ℕ) (w : TaskWorker) (p ts : ℕ)
    → Inv w
    → find ts w.doing_map ≡ some p
    → i + rest ≡ (w.tasks p).total_count
    → ((j : ℕ) → i ≤ j → j < i + rest → IsWaiting w p j)
    → (v : TaskWorker) × (start_loop env rest i w p ≡ some v)
      × Inv v
      × ((q : ℕ) → own v q ≡ own w q)
      × (weight v ≤ weight w)
unfolding start_loop
start_loop_lem env zero i w p ts inv here size waits = (w, refl, inv, λ q. refl, omega arith)
start_loop_lem env (suc zero) i w p ts inv here size waits =
    let me = waits i (omega arith) (omega arith) in
    let one = start-Started (env i) w p ts i me.0 inv here me.1 me.2 in
    (one.0, rw (one.1, start_loop) refl, one.2.inv, one.2.owned, one.2.weighs)
start_loop_lem env (suc (suc rest)) i w p ts inv here size waits =
    let me = waits i (omega arith) (omega arith) in
    let one = start-Started (env i) w p ts i me.0 inv here me.1 me.2 in
    let kept = one.2.kept (i + 1) (omega arith) (waits (i + 1) (omega arith) (omega arith)) in
    let others =
      start_loop_lem env (suc rest) (i + 1) one.0 p ts one.2.inv (ap (find ts) kept.same_map ∙ here)
        (omega (arith, kept.same_total))
        (λ j low high.
          let old = waits j (omega arith) (omega arith) in
          (old.0, kept.same_pings j (omega arith) ∙ old.1, old.2)) in
    (
      others.0,
      rw (one.1, start_loop) others.1,
      others.2,
      λ q. others.3 q ∙ one.2.owned q,
      omega (arith, others.4, one.2.weighs),
    )
