-- ===== src/TaskWorker/Told/Handlers.antt =====
-- The handlers of a worker, beside what the history shows of the pings.
use async_ping.Prelude.{
  ℕ, zero, suc, ◌+◌, ◌≤◌, ◌≡◌, refl, inl, inr, true, false, none, some, List, [], ◌∷◌, arith,
  get_elem?, get_elem?-set_self, length, leb, ◌∙◌, sym, ap, subst, Bool-cases, Option-cases, ◌&&◌,
  if◌then◌else◌,
}
use async_ping.Fifo.{pop_cases, pop_tail-none}
use async_ping.Dictionary.{find}
use async_ping.Ping.{
  Ping, Status, timeout, uninited, doing, send_error, success, is_open, is_uninited,
}
use async_ping.TaskWorker.{
  TaskWorker, SendResult, put_ping, send_to_master, fail_send, start, start_loop, handle_timeout,
  on_receive, register_task, refuse_task, do_task, notify_event,
}
use async_ping.TaskWorker.Invariant.{Inv}
use async_ping.TaskWorker.Local.{waits, started_of}
use async_ping.TaskWorker.Outcomes.{
  timed_out, received, handle_timeout_outcome, on_receive_outcome, notify_event_outcome,
}
use async_ping.TaskWorker.Moves.{put_task_self}
use async_ping.TaskWorker.Notify.{popped, ready}
use async_ping.TaskWorker.Pings.{put_ping-tasks}
use async_ping.TaskWorker.Told.{
  Event, came, fired, began, full, In, Known, TaskTold, TaskTold-more, Told-fresh, Keeps,
  Keeps-refl, Keeps-trans, put_task-each, put_ping-Keeps, close-Keeps,
}

-- A task that is taken is started under the network `net`.
module _ (events : List Event) (net : ℕ → SendResult) where
  resent :
      (ts i sent received : ℕ) (s : Status)
      → In (began ts net) events
      → Known events ts i sent received s
      → Known events ts i (net i).now received s
  resent ts i sent received timeout b h = h
  resent ts i sent received uninited b h = tt
  resent ts i sent received doing b h = (net, b, refl)
  resent ts i sent received send_error b h = h
  resent ts i sent received success b h = (net, b, refl, h.3)

  fail_send-Keeps :
      (w : TaskWorker) (p i : ℕ) (me : Ping)
      → get_elem? (w.tasks p).pings i ≡ some me
      → In (began (w.tasks p).timestamp net) events
      → ((net i).converted && (net i).sent) ≡ false
      → Keeps events w (fail_send w p i me)
  unfolding fail_send
  fail_send-Keeps w p i me at b bad = elim (Bool-cases (is_open me.status)) [
    | inl opened ↦
        rw opened
          (close-Keeps events w p i me (record me { status = send_error }) at (λ h. (net, b, bad)))
    | inr shut ↦ rw shut (Keeps-refl events w)
  ]

  start-Keeps :
      (w : TaskWorker) (p i : ℕ) (me : Ping)
      → get_elem? (w.tasks p).pings i ≡ some me
      → In (began (w.tasks p).timestamp net) events
      → (v : TaskWorker) × (start (net i) w p i ≡ some v) × Keeps events w v
  unfolding start
  start-Keeps w p i me at b = elim (Bool-cases (net i).converted) [
    | inr bad ↦ (_, rw (at, start) (rw bad refl), fail_send-Keeps w p i me at b (rw bad refl))
    | inl good ↦
        let sending = record me { sendtime = (net i).now } in
        elim (Bool-cases (net i).sent) [
          | inr bad ↦
              let at' =
                ap (λ t. get_elem? t.pings i) (put_ping-tasks w p i sending)
                ∙ get_elem?-set_self (w.tasks p).pings i me sending at in
              let first =
                put_ping-Keeps events w p i me sending at
                  (resent (w.tasks p).timestamp i me.sendtime me.recvtime me.status b) in
              let b' = subst (λ n. In (began n net) events) (sym (first.stamp p)) b in
              (
                _,
                rw (at, start) (rw (good, bad) refl),
                Keeps-trans events first (
                    fail_send-Keeps (put_ping w p i sending) p i sending at' b'
                      (rw (good, bad) refl)),
              )
          | inl sent ↦ (
            _,
            rw (at, start) (rw (good, sent) refl),
            put_ping-Keeps events w p i me (record sending { status = doing; timer = true }) at
                (λ h. (net, b, refl)),
          )
        ]
  ]

  start_loop-Keeps :
      (rest i : ℕ) (w : TaskWorker) (p : ℕ) (v : TaskWorker)
      → In (began (w.tasks p).timestamp net) events
      → start_loop net rest i w p ≡ some v
      → Keeps events w v
  unfolding start_loop
  start_loop-Keeps zero i w p v b e = subst (Keeps events w) (cc) (Keeps-refl events w)
  start_loop-Keeps (suc rest) i w p v b e = elim (Option-cases (get_elem? (w.tasks p).pings i)) [
    | inl out ↦
        let fault : start (net i) w p i ≡ none = unfold start in rw (out, start) refl in
        let fails : start_loop net (suc rest) i w p ≡ none = rw (fault, start_loop) refl in
        absurd (cc)
    | inr (me, at) ↦
        let (next, runs, one) = start-Keeps w p i me at b in
        let goes : start_loop net rest (i + 1) next p ≡ some v = rw (runs, start_loop) at e in
        let b' = subst (λ n. In (began n net) events) (sym (one.stamp p)) b in
        Keeps-trans events one (start_loop-Keeps rest (i + 1) next p v b' goes)
  ]

pub handle_timeout-told :
    (events : List Event) (w : TaskWorker) (p i : ℕ) (me : Ping) (v : TaskWorker)
    → get_elem? (w.tasks p).pings i ≡ some me
    → handle_timeout w p i ≡ some v
    → Keeps (fired (w.tasks p).timestamp i ∷ events) w v
handle_timeout-told events w p i me v at e =
    let more = fired (w.tasks p).timestamp i ∷ events in
    elim (handle_timeout_outcome w p i me v at e) [
      | inl closed ↦
          subst (Keeps more w) (sym closed)
            (close-Keeps more w p i me (timed_out me) at (λ h. inl refl))
      | inr kept ↦
          subst (Keeps more w) (sym kept)
            (put_ping-Keeps more w p i me (record me { timer = false }) at (λ h. h))
    ]

-- An open ping that was started waits for its answer.
heard_of :
    (events : List Event) (ts i sent received now : ℕ) (s : Status)
    → is_open s ≡ true
    → is_uninited s ≡ false
    → In (came ts i now) events
    → Known events ts i sent received s
    → Known events ts i sent now success
heard_of events ts i sent received now doing o u c (env, b, e) = (env, b, e, c)
heard_of events ts i sent received now uninited o u c h = cc
heard_of events ts i sent received now timeout o u c h = cc
heard_of events ts i sent received now send_error o u c h = cc
heard_of events ts i sent received now success o u c h = cc

pub on_receive-told :
    (events : List Event) (now : ℕ) (w : TaskWorker) (ts seq index : ℕ) (v : TaskWorker)
    → Inv w
    → ((p : ℕ) → find ts w.doing_map ≡ some p → (j : ℕ) → waits (w.tasks p).pings j ≡ false)
    → on_receive now w ts seq index ≡ some v
    → Keeps (came ts index now ∷ events) w v
on_receive-told events now w ts seq index v inv begun e =
    let more = came ts index now ∷ events in
    elim (on_receive_outcome now w ts seq index v e) [
      | inl kept ↦ subst (Keeps more w) (sym kept) (Keeps-refl more w)
      | inr (p, me, here, at, opened, closed) ↦
          let stamp = (inv.running ts p here).stamp in
          let ready = started_of (w.tasks p).pings index me at (begun p here index) in
          subst (Keeps more w) (sym closed) (
            close-Keeps more w p index me (received now me) at (
              heard_of more (w.tasks p).timestamp index me.sendtime me.recvtime now me.status opened
                ready (inl (ap (λ k. came k index now) stamp))))
    ]

-- What a wake-up shows: 1024 tasks are at work, or a task is taken under the time.
abbrev pub shown_by : (now : ℕ) → (ℕ → SendResult) → TaskWorker → Event
shown_by now env w = if leb 1024 (length w.doing_map) then full else began now env

pub notify_event-told :
    (events : List Event) (now : ℕ) (env : ℕ → SendResult) (w v : TaskWorker)
    → Inv w
    → 1 ≤ w.task_pipe
    → notify_event now env w ≡ some v
    → (q : ℕ) → TaskTold events (w.tasks q)
    → TaskTold (shown_by now env w ∷ events) (v.tasks q)
unfolding do_task register_task refuse_task send_to_master
notify_event-told events now env w v inv woken e q h = elim (pop_cases w.task_queue) [
  | inl empty ↦
      let none_left = ap length (pop_tail-none w.task_queue empty) in
      absurd (omega (arith, inv.task_wakeups))
  | inr (p, rest, pop) ↦
      let more = shown_by now env w ∷ events in
      let told = TaskTold-more (shown_by now env w ∷ []) events (w.tasks q) h in
      elim (notify_event_outcome now env w v p rest pop e) [
        | inr (room, run) ↦
            let test : leb 1024 (length w.doing_map) ≡ false = ground (arith, inv.counted) in
            let shown : shown_by now env w ≡ began now env = rw test refl in
            let stamped =
              put_task-each more (popped w rest) p (record (w.tasks p) { timestamp = now })
                (λ k. record {
                  refused = k.refused;
                  pings = Told-fresh more now 0 (w.tasks p).pings (ready w p rest inv pop).fresh;
                })
                q told in
            let stamp : ((register_task now (popped w rest) p).tasks p).timestamp ≡ now =
              ap (λ t. t.timestamp)
                (put_task_self (popped w rest) p (record (w.tasks p) { timestamp = now })) in
            let mine : In (began ((register_task now (popped w rest) p).tasks p).timestamp env)
                more =
              inl (ap (λ n. began n env) stamp ∙ sym shown) in
            (start_loop-Keeps more env _ 0 (register_task now (popped w rest) p) p v mine run).each
              q stamped
        | inl (crowded, refused) ↦
            let test : leb 1024 (length w.doing_map) ≡ true = ground (arith, inv.counted) in
            let shown : shown_by now env w ≡ full = rw test refl in
            let written =
              put_task-each more (popped w rest) p
                (record (w.tasks p) { prepare_error = true; pre_error_code = 1005 })
                (λ k. record { refused = inr (inl (sym shown)); pings = k.pings }) q told in
            subst (λ u. TaskTold more (u.tasks q)) (sym refused) written
      ]
]
