-- ===== src/TaskWorker/Outcomes.antt =====
-- What a handler that returns has done: the ways through its branches.
use async_ping.Prelude.{
  ℕ, ◌≡◌, ◌⊎◌, refl, inl, inr, true, false, none, some, List, get_elem?, ltb, sym, ◌∙◌, Bool-cases,
  Option-cases,
}
use async_ping.Prelude.Int.{pos, ltb_ℤ}
use async_ping.Fifo.{pop_tail}
use async_ping.Dictionary.{find}
use async_ping.Ping.{Ping, timeout, success, is_open}
use async_ping.TaskWorker.Notify.{popped}
use async_ping.TaskWorker.{
  TaskWorker, SendResult, put_ping, count_done, handle_timeout, on_receive, notify_event, do_task,
  register_task, refuse_task, doing_task_capacity,
}

abbrev pub timed_out : Ping → Ping
timed_out me = record me { timer = false; status = timeout }

abbrev pub received : ℕ → Ping → Ping
received now me = record me { status = success; recvtime = now; timer = false }

pub handle_timeout_outcome :
    (w : TaskWorker) (p i : ℕ) (me : Ping) (v : TaskWorker)
    → get_elem? (w.tasks p).pings i ≡ some me
    → handle_timeout w p i ≡ some v
    → (v ≡ count_done (put_ping w p i (timed_out me)) p)
      ⊎ (v ≡ put_ping w p i (record me { timer = false }))
unfolding handle_timeout
handle_timeout_outcome w p i me v at e = elim (Bool-cases (is_open me.status)) [
  | inl opened ↦
      let run : handle_timeout w p i ≡ some (count_done (put_ping w p i (timed_out me)) p) =
        rw (at, handle_timeout) (rw opened refl) in
      inl (cc)
  | inr shut ↦
      let run : handle_timeout w p i ≡ some (put_ping w p i (record me { timer = false })) =
        rw (at, handle_timeout) (rw shut refl) in
      inr (cc)
]

-- A datagram changes nothing, or closes an open ping of a task at work.
pub on_receive_outcome :
    (now : ℕ) (w : TaskWorker) (ts seq index : ℕ) (v : TaskWorker)
    → on_receive now w ts seq index ≡ some v
    → (v ≡ w)
      ⊎ ((p : ℕ) × (me : Ping) × (find ts w.doing_map ≡ some p)
          × (get_elem? (w.tasks p).pings index ≡ some me)
          × (is_open me.status ≡ true)
          × (v ≡ count_done (put_ping w p index (received now me)) p))
unfolding on_receive
on_receive_outcome now w ts seq index v e = elim (Option-cases (find ts w.doing_map)) [
  | inl gone ↦
      let run : on_receive now w ts seq index ≡ some w = rw (gone, on_receive) refl in inl (cc)
  | inr (p, here) ↦ elim (Bool-cases (ltb (w.tasks p).total_count index)) [
    | inl over ↦
        let run : on_receive now w ts seq index ≡ some w = rw (here, on_receive) (rw over refl) in
        inl (cc)
    | inr fits ↦ elim (Option-cases (get_elem? (w.tasks p).pings index)) [
      | inl out ↦
          let run : on_receive now w ts seq index ≡ none =
            rw (here, on_receive) (rw (fits, out) refl) in
          absurd (cc)
      | inr (me, at) ↦ elim (Bool-cases (is_open me.status)) [
        | inr shut ↦
            let run : on_receive now w ts seq index ≡ some w =
              rw (here, on_receive) (rw (fits, at) (rw shut refl)) in
            inl (cc)
        | inl opened ↦
            let run : on_receive now w ts seq index
                ≡ some (count_done (put_ping w p index (received now me)) p) =
              rw (here, on_receive) (rw (fits, at) (rw opened refl)) in
            inr (p, me, here, at, opened, cc)
      ]
    ]
  ]
]

-- A popped task is refused, or registered and started.
pub notify_event_outcome :
    (now : ℕ) (env : ℕ → SendResult) (w v : TaskWorker) (p : ℕ) (rest : List ℕ)
    → pop_tail w.task_queue ≡ some (p, rest)
    → notify_event now env w ≡ some v
    → ((ltb_ℤ w.doing_count (pos doing_task_capacity) ≡ false)
        × (v ≡ refuse_task (popped w rest) p))
      ⊎ ((ltb_ℤ w.doing_count (pos doing_task_capacity) ≡ true)
          × (do_task env (register_task now (popped w rest) p) p ≡ some v))
unfolding notify_event
notify_event_outcome now env w v p rest pop e =
    elim (Bool-cases (ltb_ℤ w.doing_count (pos doing_task_capacity))) [
      | inl room ↦
          let run : notify_event now env w ≡ do_task env (register_task now (popped w rest) p) p =
            rw (pop, notify_event) (rw room refl) in
          inr (room, sym run ∙ e)
      | inr full ↦
          let run : notify_event now env w ≡ some (refuse_task (popped w rest) p) =
            rw (pop, notify_event) (rw full refl) in
          inl (full, cc)
    ]
