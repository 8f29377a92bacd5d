-- ===== src/TaskWorker/Handlers.antt =====
-- Each handler of a worker keeps the invariant, and keeps every task in exactly one place.
use native.Mathlib.Decide.{dec_lt}
use async_ping.Prelude.{
  ℕ, ◌≡◌, refl, ◌⊎◌, inl, inr, false, not, none, some, arith, get_elem?, get_elem?-ge, get_elem?-lt,
  sym, Bool-cases, Option-cases, if◌then◌else◌, All-get, ltb,
}
use async_ping.Dictionary.{find}
use async_ping.Ping.{
  Ping, Status, timeout, uninited, doing, send_error, success, IsTimed, is_open, is_doing,
}
use async_ping.TaskWorker.{TaskWorker, put_ping, count_done, on_receive, handle_timeout}
use async_ping.TaskWorker.Invariant.{Inv, own}
use async_ping.TaskWorker.Pings.{put_ping-Inv, put_ping-own, count_done-Inv, count_done-own}

-- A handler left `v`: the invariant holds, and every task is where it was or moved on.
pub record Handled (w v : TaskWorker) : Type 0 where
  pub inv : Inv v
  pub owned : (q : ℕ) → own v q ≡ own w q

Handled-refl : {w : TaskWorker} → Inv w → Handled w w
Handled-refl inv = record { inv = inv; owned = λ q. refl }

closed_timer : (me : Ping) → IsTimed me → is_open me.status ≡ false → is_doing me.status ≡ false
closed_timer me timed shut = go me.status shut
  where
    go : (s : Status) → is_open s ≡ false → is_doing s ≡ false
    go doing h = cc
    go timeout h = refl
    go uninited h = refl
    go send_error h = refl
    go success h = refl

module _ (now : ℕ) (w : TaskWorker) (ts seq index : ℕ) where
  receive_into :
      (p : ℕ) (me : Ping)
      → Inv w
      → find ts w.doing_map ≡ some p
      → get_elem? (w.tasks p).pings index ≡ some me
      → Handled w (
          if not (is_open me.status)
          then w
          else count_done
              (put_ping w p index (record me { status = success; recvtime = now; timer = false }))
              p)
  receive_into p me inv here at = elim (Bool-cases (is_open me.status)) [
    | inr shut ↦ rw shut (Handled-refl inv)
    | inl opened ↦ rw opened (record {
      inv = count_done-Inv w p ts index me _ inv here at refl opened refl;
      owned = count_done-own w p ts index me _ inv here at refl opened refl;
    })
  ]

  -- A reply whose index is the number of pings makes `onReceive` read behind the array; every other
  -- datagram is handled.
  pub on_receive_cases :
      Inv w
      → ((p : ℕ) × (find ts w.doing_map ≡ some p)
          × (index ≡ (w.tasks p).total_count)
          × (on_receive now w ts seq index ≡ none))
        ⊎ ((v : TaskWorker) × (on_receive now w ts seq index ≡ some v) × Handled w v)
  unfolding on_receive put_ping
  on_receive_cases inv = elim (Option-cases (find ts w.doing_map)) [
    | inl gone ↦ inr (w, rw (gone, on_receive) refl, Handled-refl inv)
    | inr (p, here) ↦ elim (Bool-cases (ltb (w.tasks p).total_count index)) [
      | inl over ↦ inr (w, rw (here, on_receive) (rw over refl), Handled-refl inv)
      | inr fits ↦ elim (dec_lt index (w.tasks p).total_count) [
        | yes low ↦
            let me =
              get_elem?-lt (w.tasks p).pings index
                (omega (arith, (inv.running ts p here).counts.sized)) in
            inr (_, rw (here, on_receive) (rw (fits, me.1) refl), receive_into p me.0 inv here me.1)
        | no high ↦
            let end : get_elem? (w.tasks p).pings index ≡ none =
              get_elem?-ge (w.tasks p).pings index
                (omega (arith, (inv.running ts p here).counts.sized)) in
            inl (p, here, ground arith, rw (here, on_receive) (rw (fits, end) refl))
      ]
    ]
  ]

-- `handleTimeout` of a ping whose timer is pending.
module _ (w : TaskWorker) (p i ts : ℕ) (me : Ping) (inv : Inv w)
    (here : find ts w.doing_map ≡ some p) (at : get_elem? (w.tasks p).pings i ≡ some me) where
  pub handle_timeout-Handled : (v : TaskWorker) × (handle_timeout w p i ≡ some v) × Handled w v
  unfolding handle_timeout put_ping
  handle_timeout-Handled =
      let timed = All-get IsTimed (w.tasks p).pings i me (inv.running ts p here).counts.timed at in
      elim (Bool-cases (is_open me.status)) [
        | inr shut ↦ (
          _,
          rw (at, handle_timeout) (rw shut refl),
          record {
            inv =
                put_ping-Inv w p ts i me (record me { timer = false }) inv here at
                  (sym (closed_timer me timed shut)) refl;
            owned =
                put_ping-own w p ts i me (record me { timer = false }) inv here at
                  (sym (closed_timer me timed shut));
          },
        )
        | inl opened ↦ (
          _,
          rw (at, handle_timeout) (rw opened refl),
          record {
            inv =
                count_done-Inv w p ts i me (record me { timer = false; status = timeout }) inv here
                  at refl opened refl;
            owned =
                count_done-own w p ts i me (record me { timer = false; status = timeout }) inv here
                  at refl opened refl;
          },
        )
      ]
