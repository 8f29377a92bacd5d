-- ===== src/TaskWorker/Pings.antt =====
-- One ping of a running task is written to, or counted as done.
use async_ping.Prelude.{
  ℕ, ◌+◌, ◌≡◌, ◌≢◌, refl, inl, inr, true, false, some, arith, length, set, get_elem?, All-set,
  length-set, get_elem?-set_ne, ◌∙◌, Bool-cases, if◌then◌else◌,
}
use async_ping.Dictionary.{find}
use async_ping.Ping.{Ping, IsTimed, is_open, closed, closed-set, closed-lt}
use async_ping.Task.{Task, is_complete}
use async_ping.TaskWorker.{TaskWorker, put_task, put_ping, count_done, on_complete}
use async_ping.TaskWorker.Invariant.{
  IsCounted, IsRunning, IsAnswered, Inv, Touch, own, silent_of_closed, closed-le,
}
use async_ping.TaskWorker.Moves.{
  put_task_self, put_task-Touch, Touch-trans, own-Touch, Inv-Touch, own-on_complete,
  Inv-on_complete,
}

abbrev pub with_ping : Task → ℕ → Ping → Task
with_ping t i me = record t { pings = set t.pings i me }

abbrev pub close_ping : Task → ℕ → Ping → Task
close_ping t i me = record t { done_count = t.done_count + 1; pings = set t.pings i me }

module _ (ts : ℕ) (t : Task) (i : ℕ) (me next : Ping) (run : IsRunning ts t)
    (at : get_elem? t.pings i ≡ some me) (timed : IsTimed next) where
  with_ping-IsRunning : is_open next.status ≡ is_open me.status → IsRunning ts (with_ping t i next)
  with_ping-IsRunning same = record {
    counts = record {
      sized = omega (arith, run.counts.sized, length-set t.pings i next);
      counted = ground (arith, run.counts.counted, closed-set t.pings i me next at);
      timed = All-set IsTimed t.pings i next run.counts.timed timed;
    };
    valid = run.valid;
    stamp = run.stamp;
    unfinished = run.unfinished;
  }

  close_ping-IsCounted :
      is_open me.status ≡ true → is_open next.status ≡ false → IsCounted (close_ping t i next)
  close_ping-IsCounted was now = record {
    sized = omega (arith, run.counts.sized, length-set t.pings i next);
    counted = ground (arith, run.counts.counted, closed-set t.pings i me next at);
    timed = All-set IsTimed t.pings i next run.counts.timed timed;
  }

  close_ping-IsRunning :
      is_open me.status ≡ true
      → is_open next.status ≡ false
      → is_complete (close_ping t i next) ≡ false
      → IsRunning ts (close_ping t i next)
  close_ping-IsRunning was now more = record {
    counts = close_ping-IsCounted was now;
    valid = run.valid;
    stamp = run.stamp;
    unfinished = inl (ground arith);
  }

  close_ping-IsAnswered :
      is_open me.status ≡ true
      → is_open next.status ≡ false
      → is_complete (close_ping t i next) ≡ true
      → IsAnswered (close_ping t i next)
  close_ping-IsAnswered was now last =
      let counts = close_ping-IsCounted was now in
      let all : closed (set t.pings i next) ≡ length (set t.pings i next) =
        ground (arith, counts.sized, counts.counted, closed-le (set t.pings i next)) in
      record {
        silent = silent_of_closed (set t.pings i next) all counts.timed;
        settled = inr (omega (arith, counts.sized, counts.counted), all);
      }

  -- While another ping is open the task is not complete.
  close_ping_more :
      is_open me.status ≡ true
      → is_open next.status ≡ false
      → (j : ℕ) (other : Ping) → i ≢ j
      → get_elem? t.pings j ≡ some other
      → is_open other.status ≡ true
      → is_complete (close_ping t i next) ≡ false
  close_ping_more was now j other ne there o =
      let counts = close_ping-IsCounted was now in
      let below =
        closed-lt (set t.pings i next) j other (get_elem?-set_ne t.pings i j next ne ∙ there) o in
      ground (arith, counts.sized, counts.counted)

module _ (w : TaskWorker) (p i : ℕ) (next : Ping) where
  pub put_ping-tasks : (put_ping w p i next).tasks p ≡ with_ping (w.tasks p) i next
  unfolding put_ping
  put_ping-tasks = put_task_self w p (with_ping (w.tasks p) i next)

  pub put_ping-Touch : Touch w (put_ping w p i next) p
  unfolding put_ping
  put_ping-Touch = put_task-Touch w p (with_ping (w.tasks p) i next)

  -- The state in which `onComplete` is considered.
  pub counted : TaskWorker
  counted = put_task (put_ping w p i next) p (close_ping (w.tasks p) i next)

  pub counted-tasks : counted.tasks p ≡ close_ping (w.tasks p) i next
  unfolding counted
  counted-tasks = put_task_self (put_ping w p i next) p (close_ping (w.tasks p) i next)

  pub counted-Touch : Touch w counted p
  unfolding counted
  counted-Touch =
      Touch-trans put_ping-Touch
        (put_task-Touch (put_ping w p i next) p (close_ping (w.tasks p) i next))

  pub count_done-counted :
      count_done (put_ping w p i next) p
      ≡ (if is_complete (close_ping (w.tasks p) i next) then on_complete counted p else counted)
  unfolding count_done counted
  count_done-counted = rw (put_ping-tasks, count_done) refl

-- What a handler does to ping `i` of the task at `p`, which is registered under `ts`.
module _ (w : TaskWorker) (p ts i : ℕ) (me next : Ping) (inv : Inv w)
    (here : find ts w.doing_map ≡ some p) (at : get_elem? (w.tasks p).pings i ≡ some me)
    (timed : IsTimed next) where
  -- It is written to, and stays open or done.
  pub put_ping-Inv : is_open next.status ≡ is_open me.status → Inv (put_ping w p i next)
  put_ping-Inv same = Inv-Touch w (put_ping w p i next) p ts inv (put_ping-Touch w p i next) here (
      rw (put_ping-tasks w p i next)
        (with_ping-IsRunning ts (w.tasks p) i me next (inv.running ts p here) at timed same))

  pub put_ping-own : (q : ℕ) → own (put_ping w p i next) q ≡ own w q
  put_ping-own = own-Touch w (put_ping w p i next) p ts inv (put_ping-Touch w p i next) here

  module _ (was : is_open me.status ≡ true) (now : is_open next.status ≡ false) where
    -- It is counted as done.
    pub count_done-Inv : Inv (count_done (put_ping w p i next) p)
    count_done-Inv =
        rw (count_done-counted w p i next)
          (elim (Bool-cases (is_complete (close_ping (w.tasks p) i next))) [
            | inl last ↦ rw last (
                Inv-on_complete w (counted w p i next) p ts inv (counted-Touch w p i next) here
                  (rw (counted-tasks w p i next) (inv.running ts p here).stamp)
                  (rw (counted-tasks w p i next) (
                    close_ping-IsAnswered ts (w.tasks p) i me next (inv.running ts p here) at timed
                      was now last)))
            | inr more ↦ rw more (
                Inv-Touch w (counted w p i next) p ts inv (counted-Touch w p i next) here (
                  rw (counted-tasks w p i next) (
                    close_ping-IsRunning ts (w.tasks p) i me next (inv.running ts p here) at timed
                      was now more)))
          ])

    pub count_done-own : (q : ℕ) → own (count_done (put_ping w p i next) p) q ≡ own w q
    count_done-own q =
        rw (count_done-counted w p i next)
          (elim (Bool-cases (is_complete (close_ping (w.tasks p) i next))) [
            | inl last ↦ rw last (
                own-on_complete w (counted w p i next) p ts inv (counted-Touch w p i next) here
                  (rw (counted-tasks w p i next) (inv.running ts p here).stamp) q)
            | inr more ↦
                rw more
                  (own-Touch w (counted w p i next) p ts inv (counted-Touch w p i next) here q)
          ])

    -- While another ping is open, nothing but the task changes.
    pub count_done_more :
        (j : ℕ) (other : Ping)
        → i ≢ j
        → get_elem? (w.tasks p).pings j ≡ some other
        → is_open other.status ≡ true
        → count_done (put_ping w p i next) p ≡ counted w p i next
    count_done_more j other ne there o = rw (count_done-counted w p i next) (
        rw
          (close_ping_more ts (w.tasks p) i me next (inv.running ts p here) at timed was now j other
            ne there o)
          refl)
