-- ===== src/Wire/Echo.antt =====
-- All of `socketReadHandler` of src/TaskWorker.cpp, from the datagram to the task: what the answer
-- to the packet of `Ping::start` does.
use async_ping.Prelude.{ℕ, ◌≡◌, ◌≢◌, ◌⊎◌, Bool, true, false, Option, some}
use async_ping.Prelude.Buffer.{Buffer}
use async_ping.Fifo.{push_head}
use async_ping.Dictionary.{erase}
use async_ping.Ping.{Ping}
use async_ping.Task.{is_complete}
use async_ping.TaskWorker.{TaskWorker, on_receive}
use async_ping.TaskWorker.Invariant.{Inv}
use async_ping.TaskWorker.Outcomes.{received}
use async_ping.TaskWorker.Pings.{close_ping}
use async_ping.Wire.{
  Reception, recv_error, too_short, not_my_thread, not_reply, not_my_pid, bad_address, receive,
  socket_read,
}

-- What becomes of the worker.
abbrev pub deliver : (now : ℕ) → TaskWorker → Reception → Option TaskWorker
deliver now w recv_error = some w
deliver now w too_short = some w
deliver now w not_my_thread = some w
deliver now w not_reply = some w
deliver now w not_my_pid = some w
deliver now w bad_address = some w
deliver now w (receive timestamp seq index) = on_receive now w timestamp seq index

unfoldable pub socket_read_handler :
    (now thread_id short_pid : ℕ)
    → TaskWorker
    → (nrecv : Option ℕ) (recv_packet : Buffer) (address_ok : Bool) → Option TaskWorker
unfolding socket_read
socket_read_handler now thread_id short_pid w nrecv recv_packet address_ok =
    deliver now w (socket_read thread_id short_pid nrecv recv_packet address_ok)

-- Ping `i` of the task at `p` was answered at the time `now`: it is a success, and counted. The task
-- stays at work, or was the last one's and goes to the master.
pub record Echoed (w v : TaskWorker) (p i ts now : ℕ) (me : Ping) : Type 0 where
  pub task : v.tasks p ≡ close_ping (w.tasks p) i (received now me)
  pub others : (q : ℕ) → q ≢ p → v.tasks q ≡ w.tasks q
  pub queued : v.task_queue ≡ w.task_queue
  pub moved :
      ((is_complete (v.tasks p) ≡ false)
        × (v.doing_map ≡ w.doing_map)
        × (v.response_queue ≡ w.response_queue))
      ⊎ ((is_complete (v.tasks p) ≡ true)
          × (v.doing_map ≡ erase ts w.doing_map)
          × (v.response_queue ≡ push_head p w.response_queue))
  pub inv : Inv v
