-- ===== src/Logger/Concurrent.antt =====
-- The logger over the nodes of `ConcurrentDequeue`.
use async_ping.Prelude.{ℕ, ◌≡◌, ◌≢◌, refl, some, []}
use async_ping.CommonList.{Heap}
use async_ping.CommonList.Dequeue.{Dequeue, new_dequeue}
use async_ping.CommonList.Dequeue.Interface.{dequeue}
use async_ping.CommonList.Dequeue.Refinement.{made-Holds}
use async_ping.Logger.{LogEventBody}
use async_ping.Logger.Shared.{Shared, Run, IsWritten, Run-IsWritten}

-- The logger that the constructor leaves, with the nodes in the heap.
abbrev pub idle : (d : Dequeue) → Heap LogEventBody → Shared (dequeue d)
idle d g = record { log_queue = g; pipe = 0; pending = 0; file = []; accepted = [] }

-- Over the nodes of a new ConcurrentDequeue, however the calls of logging threads and of the logger's
-- thread interleave and whichever locks are refused, the nodes hold a queue, and the file followed
-- by it is the lines whose push returned true, in order.
pub dequeue-IsWritten :
    (h g : Heap LogEventBody) (head tail : ℕ) (blank : LogEventBody) (d : Dequeue)
    (s : Shared (dequeue d))
    → head ≢ tail
    → new_dequeue head tail blank h ≡ some (d, g)
    → Run (dequeue d) (idle d g) s
    → IsWritten (dequeue d) s
dequeue-IsWritten h g head tail blank d s ne made run =
    Run-IsWritten (dequeue d) (idle d g) s run
      (record { lines = []; holds = made-Holds h g head tail blank d ne made; order = refl })
