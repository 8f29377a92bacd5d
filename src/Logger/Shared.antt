-- ===== src/Logger/Shared.antt =====
-- The logger over any queue that keeps the laws of `Queue`, refused locks included: `log` does not
-- look at what pushHead returns, and the handler that finds the lock refused has read its byte.
use async_ping.Prelude.{
  ℕ, suc, ◌+◌, ◌≡◌, Bool, Option, none, some, List, ◌++◌, append_assoc, append-nil, ◌∙◌, sym, ap,
}
use async_ping.Fifo
use async_ping.Fifo.{Queue, when, to_list}
use async_ping.Logger.{Logger, LogEventBody, make_body}

module _ (queue : Queue LogEventBody) where
  -- `accepted` are the lines whose push returned true.
  pub record Shared : Type 0 where
    pub log_queue : queue.State
    pub pipe : ℕ
    pub pending : ℕ
    pub file : List LogEventBody
    pub accepted : List LogEventBody

  -- A thread pushes its line, and then writes its byte; the logger's thread reads a byte and pops.
  pub data Step (s : Shared) : Shared → Type 0 where
    pushes :
        (l : Logger) (now level src_file_name line : ℕ) (text : List ℕ) (body : LogEventBody)
        (b : Bool) (t : queue.State)
        → make_body l now level src_file_name line text ≡ some body
        → queue.Push s.log_queue body b t
        → Step s (record s {
          log_queue = t;
          pending = s.pending + 1;
          accepted = s.accepted ++ when b body;
        })
    writes : (n : ℕ) → s.pending ≡ suc n → Step s (record s { pending = n; pipe = s.pipe + 1 })
    reads :
        (n : ℕ) (o : Option LogEventBody) (t : queue.State)
        → s.pipe ≡ suc n
        → queue.Pop s.log_queue o t
        → Step s (record s { log_queue = t; pipe = n; file = s.file ++ to_list o })

  pub data Run (s : Shared) : Shared → Type 0 where
    here : Run s s
    next : {t u : Shared} → Run s t → Step t u → Run s u

  -- The file, and then the queue, are the accepted lines.
  pub record IsWritten (s : Shared) : Type 0 where
    pub lines : List LogEventBody
    pub holds : queue.Holds s.log_queue lines
    pub order : s.file ++ Fifo.in_order lines ≡ s.accepted

  in_order-popped :
      (r : List LogEventBody) (o : Option LogEventBody)
      → Fifo.in_order (r ++ to_list o) ≡ to_list o ++ Fifo.in_order r
  in_order-popped r none = ap Fifo.in_order (append-nil r)
  in_order-popped r (some v) = Fifo.in_order-append r v

  Step-IsWritten : (s t : Shared) → Step s t → IsWritten s → IsWritten t
  Step-IsWritten s t (pushes l now level file line text body b u made run) i = record {
    lines = when b body ++ i.lines;
    holds = queue.pushed s.log_queue u i.lines body b i.holds run;
    order =
        ap (λ k. s.file ++ k) (Fifo.in_order-when b body i.lines)
        ∙ sym (append_assoc s.file (Fifo.in_order i.lines) (when b body))
        ∙ ap (λ k. k ++ when b body) i.order;
  }
  Step-IsWritten s t (writes n e) i = record { lines = i.lines; holds = i.holds; order = i.order }
  Step-IsWritten s t (reads n o u e run) i =
      let (r, holds, split) = queue.popped s.log_queue u i.lines o i.holds run in
      record {
        lines = r;
        holds = holds;
        order =
            append_assoc s.file (to_list o) (Fifo.in_order r)
            ∙ ap (λ k. s.file ++ k) (sym (in_order-popped r o))
            ∙ ap (λ k. s.file ++ Fifo.in_order k) (sym split)
            ∙ i.order;
      }

  pub Run-IsWritten : (s t : Shared) → Run s t → IsWritten s → IsWritten t
  Run-IsWritten s t here i = i
  Run-IsWritten s t (next {t = u} run step) i = Step-IsWritten u t step (Run-IsWritten s u run i)
