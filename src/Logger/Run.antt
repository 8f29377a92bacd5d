-- ===== src/Logger/Run.antt =====
-- Threads log at the same time, and the logger's thread writes: every order of their steps.
use async_ping.Prelude.{
  ℕ, suc, ◌+◌, ◌-◌, ◌≡◌, refl, Option, none, some, List, [], ◌∷◌, ◌++◌, arith, ◌∙◌, sym, ap, subst,
  length, length-append, append_assoc,
}
use async_ping.Fifo
use async_ping.Logger.{
  Logger, LogEventBody, new_logger, make_body, enqueue, notify, log_event_handler,
}

-- The logger, the threads between their push and their write, and the accepted lines in order.
pub record System : Type 0 where
  pub logger : Logger
  pub pending : ℕ
  pub accepted : List LogEventBody

pub data Step (s : System) : System → Type 0 where
  queued :
      (now level src_file_name line : ℕ) (text : List ℕ) (body : LogEventBody)
      → make_body s.logger now level src_file_name line text ≡ some body
      → Step s (record s {
        logger = enqueue s.logger body;
        pending = s.pending + 1;
        accepted = s.accepted ++ body ∷ [];
      })
  notified :
      (n : ℕ) → s.pending ≡ suc n → Step s (record s { logger = notify s.logger; pending = n })
  handled :
      (n : ℕ) → s.logger.pipe ≡ suc n → Step s (record s { logger = log_event_handler s.logger })

pub data Run (s : System) : System → Type 0 where
  here : Run s s
  next : {t u : System} → Run s t → Step t u → Run s u

-- Each queued line has its byte, written or to be written; the file and the queue make up the
-- accepted lines.
pub record LoggerInv (s : System) : Type 0 where
  pub bytes : s.logger.pipe + s.pending ≡ length s.logger.log_queue
  pub lines : s.logger.file ++ Fifo.in_order s.logger.log_queue ≡ s.accepted

-- A queue that is not empty has a last element.
queue_split :
    (q : List LogEventBody) (n : ℕ)
    → length q ≡ suc n
    → (y : LogEventBody) × ((r : List LogEventBody) × (Fifo.pop_tail q ≡ some (y, r))
        × (q ≡ r ++ y ∷ [])
        × (length r ≡ n))
queue_split q n e = go (Fifo.pop_tail q) refl
  where
    absurd_length : length q ≡ 0 → {B : Type 0} → B
    absurd_length z = let zero_suc : ⊥ = omega arith in elim zero_suc [ ]

    go :
        (o : Option (LogEventBody × List LogEventBody))
        → Fifo.pop_tail q ≡ o
        → (y : LogEventBody) × ((r : List LogEventBody) × (Fifo.pop_tail q ≡ some (y, r))
            × (q ≡ r ++ y ∷ [])
            × (length r ≡ n))
    go none h = absurd_length (ap length (Fifo.pop_tail-none q h))
    go (some (y, r)) h =
        let split = Fifo.pop_tail-some q y r h in
        (y, (r, h, split, omega (arith, ap length split, length-append r (y ∷ []))))

-- What the handler does on a queue with a last line.
handler_lem :
    (l : Logger) (y : LogEventBody) (r : List LogEventBody)
    → Fifo.pop_tail l.log_queue ≡ some (y, r)
    → log_event_handler l ≡ record l { pipe = l.pipe - 1; log_queue = r; file = l.file ++ y ∷ [] }
unfolding log_event_handler
handler_lem l y r e = ground (arith, e)

Step-LoggerInv : (s t : System) → Step s t → LoggerInv s → LoggerInv t
unfolding enqueue notify
Step-LoggerInv s t (queued now level src line text body e) i =
    let bytes = i.bytes in
    record {
      bytes = omega arith;
      lines =
          sym (append_assoc s.logger.file (Fifo.in_order s.logger.log_queue) (body ∷ []))
          ∙ ap (λ l. l ++ body ∷ []) i.lines;
    }
Step-LoggerInv s t (notified n e) i =
    let bytes = i.bytes in record { bytes = omega arith; lines = i.lines }
Step-LoggerInv s t (handled n e) i =
    let bytes = i.bytes in
    let split = queue_split s.logger.log_queue (n + s.pending) (omega arith) in
    subst (λ l. LoggerInv (record s { logger = l }))
      (sym (handler_lem s.logger split.0 split.1.0 split.1.1))
      (record {
        bytes = omega (arith, split.1.3);
        lines =
            append_assoc s.logger.file (split.0 ∷ []) (Fifo.in_order split.1.0)
            ∙ ap (λ q. s.logger.file ++ q) (sym (Fifo.in_order-append split.1.0 split.0))
            ∙ ap (λ q. s.logger.file ++ Fifo.in_order q) (sym split.1.2)
            ∙ i.lines;
      })

abbrev pub empty_system : System
unfolding new_logger
empty_system = record { logger = new_logger; pending = 0; accepted = [] }

empty-LoggerInv : LoggerInv empty_system
unfolding new_logger
empty-LoggerInv = record { bytes = refl; lines = refl }

pub Run-LoggerInv : (s : System) → Run empty_system s → LoggerInv s
Run-LoggerInv s here = empty-LoggerInv
Run-LoggerInv s (next run step) = Step-LoggerInv _ s step (Run-LoggerInv _ run)
