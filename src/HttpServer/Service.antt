-- ===== src/HttpServer/Service.antt =====
-- What the server promises its clients, without threads, queues and addresses: each request that is
-- taken in waits until it is answered, once, rightly, and in any order. What happens to the pings
-- is seen as a list of events.
use mathlib.Core.List.{Perm, perm_middle}
use mathlib.Core.List.Perm
use async_ping.Prelude.{◌≡◌, List, [], ◌∷◌, ◌++◌, map, All, append_assoc, subst, sym}
use async_ping.HttpResponse.{Sent}
use async_ping.TaskWorker.Told.{Event}
use async_ping.HttpServer.{Request}
use async_ping.HttpServer.Verdict.{RightAnswer, RightAnswer-more}

pub record Service : Type 0 where
  pub taken : List Request
  pub pending : List Request
  pub answered : List (Request × Sent)
  pub events : List Event

abbrev pub idle : Service
idle = record { taken = []; pending = []; answered = []; events = [] }

-- Any request that waits may be answered next; something may happen at any time.
pub data Step (a : Service) : Service → Type 0 where
  ask : (req : Request) → Step a (record a { taken = req ∷ a.taken; pending = req ∷ a.pending })
  note : (seen : List Event) → Step a (record a { events = seen ++ a.events })
  answer :
      (before after : List Request) (req : Request) (sent : Sent)
      → a.pending ≡ before ++ req ∷ after
      → RightAnswer a.events req sent
      → Step a (record a { pending = before ++ after; answered = (req, sent) ∷ a.answered })

-- The histories of a service that starts idle.
pub data Run : Service → Type 0 where
  start : Run idle
  next : {a b : Service} → Run a → Step a b → Run b

abbrev pub requests_of : List (Request × Sent) → List Request
requests_of answers = map (λ x. x.0) answers

abbrev pub AllRight : List Event → List (Request × Sent) → Type 0
AllRight events = All (λ x. RightAnswer events x.0 x.1)

AllRight-more :
    (new events : List Event) (answers : List (Request × Sent))
    → AllRight events answers
    → AllRight (new ++ events) answers
AllRight-more new events [] h = tt
AllRight-more new events (x ∷ answers) h =
    (RightAnswer-more new events x.0 x.1 h.0, AllRight-more new events answers h.1)

-- A request waits or was answered, exactly once.
pub Run-Perm : (a : Service) → Run a → Perm (a.pending ++ requests_of a.answered) a.taken
Run-Perm a start = Perm.rfl
Run-Perm a (next {a = b} run (ask req)) = Perm.cons req (Run-Perm b run)
Run-Perm a (next {a = b} run (note seen)) = Run-Perm b run
Run-Perm a (next {a = b} run (answer before after req sent e right)) =
    Perm.trans
      (subst (λ l. Perm ((before ++ after) ++ req ∷ requests_of b.answered) l)
        (sym (append_assoc before (req ∷ after) (requests_of b.answered)))
        (moved before after req (requests_of b.answered)))
      (subst (λ l. Perm (l ++ requests_of b.answered) b.taken) e (Run-Perm b run))
  where
    moved :
        (before after : List Request) (req : Request) (old : List Request)
        → Perm ((before ++ after) ++ req ∷ old) (before ++ (req ∷ after ++ old))
    moved before after req old = Perm.trans (perm_middle (before ++ after) old) (
        subst (λ l. Perm (req ∷ l) (before ++ (req ∷ after ++ old)))
          (sym (append_assoc before after old)) (Perm.symm (perm_middle before (after ++ old))))

pub Run-AllRight : (a : Service) → Run a → AllRight a.events a.answered
Run-AllRight a start = tt
Run-AllRight a (next {a = b} run (ask req)) = Run-AllRight b run
Run-AllRight a (next {a = b} run (note seen)) =
    AllRight-more seen b.events b.answered (Run-AllRight b run)
Run-AllRight a (next {a = b} run (answer before after req sent e right)) =
    (right, Run-AllRight b run)
