-- ===== src/HttpServer/Refinement.antt =====
-- Histories of the server beside those of the service of HttpServer/Service.
use async_ping.Prelude.{ℕ, ◌≤◌, ◌≡◌, refl, List, [], ◌∷◌, ◌++◌, map, ◌∙◌, sym, ap, subst}
use async_ping.Dictionary.{Dictionary, find, erase, IsMap}
use async_ping.Task.{Task, built}
use async_ping.TaskWorker.{TaskWorker}
use async_ping.TaskWorker.Invariant.{own}
use async_ping.TaskWorker.Told.{Event, came, fired}
use async_ping.TaskWorker.Told.Handlers.{shown_by}
use async_ping.TaskWorker.Alike.{handle_timeout-AllAlike, on_receive-AllAlike}
use async_ping.TaskWorker.Grown.{Grown, AllGrown, Grown-refl, of_AllAlike, notify_event-AllGrown}
use async_ping.HttpServer.{HttpServer, Request, make_task, handle_ping_req, try_resp_event}
use async_ping.HttpServer.Invariant.{ServerInv}
use async_ping.HttpServer.Requests.{
  submitted, submitted_self, handle_ping_req_worker, handle_ping_req-ServerInv,
}
use async_ping.HttpServer.Responses.{answer, try_resp_event-Answers}
use async_ping.HttpServer.Run.{
  Step, request, notify, expire, receive, respond, Run, start, next, init, Apart, Run-ServerInv,
}
use async_ping.HttpServer.Heard.{shows, shown_in, IsHeard, Run-IsHeard}
use async_ping.HttpServer.Verdict.{RightAnswer, answer-RightAnswer}
use async_ping.HttpServer.Service.{Service, idle}
use async_ping.HttpServer.Service
use async_ping.HttpServer.Table.{
  Table, ids, waiting, of_table, told, AllWorks, AllWorks-AllGrown, submitted-AllWorks, find-Found,
}

-- The request that a step takes in, and those of a history, the latest first.
abbrev pub asked : {s s' : HttpServer} → Step s s' → List Request
asked (request raw fuel p req new e) = req ∷ []
asked (notify now env v woken e f) = []
asked (expire p i me v live at set e f) = []
asked (receive now ts seq index v e f) = []
asked (respond woken e) = []

abbrev pub requests : {s t : HttpServer} {rs : List ℕ} → Run s t rs → List Request
requests start = []
requests (next run st e) = asked st ++ requests run

-- The service that the state stands for.
record Refines (s : HttpServer) (l : List Request) (events : List Event) : Type 0 where
  service : Service
  run : Service.Run service
  taken : service.taken ≡ l
  shown : service.events ≡ events
  table : Table
  pending : waiting table ≡ service.pending
  keys : ids table ≡ s.doing_request
  sent : told service.answered ≡ s.sent
  works : AllWorks s.worker table

-- A handler of the worker, of which the service sees what it shows.
worker-Refines :
    (l : List Request) (events seen : List Event) (s s' : HttpServer) (v : TaskWorker)
    → Refines s l events
    → s' ≡ record s { worker = v }
    → AllGrown s.worker v
    → Refines s' l (seen ++ events)
worker-Refines l events seen s s' v r e grown =
    subst (λ x. Refines x l (seen ++ events)) (sym e)
      (record {
        service = _;
        run = Service.next r.run (Service.note seen);
        taken = r.taken;
        shown = ap (λ k. seen ++ k) r.shown;
        table = r.table;
        pending = r.pending;
        keys = r.keys;
        sent = r.sent;
        works = AllWorks-AllGrown s.worker v r.table grown r.works;
      })

module _ (l : List Request) (events : List Event) (s : HttpServer) (inv : ServerInv s)
    (r : Refines s l events) where
  -- A request is taken in.
  request-Refines :
      (raw fuel p : ℕ) (req : Request) (s' : HttpServer)
      → own s.worker p ≡ 0
      → handle_ping_req raw fuel s p req ≡ built s'
      → Refines s' (req ∷ l) events
  request-Refines raw fuel p req s' new e =
      let (state, table, sent) = handle_ping_req-ServerInv raw fuel s s' p req inv new e in
      let (t, worker, made) = handle_ping_req_worker raw fuel s s' p req inv new e in
      let unknown = (subst IsMap table state.is_map).0 in
      record {
        service = _;
        run = Service.next r.run (Service.ask req);
        taken = ap (λ k. req ∷ k) r.taken;
        shown = r.shown;
        table = (p, req) ∷ r.table;
        pending = ap (λ k. req ∷ k) r.pending;
        keys = ap (λ k. (p, req.id) ∷ k) r.keys ∙ sym table;
        sent = r.sent ∙ sym sent;
        works =
            subst (λ w. AllWorks w ((p, req) ∷ r.table)) (sym worker)
              (both t made
                (submitted-AllWorks s p t r.table (ap (find p) r.keys ∙ unknown) r.works));
      }
    where
      both :
          (t : Task)
          → make_task raw fuel req ≡ built t
          → AllWorks (submitted s p t) r.table
          → AllWorks (submitted s p t) ((p, req) ∷ r.table)
      both t made rest = (
        record {
          raw = raw;
          fuel = fuel;
          task = t;
          made = made;
          grown = subst (Grown t) (sym (submitted_self s p t)) (Grown-refl t);
        },
        rest,
      )

  -- A request is answered.
  respond-Refines :
      1 ≤ s.worker.response_pipe → IsHeard events s → Refines (try_resp_event s) l events
  respond-Refines woken heard =
      let done = try_resp_event-Answers s inv woken in
      let f =
        find-Found s.worker done.task done.request r.table
          (ap (find done.task) r.keys ∙ done.waiting) r.works in
      let w = f.work in
      let right =
        answer-RightAnswer events w.raw w.fuel f.req w.task (s.worker.tasks done.task) w.made
          w.grown (heard.waiting done.task done.request done.waiting) done.done in
      record {
        service = _;
        run = Service.next r.run (
            Service.answer (waiting f.before) (waiting f.after) f.req _ (sym r.pending ∙ f.split) (
              subst (λ k. RightAnswer k f.req (answer (s.worker.tasks done.task))) (sym r.shown)
                right));
        taken = r.taken;
        shown = r.shown;
        table = f.before ++ f.after;
        pending = f.joined;
        keys = f.left ∙ ap (erase done.task) r.keys ∙ sym done.forgotten;
        sent =
            ap (λ k. (f.req.id, answer (s.worker.tasks done.task)) ∷ k) r.sent
            ∙ ap (λ k. (k, answer (s.worker.tasks done.task)) ∷ s.sent) f.same_id
            ∙ sym done.sent;
        works = same_works (f.before ++ f.after) (sym done.same_tasks) f.works;
      }
    where
      same_works :
          (table : Table)
          → s.worker.tasks ≡ (try_resp_event s).worker.tasks
          → AllWorks s.worker table
          → AllWorks (try_resp_event s).worker table
      same_works table e h =
          AllWorks-AllGrown s.worker (try_resp_event s).worker table
            (record {
              each = λ q.
                  subst (Grown (s.worker.tasks q)) (ap (λ f. f q) e)
                    (Grown-refl (s.worker.tasks q));
            })
            h

  Step-Refines :
      {s' : HttpServer} (st : Step s s')
      → IsHeard events s
      → Refines s' (asked st ++ l) (shows st ++ events)
  Step-Refines {s'} (request raw fuel p req new e) heard = request-Refines raw fuel p req s' new e
  Step-Refines {s'} (notify now env v woken e f) heard =
      worker-Refines l events (shown_by now env s.worker ∷ []) s s' v r f
        (notify_event-AllGrown now env s.worker v inv.worker woken e)
  Step-Refines {s'} (expire p k me v live at set e f) heard =
      worker-Refines l events (fired (s.worker.tasks p).timestamp k ∷ []) s s' v r f
        (of_AllAlike (handle_timeout-AllAlike s.worker p k me v at e))
  Step-Refines {s'} (receive now ts seq index v e f) heard =
      worker-Refines l events (came ts index now ∷ []) s s' v r f
        (of_AllAlike (on_receive-AllAlike now s.worker ts seq index v e))
  Step-Refines {s'} (respond woken e) heard =
      subst (λ x. Refines x l events) (sym e) (respond-Refines woken heard)

init-Refines : (memory : ℕ → Task) → Refines (init memory) [] []
init-Refines memory = record {
  service = idle;
  run = Service.start;
  taken = refl;
  shown = refl;
  table = [];
  pending = refl;
  keys = refl;
  sent = refl;
  works = tt;
}

Run-Refines :
    (memory : ℕ → Task) {s : HttpServer} {rs : List ℕ} (run : Run (init memory) s rs)
    → Apart run
    → Refines s (requests run) (shown_in run)
Run-Refines memory start apart = init-Refines memory
Run-Refines memory (next {t = t} run st e) (unused, apart) =
    Step-Refines (requests run) (shown_in run) t (Run-ServerInv memory run apart)
      (Run-Refines memory run apart) st (Run-IsHeard memory run apart)

-- Every history of the server in which each task that is taken finds a time of its own implements
-- the service: the answers that it sent are those of a history of the service that took in the same
-- requests and saw the same events, and those that wait there wait here.
pub Run-refines :
    (memory : ℕ → Task) {s : HttpServer} {rs : List ℕ} (run : Run (init memory) s rs)
    → Apart run
    → (service : Service) × Service.Run service
      × (service.taken ≡ requests run)
      × (service.events ≡ shown_in run)
      × (told service.answered ≡ s.sent)
      × (map (λ req. req.id) service.pending ≡ map (λ e. e.1) s.doing_request)
Run-refines memory {s} run apart =
    let r = Run-Refines memory run apart in
    (
      r.service,
      r.run,
      r.taken,
      r.shown,
      r.sent,
      same_ids r.table r.service.pending s.doing_request r.pending r.keys,
    )
  where
    same_ids :
        (table : Table) (pending : List Request) (m : Dictionary)
        → waiting table ≡ pending
        → ids table ≡ m
        → map (λ req. req.id) pending ≡ map (λ e. e.1) m
    same_ids table pending m e f =
        ap (map (λ req. req.id)) (sym e) ∙ of_table table ∙ ap (map (λ e. e.1)) f
