-- ===== src/HttpServer/Table.antt =====
-- The requests that wait, with what became so far of their tasks.
use native.Mathlib.Decide.{ℕ_discrete}
use async_ping.Prelude.{
  ℕ, ◌≡◌, ◌≢◌, refl, true, false, none, some, List, [], ◌∷◌, ◌++◌, arith, All, map, sym, ap, subst,
  ◌==◌,
}
use async_ping.Dictionary.{Dictionary, find, erase}
use async_ping.Task.{Task, built}
use async_ping.HttpResponse.{Sent}
use async_ping.TaskWorker.{TaskWorker}
use async_ping.TaskWorker.Grown.{Grown, AllGrown, Grown-trans}
use async_ping.HttpServer.{HttpServer, Request, make_task}
use async_ping.HttpServer.Requests.{submitted, submitted_other}

-- The requests that wait, under the addresses of their tasks.
abbrev pub Table : Type 0
Table = List (ℕ × Request)

abbrev pub ids : Table → Dictionary
ids table = map (λ e. (e.0, e.1.id)) table

abbrev pub waiting : Table → List Request
waiting table = map (λ e. e.1) table

abbrev pub told : List (Request × Sent) → List (ℕ × Sent)
told answers = map (λ x. (x.0.id, x.1)) answers

pub of_table : (table : Table) → map (λ req. req.id) (waiting table) ≡ map (λ e. e.1) (ids table)
of_table [] = refl
of_table (e ∷ table) = ap (λ l. e.1.id ∷ l) (of_table table)

-- What became so far of the task of a request.
pub record Works (req : Request) (u : Task) : Type 0 where
  pub raw : ℕ
  pub fuel : ℕ
  pub task : Task
  pub made : make_task raw fuel req ≡ built task
  pub grown : Grown task u

Works-Grown : (req : Request) (u v : Task) → Works req u → Grown u v → Works req v
Works-Grown req u v w more = record {
  raw = w.raw;
  fuel = w.fuel;
  task = w.task;
  made = w.made;
  grown = Grown-trans w.grown more;
}

abbrev pub AllWorks : TaskWorker → Table → Type 0
AllWorks w = All (λ e. Works e.1 (w.tasks e.0))

pub AllWorks-AllGrown :
    (w v : TaskWorker) (table : Table) → AllGrown w v → AllWorks w table → AllWorks v table
AllWorks-AllGrown w v [] grown h = tt
AllWorks-AllGrown w v ((p, req) ∷ table) grown h = (
  Works-Grown req (w.tasks p) (v.tasks p) h.0 (grown.each p),
  AllWorks-AllGrown w v table grown h.1,
)

-- A new task is at none of the addresses.
pub submitted-AllWorks :
    (s : HttpServer) (p : ℕ) (t : Task) (table : Table)
    → find p (ids table) ≡ none
    → AllWorks s.worker table
    → AllWorks (submitted s p t) table
unfolding find
submitted-AllWorks s p t [] new h = tt
submitted-AllWorks s p t ((q, req) ∷ table) new h =
    let other : q ≢ p = λ e. let test : (p == q) ≡ true = ground arith in ground arith in
    let rest : find p (ids table) ≡ none = ground arith in
    (
      subst (Works req) (sym (submitted_other s p q t other)) h.0,
      submitted-AllWorks s p t table rest h.1,
    )

-- The entry that is erased.
pub record Found (w : TaskWorker) (p r : ℕ) (table : Table) : Type 0 where
  pub before : Table
  pub after : Table
  pub req : Request
  pub same_id : req.id ≡ r
  pub split : waiting table ≡ waiting before ++ req ∷ waiting after
  pub joined : waiting (before ++ after) ≡ waiting before ++ waiting after
  pub left : ids (before ++ after) ≡ erase p (ids table)
  pub work : Works req (w.tasks p)
  pub works : AllWorks w (before ++ after)

pub find-Found :
    (w : TaskWorker) (p r : ℕ) (table : Table)
    → find p (ids table) ≡ some r
    → AllWorks w table
    → Found w p r table
unfolding find erase
find-Found w p r [] e h = cc
find-Found w p r ((q, req) ∷ table) e h = elim (ℕ_discrete q p) [
  | yes same ↦
      let test : (p == q) ≡ true = ground arith in
      record {
        before = [];
        after = table;
        req = req;
        same_id = ground arith;
        split = refl;
        joined = refl;
        left = rw test refl;
        work = subst (λ k. Works req (w.tasks k)) same h.0;
        works = h.1;
      }
  | no ne ↦
      let test : (p == q) ≡ false = ground arith in
      let f = find-Found w p r table (ground arith) h.1 in
      record {
        before = (q, req) ∷ f.before;
        after = f.after;
        req = f.req;
        same_id = f.same_id;
        split = ap (λ l. req ∷ l) f.split;
        joined = ap (λ l. req ∷ l) f.joined;
        left = rw test (ap (λ l. (q, req.id) ∷ l) f.left);
        work = f.work;
        works = (h.0, f.works);
      }
]
