-- ===== src/TaskWorker/Effect/Kept.antt =====
-- What every handler keeps: tasks at work have started pings, and a stuck task stays stuck.
use async_ping.Prelude.{
  ℕ, ◌≡◌, ◌≢◌, false, some, List, [], ◌∷◌, arith, get_elem?, length, ◌∙◌, sym, ap, subst,
}
use native.Mathlib.Decide.{ℕ_discrete}
use async_ping.Dictionary.{find, values, values-find}
use async_ping.Ping.{Ping}
use async_ping.TaskWorker.{TaskWorker}
use async_ping.TaskWorker.Invariant.{Inv}
use async_ping.TaskWorker.Local.{waits}
use async_ping.TaskWorker.Effect.{Effect, outside, within, took}

-- No task at work has a ping that was never started.
abbrev pub AllStarted : TaskWorker → Type 0
AllStarted w =
    (ts p : ℕ) → find ts w.doing_map ≡ some p → (j : ℕ) → waits (w.tasks p).pings j ≡ false

pub Effect-AllStarted : {w v : TaskWorker} → Inv w → Effect w v → AllStarted w → AllStarted v
Effect-AllStarted {w} {v} inv (outside same kept) all ts q h j =
    let h' : find ts w.doing_map ≡ some q = sym (ap (find ts) same) ∙ h in
    ap (λ t. waits t.pings j) (kept q (values-find ts q w.doing_map h')) ∙ all ts q h' j
Effect-AllStarted {w} {v} inv (within p s i me here at local) all ts q h j =
    let h' = local.shrinks inv.is_map ts q h in
    elim (ℕ_discrete q p) [
      | yes e ↦
          subst (λ r. waits (v.tasks r).pings j ≡ false) (sym e) (local.advanced j (all s p here j))
      | no ne ↦ ap (λ t. waits t.pings j) (local.others q ne) ∙ all ts q h' j
    ]
Effect-AllStarted {w} {v} inv (took p now t) all ts q h j = elim (ℕ_discrete q p) [
  | yes e ↦ subst (λ r. waits (v.tasks r).pings j ≡ false) (sym e) (t.started j)
  | no ne ↦ elim (ℕ_discrete ts now) [
    | yes e ↦ absurd (ne (t.entry q (sym (ap (λ k. find k v.doing_map) e) ∙ h)))
    | no other ↦
        ap (λ u. waits u.pings j) (t.others q ne) ∙ all ts q (sym (t.entries ts other) ∙ h) j
  ]
]

-- The task at `p` is registered under `ts`, and has no pings.
pub record IsStuck (w : TaskWorker) (p ts : ℕ) : Type 0 where
  pub here : find ts w.doing_map ≡ some p
  pub empty : (w.tasks p).total_count ≡ 0

pub Effect-IsStuck :
    {w v : TaskWorker} (p ts : ℕ) → Inv w → Effect w v → IsStuck w p ts → IsStuck v p ts
Effect-IsStuck p ts inv (outside same kept) stuck = record {
  here = ap (find ts) same ∙ stuck.here;
  empty = ap (λ t. t.total_count) (kept p (values-find ts p _ stuck.here)) ∙ stuck.empty;
}
Effect-IsStuck {w} {v} p ts inv (within q s i me here at local) stuck =
    let ne : p ≢ q = λ e.
      let mine : find s w.doing_map ≡ some p = here ∙ ap some (sym e) in
      let sized = (inv.running s p mine).counts.sized in
      let at' = ap (λ r. get_elem? (w.tasks r).pings i) e ∙ at in
      nonempty (w.tasks p).pings i me at' (omega (arith, sized, stuck.empty)) in
    record {
      here =
          local.entries ts (λ e.
            ne (stamp_unique (e ∙ (inv.running s q here).stamp) (inv.running s q here).stamp here))
          ∙ stuck.here;
      empty = ap (λ t. t.total_count) (local.others p ne) ∙ stuck.empty;
    }
  where
    nonempty : (ps : List Ping) (i : ℕ) (me : Ping) → get_elem? ps i ≡ some me → length ps ≡ 0 → ⊥
    nonempty [] i me at e = cc
    nonempty (x ∷ xs) i me at e = omega arith

    stamp_unique :
        {s q : ℕ} → ts ≡ s → (w.tasks q).timestamp ≡ s → find s w.doing_map ≡ some q → p ≡ q
    stamp_unique e f h = cc (stuck.here)
Effect-IsStuck {w} {v} p ts inv (took q now t) stuck =
    let ne : p ≢ q = λ e. omega (
      arith,
      values-find ts p w.doing_map stuck.here,
      t.absent,
      ap (λ r. values r w.doing_map) e,
    ) in
    let other : ts ≢ now = λ e. cc (stuck.here, t.unused) in
    record {
      here = t.entries ts other ∙ stuck.here;
      empty = ap (λ u. u.total_count) (t.others p ne) ∙ stuck.empty;
    }
