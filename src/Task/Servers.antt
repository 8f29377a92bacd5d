-- ===== src/Task/Servers.antt =====
-- A task that the constructor of src/Task.cpp makes has a ping for each server of the body, in order,
-- or is an error for a reason.
use Prim.Native.String.{String}
use native.Mathlib.Decide.{ℕ_discrete, dec_lt}
use async_ping.Prelude.{
  ℕ, zero, suc, ◌+◌, ◌%◌, ◌^◌, ◌≤◌, ◌<◌, ◌≡◌, ◌⊎◌, refl, inl, inr, true, false, Option, some, List,
  [], ◌∷◌, map, arith, length, length-set, get_elem?, get_elem?-set_self, get_elem?-set_ne,
  get_elem?-lt, set, ltb, ◌∙◌, sym, ap, subst, Bool-cases, Option-cases,
}
use async_ping.Prelude.Int.{ℤ}
use async_ping.Ping.{Ping}
use async_ping.Task.{
  Task, Body, Built, built, threw, looping, init_ping, new_pings, fill_loop, with_pings, new_task,
  error_task, max_ping_per_task,
}
use async_ping.Task.Construct.{Rejected, length-new_pings, new_task_cases}

-- The addresses of the pings, in order.
abbrev pub targets : List Ping → List String
targets ps = map (λ q. q.ip) ps

-- From index `i` on the servers are those of the list.
abbrev pub Names : (ℕ → Option String) → ℕ → List String → Type 0
Names server i [] = Unit
Names server i (ip ∷ ips) = (server i ≡ some ip) × Names server (i + 1) ips

module _ (raw : ℕ) (server : ℕ → Option String) (limit : ℤ) (size : ℕ) where
  -- What one round does, when the loop ends.
  round_built :
      (fuel i : ℕ) (ps qs : List Ping)
      → fill_loop raw server limit size (suc fuel) i ps ≡ built qs
      → ltb i size ≡ true
      → (ip : String) × (server i ≡ some ip)
        × (fill_loop raw server limit size fuel
              ((i + 1) % 2 ^ 16)
              (set ps i (init_ping raw i ip limit))
            ≡ built qs)
  unfolding fill_loop
  round_built fuel i ps qs h e = elim (Option-cases (server i)) [
    | inl bad ↦
        let throws : fill_loop raw server limit size (suc fuel) i ps ≡ threw =
          rw (e, fill_loop) (rw bad refl) in
        absurd (cc)
    | inr (ip, ok) ↦
        let goes : fill_loop raw server limit size (suc fuel) i ps
            ≡ fill_loop raw server limit size fuel ((i + 1) % 2 ^ 16)
                (set ps i (init_ping raw i ip limit)) =
          rw (e, fill_loop) (rw ok refl) in
        (ip, ok, sym goes ∙ h)
  ]

  -- With 2 ^ 16 servers it never ends.
  fill_loop-full :
      (fuel i : ℕ) (ps qs : List Ping)
      → size ≡ 2 ^ 16
      → i < 2 ^ 16
      → fill_loop raw server limit size fuel i ps ≡ built qs
      → ⊥
  fill_loop-full zero i ps qs full low h = unfold fill_loop in cc (h)
  fill_loop-full (suc fuel) i ps qs full low h =
      let (ip, ok, rest) = round_built fuel i ps qs h (ground arith) in
      fill_loop-full fuel ((i + 1) % 2 ^ 16) _ qs full (omega arith) rest

  -- Below, each entry from `i` on is written with its server.
  fill_loop-Written :
      (fuel i : ℕ) (ps qs : List Ping)
      → size < 2 ^ 16
      → i ≤ size
      → length ps ≡ size
      → fill_loop raw server limit size fuel i ps ≡ built qs
      → (length qs ≡ size)
        × ((j : ℕ) → j < i → get_elem? qs j ≡ get_elem? ps j)
        × ((j : ℕ)
            → i ≤ j
            → j < size
            → (q : Ping) × (get_elem? qs j ≡ some q) × (server j ≡ some q.ip))
  fill_loop-Written zero i ps qs small low len h = unfold fill_loop in cc (h)
  fill_loop-Written (suc fuel) i ps qs small low len h = elim (Bool-cases (ltb i size)) [
    | inr e ↦
        let ends : fill_loop raw server limit size (suc fuel) i ps ≡ built ps =
          unfold fill_loop in rw (e, fill_loop) refl in
        let same : ps ≡ qs = cc in
        (
          ap length (sym same) ∙ len,
          λ j k. ap (λ r. get_elem? r j) (sym same),
          λ j k l. absurd (ground arith),
        )
    | inl e ↦
        let (ip, ok, goes) = round_built fuel i ps qs h e in
        let next : List Ping = set ps i (init_ping raw i ip limit) in
        let inside : i < size = ground arith in
        let step : (i + 1) % 2 ^ 16 ≡ i + 1 = omega arith in
        let at = get_elem?-lt ps i (omega arith) in
        let (size', below, above) =
          fill_loop-Written fuel (i + 1) next qs small (omega arith)
            (length-set ps i (init_ping raw i ip limit) ∙ len)
            (subst (λ k. fill_loop raw server limit size fuel k next ≡ built qs) step goes) in
        (
          size',
          λ j k. below j (omega arith) ∙ get_elem?-set_ne ps i j _ (omega arith),
          λ j k l. elim (ℕ_discrete i j) [
            | yes same ↦ (
              init_ping raw i ip limit,
              ap (get_elem? qs) (sym same)
                  ∙ below i (omega arith)
                  ∙ get_elem?-set_self ps i at.0 _ at.1,
              ap server (sym same) ∙ ok,
            )
            | no ne ↦ above j (omega arith) l
          ],
        )
  ]

targets-Names :
    (server : ℕ → Option String) (i : ℕ) (qs : List Ping)
    → ((j : ℕ)
        → j < length qs
        → (q : Ping) × (get_elem? qs j ≡ some q) × (server (i + j) ≡ some q.ip))
    → Names server i (targets qs)
targets-Names server i [] h = tt
targets-Names server i (q ∷ qs) h = (
  first (h 0 (omega arith)),
  targets-Names server (i + 1) qs (λ j k.
      let (r, at, e) = h (suc j) (omega arith) in
      let next : i + suc j ≡ i + 1 + j = omega arith in (r, at, ap server (sym next) ∙ e)),
)
  where
    first : (r : Ping) × (some q ≡ some r) × (server (i + 0) ≡ some r.ip) → server i ≡ some q.ip
    first (r, at, e) =
        let now : i ≡ i + 0 = omega arith in
        let same : r ≡ q = cc in ap server now ∙ e ∙ ap (λ x. some x.ip) same

-- A ping for each server of the body.
abbrev pub IsFilled : Body → Task → Type 0
IsFilled body t =
    (t.prepare_error ≡ false)
    × (t.pre_error_code ≡ 0)
    × (length t.pings ≡ body.servers_size)
    × Names body.server 0 (targets t.pings)

filled :
    (raw fuel : ℕ) (limit : ℤ) (body : Body) (m : Built (List Ping)) (t : Task)
    → body.servers_size ≤ max_ping_per_task
    → fill_loop raw body.server limit body.servers_size fuel 0 (new_pings raw body.servers_size) ≡ m
    → with_pings raw body.servers_size m ≡ built t
    → IsFilled body t
filled raw fuel limit body (built qs) t fits run e = elim (dec_lt body.servers_size (2 ^ 16)) [
  | no full ↦ absurd (
      fill_loop-full raw body.server limit body.servers_size fuel 0 _ qs (omega arith) (omega arith)
        run)
  | yes small ↦
      let (size, below, above) =
        fill_loop-Written raw body.server limit body.servers_size fuel 0
          (new_pings raw body.servers_size) qs small (omega arith)
          (length-new_pings raw body.servers_size) run in
      let names = targets-Names body.server 0 qs (λ j k.
        let (q, at, named) = above j (omega arith) (omega arith) in
        let same : 0 + j ≡ j = omega arith in (q, at, ap body.server same ∙ named)) in
      let made : Task = record {
        prepare_error = false;
        pre_error_code = 0;
        timestamp = raw;
        total_count = body.servers_size;
        done_count = 0;
        pings = qs;
      } in
      let same : made ≡ t = cc in subst (IsFilled body) same (refl, refl, size, names)
]
filled raw fuel limit body threw t fits run e = cc
filled raw fuel limit body looping t fits run e = cc

-- The task is an error with the first fault of the body, or has a ping for each server.
pub new_task_outcome :
    (raw fuel : ℕ) (body : Body) (t : Task)
    → new_task raw fuel body ≡ built t
    → ((code : ℕ) × Rejected body code × (t ≡ error_task raw code)) ⊎ IsFilled body t
new_task_outcome raw fuel body t e = elim (new_task_cases raw fuel body) [
  | inl bad ↦ absurd (cc)
  | inr (inl (code, reason, refused)) ↦ inl (code, reason, cc)
  | inr (inr (limit, fits, loop)) ↦ inr (filled raw fuel limit body _ t fits refl (sym loop ∙ e))
]
