-- ===== src/Task/Construct.antt =====
-- What the constructors of src/Task.cpp leave, and when the loop over the servers ends.
use Prim.Native.String.{String}
use native.Mathlib.Decide.{ℕ_discrete}
use async_ping.Prelude.{
  ℕ, zero, suc, ◌+◌, ◌%◌, ◌^◌, ◌≤◌, ◌<◌, ◌≡◌, refl, ◌⊎◌, inl, inr, true, false, not, ◌||◌, Option,
  some, List, arith, length, All, All-set, length-set, get_elem?, get_elem?-set_self,
  get_elem?-set_ne, get_elem?-lt, set, ltb, ◌∙◌, sym, ap, subst, Bool-cases, Option-cases,
}
use async_ping.Prelude.Int.{ℤ, pos, ltb_ℤ}
use async_ping.Ping.{Ping, is_uninited}
use async_ping.Task.{
  Task, Body, built, threw, looping, init_ping, new_pings, fill_loop, with_pings, new_task,
  error_task, max_ping_per_task,
}

-- A ping that no worker has touched.
abbrev pub IsFresh : Ping → Type 0
IsFresh q = (is_uninited q.status ≡ true) × (q.timer ≡ false)

pub length-new_pings : (raw n : ℕ) → length (new_pings raw n) ≡ n
length-new_pings raw zero = refl
length-new_pings raw (suc n) = ap suc (length-new_pings raw n)

pub new_pings-IsFresh : (raw n : ℕ) → All IsFresh (new_pings raw n)
new_pings-IsFresh raw zero = tt
new_pings-IsFresh raw (suc n) = ((refl, refl), new_pings-IsFresh raw n)

module _ (raw : ℕ) (server : ℕ → Option String) (limit : ℤ) (size : ℕ) where
  -- The loop keeps the array's length, and its pings unstarted.
  pub fill_loop_keeps :
      (fuel i : ℕ) (ps qs : List Ping)
      → fill_loop raw server limit size fuel i ps ≡ built qs
      → All IsFresh ps
      → (length qs ≡ length ps) × All IsFresh qs
  unfolding fill_loop
  fill_loop_keeps zero i ps qs h fresh = cc
  fill_loop_keeps (suc fuel) i ps qs h fresh = elim (Bool-cases (ltb i size)) [
    | inr e ↦
        let ends : fill_loop raw server limit size (suc fuel) i ps ≡ built ps =
          rw (e, fill_loop) refl in
        let same : ps ≡ qs = cc in
        subst (λ r. (length r ≡ length ps) × All IsFresh r) same (refl, fresh)
    | inl e ↦ elim (Option-cases (server i)) [
      | inl bad ↦
          let throws : fill_loop raw server limit size (suc fuel) i ps ≡ threw =
            rw (e, fill_loop) (rw bad refl) in
          absurd (cc)
      | inr (ip, ok) ↦
          let goes : fill_loop raw server limit size (suc fuel) i ps
              ≡ fill_loop raw server limit size fuel ((i + 1) % 2 ^ 16)
                  (set ps i (init_ping raw i ip limit)) =
            rw (e, fill_loop) (rw ok refl) in
          let rest =
            fill_loop_keeps fuel ((i + 1) % 2 ^ 16) (set ps i (init_ping raw i ip limit)) qs
              (sym goes ∙ h) (All-set IsFresh ps i _ fresh (refl, refl)) in
          (rest.0 ∙ length-set ps i (init_ping raw i ip limit), rest.1)
    ]
  ]

  module _ (ips : ℕ → String) (strings : (j : ℕ) → j < size → server j ≡ some (ips j)) where
    -- Below 2 ^ 16 the counter does not wrap, and `size + 1` rounds are enough.
    fill_loop_fills :
        (fuel i : ℕ) (ps : List Ping)
        → size < 2 ^ 16
        → i ≤ size
        → size < i + fuel
        → length ps ≡ size
        → (qs : List Ping) × (fill_loop raw server limit size fuel i ps ≡ built qs)
          × ((j : ℕ) → j < i → get_elem? qs j ≡ get_elem? ps j)
          × ((j : ℕ) → i ≤ j → j < size → get_elem? qs j ≡ some (init_ping raw j (ips j) limit))
    unfolding fill_loop
    fill_loop_fills zero i ps small low fuel len = absurd (omega arith)
    fill_loop_fills (suc fuel) i ps small low more len = elim (Bool-cases (ltb i size)) [
      | inr e ↦ (ps, rw (e, fill_loop) refl, λ j h. refl, λ j h k. absurd (ground arith))
      | inl e ↦
          let next : List Ping = set ps i (init_ping raw i (ips i) limit) in
          let inside : i < size = ground arith in
          let step : (i + 1) % 2 ^ 16 ≡ i + 1 = omega arith in
          let at = get_elem?-lt ps i (omega arith) in
          let rest =
            fill_loop_fills fuel (i + 1) next small (omega arith) (omega arith)
              (length-set ps i (init_ping raw i (ips i) limit) ∙ len) in
          let goes : fill_loop raw server limit size (suc fuel) i ps
              ≡ fill_loop raw server limit size fuel (i + 1) next =
            rw (e, fill_loop)
              (rw (strings i inside)
                (ap (λ k. fill_loop raw server limit size fuel k next) step)) in
          (
            rest.0,
            goes ∙ rest.1,
            λ j h. rest.2 j (omega arith) ∙ get_elem?-set_ne ps i j _ (omega arith),
            λ j h k. elim (ℕ_discrete i j) [
              | yes same ↦
                  subst (λ r. get_elem? rest.0 r ≡ some (init_ping raw r (ips r) limit)) same
                    (rest.2 i (omega arith) ∙ get_elem?-set_self ps i at.0 _ at.1)
              | no ne ↦ rest.3 j (omega arith) k
            ],
          )
    ]

    -- With 2 ^ 16 servers the counter wraps, and no number of rounds is enough.
    fill_loop_loops :
        size ≡ 2 ^ 16
        → (fuel i : ℕ) (ps : List Ping) → i < 2 ^ 16
        → fill_loop raw server limit size fuel i ps ≡ looping
    unfolding fill_loop
    fill_loop_loops full zero i ps low = refl
    fill_loop_loops full (suc fuel) i ps low =
        let test : ltb i size ≡ true = ground arith in
        rw (test, fill_loop)
          (rw (strings i (omega arith)) (
            fill_loop_loops full fuel ((i + 1) % 2 ^ 16) (set ps i (init_ping raw i (ips i) limit))
              (omega arith)))

-- A body that the constructor accepts up to the loop.
pub record IsAccepted (body : Body) (limit : ℤ) (ips : ℕ → String) : Type 0 where
  pub object : body.is_object ≡ true
  pub timed : body.timeout ≡ some limit
  pub positive : ltb_ℤ (pos 0) limit ≡ true
  pub present : body.servers_null ≡ false
  pub array : body.servers_array ≡ true
  pub strings : (j : ℕ) → j < body.servers_size → body.server j ≡ some (ips j)

module _ (raw : ℕ) (body : Body) (limit : ℤ) (ips : ℕ → String)
    (good : IsAccepted body limit ips) where
  reaches_loop :
      (fuel : ℕ)
      → body.servers_size ≤ 2 ^ 16
      → new_task raw fuel body
        ≡ with_pings raw body.servers_size (
            fill_loop raw body.server limit body.servers_size fuel 0
              (new_pings raw body.servers_size))
  unfolding new_task
  reaches_loop fuel small =
      let fits : ltb max_ping_per_task body.servers_size ≡ false = ground arith in
      rw (good.object) (rw (good.timed) (rw (good.positive, good.present, good.array, fits) refl))

  -- A valid body of fewer than 65536 servers becomes a task with one ping for each server, in
  -- order, none of them started; the loop ends within a round for each server and one more.
  pub new_task_fills :
      body.servers_size < 2 ^ 16
      → (t : Task) × (new_task raw (body.servers_size + 1) body ≡ built t)
        × (t.prepare_error ≡ false)
        × (t.total_count ≡ body.servers_size)
        × (t.done_count ≡ 0)
        × ((j : ℕ)
            → j < body.servers_size
            → get_elem? t.pings j ≡ some (init_ping raw j (ips j) limit))
  new_task_fills small =
      let n = body.servers_size in
      let loop =
        fill_loop_fills raw body.server limit n ips good.strings (n + 1) 0 (new_pings raw n) small
          (omega arith) (omega arith) (length-new_pings raw n) in
      (
        _,
        reaches_loop (n + 1) (omega arith) ∙ ap (with_pings raw n) loop.1,
        refl,
        refl,
        refl,
        λ j h. loop.3 j (omega arith) h,
      )

  -- A valid body of exactly 65536 servers, which the limit allows, keeps the constructor in its
  -- loop for any number of rounds.
  pub new_task_loops : body.servers_size ≡ 2 ^ 16 → (fuel : ℕ) → new_task raw fuel body ≡ looping
  new_task_loops full fuel =
      reaches_loop fuel (omega arith)
      ∙ ap (with_pings raw body.servers_size) (
          fill_loop_loops raw body.server limit body.servers_size ips good.strings full fuel 0
            (new_pings raw body.servers_size) (omega arith))

-- A body whose object has a positive timeout.
abbrev pub IsTimely : Body → Type 0
IsTimely body =
    (limit : ℤ) × (body.is_object ≡ true)
    × (body.timeout ≡ some limit)
    × (ltb_ℤ (pos 0) limit ≡ true)

-- The first fault of a body, with the code that says so.
pub data Rejected (body : Body) (code : ℕ) : Type 0 where
  not_object : body.is_object ≡ false → code ≡ 1001 → Rejected body code
  not_positive :
      (limit : ℤ)
      → body.is_object ≡ true
      → body.timeout ≡ some limit
      → ltb_ℤ (pos 0) limit ≡ false
      → code ≡ 1002
      → Rejected body code
  not_servers :
      IsTimely body
      → (body.servers_null || not body.servers_array) ≡ true
      → code ≡ 1003
      → Rejected body code
  too_many :
      IsTimely body
      → (body.servers_null || not body.servers_array) ≡ false
      → max_ping_per_task < body.servers_size
      → code ≡ 1004
      → Rejected body code

pub Rejected-le : (body : Body) (code : ℕ) → Rejected body code → 1000 ≤ code
Rejected-le body code (not_object a e) = omega arith
Rejected-le body code (not_positive limit o a b e) = omega arith
Rejected-le body code (not_servers t a e) = omega arith
Rejected-le body code (too_many t a b e) = omega arith

-- The ways out of the constructor: an exception, an error task, or the loop.
pub new_task_cases :
    (raw fuel : ℕ) (body : Body)
    → (new_task raw fuel body ≡ threw)
      ⊎ ((code : ℕ) × Rejected body code × (new_task raw fuel body ≡ built (error_task raw code)))
      ⊎ ((limit : ℤ) × (body.servers_size ≤ max_ping_per_task)
          × (new_task raw fuel body
              ≡ with_pings raw body.servers_size (
                  fill_loop raw body.server limit body.servers_size fuel 0
                    (new_pings raw body.servers_size))))
unfolding new_task
new_task_cases raw fuel body = elim (Bool-cases body.is_object) [
  | inr a ↦ inr (inl (1001, not_object a refl, rw a refl))
  | inl a ↦ elim (Option-cases body.timeout) [
    | inl b ↦ inl (rw a (rw b refl))
    | inr (limit, b) ↦ elim (Bool-cases (ltb_ℤ (pos 0) limit)) [
      | inr c ↦ inr (inl (1002, not_positive limit a b c refl, rw a (rw b (rw c refl))))
      | inl c ↦ elim (Bool-cases (body.servers_null || not body.servers_array)) [
        | inl d ↦
            inr (inl (1003, not_servers (limit, a, b, c) d refl, rw a (rw b (rw c (rw d refl)))))
        | inr d ↦ elim (Bool-cases (ltb max_ping_per_task body.servers_size)) [
          | inl f ↦ inr (
              inl (
                1004,
                too_many (limit, a, b, c) d (ground arith) refl,
                rw a (rw b (rw c (rw d (rw f refl)))),
              ))
          | inr f ↦ inr (inr (limit, ground arith, rw a (rw b (rw c (rw d (rw f refl))))))
        ]
      ]
    ]
  ]
]
