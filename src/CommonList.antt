-- ===== src/CommonList.antt =====
-- src/common/CommonList.h: linked nodes on a heap. The heap keeps each field of the nodes as a
-- function of the address; an access to an address that holds no node is a fault, `none`.
pub mod Dequeue
pub mod Stack
use async_ping.Prelude.{ℕ, Bool, true, false, Option, none, some, ◌==◌, if◌then◌else◌}

pub record Heap (A : Type 0) : Type 0 where
  pub live : ℕ → Bool
  pub next : ℕ → ℕ
  pub prev : ℕ → ℕ
  pub value : ℕ → A

abbrev pub update {ℓ} : {B : Type ℓ} → (ℕ → B) → ℕ → B → ℕ → B
update f p v q = if q == p then v else f q

-- A command on the heap.
abbrev pub M : Type 0 → Type 0 → Type 0
M A B = Heap A → Option (B × Heap A)

module _ {A : Type 0} where
  abbrev pub pure : {B : Type 0} → B → M A B
  pure b h = some (b, h)

  abbrev pub and_then : {B C : Type 0} → Option (B × Heap A) → (B → M A C) → Option (C × Heap A)
  and_then none k = none
  and_then (some (b, h)) k = k b h

  infixl 5 ◌>>=◌ ◌>>◌
  abbrev pub ◌>>=◌ : {B C : Type 0} → M A B → (B → M A C) → M A C
  ◌>>=◌ m k h = and_then (m h) k

  abbrev pub ◌>>◌ : {C : Type 0} → M A (Unit {0}) → M A C → M A C
  m >> k = m >>= λ _. k

  -- `p->next`, `p->prev`, `p->data`.
  unfoldable pub load_next : ℕ → M A ℕ
  load_next p h = if h.live p then some (h.next p, h) else none

  unfoldable pub load_prev : ℕ → M A ℕ
  load_prev p h = if h.live p then some (h.prev p, h) else none

  unfoldable pub load_value : ℕ → M A A
  load_value p h = if h.live p then some (h.value p, h) else none

  unfoldable pub store_next : ℕ → ℕ → M A (Unit {0})
  store_next p q h = if h.live p then some (tt, record h { next = update h.next p q }) else none

  unfoldable pub store_prev : ℕ → ℕ → M A (Unit {0})
  store_prev p q h = if h.live p then some (tt, record h { prev = update h.prev p q }) else none

  -- `new` at the address `p`, with the pointers NULL, and `delete`.
  unfoldable pub new_node : ℕ → A → M A (Unit {0})
  new_node p v h = some (
    tt,
    record {
      live = update h.live p true;
      next = update h.next p 0;
      prev = update h.prev p 0;
      value = update h.value p v;
    },
  )

  unfoldable pub delete_node : ℕ → M A (Unit {0})
  delete_node p h = if h.live p then some (tt, record h { live = update h.live p false }) else none
