-- ===== src/CommonList/Stack.antt =====
-- `List` of src/common/CommonList.h, which is pushed and popped at its head; of a node only `next`
-- and `data` are used.
pub mod RoundTrip
pub mod Destructor
use async_ping.Prelude.{ℕ, zero, suc, Bool, true, Option, none, some, ◌==◌, if◌then◌else◌}
use async_ping.CommonList.{
  M, pure, ◌>>=◌, ◌>>◌, load_next, load_value, store_next, new_node, delete_node,
}

module _ {A : Type 0} where
  -- A list is the address of its sentinel.
  unfoldable pub new_list : (head : ℕ) → A → M A ℕ
  new_list head blank = do new_node head blank; store_next head 0; pure head

  unfoldable pub push : (fresh : ℕ) → A → (head : ℕ) → M A Bool
  push fresh v head = do
    new_node fresh v
    first ← load_next head
    store_next fresh first
    store_next head fresh
    pure true

  unfoldable pub pop : (head : ℕ) → M A (Option A)
  pop head = do
    node ← load_next head
    if node == 0 then pure none else (do
      v ← load_value node
      after ← load_next node
      store_next head after
      delete_node node
      pure (some v))

  unfoldable pub is_empty : (head : ℕ) → M A Bool
  is_empty head = do first ← load_next head; pure (first == 0)

  -- The destructor's loop, with `fuel` rounds, then the last node.
  unfoldable pub delete_list : (fuel head : ℕ) → M A (Unit {0})
  delete_list zero head = λ h. none
  delete_list (suc fuel) head = do
    after ← load_next head
    if after == 0 then delete_node head else (do delete_node head; delete_list fuel after)
