-- ===== src/CommonList/Dequeue.antt =====
-- `ConcurrentDequeue`. `status` is what the spin lock's function returns, 0 for a lock that is
-- taken; `fresh` is the address that `new` gives.
pub mod Links
pub mod Operations
pub mod Pop
pub mod Refinement
pub mod Refused
pub mod History
pub mod Destructor
pub mod Extent
pub mod Leak
pub mod Interface
use async_ping.Prelude.{ℕ, zero, suc, Bool, true, false, Option, none, some, ◌==◌, if◌then◌else◌}
use async_ping.CommonList.{
  Heap, M, pure, and_then, ◌>>=◌, ◌>>◌, load_next, load_prev, load_value, store_next, store_prev,
  new_node, delete_node,
}

-- The two sentinels. What runs between the lock and the unlock is one command.
pub record Dequeue : Type 0 where
  pub head : ℕ
  pub tail : ℕ

module _ {A : Type 0} where
  -- The constructor, with `blank` for the data of a new node.
  unfoldable pub new_dequeue : (head tail : ℕ) → A → M A Dequeue
  new_dequeue head tail blank = do
    new_node head blank
    new_node tail blank
    store_prev head 0
    store_next head tail
    store_prev tail head
    store_next tail 0
    pure (record { head = head; tail = tail })

  -- The four assignments of every push.
  unfoldable pub link_head : Dequeue → ℕ → M A (Unit {0})
  link_head d node = do
    first ← load_next d.head
    store_next node first
    store_next d.head node
    after ← load_next node
    store_prev after node
    store_prev node d.head

  -- `pushHead(const T &)` and `tryPushHead(const T &)`, which differ in the lock's function only.
  unfoldable pub push_head : (status fresh : ℕ) → A → Dequeue → M A Bool
  unfolding link_head
  push_head status fresh v d = do
    new_node fresh v
    if status == 0 then (do link_head d fresh; pure true) else (do delete_node fresh; pure false)

  -- `pushHead(DequeueNode<T> *)` and `tryPushHead(DequeueNode<T> *)`.
  unfoldable pub push_node : (status node : ℕ) → Dequeue → M A Bool
  unfolding link_head
  push_node status node d = if status == 0 then (do link_head d node; pure true) else pure false

  -- The assignments that take the node `last` out of the chain.
  unfoldable pub unlink : Dequeue → (last : ℕ) → M A (Unit {0})
  unlink d last = do
    before ← load_prev last
    store_prev d.tail before
    end ← load_prev d.tail
    store_next end d.tail

  -- `popTail`, which deletes the node, and `tryPopTail`, which does not.
  unfoldable pub pop_tail : (status : ℕ) → Dequeue → M A (Option A)
  unfolding unlink
  pop_tail status d =
      if status == 0
      then (do
        last ← load_prev d.tail
        if last == d.head
            then pure none
            else (do unlink d last; v ← load_value last; delete_node last; pure (some v)))
      else pure none

  unfoldable pub try_pop_tail : (status : ℕ) → Dequeue → M A (Option A)
  unfolding unlink
  try_pop_tail status d =
      if status == 0
      then (do
        last ← load_prev d.tail
        if last == d.head
            then pure none
            else (do unlink d last; v ← load_value last; pure (some v)))
      else pure none

  -- The destructor's loop, with `fuel` rounds; it leaves the last node's address.
  unfoldable pub delete_loop : (fuel head : ℕ) → M A ℕ
  delete_loop zero head = λ h. none
  delete_loop (suc fuel) head = do
    next ← load_next head
    if next == 0 then pure head else (do store_prev next 0; delete_node head; delete_loop fuel next)

  unfoldable pub delete_dequeue : (fuel : ℕ) → Dequeue → M A (Unit {0})
  unfolding delete_loop
  delete_dequeue fuel d = do last ← delete_loop fuel d.head; delete_node last
