-- ===== src/WorkQueue.antt =====
-- utils.go: `showWorkQueue`. The work queue of the client library is a parameter.
pub mod Laws
use auto_repair.Common.{ℕ, zero, suc, Option, List, [], ◌∷◌}
use auto_repair.Kube.{Node}

-- The methods that the function calls. `get` has no item where the queue shuts down; it takes an item
-- out at once, and `add_rate_limited` puts one in after a while.
pub record Methods (Queue : Type 0) : Type 0 where
  pub len : Queue → ℕ
  pub get : Queue → Option Node × Queue
  pub add_rate_limited : Option Node → Queue → Queue

module _ {Queue : Type 0} (queue : Methods Queue) where
  -- The rounds that are left, with what they print.
  unfoldable pub show_loop : ℕ → Queue → List (Option Node) × Queue
  show_loop zero q = ([], q)
  show_loop (suc rounds) q =
      let (item, taken) = queue.get q in
      let (printed, shown) = show_loop rounds (queue.add_rate_limited item taken) in
      (item ∷ printed, shown)

  unfoldable pub show_work_queue : Queue → List (Option Node) × Queue
  unfolding show_loop
  show_work_queue q = show_loop (queue.len q) q
