-- ===== src/WorkQueue/Laws.antt =====
-- What `showWorkQueue` prints.
use auto_repair.Common.{
  Option, some, List, [], ◌∷◌, ◌++◌, ◌≡◌, ◌∙◌, refl, sym, ap, map, arith, length,
}
use mathlib.Core.List.{append_assoc, append-nil}
use auto_repair.Kube.{Node}
use auto_repair.WorkQueue.{Methods, show_loop, show_work_queue}

-- The queue hands out its items in their order, and what is put back comes after them, if it is there
-- already.
pub record IsFifo {Queue : Type 0} (queue : Methods Queue) (items : Queue → List Node)
    : Type 0 where
  pub counts : (q : Queue) → queue.len q ≡ length (items q)
  pub takes :
      (q : Queue) (n : Node) (ns : List Node)
      → items q ≡ n ∷ ns
      → ((queue.get q).0 ≡ some n) × (items (queue.get q).1 ≡ ns)
  pub puts :
      (q : Queue) (item : Option Node)
      → (later : List Node) × (items (queue.add_rate_limited item q) ≡ items q ++ later)

module _ {Queue : Type 0} (queue : Methods Queue) (items : Queue → List Node)
    (fifo : IsFifo queue items) where
  show_loop_lem :
      (ns later : List Node) (q : Queue)
      → items q ≡ ns ++ later
      → (show_loop queue (length ns) q).0 ≡ map some ns
  unfolding show_loop
  show_loop_lem [] later q h = refl
  show_loop_lem (n ∷ ns) later q h =
      let (given, left) = fifo.takes q n (ns ++ later) h in
      let (more, put) = fifo.puts (queue.get q).1 (queue.get q).0 in
      let rest =
        show_loop_lem ns (later ++ more) (queue.add_rate_limited (queue.get q).0 (queue.get q).1)
          (put ∙ ap (λ xs. xs ++ more) left ∙ append_assoc ns later more) in
      ground (arith, given, rest)

  -- All items are printed once, in their order, though each is put back before the next is taken.
  pub show_work_queue_lem : (q : Queue) → (show_work_queue queue q).0 ≡ map some (items q)
  unfolding show_work_queue
  show_work_queue_lem q =
      rw (fifo.counts q) (show_loop_lem (items q) [] q (sym (append-nil (items q))))
