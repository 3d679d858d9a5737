-- ===== src/Controller/Interleaving.antt =====
-- The update handler and the worker side by side: they share the map `enqueueMap`, and each read of
-- it, each write to it and each call on the queue is a step of its own. The informer calls the handler
-- for one update at a time; the worker does not take the handler's lock.
pub mod Counting
use auto_repair.Common.{
  ℕ, suc, ◌+◌, ◌≤◌, String, true, false, List, [], ◌∷◌, ◌≡◌, refl, arith, eq_iff, str_eq,
  if◌then◌else◌,
}
use auto_repair.Controller.{contains, delete}
use auto_repair.Controller.Queueing.{contains-delete}

-- Where the handler stands: between updates, before `queue.Add`, before the mark in the map, in the
-- check of the node, or before the mark is deleted; each with the name of the node.
pub data HandlerPc : Type 0 where
  idle : HandlerPc
  adding marking polling clearing : String → HandlerPc

-- Where the worker stands: in `queue.Get`, in the repair of a node, or before its mark is deleted.
pub data WorkerPc : Type 0 where
  waiting : WorkerPc
  repairing forgetting : String → WorkerPc

-- The map, all names ever added to the queue and all names whose mark was deleted, newest first.
pub record System : Type 0 where
  pub enqueue_map : List String
  pub added : List String
  pub cleared : List String
  pub handler : HandlerPc
  pub worker : WorkerPc

-- Whether a node is late or ready, and whether a repair succeeds, is the world's choice.
pub data Step : System → System → Type 0 where
  -- `handleUpdate`
  sees_late :
      {s : System} (n : String)
      → s.handler ≡ idle
      → contains s.enqueue_map n ≡ false
      → Step s (record s { handler = adding n })
  goes_on : {s : System} (n : String) → s.handler ≡ idle → Step s (record s { handler = polling n })
  adds_item :
      {s : System} (n : String)
      → s.handler ≡ adding n
      → Step s (record s { added = n ∷ s.added; handler = marking n })
  marks_item :
      {s : System} (n : String)
      → s.handler ≡ marking n
      → Step s (record s { enqueue_map = n ∷ s.enqueue_map; handler = polling n })
  returns : {s : System} (n : String) → s.handler ≡ polling n → Step s (record s { handler = idle })
  sees_ready :
      {s : System} (n : String)
      → s.handler ≡ polling n
      → contains s.enqueue_map n ≡ true
      → Step s (record s { handler = clearing n })
  clears_mark :
      {s : System} (n : String)
      → s.handler ≡ clearing n
      → Step s (record s {
        enqueue_map = delete s.enqueue_map n;
        cleared = n ∷ s.cleared;
        handler = idle;
      })
  -- `processItem` and `handleNotReadyNode`
  takes_item :
      {s : System} (n : String)
      → s.worker ≡ waiting
      → contains s.added n ≡ true
      → Step s (record s { worker = repairing n })
  fails :
      {s : System} (n : String) → s.worker ≡ repairing n → Step s (record s { worker = waiting })
  repairs :
      {s : System} (n : String)
      → s.worker ≡ repairing n
      → Step s (record s { worker = forgetting n })
  forgets_mark :
      {s : System} (n : String)
      → s.worker ≡ forgetting n
      → Step s (record s {
        enqueue_map = delete s.enqueue_map n;
        cleared = n ∷ s.cleared;
        worker = waiting;
      })

-- Any number of steps.
pub data Steps : System → System → Type 0 where
  no_step : {s : System} → Steps s s
  then_step : {s r t : System} → Steps s r → Step r t → Steps s t

abbrev pub start : System
start = record { enqueue_map = []; added = []; cleared = []; handler = idle; worker = waiting }

abbrev pub times : String → List String → ℕ
times n [] = 0
times n (k ∷ ks) = let rest = times n ks in if str_eq k n then suc rest else rest
