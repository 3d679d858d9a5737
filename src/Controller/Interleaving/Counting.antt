-- ===== src/Controller/Interleaving/Counting.antt =====
-- The invariant of the interleaving: how often a name is added to the queue.
use auto_repair.Common.{
  ℕ, suc, ◌+◌, ◌≤◌, String, true, false, ◌∷◌, ◌≡◌, refl, arith, eq_iff, str_eq, if◌then◌else◌,
}
use auto_repair.Controller.{contains, delete}
use auto_repair.Controller.Queueing.{contains-delete}
use auto_repair.Controller.Interleaving.{
  System, Step, Steps, HandlerPc, start, times, no_step, then_step, idle, adding, marking, polling,
  clearing, waiting, sees_late, goes_on, adds_item, marks_item, returns, sees_ready, clears_mark,
  takes_item, fails, repairs, forgets_mark,
}

abbrev pub marked : String → System → ℕ
marked n s = if contains s.enqueue_map n then 1 else 0

-- What the handler has added and not marked yet.
abbrev pub unmarked : String → HandlerPc → ℕ
unmarked n (marking k) = if str_eq k n then 1 else 0
unmarked n _ = 0

-- A name that the handler is about to add or to mark is not in the map.
abbrev pub IsFresh : System → HandlerPc → Type 0
IsFresh s (adding k) = contains s.enqueue_map k ≡ false
IsFresh s (marking k) = contains s.enqueue_map k ≡ false
IsFresh s _ = Unit

pub record Inv (s : System) : Type 0 where
  pub counted :
      (n : String) → times n s.added ≤ times n s.cleared + marked n s + unmarked n s.handler
  pub fresh : IsFresh s s.handler

-- IsFresh reads the map of the state alone, and deleting from it adds no name.
still-IsFresh :
    (s : System) (n : String) (pc : HandlerPc)
    → IsFresh s pc
    → IsFresh
        (record s {
          enqueue_map = delete s.enqueue_map n;
          cleared = n ∷ s.cleared;
          worker = waiting;
        })
        pc
still-IsFresh s n idle h = tt
still-IsFresh s n (adding k) h = ground (arith, contains-delete s.enqueue_map n k)
still-IsFresh s n (marking k) h = ground (arith, contains-delete s.enqueue_map n k)
still-IsFresh s n (polling k) h = tt
still-IsFresh s n (clearing k) h = tt

Step-Inv : {s t : System} → Step s t → Inv s → Inv t
unfolding contains
Step-Inv {s} (sees_late n at_idle absent) inv = record {
  counted = λ k. ground (arith, inv.counted k);
  fresh = absent;
}
Step-Inv {s} (goes_on n at_idle) inv = record {
  counted = λ k. ground (arith, inv.counted k);
  fresh = tt;
}
Step-Inv {s} (adds_item n here) inv = record {
  counted = λ k. ground (arith, eq_iff n k, inv.counted k);
  fresh = rw here at inv.fresh;
}
Step-Inv {s} (marks_item n here) inv = record {
  counted = λ k. ground (arith, eq_iff n k, inv.counted k, rw here at inv.fresh);
  fresh = tt;
}
Step-Inv {s} (returns n here) inv = record {
  counted = λ k. ground (arith, inv.counted k);
  fresh = tt;
}
Step-Inv {s} (sees_ready n here h) inv = record {
  counted = λ k. ground (arith, inv.counted k);
  fresh = tt;
}
Step-Inv {s} (clears_mark n here) inv = record {
  counted = λ k. ground (arith, eq_iff n k, inv.counted k, contains-delete s.enqueue_map n k);
  fresh = tt;
}
Step-Inv {s} (takes_item n here h) inv = record { counted = inv.counted; fresh = inv.fresh }
Step-Inv {s} (fails n here) inv = record { counted = inv.counted; fresh = inv.fresh }
Step-Inv {s} (repairs n here) inv = record { counted = inv.counted; fresh = inv.fresh }
Step-Inv {s} (forgets_mark n here) inv = record {
  counted = λ k. ground (arith, eq_iff n k, inv.counted k, contains-delete s.enqueue_map n k);
  fresh = still-IsFresh s n s.handler inv.fresh;
}

pub Steps-Inv : {s t : System} → Steps s t → Inv s → Inv t
Steps-Inv no_step inv = inv
Steps-Inv (then_step before last) inv = Step-Inv last (Steps-Inv before inv)

start-Inv : Inv start
start-Inv = record { counted = λ n. omega arith; fresh = tt }

one_mark :
    (n : String) (s : System) (pc : HandlerPc) → IsFresh s pc → marked n s + unmarked n pc ≤ 1
one_mark n s idle h = ground arith
one_mark n s (adding k) h = ground arith
one_mark n s (marking k) h = ground (arith, eq_iff k n)
one_mark n s (polling k) h = ground arith
one_mark n s (clearing k) h = ground arith

not_added_again :
    (n : String) {s r : System}
    → Step s r
    → Inv s
    → contains s.enqueue_map n ≡ true
    → times n r.added ≡ times n s.added
not_added_again n (sees_late k here absent) inv h = refl
not_added_again n (goes_on k here) inv h = refl
not_added_again n {s} (adds_item k here) inv h = ground (arith, eq_iff k n, rw here at inv.fresh)
not_added_again n (marks_item k here) inv h = refl
not_added_again n (returns k here) inv h = refl
not_added_again n (sees_ready k here present) inv h = refl
not_added_again n (clears_mark k here) inv h = refl
not_added_again n (takes_item k here present) inv h = refl
not_added_again n (fails k here) inv h = refl
not_added_again n (repairs k here) inv h = refl
not_added_again n (forgets_mark k here) inv h = refl

-- However the steps of the handler and of the worker interleave, and whatever nodes do meanwhile, a
-- name has been added to the queue once more at most than its mark has been deleted. A name that is
-- marked is not added by any step.
pub Steps-once :
    {s : System} (n : String)
    → Steps start s
    → (times n s.added ≤ suc (times n s.cleared))
      × ((r : System)
          → Step s r
          → contains s.enqueue_map n ≡ true
          → times n r.added ≡ times n s.added)
Steps-once {s} n steps =
    let inv = Steps-Inv steps start-Inv in
    (
      omega (arith, inv.counted n, one_mark n s s.handler inv.fresh),
      λ r last here. not_added_again n last inv here,
    )
