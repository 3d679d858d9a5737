-- ===== src/Controller/Schedule/Lateness.antt =====
-- The names of late nodes, as a test, and the price of a call on anything else.
use auto_repair.Common.{
  ℕ, ◌+◌, String, Bool, true, ◌&&◌, not, List, [], ◌∷◌, ◌++◌, ◌≡◌, inl, inr, refl, arith, any, all,
  Any, All, str_eq, leb, eq_iff, if◌then◌else◌, Bool-cases,
}
use auto_repair.Kube.{Node, NodeCondition, is_node_ready, is_true}
use auto_repair.Env.{Trace, queue_add, power_on, power_off, post_scale}
use auto_repair.Calls.{adds}
use auto_repair.Calls.Costs.{Price, spent, turn, request, enqueue, dequeue}
use auto_repair.NodeChecks.{waiting_time_for_not_ready}
use auto_repair.NodeChecks.Polling.{IsLate}
use auto_repair.Scaler.Costs.{Allows}

-- The machines whose power is touched and the workers whose removal is requested.
abbrev pub touched : Trace → List String
touched [] = []
touched (power_on vm ∷ t) = vm ∷ touched t
touched (power_off vm ∷ t) = vm ∷ touched t
touched (post_scale url token body ∷ t) = body.worker_name_list ++ touched t
touched (c ∷ t) = touched t

-- One of the nodes has the name and was late at the given time.
abbrev pub LateIn : ℕ → List Node → String → Type 0
LateIn hi nodes name = Any (λ (n : Node). (n.name ≡ name) × Any (IsLate hi) n.conditions) nodes

abbrev pub is_late : ℕ → NodeCondition → Bool
is_late hi c =
    is_node_ready c.type
    && not (is_true c.status)
    && leb (c.last_transition_time + waiting_time_for_not_ready) hi

abbrev late_node : ℕ → String → Node → Bool
late_node hi name n = str_eq n.name name && any (is_late hi) n.conditions

abbrev pub late_named : ℕ → List Node → String → Bool
late_named hi nodes name = any (late_node hi name) nodes

any-IsLate : (hi : ℕ) (cs : List NodeCondition) → any (is_late hi) cs ≡ true → Any (IsLate hi) cs
any-IsLate hi [] h = absurd (ground arith)
any-IsLate hi (c ∷ cs) h = elim (Bool-cases (is_late hi c)) [
  | inl e ↦ inl (ground arith)
  | inr e ↦ inr (any-IsLate hi cs (rw e at h))
]

late_named-LateIn :
    (hi : ℕ) (nodes : List Node) (name : String)
    → late_named hi nodes name ≡ true
    → LateIn hi nodes name
late_named-LateIn hi [] name h = absurd (ground arith)
late_named-LateIn hi (n ∷ nodes) name h = elim (Bool-cases (late_node hi name n)) [
  | inl e ↦ inl ((eq_iff n.name name).0 (ground arith), any-IsLate hi n.conditions (ground arith))
  | inr e ↦ inr (late_named-LateIn hi nodes name (rw e at h))
]

pub late_named-mem :
    (hi : ℕ) (nodes : List Node) (node : Node)
    → Any (λ n. n ≡ node) nodes
    → any (is_late hi) node.conditions ≡ true
    → late_named hi nodes node.name ≡ true
late_named-mem hi [] node h late = absurd h
late_named-mem hi (n ∷ nodes) node (inl e) late =
    rw (e, (eq_iff node.name node.name).1 refl, late) refl
late_named-mem hi (n ∷ nodes) node (inr h) late =
    ground (arith, late_named-mem hi nodes node h late)

-- What is done to anything but a late node has a price.
abbrev pub strays : ℕ → List Node → Price
strays hi nodes (turn on vm) = if late_named hi nodes vm then 0 else 1
strays hi nodes (request body) = if all (late_named hi nodes) body.worker_name_list then 0 else 1
strays hi nodes (enqueue node) = if late_named hi nodes node.name then 0 else 1
strays hi nodes dequeue = 0

pub added-late :
    (hi : ℕ) (nodes : List Node) (t : Trace) (node : Node)
    → spent (strays hi nodes) t ≡ 0
    → Any (λ n. n ≡ node) (adds t)
    → late_named hi nodes node.name ≡ true
added-late hi nodes [] node h m = absurd m
added-late hi nodes (queue_add n ∷ t) node h (inl e) =
    rw e at (let late : late_named hi nodes n.name ≡ true = ground arith in late)
added-late hi nodes (queue_add n ∷ t) node h (inr m) = added-late hi nodes t node (omega arith) m
added-late hi nodes (c ∷ t) node h m = added-late hi nodes t node (omega arith) m

all-append :
    (p : String → Bool) (xs ys : List String)
    → all p xs ≡ true
    → all p ys ≡ true
    → all p (xs ++ ys) ≡ true
all-append p [] ys h g = g
all-append p (x ∷ xs) ys h g = ground (arith, all-append p xs ys)

pub touched-late :
    (hi : ℕ) (nodes : List Node) (t : Trace)
    → spent (strays hi nodes) t ≡ 0
    → all (late_named hi nodes) (touched t) ≡ true
touched-late hi nodes [] h = refl
touched-late hi nodes (power_on vm ∷ t) h = ground (arith, touched-late hi nodes t)
touched-late hi nodes (power_off vm ∷ t) h = ground (arith, touched-late hi nodes t)
touched-late hi nodes (post_scale url token body ∷ t) h =
    all-append (late_named hi nodes) body.worker_name_list (touched t) (ground arith)
      (touched-late hi nodes t (ground arith))
touched-late hi nodes (c ∷ t) h = touched-late hi nodes t (omega arith)

pub all-All :
    (hi : ℕ) (nodes : List Node) (names : List String)
    → all (late_named hi nodes) names ≡ true
    → All (LateIn hi nodes) names
all-All hi nodes [] h = tt
all-All hi nodes (name ∷ names) h =
    (late_named-LateIn hi nodes name (ground arith), all-All hi nodes names (ground arith))

pub late-Allows :
    (hi : ℕ) (nodes : List Node) (name : String)
    → late_named hi nodes name ≡ true
    → Allows (strays hi nodes) name
late-Allows hi nodes name h = record { more = λ x n. refl; fewer = λ x. ground arith }
