-- ===== src/Calls.antt =====
-- What a trace shows of a run: the requests that were posted, and how often the program slept.
pub mod Costs
use auto_repair.Common.{ℕ, suc, ◌+◌, String, str_eq, if◌then◌else◌, ◌≡◌, refl, List, [], ◌∷◌}
use auto_repair.Env.{
  Trace, Run, Crash, Io, ◌>>=◌, done, crashed, unfinished, post_scale, sleep, queue_add,
  ScaleBodyRequest,
}
use auto_repair.Kube.{Node}

-- The scale requests, newest first.
abbrev pub posts : Trace → List ScaleBodyRequest
posts [] = []
posts (post_scale url token body ∷ t) = body ∷ posts t
posts (c ∷ t) = posts t

abbrev pub naps : Trace → ℕ
naps [] = 0
naps (sleep n ∷ t) = suc (naps t)
naps (c ∷ t) = naps t

-- How long the program has slept.
abbrev pub slept : Trace → ℕ
slept [] = 0
slept (sleep d ∷ t) = d + slept t
slept (c ∷ t) = slept t

-- Neither a pause nor a scale request lies between the traces.
abbrev pub IsCalm : Trace → Trace → Type 0
IsCalm t u = (naps u ≡ naps t) × (posts u ≡ posts t)

-- The run ends by returning, with a result and a trace that satisfy `P`.
abbrev pub Ends : {A : Type 0} → Run A → (A → Trace → Type 0) → Type 0
Ends (done a t) P = P a t
Ends (crashed c t) P = ⊥
Ends (unfinished t) P = ⊥

-- The process ends inside the run, in the given way.
abbrev pub CrashesWith : {A : Type 0} → Crash → Run A → Type 0
CrashesWith k (done a t) = ⊥
CrashesWith k (crashed c t) = c ≡ k
CrashesWith k (unfinished t) = ⊥

-- Whenever the run returns, its result and trace satisfy `P`.
abbrev pub Ensures : {A : Type 0} → Run A → (A → Trace → Type 0) → Type 0
Ensures (done a t) P = P a t
Ensures (crashed c t) P = Unit
Ensures (unfinished t) P = Unit

-- A run that ends is a value, with what is known of it.
pub Ends-run :
    {A : Type 0} (r : Run A) (P : A → Trace → Type 0)
    → Ends r P
    → (a : A) × (u : Trace) × (r ≡ done a u) × P a u
Ends-run (done a t) P h = (a, t, refl, h)
Ends-run (crashed c t) P h = absurd h
Ends-run (unfinished t) P h = absurd h

-- The rule for a sequence that ends.
pub Ends-bind :
    {A B : Type 0} (m : Io A) (f : A → Io B) (t : Trace) (P : A → Trace → Type 0)
    (Q : B → Trace → Type 0)
    → Ends (m t) P
    → ((a : A) (u : Trace) → P a u → Ends (f a u) Q)
    → Ends ((m >>= f) t) Q
Ends-bind m f t P Q h k = let (a, u, e, p) = Ends-run (m t) P h in rw (e, Ends) (k a u p)

pub Ends-weaken :
    {A : Type 0} (r : Run A) (P Q : A → Trace → Type 0)
    → Ends r P
    → ((a : A) (u : Trace) → P a u → Q a u)
    → Ends r Q
Ends-weaken (done a t) P Q h k = k a t h
Ends-weaken (crashed c t) P Q h k = absurd h
Ends-weaken (unfinished t) P Q h k = absurd h

-- What is known of a run is proved when it returns.
pub Ensures-intro :
    {A : Type 0} (r : Run A) (P : A → Trace → Type 0)
    → ((a : A) (u : Trace) → r ≡ done a u → P a u)
    → Ensures r P
Ensures-intro (done a t) P h = h a t refl
Ensures-intro (crashed c t) P h = tt
Ensures-intro (unfinished t) P h = tt

pub Ensures-weaken :
    {A : Type 0} (r : Run A) (P Q : A → Trace → Type 0)
    → Ensures r P
    → ((a : A) (u : Trace) → P a u → Q a u)
    → Ensures r Q
Ensures-weaken (done a t) P Q h k = k a t h
Ensures-weaken (crashed c t) P Q h k = tt
Ensures-weaken (unfinished t) P Q h k = tt

pub Ensures-both :
    {A : Type 0} (r : Run A) (P Q : A → Trace → Type 0)
    → Ensures r P
    → Ensures r Q
    → Ensures r (λ a u. P a u × Q a u)
Ensures-both (done a t) P Q h k = (h, k)
Ensures-both (crashed c t) P Q h k = tt
Ensures-both (unfinished t) P Q h k = tt

-- The rule for a sequence: what the first part ensures is what the second may assume.
pub Ensures-bind :
    {A B : Type 0} (m : Io A) (f : A → Io B) (t : Trace) (P : A → Trace → Type 0)
    (Q : B → Trace → Type 0)
    → Ensures (m t) P
    → ((a : A) (u : Trace) → P a u → Ensures (f a u) Q)
    → Ensures ((m >>= f) t) Q
Ensures-bind {A} {B} m f t P Q h k = split (m t) h
  where
    split :
        (r : Run A)
        → Ensures r P
        → Ensures
            (elim r [ done a v ↦ f a v | crashed c v ↦ crashed c v | unfinished v ↦ unfinished v ])
            Q
    split (done a v) g = k a v g
    split (crashed c v) g = tt
    split (unfinished v) g = tt

-- The same, where nothing is asked of the first part.
pub Ensures-next :
    {A B : Type 0} (m : Io A) (f : A → Io B) (t : Trace) (Q : B → Trace → Type 0)
    → ((a : A) (u : Trace) → Ensures (f a u) Q)
    → Ensures ((m >>= f) t) Q
Ensures-next m f t Q k =
    Ensures-bind m f t (λ _ _. Unit {0}) Q (Ensures-intro (m t) (λ _ _. Unit {0}) (λ _ _ _. tt))
      (λ a u _. k a u)

-- The nodes that were added to the work queue, newest first.
abbrev pub adds : Trace → List Node
adds [] = []
adds (queue_add node ∷ t) = node ∷ adds t
adds (c ∷ t) = adds t

-- How often a node of the given name was added.
abbrev pub adds_of : String → List Node → ℕ
adds_of name [] = 0
adds_of name (n ∷ ns) = let rest = adds_of name ns in if str_eq n.name name then suc rest else rest

-- What a run ensures for each value it ensures for all.
pub Ensures-all :
    {A I : Type 0} (r : Run A) (P : I → A → Trace → Type 0)
    → ((i : I) → Ensures r (P i))
    → Ensures r (λ a u. (i : I) → P i a u)
Ensures-all (done a t) P h = h
Ensures-all (crashed c t) P h = tt
Ensures-all (unfinished t) P h = tt

-- A run that ends, with what it ensures besides.
pub Ends-with :
    {A : Type 0} (r : Run A) (P Q : A → Trace → Type 0)
    → Ends r P
    → Ensures r Q
    → Ends r (λ a u. P a u × Q a u)
Ends-with (done a t) P Q h k = (h, k)
Ends-with (crashed c t) P Q h k = absurd h
Ends-with (unfinished t) P Q h k = absurd h
