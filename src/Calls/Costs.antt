-- ===== src/Calls/Costs.antt =====
-- Runs bounded by what they cost: each call with which the program acts on something has a price.
use auto_repair.Common.{ℕ, ◌+◌, ◌≤◌, String, Bool, true, false, [], ◌∷◌, arith}
use auto_repair.Kube.{Node}
use auto_repair.Env.{
  Call, Trace, Io, Crash, pure, crash, no_fuel, ask, tell, sleep, ◌>>=◌, ◌>>◌, test◌then◌else◌,
  power_on, power_off, post_scale, queue_add, queue_get, ScaleBodyRequest,
}
use auto_repair.Calls.{Ensures, Ensures-bind, Ensures-weaken}

-- What is priced: turning the machine of a name on (true) or off (false), a request to the portal,
-- putting a node into the work queue, and asking it for the next.
pub data Act : Type 0 where
  turn : Bool → String → Act
  request : ScaleBodyRequest → Act
  enqueue : Node → Act
  dequeue : Act

abbrev pub Price : Type 0
Price = Act → ℕ

abbrev pub cost : Price → Call → ℕ
cost p (power_on vm) = p (turn true vm)
cost p (power_off vm) = p (turn false vm)
cost p (post_scale url token body) = p (request body)
cost p (queue_add node) = p (enqueue node)
cost p queue_get = p dequeue
cost p c = 0

abbrev pub spent : Price → Trace → ℕ
spent p [] = 0
spent p (c ∷ t) = cost p c + spent p t

-- Between the two traces something was spent, but `k` at most.
abbrev pub Spent : Price → ℕ → Trace → Trace → Type 0
Spent p k t u = (spent p t ≤ spent p u) × (spent p u ≤ k + spent p t)

-- Whenever the run returns, it has spent `k` at most.
pub record Costs {A : Type 0} (p : Price) (k : ℕ) (m : Io A) : Type 0 where
  pub at_most : (t : Trace) → Ensures (m t) (λ _ u. Spent p k t u)

module _ (p : Price) where
  pub Costs-more : {A : Type 0} (j k : ℕ) (m : Io A) → j ≤ k → Costs p j m → Costs p k m
  Costs-more j k m h g = record {
    at_most = λ t.
        Ensures-weaken (m t) (λ _ u. Spent p j t u) _ (g.at_most t)
          λ a u first. omega (arith, h, first);
  }

  pub Costs-then :
      {A B : Type 0} (j k : ℕ) (m : Io A) (f : A → Io B)
      → Costs p j m
      → ((a : A) → Costs p k (f a))
      → Costs p (j + k) (m >>= f)
  Costs-then j k m f h g = record {
    at_most = λ t.
        Ensures-bind m f t (λ _ u. Spent p j t u) _ (h.at_most t)
          λ a u first.
            Ensures-weaken (f a u) (λ _ v. Spent p k u v) _ ((g a).at_most u)
              λ b v second. omega (arith, first, second);
  }

  -- A first part that is free.
  pub Costs-bind :
      {A B : Type 0} {k : ℕ} (m : Io A) (f : A → Io B)
      → Costs p 0 m
      → ((a : A) → Costs p k (f a))
      → Costs p k (m >>= f)
  Costs-bind {k = k} m f h g = Costs-more (0 + k) k (m >>= f) (omega arith) (Costs-then 0 k m f h g)

  pub Costs-next :
      {A B : Type 0} {k : ℕ} (m : Io A) (n : Io B) → Costs p 0 m → Costs p k n → Costs p k (m >> n)
  Costs-next m n h g = Costs-bind m (λ _. n) h (λ _. g)

  pub Costs-ask :
      {A : Type 0} {k : ℕ} (c : Call) (answer : Trace → A) → cost p c ≤ k → Costs p k (ask c answer)
  Costs-ask c answer h = record { at_most = λ t. omega (arith, h) }

  pub Costs-pure : {A : Type 0} {k : ℕ} (a : A) → Costs p k (pure a)
  Costs-pure a = record { at_most = λ t. omega arith }

  pub Costs-crash : {A : Type 0} {k : ℕ} (c : Crash) → Costs p k (crash {A = A} c)
  Costs-crash c = record { at_most = λ t. tt }

  pub Costs-no_fuel : {A : Type 0} {k : ℕ} → Costs p k (no_fuel {A = A})
  Costs-no_fuel = record { at_most = λ t. tt }

  pub Costs-test :
      {A : Type 0} {k : ℕ} (b : Bool) (m n : Io A)
      → Costs p k m
      → Costs p k n
      → Costs p k (test b then m else n)
  Costs-test true m n h g = h
  Costs-test false m n h g = g

  pub Costs-sleep : {k : ℕ} (n : ℕ) → Costs p k (tell (sleep n))
  Costs-sleep n = Costs-ask (sleep n) (λ _. tt) (omega arith)
