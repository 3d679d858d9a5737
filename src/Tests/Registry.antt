-- ===== src/Tests/Registry.antt =====
-- The registry of the cluster's state at concrete inputs, with fractions for float64.
use auto_repair.Common.{ℕ, ◌*◌, ◌≤◌, true, [], ◌∷◌, ◌≡◌, refl, arith, lookup, ltb}
use native.Mathlib.Nat.{mul-le-mul_right}
use auto_repair.Common.Int.{ℤ, pos, pos_part, ◌≤ℤ◌}
use auto_repair.Status.{build_health_status_clusterwide}
use auto_repair.Registry.{
  Float, ClusterStateRegistry, new_cluster_state_registry, no_readiness, UnregisteredNode,
  is_cluster_healthy,
}
use auto_repair.Registry.Health.{IsMonotone}
use auto_repair.Registry.History.{
  last_status_of, last_status_of-since, dated, health_of, scale_up_of, scale_down_of,
}
use auto_repair.Registry.Unregistered.{after_updates, first_seen, after_updates-first_seen}
use auto_repair.Tests.World.{healthy, broken}

-- Numerator and denominator.
abbrev Fraction : Type 0
Fraction = ℕ × ℕ

instance abbrev fraction_float : Float Fraction
fraction_float = record {
  of_int = λ n. (pos_part n, 1);
  hundred = (100, 1);
  div = λ x y. (x.0 * y.1, x.1 * y.0);
  mul = λ x y. (x.0 * y.0, x.1 * y.1);
  gt = λ x y. ltb (y.0 * x.1) (x.0 * y.1);
}

pos_part_mono : (a b : ℤ) → a ≤ℤ b → pos_part a ≤ pos_part b
pos_part_mono a b le = ground arith

above : (n a b : ℕ) → a ≤ b → ltb n a ≡ true → ltb n b ≡ true
above n a b le h = ground arith

fraction-IsMonotone : IsMonotone Fraction
fraction-IsMonotone = record {
  gt_mono = λ a b x le h.
      above (x.0 * 1) (pos_part a * x.1) (pos_part b * x.1)
        (mul-le-mul_right x.1 (pos_part_mono a b le)) h;
}

abbrev start : ClusterStateRegistry Fraction
start = new_cluster_state_registry (record {
  max_total_unready_percentage = (45, 1);
  ok_total_unready_count = pos 3;
  max_node_provision_time = 0;
})

-- Six nodes, of which some are unready, looked at some time.
abbrev with_unready : ℕ → ℕ → ClusterStateRegistry Fraction
with_unready unready time = record start {
  nodes = broken ∷ broken ∷ broken ∷ broken ∷ healthy ∷ healthy ∷ [];
  total_readiness = record no_readiness { unready = pos unready; time = time };
}

last_status_of-since_example :
    (last_status_of
      (with_unready 4 30 ∷ with_unready 5 20 ∷ with_unready 3 10 ∷ [])).clusterwide_conditions
    ≡ dated health_of (with_unready 4 30) (with_unready 5 20 ∷ with_unready 3 10 ∷ [])
      ∷ dated scale_up_of (with_unready 4 30) (with_unready 5 20 ∷ with_unready 3 10 ∷ [])
      ∷ dated scale_down_of (with_unready 4 30) (with_unready 5 20 ∷ with_unready 3 10 ∷ [])
      ∷ []
last_status_of-since_example =
    last_status_of-since (with_unready 4 30) (with_unready 5 20 ∷ with_unready 3 10 ∷ [])

-- Unhealthy since the second look.
dated_at_20 :
    (dated health_of
      (with_unready 4 30)
      (with_unready 5 20 ∷ with_unready 3 10 ∷ [])).last_transition_time
    ≡ 20
unfolding build_health_status_clusterwide is_cluster_healthy new_cluster_state_registry
dated_at_20 = refl

abbrev spotted : ℕ → UnregisteredNode
spotted t = record { node = broken; unregistered_since = t }

after_updates-first_seen_example :
    lookup "k8s-worker2"
      (after_updates
        ((spotted 9 ∷ []) ∷ (spotted 5 ∷ []) ∷ [] ∷ (spotted 1 ∷ []) ∷ [])
        start).unregistered_nodes
    ≡ first_seen "k8s-worker2" ((spotted 9 ∷ []) ∷ (spotted 5 ∷ []) ∷ [] ∷ (spotted 1 ∷ []) ∷ [])
unfolding new_cluster_state_registry
after_updates-first_seen_example =
    after_updates-first_seen "k8s-worker2"
      ((spotted 9 ∷ []) ∷ (spotted 5 ∷ []) ∷ [] ∷ (spotted 1 ∷ []) ∷ []) start refl
