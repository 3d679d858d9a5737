-- ===== src/Registry/Health.antt =====
-- When the cluster and a node group are healthy, and how a group stands to its target.
use auto_repair.Common.{
  String, Bool, true, false, not, none, ◌≡◌, ◌≢◌, sym, inl, inr, arith, length, lookup,
  Option-cases,
}
use auto_repair.Common.Int.{ℤ, pos, ◌≤ℤ◌}
use auto_repair.Registry.{
  Float, ClusterStateRegistry, ClusterStateRegistryConfig, too_many, is_cluster_healthy,
  is_node_group_at_target_size, is_node_group_scaling_up,
}

-- What is assumed of float64: the conversion of an int keeps the order, and `>` is kept by it.
pub record IsMonotone {ℓ} (W : Type ℓ) ⦃f : Float W⦄ : Type ℓ where
  pub gt_mono : (a b : ℤ) (x : W) → a ≤ℤ b → f.gt (f.of_int a) x ≡ true → f.gt (f.of_int b) x ≡ true

flip : {a b : Bool} → ((a ≡ true) → b ≡ true) → not b ≡ true → not a ≡ true
flip h k = ground arith

module _ {W : Type 0} ⦃f : Float W⦄ where
  -- More unready nodes are no less too many.
  too_many_mono :
      (m : IsMonotone W) (config : ClusterStateRegistryConfig W) (a b total : ℤ)
      → a ≤ℤ b
      → too_many config a total ≡ true
      → too_many config b total ≡ true
  unfolding too_many
  too_many_mono m config a b total le h = ground (
    arith,
    m.gt_mono a b (f.mul (f.div config.max_total_unready_percentage f.hundred) (f.of_int total)) le,
  )

  -- If more unready nodes are no less above the tolerated percentage, then a healthy cluster stays
  -- healthy when fewer of as many nodes are unready. Up to the tolerated count of unready nodes a
  -- cluster is healthy whatever the percentage is.
  pub is_cluster_healthy_mono :
      (m : IsMonotone W) (r q : ClusterStateRegistry W)
      → r.config ≡ q.config
      → length r.nodes ≡ length q.nodes
      → q.total_readiness.unready ≤ℤ r.total_readiness.unready
      → ((is_cluster_healthy r ≡ true) → is_cluster_healthy q ≡ true)
        × ((q.total_readiness.unready ≤ℤ q.config.ok_total_unready_count)
            → is_cluster_healthy q ≡ true)
  unfolding is_cluster_healthy too_many
  is_cluster_healthy_mono m r q config size fewer = (
    λ healthy.
        flip
          (too_many_mono m q.config q.total_readiness.unready r.total_readiness.unready
            (pos (length q.nodes)) fewer)
          (rw (sym config, sym size) healthy),
    λ few. ground arith,
  )

module _ {W : Type 0} where
  -- A node group that is scaling up has a target above what is provisioned, so it is not at its
  -- target size, and its scale-up has been requested. Without a range of sizes it does neither.
  is_node_group_scaling_up_lem :
      (name : String) (csr : ClusterStateRegistry W)
      → ((is_node_group_scaling_up name csr ≡ true)
          → (is_node_group_at_target_size name csr ≡ false)
            × (lookup name csr.scale_up_requests ≢ none)
            × (lookup name csr.acceptable_ranges ≢ none))
        × ((lookup name csr.acceptable_ranges ≡ none)
            → (is_node_group_scaling_up name csr ≡ false)
              × (is_node_group_at_target_size name csr ≡ false))
  unfolding is_node_group_scaling_up is_node_group_at_target_size
  is_node_group_scaling_up_lem name csr = elim (Option-cases (lookup name csr.acceptable_ranges)) [
    | inl none_found ↦ ground arith
    | inr (range, found) ↦ ground arith
  ]
