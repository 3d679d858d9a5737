-- ===== src/NodeGroups.antt =====
-- utils/nodegroupset/compare_nodegroups.go: whether the resources of two nodes are about the same.
use auto_repair.Common.{String, Bool, true, false, not, ◌&&◌, List, [], ◌∷◌}
use auto_repair.Common.Int.{ℤ}

-- All that the comparison does with a float64: the conversion of an int64, `math.Max` and `math.Min`,
-- `-`, `*` and `>`.
pub record Float {ℓ} (W : Type ℓ) : Type ℓ where
  pub of_int : ℤ → W
  pub max : W → W → W
  pub min : W → W → W
  pub sub : W → W → W
  pub mul : W → W → W
  pub gt : W → W → Bool

module _ {W : Type 0} ⦃f : Float W⦄ where
  -- Two quantities, by their MilliValue().
  unfoldable pub too_different : W → ℤ → ℤ → Bool
  too_different max_difference_ratio a b =
      let larger = f.max (f.of_int a) (f.of_int b) in
      let smaller = f.min (f.of_int a) (f.of_int b) in
      f.gt (f.sub larger smaller) (f.mul larger max_difference_ratio)

  unfoldable pub are_similar : W → List ℤ → Bool
  unfolding too_different
  are_similar ratio (a ∷ b ∷ []) = not (too_different ratio a b)
  are_similar ratio _ = false

  -- The loop returns at the first resource that differs; the order in which the map is walked does not
  -- matter.
  unfoldable pub compare_resource_maps_with_tolerance : List (String × List ℤ) → W → Bool
  unfolding are_similar
  compare_resource_maps_with_tolerance [] ratio = true
  compare_resource_maps_with_tolerance ((name, quantities) ∷ resources) ratio =
      are_similar ratio quantities && compare_resource_maps_with_tolerance resources ratio
