-- ===== src/Settings/Maps.antt =====
-- Go walks a map in an order of its own choice. A map is a list here, in whatever order it is walked,
-- and the loops over it read the same value in each.
use mathlib.Core.Path.{subst}
use auto_repair.Common.{
  String, some, List, [], ◌∷◌, ◌≡◌, ◌≢◌, inl, inr, refl, sym, ap, true, arith, All, Any, eq_iff,
}
use auto_repair.Env.{Env, Trace, done, get_secret, get_config_map}
use auto_repair.Common.Int.{ℤ, pos}
use auto_repair.Settings.{
  scan, index, get_access_token, get_vpc_id, get_cluster_id, size_loop, atoi, get_max_size,
  get_max_size_node_group,
}

-- The keys are distinct.
abbrev pub IsMap : List (String × String) → Type 0
IsMap [] = Unit
IsMap ((k, v) ∷ m) = All (λ (e : String × String). e.0 ≢ k) m × IsMap m

abbrev pub HasEntry : List (String × String) → String → String → Type 0
HasEntry m key v = Any (λ (e : String × String). (e.0 ≡ key) × (e.1 ≡ v)) m

scan_absent :
    (key : String) (m : List (String × String)) (found : String)
    → All (λ (e : String × String). e.0 ≢ key) m
    → scan key m found ≡ found
unfolding scan
scan_absent key [] found h = refl
scan_absent key ((k, v) ∷ m) found h = ground (arith, eq_iff k key, scan_absent key m found)

scan_entry :
    (key v : String) (m : List (String × String)) (found : String)
    → IsMap m
    → HasEntry m key v
    → scan key m found ≡ v
unfolding scan
scan_entry key v [] found h g = absurd g
scan_entry key v ((k, w) ∷ m) found h (inl (same, is_v)) =
    let absent : All (λ (e : String × String). e.0 ≢ key) m =
      subst (λ j. All (λ (e : String × String). e.0 ≢ j) m) same h.0 in
    ground (arith, eq_iff k key, scan_absent key m w absent)
scan_entry key v ((k, w) ∷ m) found h (inr later) =
    ground (arith, scan_entry key v m w h.1 later, scan_entry key v m found h.1 later)

entry_absent :
    (key v : String) (m : List (String × String))
    → All (λ (e : String × String). e.0 ≢ key) m
    → ¬ HasEntry m key v
entry_absent key v [] h g = g
entry_absent key v ((k, w) ∷ m) h g = ground (arith, entry_absent key v m)

-- The key of the first entry is not that of a later one.
first_differs :
    (k key v : String) (m : List (String × String))
    → All (λ (e : String × String). e.0 ≢ k) m
    → HasEntry m key v
    → k ≢ key
first_differs k key v m h g same =
    entry_absent key v m (subst (λ j. All (λ (e : String × String). e.0 ≢ j) m) same h) g

index_entry :
    (key v : String) (m : List (String × String)) → IsMap m → HasEntry m key v → index key m ≡ v
unfolding index
index_entry key v [] h g = absurd g
index_entry key v ((k, w) ∷ m) h (inl (same, is_v)) = ground (arith, eq_iff k key)
index_entry key v ((k, w) ∷ m) h (inr later) =
    ground (arith, eq_iff k key, first_differs k key v m h.0 later, index_entry key v m h.1 later)

size_loop_absent :
    (key : String) (m : List (String × String)) (n : ℤ) (t : Trace)
    → All (λ (e : String × String). e.0 ≢ key) m
    → size_loop key m n t ≡ done n t
unfolding size_loop
size_loop_absent key [] n t h = refl
size_loop_absent key ((k, v) ∷ m) n t h = ground (arith, eq_iff k key, size_loop_absent key m n t)

size_loop_entry :
    (key v : String) (m : List (String × String)) (n : ℤ) (t : Trace)
    → IsMap m
    → HasEntry m key v
    → (atoi v).1 ≡ true
    → size_loop key m n t ≡ done (atoi v).0 t
unfolding size_loop
size_loop_entry key v [] n t h g ok = absurd g
size_loop_entry key v ((k, w) ∷ m) n t h (inl (same, is_v)) ok =
    let absent : All (λ (e : String × String). e.0 ≢ key) m =
      subst (λ j. All (λ (e : String × String). e.0 ≢ j) m) same h.0 in
    ground (
      arith,
      eq_iff k key,
      size_loop_absent key m (atoi v).0 t absent,
      subst (λ x. (atoi x).1 ≡ true) (sym is_v) ok,
      ap atoi is_v,
    )
size_loop_entry key v ((k, w) ∷ m) n t h (inr later) ok = ground (
  arith,
  eq_iff k key,
  first_differs k key v m h.0 later,
  size_loop_entry key v m n t h.1 later ok,
)

-- If the config map has an entry for the maximal size and it is the text of a number, then the
-- controller's getter, which drops errors, and that of the node group, which ends the process on
-- them, both return this number, in whatever order the map is walked.
pub max_size_getters_agree :
    (env : Env) (t : Trace) (m : List (String × String)) (v : String)
    → env.config_map t "autoscaling-configmap" ≡ some m
    → IsMap m
    → HasEntry m "max_node_group_size" v
    → (atoi v).1 ≡ true
    → (get_max_size env t ≡ done (atoi v).0 (get_config_map "autoscaling-configmap" ∷ t))
      × (get_max_size_node_group env t
          ≡ done (atoi v).0 (get_config_map "autoscaling-configmap" ∷ t))
unfolding get_max_size get_max_size_node_group
max_size_getters_agree env t m v found is_map entry ok = ground (
  arith,
  ap atoi (index_entry "max_node_group_size" v m is_map entry),
  size_loop_entry "max_node_group_size" v m (pos 0) (get_config_map "autoscaling-configmap" ∷ t)
      is_map entry ok,
)

-- In whatever order the entries of the secret are walked, the token, the VPC and the cluster that the
-- program reads from it are its entries for their keys, and nothing else is asked of the API server.
pub fke_secret_lem :
    (env : Env) (t : Trace) (m : List (String × String)) (token vpc cluster : String)
    → env.secret t "fke-secret" ≡ some m
    → IsMap m
    → HasEntry m "access_token" token
    → HasEntry m "vpc_id" vpc
    → HasEntry m "cluster_id" cluster
    → (get_access_token env t ≡ done token (get_secret "fke-secret" ∷ t))
      × (get_vpc_id env t ≡ done vpc (get_secret "fke-secret" ∷ t))
      × (get_cluster_id env t ≡ done cluster (get_secret "fke-secret" ∷ t))
unfolding get_access_token get_vpc_id get_cluster_id
fke_secret_lem env t m token vpc cluster found is_map a b c = ground (
  arith,
  scan_entry "access_token" token m "" is_map a,
  scan_entry "vpc_id" vpc m "" is_map b,
  scan_entry "cluster_id" cluster m "" is_map c,
)
