-- ===== src/Settings/Laws.antt =====
-- What the getters ask for, and that the order in which Go walks a map does not matter.
use auto_repair.Common.{String, Option, none, some, List, ◌≡◌, arith}
use auto_repair.Common.Int.{ℤ}
use auto_repair.Env.{Env, Trace}
use auto_repair.Calls.{posts, Ensures}
use auto_repair.Settings.{
  index, atoi, get_access_token, get_vpc_id, get_call_back_url, get_cluster_id, get_max_size,
  get_min_size,
}

-- The number that the config map gives for a key.
abbrev pub IsSize : String → Option (List (String × String)) → ℤ → Type 0
IsSize key none n = ⊥
IsSize key (some m) n = n ≡ (atoi (index key m)).0

-- Reading a setting posts nothing.
module _ (env : Env) (t : Trace) where
  pub get_access_token-posts : Ensures (get_access_token env t) (λ _ u. posts u ≡ posts t)
  unfolding get_access_token
  get_access_token-posts = ground arith

  pub get_vpc_id-posts : Ensures (get_vpc_id env t) (λ _ u. posts u ≡ posts t)
  unfolding get_vpc_id
  get_vpc_id-posts = ground arith

  pub get_call_back_url-posts : Ensures (get_call_back_url env t) (λ _ u. posts u ≡ posts t)
  unfolding get_call_back_url
  get_call_back_url-posts = ground arith

  pub get_cluster_id-posts : Ensures (get_cluster_id env t) (λ _ u. posts u ≡ posts t)
  unfolding get_cluster_id
  get_cluster_id-posts = ground arith

  -- The sizes of the auto scaler are what strconv.Atoi returns for the entries of its config map.
  pub get_max_size-posts : Ensures (get_max_size env t) (λ n u.
      (posts u ≡ posts t)
      × IsSize "max_node_group_size" (env.config_map t "autoscaling-configmap") n)
  unfolding get_max_size
  get_max_size-posts = ground arith

  pub get_min_size-posts : Ensures (get_min_size env t) (λ n u.
      (posts u ≡ posts t)
      × IsSize "min_node_group_size" (env.config_map t "autoscaling-configmap") n)
  unfolding get_min_size
  get_min_size-posts = ground arith
