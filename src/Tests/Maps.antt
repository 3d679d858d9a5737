-- ===== src/Tests/Maps.antt =====
-- The theorems on the settings at concrete maps.
use auto_repair.Common.{
  String, true, List, [], ◌∷◌, ◌≡◌, ◌≢◌, inl, inr, refl, arith, eq_iff, str_eq, false, some, lookup,
}
use mathlib.Core.Quot
use auto_repair.Env.{Env, done, get_config_map}
use auto_repair.Settings.{
  atoi, get_max_size, get_min_size, get_max_size_node_group, get_min_size_node_group,
  get_access_token, get_vpc_id, get_cluster_id, get_user_name, get_password, get_call_back_url,
}
use auto_repair.Settings.Maps.{IsMap, max_size_getters_agree}
use auto_repair.Settings.Unordered.{SameMap, getters_unordered}
use auto_repair.Tests.World.{world, config}

abbrev secret : List (String × String)
secret = ("cluster_id", "c1") ∷ ("access_token", "t") ∷ ("vpc_id", "v") ∷ []

differ : (a b : String) → str_eq a b ≡ false → ◌≢◌ {A = String} a b
differ a b h = ground (arith, eq_iff a b)

secret-IsMap : IsMap secret
secret-IsMap = (
  (differ "access_token" "cluster_id" refl, (differ "vpc_id" "cluster_id" refl, tt)),
  ((differ "vpc_id" "access_token" refl, tt), (tt, tt)),
)

config-IsMap : IsMap config
config-IsMap = ((differ "max_node_group_size" "min_node_group_size" refl, tt), (tt, tt))

abbrev back_secret : List (String × String)
back_secret = ("vpc_id", "v") ∷ ("access_token", "t") ∷ ("cluster_id", "c1") ∷ []

abbrev back_config : List (String × String)
back_config = ("max_node_group_size", "3") ∷ ("min_node_group_size", "1") ∷ []

back_secret-IsMap : IsMap back_secret
back_secret-IsMap = (
  (differ "access_token" "vpc_id" refl, (differ "cluster_id" "vpc_id" refl, tt)),
  ((differ "cluster_id" "access_token" refl, tt), (tt, tt)),
)

back_config-IsMap : IsMap back_config
back_config-IsMap = ((differ "min_node_group_size" "max_node_group_size" refl, tt), (tt, tt))

-- The same world, where each map is walked from its other end.
abbrev backward : Env
backward = record world {
  secret = λ t name. some back_secret;
  config_map = λ t name. some back_config;
}

same_secret : SameMap (some secret) (some back_secret)
unfolding lookup
same_secret = (
  secret-IsMap,
  back_secret-IsMap,
  Quot.sound (λ key. ground (
    arith,
    eq_iff "cluster_id" key,
    eq_iff "access_token" key,
    eq_iff "vpc_id" key,
    eq_iff "cluster_id" "access_token",
    eq_iff "cluster_id" "vpc_id",
    eq_iff "access_token" "vpc_id",
  )),
)

same_config : SameMap (some config) (some back_config)
unfolding lookup
same_config = (
  config-IsMap,
  back_config-IsMap,
  Quot.sound (λ key. ground (
    arith,
    eq_iff "min_node_group_size" key,
    eq_iff "max_node_group_size" key,
    eq_iff "min_node_group_size" "max_node_group_size",
  )),
)

getters_unordered_example :
    (get_user_name world [] ≡ get_user_name backward [])
    × (get_password world [] ≡ get_password backward [])
    × (get_access_token world [] ≡ get_access_token backward [])
    × (get_vpc_id world [] ≡ get_vpc_id backward [])
    × (get_cluster_id world [] ≡ get_cluster_id backward [])
    × (get_call_back_url world [] ≡ get_call_back_url backward [])
    × (get_max_size world [] ≡ get_max_size backward [])
    × (get_min_size world [] ≡ get_min_size backward [])
    × (get_max_size_node_group world [] ≡ get_max_size_node_group backward [])
    × (get_min_size_node_group world [] ≡ get_min_size_node_group backward [])
getters_unordered_example =
    getters_unordered world backward [] (λ name. same_secret) (λ name. same_config)

three_parses : (atoi "3").1 ≡ true
unfolding atoi
three_parses = refl

max_size_getters_agree_example :
    (get_max_size world [] ≡ done (atoi "3").0 (get_config_map "autoscaling-configmap" ∷ []))
    × (get_max_size_node_group world []
        ≡ done (atoi "3").0 (get_config_map "autoscaling-configmap" ∷ []))
max_size_getters_agree_example =
    max_size_getters_agree world [] config "3" refl config-IsMap (inr (inl (refl, refl)))
      three_parses
