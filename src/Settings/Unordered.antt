-- ===== src/Settings/Unordered.antt =====
-- A map of Go as a quotient that forgets the order of its entries: what the program reads from
-- secrets and config maps is a function of it.
use mathlib.Core.HLevel.{Discrete, hedberg}
use mathlib.Core.Quot
use mathlib.Core.Quot.{Quot}
use mathlib.Core.Path.{subst}
use auto_repair.Common.{
  Bool-cases, inl, inr, String, true, false, Option, none, some, List, [], ◌∷◌, ◌≡◌, ◌≢◌, ◌∙◌, refl,
  sym, ap, arith, All, eq_iff, str_eq, lookup,
}
use auto_repair.Common.Int.{ℤ, pos}
use auto_repair.Env.{Env, Trace, Io, done, crash, pure, fatal, ◌>>=◌, get_secret, get_config_map}
use auto_repair.Settings.{
  data_or_exit, scan, index, size_loop, atoi, get_user_name, get_password, get_access_token,
  get_vpc_id, get_cluster_id, get_call_back_url, get_max_size, get_min_size,
  get_max_size_node_group, get_min_size_node_group,
}
use auto_repair.Settings.Maps.{IsMap}

-- A way to walk a map, each key once.
abbrev pub Walk : Type 0
Walk = (m : List (String × String)) × IsMap m

abbrev pub SameEntries : Walk → Walk → Type 0
SameEntries a b = (key : String) → lookup key a.0 ≡ lookup key b.0

abbrev pub GoMap : Type 0
GoMap = Quot SameEntries

String-discrete : Discrete String
String-discrete a b = elim (Bool-cases (str_eq a b)) [
  | inl e ↦ yes ((eq_iff a b).0 e)
  | inr e ↦ no (λ same. ground (arith, eq_iff a b))
]

String_set : IsSet String
String_set = hedberg String-discrete

-- The value of a key is a function of the map.
value_at : String → GoMap → Option String
value_at key = Quot.lift (hlevel (String_set)) (λ (a : Walk). lookup key a.0) (λ a b h. h key)

same_value :
    (a b : Walk) (key : String)
    → ◌≡◌ {A = GoMap} (Quot.mk a) (Quot.mk b)
    → lookup key a.0 ≡ lookup key b.0
unfolding value_at
same_value a b key h = ap (value_at key) h

abbrev or_found : Option String → String → String
or_found none found = found
or_found (some v) found = v

lookup_absent :
    (key : String) (m : List (String × String))
    → All (λ (e : String × String). e.0 ≢ key) m
    → lookup key m ≡ none
unfolding lookup
lookup_absent key [] h = refl
lookup_absent key ((k, v) ∷ m) h = ground (arith, eq_iff k key, lookup_absent key m)

-- In a walk the rest does not have the key of the first entry.
absent_later :
    (k key : String) (m : List (String × String))
    → All (λ (e : String × String). e.0 ≢ k) m
    → k ≡ key
    → lookup key m ≡ none
absent_later k key m h same =
    lookup_absent key m (subst (λ j. All (λ (e : String × String). e.0 ≢ j) m) same h)

scan-lookup :
    (key : String) (m : List (String × String)) (found : String)
    → IsMap m
    → scan key m found ≡ or_found (lookup key m) found
unfolding scan lookup
scan-lookup key [] found h = refl
scan-lookup key ((k, v) ∷ m) found h = ground (
  arith,
  eq_iff k key,
  absent_later k key m h.0,
  scan-lookup key m v h.1,
  scan-lookup key m found h.1,
)

index-lookup :
    (key : String) (m : List (String × String)) → index key m ≡ or_found (lookup key m) ""
unfolding index lookup
index-lookup key [] = refl
index-lookup key ((k, v) ∷ m) = ground (arith, index-lookup key m)

abbrev size_of_entry : Option String → ℤ → Io ℤ
size_of_entry none size = pure size
size_of_entry (some v) size = elim (atoi v).1 [ true ↦ pure (atoi v).0 | false ↦ crash fatal ]

size_loop-lookup :
    (key : String) (m : List (String × String)) (size : ℤ) (t : Trace)
    → IsMap m
    → size_loop key m size t ≡ size_of_entry (lookup key m) size t
unfolding size_loop lookup
size_loop-lookup key [] size t h = refl
size_loop-lookup key ((k, v) ∷ m) size t h = ground (
  arith,
  eq_iff k key,
  absent_later k key m h.0,
  size_loop-lookup key m (atoi v).0 t h.1,
  size_loop-lookup key m size t h.1,
)

-- Both replies are the same error, or the same map, each walked in an order of its own.
abbrev pub SameMap : Option (List (String × String)) → Option (List (String × String)) → Type 0
SameMap none none = Unit
SameMap none (some m) = ⊥
SameMap (some m) none = ⊥
SameMap (some m) (some m') =
    (h : IsMap m) × (h' : IsMap m') × ◌≡◌ {A = GoMap} (Quot.mk (m, h)) (Quot.mk (m', h'))

-- A getter that depends on the value of a key alone does the same in both.
module _ {A : Type 0} (key : String) (next : List (String × String) → Io A)
    (by_value : Option String → Io A)
    (known : (m : List (String × String)) (t : Trace)
      → IsMap m
      → next m t ≡ by_value (lookup key m) t) where
  read_same :
      (r r' : Option (List (String × String))) (t : Trace)
      → SameMap r r'
      → (data_or_exit r >>= next) t ≡ (data_or_exit r' >>= next) t
  read_same none none t h = refl
  read_same none (some m) t h = absurd h
  read_same (some m) none t h = absurd h
  read_same (some m) (some m') t (h, h', same) =
      known m t h
      ∙ ap (λ (o : Option String). by_value o t) (same_value (m, h) (m', h') key same)
      ∙ sym (known m' t h')

text_same :
    (key : String) (r r' : Option (List (String × String))) (t : Trace)
    → SameMap r r'
    → (data_or_exit r >>= λ m. pure (scan key m "")) t
      ≡ (data_or_exit r' >>= λ m. pure (scan key m "")) t
text_same key =
    read_same key (λ m. pure (scan key m "")) (λ o. pure (or_found o ""))
      λ m t h. ap (λ (v : String). done v t) (scan-lookup key m "" h)

number_same :
    (key : String) (r r' : Option (List (String × String))) (t : Trace)
    → SameMap r r'
    → (data_or_exit r >>= λ m. pure (atoi (index key m)).0) t
      ≡ (data_or_exit r' >>= λ m. pure (atoi (index key m)).0) t
number_same key =
    read_same key (λ m. pure (atoi (index key m)).0) (λ o. pure (atoi (or_found o "")).0)
      λ m t h. ap (λ (v : String). done (atoi v).0 t) (index-lookup key m)

size_same :
    (key : String) (r r' : Option (List (String × String))) (t : Trace)
    → SameMap r r'
    → (data_or_exit r >>= λ m. size_loop key m (pos 0)) t
      ≡ (data_or_exit r' >>= λ m. size_loop key m (pos 0)) t
size_same key =
    read_same key (λ m. size_loop key m (pos 0)) (λ o. size_of_entry o (pos 0))
      λ m t h. size_loop-lookup key m (pos 0) t h

-- If two worlds answer with the same secret and the same config map, or with an error both, but may
-- walk their entries in different orders, then each getter does the same in both: it returns the same
-- value, or ends the process in the same way.
pub getters_unordered :
    (env env' : Env) (t : Trace)
    → ((name : String) → SameMap (env.secret t name) (env'.secret t name))
    → ((name : String) → SameMap (env.config_map t name) (env'.config_map t name))
    → (get_user_name env t ≡ get_user_name env' t)
      × (get_password env t ≡ get_password env' t)
      × (get_access_token env t ≡ get_access_token env' t)
      × (get_vpc_id env t ≡ get_vpc_id env' t)
      × (get_cluster_id env t ≡ get_cluster_id env' t)
      × (get_call_back_url env t ≡ get_call_back_url env' t)
      × (get_max_size env t ≡ get_max_size env' t)
      × (get_min_size env t ≡ get_min_size env' t)
      × (get_max_size_node_group env t ≡ get_max_size_node_group env' t)
      × (get_min_size_node_group env t ≡ get_min_size_node_group env' t)
unfolding get_user_name get_password get_access_token get_vpc_id get_cluster_id get_call_back_url
    get_max_size get_min_size get_max_size_node_group get_min_size_node_group
getters_unordered env env' t secrets configs = (
  text_same "username" _ _ (get_secret "csi-fptcloud-basic-auth" ∷ t)
      (secrets "csi-fptcloud-basic-auth"),
  text_same "password" _ _ (get_secret "csi-fptcloud-basic-auth" ∷ t)
      (secrets "csi-fptcloud-basic-auth"),
  text_same "access_token" _ _ (get_secret "fke-secret" ∷ t) (secrets "fke-secret"),
  text_same "vpc_id" _ _ (get_secret "fke-secret" ∷ t) (secrets "fke-secret"),
  text_same "cluster_id" _ _ (get_secret "fke-secret" ∷ t) (secrets "fke-secret"),
  text_same "callback_url" _ _ (get_config_map "autoscaling-configmap" ∷ t)
      (configs "autoscaling-configmap"),
  number_same "max_node_group_size" _ _ (get_config_map "autoscaling-configmap" ∷ t)
      (configs "autoscaling-configmap"),
  number_same "min_node_group_size" _ _ (get_config_map "autoscaling-configmap" ∷ t)
      (configs "autoscaling-configmap"),
  size_same "max_node_group_size" _ _ (get_config_map "autoscaling-configmap" ∷ t)
      (configs "autoscaling-configmap"),
  size_same "min_node_group_size" _ _ (get_config_map "autoscaling-configmap" ∷ t)
      (configs "autoscaling-configmap"),
)
