-- ===== src/Settings.antt =====
-- vcd/FetchUserInformation.go, vcd/FetchVcdInformation.go, vcd/FindAutoScalerSize.go and the
-- getters of core/utils/utils.go: what the program reads from secrets and config maps.
pub mod Laws
pub mod Maps
pub mod Copies
pub mod Unordered
use Prim.Native.Char.{code}
use auto_repair.Common.{
  ℕ, ◌+◌, ◌-◌, ◌*◌, String, ◌<>◌, Bool, true, false, ◌&&◌, ◌||◌, Option, none, some, List, [], ◌∷◌,
  if◌then◌else◌, ◌==◌, ltb, leb, str_eq,
}
use auto_repair.Common.Int.{ℤ, pos, negsuc}
use auto_repair.Env.{
  Env, Io, pure, crash, ask, ◌>>=◌, ◌>>◌, get_secret, get_config_map, fatal, VcdConfig,
}

-- The loop over a map that keeps the value of one key.
unfoldable pub scan : String → List (String × String) → String → String
scan key [] found = found
scan key ((k, v) ∷ m) found = scan key m (if str_eq k key then v else found)

-- data[key], the empty text where the key is missing
unfoldable pub index : String → List (String × String) → String
index key [] = ""
index key ((k, v) ∷ m) = if str_eq k key then v else index key m

-- An error of the API server ends the process.
abbrev data_or_exit : Option (List (String × String)) → Io (List (String × String))
data_or_exit none = crash fatal
data_or_exit (some m) = pure m

abbrev pub secret_data : Env → String → Io (List (String × String))
secret_data env name = do reply ← ask (get_secret name) (λ t. env.secret t name); data_or_exit reply

abbrev pub config_data : Env → String → Io (List (String × String))
config_data env name = do
  reply ← ask (get_config_map name) (λ t. env.config_map t name)
  data_or_exit reply

abbrev secret_value : String → String → Env → Io String
secret_value name key env = do m ← secret_data env name; pure (scan key m "")

unfoldable pub get_user_name : Env → Io String
unfolding scan
get_user_name = secret_value "csi-fptcloud-basic-auth" "username"

unfoldable pub get_password : Env → Io String
unfolding scan
get_password = secret_value "csi-fptcloud-basic-auth" "password"

unfoldable pub get_access_token : Env → Io String
unfolding scan
get_access_token = secret_value "fke-secret" "access_token"

unfoldable pub get_vpc_id : Env → Io String
unfolding scan
get_vpc_id = secret_value "fke-secret" "vpc_id"

unfoldable pub get_cluster_id : Env → Io String
unfolding scan
get_cluster_id = secret_value "fke-secret" "cluster_id"

unfoldable pub get_call_back_url : Env → Io String
unfolding scan
get_call_back_url env = do
  m ← config_data env "autoscaling-configmap"
  pure (scan "callback_url" m "")

-- `getHostOrgVDCFromConfigMap` of the text in the config map
unfoldable pub get_vcd_config : Env → Io VcdConfig
unfolding index
get_vcd_config env = do
  m ← config_data env "fptcloud-csi-configmap"
  pure (env.parse_yaml (index "vcloud-csi-config.yaml" m))

unfoldable pub get_vdc : Env → Io String
unfolding get_vcd_config
get_vdc env = do config ← get_vcd_config env; pure config.vdc

unfoldable pub get_org : Env → Io String
unfolding get_vcd_config
get_org env = do config ← get_vcd_config env; pure config.org

unfoldable pub get_host : Env → Io String
unfolding get_vcd_config
get_host env = do config ← get_vcd_config env; pure config.host

-- strconv.ParseUint in base 10
pub data Parsed : Type 0 where
  number : ℕ → Parsed
  bad_syntax too_large : Parsed

abbrev is_digit : ℕ → Bool
is_digit c = leb b'0' c && leb c b'9'

unfoldable pub parse_uint_loop : String → ℕ → Parsed
parse_uint_loop String.[] n = number n
parse_uint_loop (String.◌∷◌ c s) n =
    let rest = parse_uint_loop s (n * 10 + (code c - b'0')) in
    if is_digit (code c)
    then if leb 1_844_674_407_370_955_162 n
        || ltb 18_446_744_073_709_551_615 (n * 10 + (code c - b'0'))
      then too_large
      else rest
    else bad_syntax

unfoldable pub parse_uint : String → Parsed
unfolding parse_uint_loop
parse_uint String.[] = bad_syntax
parse_uint (String.◌∷◌ c s) = parse_uint_loop (String.◌∷◌ c s) 0

-- The range checks of strconv.ParseInt: the value that is returned, and whether the error is nil.
abbrev pub positive : Parsed → ℤ × Bool
positive bad_syntax = (pos 0, false)
positive too_large = (pos 9_223_372_036_854_775_807, false)
positive (number n) =
    if leb 9_223_372_036_854_775_808 n
    then (pos 9_223_372_036_854_775_807, false)
    else (pos n, true)

abbrev pub minus : ℕ → ℤ
minus n = if n == 0 then pos 0 else negsuc (n - 1)

abbrev pub negative : Parsed → ℤ × Bool
negative bad_syntax = (pos 0, false)
negative too_large = (negsuc 9_223_372_036_854_775_807, false)
negative (number n) =
    if ltb 9_223_372_036_854_775_808 n
    then (negsuc 9_223_372_036_854_775_807, false)
    else (minus n, true)

-- strconv.Atoi where int has 64 bits
unfoldable pub atoi : String → ℤ × Bool
unfolding parse_uint
atoi String.[] = (pos 0, false)
atoi (String.◌∷◌ c s) =
    if code c == b'-'
    then negative (parse_uint s)
    else if code c == b'+'
    then positive (parse_uint s)
    else positive (parse_uint (String.◌∷◌ c s))

-- The error of strconv.Atoi is dropped.
abbrev size_of : String → Env → Io ℤ
size_of key env = do m ← config_data env "autoscaling-configmap"; pure (atoi (index key m)).0

unfoldable pub get_max_size : Env → Io ℤ
unfolding index atoi
get_max_size = size_of "max_node_group_size"

unfoldable pub get_min_size : Env → Io ℤ
unfolding index atoi
get_min_size = size_of "min_node_group_size"

-- The getters of core/utils/utils.go and utils.go: a text that is no number ends the process.
unfoldable pub size_loop : String → List (String × String) → ℤ → Io ℤ
unfolding atoi
size_loop key [] size = pure size
size_loop key ((k, v) ∷ m) size =
    let (value, ok) = atoi v in
    let stop : Io ℤ = crash fatal in
    let kept : Io ℤ = size_loop key m (if str_eq k key then value else size) in
    if str_eq k key && (if ok then false else true) then stop else kept

unfoldable pub get_max_size_node_group : Env → Io ℤ
unfolding size_loop
get_max_size_node_group env = do
  m ← config_data env "autoscaling-configmap"
  size_loop "max_node_group_size" m (pos 0)

unfoldable pub get_min_size_node_group : Env → Io ℤ
unfolding size_loop
get_min_size_node_group env = do
  m ← config_data env "autoscaling-configmap"
  size_loop "min_node_group_size" m (pos 0)
