-- ===== src/Settings/Copies.antt =====
-- core/utils/utils.go: the getters that it has word for word in common with
-- vcd/FetchUserInformation.go.
use auto_repair.Common.{String}
use auto_repair.Env.{Env, Io}
use auto_repair.Settings

abbrev pub get_call_back_url : Env → Io String
get_call_back_url = Settings.get_call_back_url

abbrev pub get_access_token : Env → Io String
get_access_token = Settings.get_access_token

abbrev pub get_vpc_id : Env → Io String
get_vpc_id = Settings.get_vpc_id

abbrev pub get_cluster_id : Env → Io String
get_cluster_id = Settings.get_cluster_id
