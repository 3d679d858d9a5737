-- ===== src/Tests/Status.antt =====
-- The status map and the building of an autorepair at concrete inputs.
use auto_repair.Common.{true, none, some, [], ◌∷◌}
use auto_repair.Kube.{ConfigMap}
use auto_repair.Env.{Env, has_map}
use auto_repair.Calls.{Ensures, Ends}
use auto_repair.StatusMap.{write_status_config_map, status_message}
use auto_repair.StatusMap.Laws.{HasData, Writes, write_status_config_map-Writes}
use auto_repair.Builder.{AutorepairingOptions, new_autorepair}
use auto_repair.Builder.Laws.{IsBuilt, new_autorepair-IsBuilt}
use auto_repair.Tests.World.{world}

abbrev shown : ConfigMap
shown = record {
  namespace = "kube-system";
  name = "status";
  annotations = none;
  data_map = some (("status", "old") ∷ ("owner", "me") ∷ []);
}

-- The server has a status map.
abbrev with_map : Env
with_map = record world { map_of = λ t namespace name. has_map shown }

write_status_config_map-Writes_example :
    Ensures
      (write_status_config_map with_map "kube-system" "fine"
        (some (record { status_object = none; active = true }))
        "status"
        [])
      (Writes with_map "now"
        (status_message "now" "fine")
        (some (record { status_object = none; active = true }))
        (has_map shown))
write_status_config_map-Writes_example =
    write_status_config_map-Writes with_map "kube-system" "fine"
      (some (record { status_object = none; active = true })) "status" []

with_map-HasData : HasData with_map
with_map-HasData t namespace name m e = λ missing. cc

abbrev options : AutorepairingOptions
options = record {
  write_status_config_map = true;
  config_namespace = "kube-system";
  status_config_map_name = "status";
}

new_autorepair-IsBuilt_example : Ends (new_autorepair with_map options []) (IsBuilt options [])
new_autorepair-IsBuilt_example = new_autorepair-IsBuilt with_map options [] with_map-HasData
