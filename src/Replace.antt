-- ===== src/Replace.antt =====
-- Controller.go: `replaceNode`, which replaces a node by the sizes of the auto scaler, and
-- `createGoVCloudClient`. An error is its text, nil is none.
use auto_repair.Common.{
  ℕ, ◌*◌, String, ◌<>◌, Bool, ◌&&◌, Option, none, some, List, if◌then◌else◌, not, length,
}
use auto_repair.Common.Int.{ℤ, pos, leb_ℤ, ltb_ℤ}
use auto_repair.Kube.{Node}
use auto_repair.Env.{
  Env, Io, pure, ask, tell, ◌>>=◌, ◌>>◌, test◌then◌else◌, sleep, second, lister_list, list_nodes,
}
use auto_repair.Errors.{AutorepairError}
use auto_repair.Portal.{Access, target_of}
use auto_repair.Main.{get_id_cluster, get_cluster_id}
use auto_repair.Settings.{
  get_user_name, get_password, get_host, get_org, get_vdc, get_access_token, get_vpc_id,
  get_call_back_url, get_max_size, get_min_size,
}
use auto_repair.Vm.{new_client}
use auto_repair.Scaler.{scale_up, scale_down, check_worker_node_can_be_scale_down}

-- `createGoVCloudClient`: the error, and the organization and the data center.
unfoldable pub create_go_vcloud_client : Env → Io (Option String × String × String)
create_go_vcloud_client env = do
  user ← get_user_name env
  password ← get_password env
  host ← get_host env
  org ← get_org env
  vdc ← get_vdc env
  e ←
      new_client env
        (record { user = user; password = password; org = org; href = host <> "/api"; vdc = vdc })
  pure (e, org, vdc)

-- The error that `replaceNode` passes on.
abbrev pub error_text : Option AutorepairError → Option String
error_text none = none
error_text (some e) = some e.msg

-- Run the next step unless there is an error.
abbrev pub unless_error : Option AutorepairError → Io (Option String) → Io (Option String)
unless_error none next = next
unless_error (some e) next = pure (some e.msg)

-- The branch below the upper limit of the auto scaler.
unfoldable pub create_then_remove : Env → ℕ → Access → String → Io (Option String)
create_then_remove env fuel a worker = do
  up ← scale_up env fuel a 1
  unless_error up.1
      (do tell (sleep (10 * second)); down ← scale_down env fuel a worker; pure (error_text down.1))

-- The branch at the upper limit.
unfoldable pub remove_then_create : Env → ℕ → Access → String → Io (Option String)
remove_then_create env fuel a worker = do
  down ← scale_down env fuel a worker
  unless_error down.1
      (do tell (sleep (10 * second)); up ← scale_up env fuel a 1; pure (error_text up.1))

abbrev pub no_action : String
no_action = "auto scaler should not perform any action"

-- The if statements of `replaceNode`.
unfoldable pub choose : Env → ℕ → Access → String → Bool → ℤ → ℤ → ℤ → Io (Option String)
unfolding create_then_remove remove_then_create
choose env fuel a worker removable current_size min_size max_size =
    test not removable
    then pure (some "auto repairer can not delete node")
    else test leb_ℤ min_size current_size && ltb_ℤ current_size max_size
    then create_then_remove env fuel a worker
    else test leb_ℤ max_size current_size
    then remove_then_create env fuel a worker
    else pure (some no_action)

-- `replaceNode`, after the nodes have been listed. The access to the portal is complete once the
-- cluster's id has been asked for.
abbrev pub replace_listed : Env → ℕ → Node → Io (Option String)
replace_listed env fuel node = do
  access_token ← get_access_token env
  vpc_id ← get_vpc_id env
  callback_url ← get_call_back_url env
  cluster_id_portal ← get_cluster_id env
  let a : Access = record {
    access_token = access_token;
    vpc_id = vpc_id;
    id_cluster = "";
    cluster_id_portal = cluster_id_portal;
    callback_url = callback_url;
  }
  id_cluster ← get_id_cluster env (target_of a)
  let b : Access = record a { id_cluster = id_cluster }
  max_size ← get_max_size env
  min_size ← get_min_size env
  cached ← ask lister_list env.cached_nodes
  let current_size = pos (length cached)
  removable ← check_worker_node_can_be_scale_down env node.name
  choose env fuel b node.name removable current_size min_size max_size

abbrev pub if_listed : Option (List Node) → Io (Option String) → Io (Option String)
if_listed none next = pure (some no_action)
if_listed (some nodes) next = next

unfoldable pub replace_node : Env → ℕ → Node → Io (Option String)
unfolding choose
replace_node env fuel node = do
  nodes ← ask list_nodes env.nodes
  if_listed nodes (replace_listed env fuel node)
