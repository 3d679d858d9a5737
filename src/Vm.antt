-- ===== src/Vm.antt =====
-- vcd/CreateClient.go, vcd/CreateVmwareObject.go and vcd/manipulation: the virtual machine behind a
-- node, and how it is rebooted. An error is its text, nil is none.
pub mod Laws
use auto_repair.Common.{
  String, ◌<>◌, Bool, true, false, Option, none, some, not, str_eq, first_part,
}
use auto_repair.Env.{
  Env, Io, pure, ask, ◌>>=◌, ◌>>◌, test◌then◌else◌, Config, authenticate, find_org, find_vdc,
  find_vapp, find_vm, read_vm_status, power_off, power_on, wait_task,
}

-- `NewClient`, after its URL has been parsed.
abbrev authenticated : Env → Config → Io (Option String)
authenticated env c = do
  e ← ask (authenticate c) (λ t. env.auth_error t c)
  pure (elim e [ none ↦ none | some m ↦ some ("unable to authenticate: " <> m) ])

abbrev client_of : Env → Config → Option String → Io (Option String)
client_of env c none = authenticated env c
client_of env c (some m) = pure (some ("unable to pass url: " <> m))

-- The error of `NewClient`.
unfoldable pub new_client : Env → Config → Io (Option String)
new_client env c = client_of env c (env.uri_error c.href)

-- strings.Split(vmName, "-worker")[0]
unfoldable pub get_vapp_name_from_vm_name : String → String
unfolding first_part
get_vapp_name_from_vm_name vm_name = first_part vm_name "-worker"

-- The error of `GetVMFromName`.
unfoldable pub get_vm_from_name : Env → String → String → String → String → Io (Option String)
get_vm_from_name env org vdc vapp vm = do
  a ← ask (find_org org) (λ t. env.has_org t org)
  test not a then pure (some "error get org") else do
    b ← ask (find_vdc vdc) (λ t. env.has_vdc t vdc)
    test not b then pure (some "error get vdc") else do
      c ← ask (find_vapp vapp) (λ t. env.has_vapp t vapp)
      test not c then pure (some "error get vapp") else do
        d ← ask (find_vm vm) (λ t. env.has_vm t vm)
        test not d then pure (some "error get vm") else pure none

-- vm.PowerOn and its task
abbrev start_vm : Env → String → Io (Option String)
start_vm env vm = do
  on ← ask (power_on vm) (λ t. env.accepts_power_on t vm)
  test not on then pure (some "error powerOn vm") else do
    ended ← ask (wait_task vm) (λ t. env.task_succeeds t vm)
    test not ended then pure (some "error powerOff vm") else pure none

abbrev pub restart_vm : Env → String → Io (Option String)
restart_vm env vm = do
  off ← ask (power_off vm) (λ t. env.accepts_power_off t vm)
  test not off then pure (some "error powerOff vm") else do
    ended ← ask (wait_task vm) (λ t. env.task_succeeds t vm)
    test not ended then pure (some "error powerOff vm") else start_vm env vm

abbrev reboot_found : Env → String → Option String → Io (Option String)
reboot_found env vm (some e) = pure (some "error retrieving vm")
reboot_found env vm none = do
  status ← ask (read_vm_status vm) (λ t. env.vm_status t vm)
  test str_eq status "POWERED_ON"
      then restart_vm env vm
      else test str_eq status "POWERED_OFF"
      then start_vm env vm
      else pure (some "unknown status of vm")

unfoldable pub reboot_vm : Env → String → String → String → Io (Option String)
unfolding get_vm_from_name get_vapp_name_from_vm_name
reboot_vm env org vdc vm = do
  e ← get_vm_from_name env org vdc (get_vapp_name_from_vm_name vm) vm
  reboot_found env vm e
