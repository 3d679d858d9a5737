-- ===== src/Vm/Laws.antt =====
-- What a reboot that reports success has done to the virtual machine.
use auto_repair.Common.{String, true, none, ◌∷◌, ◌≡◌, ◌⊎◌, arith, eq_iff}
use auto_repair.Env.{Env, Trace, power_on, wait_task, find_vm, find_vapp, find_org, find_vdc}
use auto_repair.Calls.{Ends}
use auto_repair.Vm.{reboot_vm, get_vm_from_name, get_vapp_name_from_vm_name}

-- The run ends in a power-on request for the machine that was accepted and whose task succeeded.
abbrev pub EndsStarted : Env → String → Trace → Type 0
EndsStarted env vm (wait_task w ∷ power_on p ∷ v) =
    (w ≡ vm)
    × (p ≡ vm)
    × (env.accepts_power_on v vm ≡ true)
    × (env.task_succeeds (power_on vm ∷ v) vm ≡ true)
EndsStarted env vm _ = ⊥

-- The calls with which the machine is looked up, newest first.
abbrev pub lookups : String → String → String → Trace → Trace
lookups org vdc vm t =
    find_vm vm ∷ find_vapp (get_vapp_name_from_vm_name vm) ∷ find_vdc vdc ∷ find_org org ∷ t

-- A reboot always returns. If it reports no error, the organization, the data center, the vApp and
-- the machine were found, the machine was on or off, and the run has ended in its successful start.
pub reboot_vm_lem :
    (env : Env) (org vdc vm : String) (t : Trace)
    → Ends (reboot_vm env org vdc vm t) (λ e u.
      e ≡ none
      → (env.has_org t org ≡ true)
        × (env.has_vdc (find_org org ∷ t) vdc ≡ true)
        × (env.has_vapp (find_vdc vdc ∷ find_org org ∷ t) (get_vapp_name_from_vm_name vm) ≡ true)
        × (env.has_vm
              (find_vapp (get_vapp_name_from_vm_name vm) ∷ find_vdc vdc ∷ find_org org ∷ t)
              vm
            ≡ true)
        × ((env.vm_status (lookups org vdc vm t) vm ≡ "POWERED_ON")
            ⊎ (env.vm_status (lookups org vdc vm t) vm ≡ "POWERED_OFF"))
        × EndsStarted env vm u)
unfolding reboot_vm get_vm_from_name
reboot_vm_lem env org vdc vm t = ground (
  arith,
  eq_iff (env.vm_status (lookups org vdc vm t) vm) "POWERED_ON",
  eq_iff (env.vm_status (lookups org vdc vm t) vm) "POWERED_OFF",
)
