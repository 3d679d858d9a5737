-- ===== src/Lib.antt =====
-- A controller that repairs the nodes of a Kubernetes cluster: it watches the nodes, reboots the
-- virtual machine of a node that is not ready for five minutes, and replaces the node through the
-- cloud portal where three reboots do not help.
--
-- How the parts interact. The informer calls the controller's update handler for each change of a
-- node; the handler puts a late node into the work queue and remembers its name in a map, so that it
-- is not queued again. The worker takes nodes from the queue. It reboots a node through vCloud
-- Director, waits for it to be ready in the informer's cache, and after three reboots replaces it:
-- by the sizes of the auto scaler it scales the cluster up and then down or the other way round.
-- Scaling is a request to the portal's HTTP API and a loop that polls the cluster's status.
--
--   Kube.antt        the objects of the Kubernetes API, with the fields that are read
--   Env.antt         the outside world, and the monad in which the program calls it
--   Calls.antt       what a trace of calls shows, and the rules for sequences of calls
--   Errors.antt      utils/errors/errors.go
--   Portal.antt      core/utils/utils.go: GetIDCluster, CheckStatusCluster, CheckErrorStatusCluster,
--                    PerformScaleUp, PerformScaleDown
--   Settings.antt    vcd/FetchUserInformation.go, vcd/FetchVcdInformation.go,
--                    vcd/FindAutoScalerSize.go, and the getters of core/utils/utils.go
--   Vm.antt          vcd/CreateClient.go, vcd/CreateVmwareObject.go, vcd/manipulation
--   Scaler.antt      scaler/ScaleUp.go, ScaleDown and its check of scaler/ScaleDown.go
--   NodeChecks.antt  Controller.go: isNodeNotReadyForTooLong, checkNodeReadyStatusAfterRepairing,
--                    checkAllNodesReadyStatus
--   Replace.antt     Controller.go: createGoVCloudClient and replaceNode
--   Controller.antt  the rest of Controller.go
--   Readiness.antt   utils/kubernetes/ready.go, and the node listers of utils/kubernetes/listers.go
--   Core.antt        core/util.go, and RunOnce of core/static_autorepair.go
--   Tracker.antt     NodeDeletionTracker of scaler/ScaleDown.go
--   LogCollector.antt  clusterstate/utils/logging.go
--   Status.antt      clusterstate/api/types.go, and the conditions of clusterstate/clusterstate.go
--   Registry.antt    the registry of clusterstate/clusterstate.go
--   StatusMap.antt   clusterstate/utils/status.go
--   Eviction.antt    scaler/ScaleDown.go: evictPod, waitForDelayDeletion, cordonWorkerNodeAndDeletePod
--   StatusText.antt  clusterstate/api/utils.go
--   NodeGroups.antt  utils/nodegroupset/compare_nodegroups.go
--   Listers.antt     the rest of utils/kubernetes/listers.go
--   WorkQueue.antt   utils.go: showWorkQueue
--   Start.antt       main.go
--   Skipping.antt    scaler/ScaleUp.go: skippedReasons, scaleUpLimitsNotExceeded, scaleUpError
--   EventRecorder.antt  utils/kubernetes/factory.go
--   Processors.antt  processors/processors.go, and the statuses of processors/status
--   NodeUtils.antt   the helpers on nodes and pods of utils.go and core/utils/utils.go
--   Main.antt        utils.go, as far as it is the same code as core/utils/utils.go
--   Core/Scaling.antt, Core/Copies.antt  core/scale_up.go and core/scale_down.go
--   Builder.antt     core/autorepair.go, core/autorepair_builder.go, core/dynamic_autorepair.go,
--                    NewStaticAutorepair and context/autorepair_context.go
--
-- Core is a second way to repair, which no part of the controller calls: RunOnce looks at the nodes
-- that are not ready twice, and replaces those that it saw both times in rounds, scaling up by what
-- the auto scaler has room for and then down, or one by one the other way round.
--
-- The functions keep their names in snake case. A file's child modules hold its theorems, but for
-- Controller/Interleaving, Controller/Schedule, Core/Scaling, Core/Copies and Settings/Copies, which
-- model code too;
-- Tests holds a concrete world, runs in it, and the theorems' use at concrete inputs.
--
-- State. A run is a function of the trace, the list of the calls made so far, newest first. It
-- returns a value and a longer trace, or ends the process (klog.Fatalf, a nil pointer, an index
-- out of range, an assignment to a nil map), or runs out of fuel. What the world answers to a call
-- is a parameter: a function of the trace and of the call's arguments. The controller's map is
-- passed along as a value: Controller/Schedule.antt runs updates and items of the queue one after
-- the other, in any order. Controller/Interleaving.antt has the handler and the worker side by
-- side, as a relation of single steps on the map and the queue; Controller/Simulation.antt and
-- Controller/Schedule/Refinement.antt relate the two views. The handler's lock excludes nobody
-- there: the informer calls the handler for one update at a time, and the worker does not take it.
--
-- Bounds and fuel. The loops of the controller count to 30, 10, 3 and 1, as in the code, and need no
-- fuel. The loops of the scaler wait for the portal without a bound: they run on fuel, one unit for a
-- round, and the portal decides how much is enough. The rounds of AsgRepairNodes call themselves for
-- the nodes that are left: they run on fuel too, and need one unit more than there are nodes as long
-- as each round takes a node away; the loops inside them count to 30 and 6 as in the code. An eviction
-- tries until its deadline: fuel for the pauses that fit before it is enough. Numbers of
-- nodes and sizes are integers; strconv.Atoi is written out with its 64-bit limits. Times are
-- nanoseconds.
--
-- Not modelled: logging; the wait for the cache in the run method, and the start of the informers;
-- the rate of the work queue. A float64 is a parameter: a record of
-- the operations that the code uses. Much of clusterstate, core and processors is reached by no code of the program.
pub mod Common
pub mod Kube
pub mod Env
pub mod Calls
pub mod Errors
pub mod Portal
pub mod Settings
pub mod Vm
pub mod Scaler
pub mod NodeChecks
pub mod Replace
pub mod Controller
pub mod Readiness
pub mod Tracker
pub mod LogCollector
pub mod Core
pub mod Status
pub mod Registry
pub mod StatusMap
pub mod Builder
pub mod Eviction
pub mod NodeUtils
pub mod Main
pub mod StatusText
pub mod NodeGroups
pub mod Listers
pub mod Processors
pub mod WorkQueue
pub mod Start
pub mod Skipping
pub mod EventRecorder
mod Tests
