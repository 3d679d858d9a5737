-- ===== src/Eviction.antt =====
-- scaler/ScaleDown.go: the helpers that evict and delete pods and wait for annotations, which
-- `ScaleDown` does not call.
pub mod Laws
pub mod Deleting
use auto_repair.Common.{
  ℕ, zero, suc, ◌*◌, ◌+◌, String, ◌<>◌, Bool, true, false, not, ◌&&◌, ◌||◌, Option, none, some,
  List, [], ◌∷◌, ◌⊎◌, inl, inr, if◌then◌else◌, ◌==◌, ltb, str_eq, has_prefix, lookup,
}
use auto_repair.Common.Int.{ℤ, pos, ltb_ℤ}
use auto_repair.Kube.{Pod, Node, OwnerReference}
use auto_repair.Env.{
  Env, Io, pure, crash, no_fuel, ask, tell, ◌>>=◌, ◌>>◌, test◌then◌else◌, sleep, second, read_clock,
  EvictReply, evicted, no_such_pod, evict_failed, evict, cordon, delete_pod, pod_event, list_pods,
  lister_get, fatal, out_of_range,
}
use auto_repair.Errors.{AutorepairError, plain, api_call_error, to_autoscaler_error}

abbrev pub scale_down_disabled_key : String
scale_down_disabled_key = "cluster-autoscaler.kubernetes.io/scale-down-disabled"

abbrev pub delay_deletion_annotation_prefix : String
delay_deletion_annotation_prefix = "delay-deletion.cluster-autoscaler.kubernetes.io/"

-- `PodEvictionResult` of processors/status/scale_down_status_processor.go
pub record PodEvictionResult : Type 0 where
  pub pod : Pod
  pub timed_out : Bool
  pub err : Option String

-- `WasEvictionSuccessful`
unfoldable pub was_eviction_successful : PodEvictionResult → Bool
was_eviction_successful per = elim per.err [ none ↦ not per.timed_out | some e ↦ false ]

-- The grace period; 30 is `apiv1.DefaultTerminationGracePeriodSeconds`.
unfoldable pub max_termination : Option ℤ → ℤ → ℤ
max_termination none max_graceful_termination_sec = pos 30
max_termination (some s) max_graceful_termination_sec =
    if ltb_ℤ s max_graceful_termination_sec then s else max_graceful_termination_sec

abbrev timed_out_of : Pod → String → PodEvictionResult
timed_out_of pod last_error = record {
  pod = pod;
  timed_out = true;
  err = some (
      "failed to evict pod "
      <> (pod.namespace
          <> ("/"
              <> (pod.name <> (" within allowed timeout (last error: " <> (last_error <> ")"))))));
}

abbrev evicted_of : Pod → PodEvictionResult
evicted_of pod = record { pod = pod; timed_out = false; err = none }

-- After the loop.
unfoldable pub give_up : Pod → Bool → String → Io PodEvictionResult
give_up pod is_daemon_set_pod last_error =
    test is_daemon_set_pod then pure (timed_out_of pod last_error) else (do
      tell (pod_event pod "Warning" "ScaleDownFailed" "failed to delete pod for ScaleDown")
      pure (timed_out_of pod last_error))

-- What an answer to an eviction leads to: the next round gets the error.
unfoldable pub after_evict :
    Pod → ℕ → (String → Io PodEvictionResult) → EvictReply → Io PodEvictionResult
after_evict pod wait again evicted = pure (evicted_of pod)
after_evict pod wait again (no_such_pod e) = pure (evicted_of pod)
after_evict pod wait again (evict_failed e) = do tell (sleep wait); again e

-- One request, and what follows it.
unfoldable pub attempt : Env → Pod → ℤ → ℕ → (String → Io PodEvictionResult) → Io PodEvictionResult
unfolding after_evict
attempt env pod grace wait again = do
  reply ← ask (evict pod.namespace pod.name grace) (λ t. env.evict_reply t pod.namespace pod.name)
  after_evict pod wait again reply

-- The rounds of the loop after the first, with the last error.
unfoldable pub retry_loop : Env → Pod → Bool → ℤ → ℕ → ℕ → ℕ → String → Io PodEvictionResult
unfolding give_up attempt
retry_loop env pod is_daemon_set_pod grace retry_until wait zero last_error = no_fuel
retry_loop env pod is_daemon_set_pod grace retry_until wait (suc fuel) last_error = do
  now ← ask read_clock env.time_now
  let again = retry_loop env pod is_daemon_set_pod grace retry_until wait fuel
  test ltb now retry_until
      then attempt env pod grace wait again
      else give_up pod is_daemon_set_pod last_error

-- The first round does not look at the clock.
unfoldable pub evict_pod : Env → ℕ → Pod → Bool → ℤ → ℕ → ℕ → Io PodEvictionResult
unfolding max_termination retry_loop
evict_pod env fuel pod is_daemon_set_pod max_graceful_termination_sec retry_until wait = do
  tell (pod_event pod "Normal" "ScaleDown" "deleting pod for node scale down")
  let grace = max_termination pod.termination_grace_period_seconds max_graceful_termination_sec
  attempt env pod grace wait (retry_loop env pod is_daemon_set_pod grace retry_until wait fuel)

-- The loop over the annotations; the order in which the map is walked does not matter.
unfoldable pub some_delay : List (String × String) → Bool
unfolding has_prefix
some_delay [] = false
some_delay ((annotation, v) ∷ m) =
    has_prefix annotation delay_deletion_annotation_prefix || some_delay m

unfoldable pub has_delay_deletion_annotation : Node → Bool
unfolding some_delay
has_delay_deletion_annotation node = some_delay node.annotations

unfoldable pub has_no_scale_down_annotation : Node → Bool
unfolding lookup
has_no_scale_down_annotation node = elim (lookup scale_down_disabled_key node.annotations) [
  | none ↦ false
  | some v ↦ str_eq v "true"
]

-- How `wait.Poll` ends: the condition has held, the time is over, or the condition has failed.
pub data PollResult : Type 0 where
  poll_done poll_timeout : PollResult
  poll_failed : String → PollResult

abbrev pub Poll : Type 0
Poll = ℕ → ℕ → Io (String ⊎ Bool) → Io PollResult

-- The condition that is polled, for the node in the cache.
unfoldable pub fresh_condition : String → String → Option Node → String ⊎ Bool
unfolding has_delay_deletion_annotation
fresh_condition name e none = inl ("failed to get node " <> (name <> (": " <> e)))
fresh_condition name e (some fresh_node) = inr (not (has_delay_deletion_annotation fresh_node))

unfoldable pub delay_condition : Env → String → Io (String ⊎ Bool)
unfolding fresh_condition
delay_condition env name =
    ask (lister_get name)
      (λ t. fresh_condition name (env.cache_error t name) (env.cached_node t name))

abbrev pub poll_error : PollResult → Option AutorepairError
poll_error poll_done = none
poll_error poll_timeout = none
poll_error (poll_failed e) = some (to_autoscaler_error api_call_error (plain e))

unfoldable pub wait_for_delay_deletion : Poll → Env → Node → ℕ → Io (Option AutorepairError)
unfolding delay_condition has_delay_deletion_annotation
wait_for_delay_deletion poll env node timeout =
    test not (timeout == 0) && has_delay_deletion_annotation node
    then (do
      result ← poll (5 * second) timeout (delay_condition env node.name)
      pure (poll_error result))
    else pure none

-- The deletion of a pod of the node, unless its first owner is a daemon set; a pod without an owner
-- is an index out of range. Errors of the deletion are dropped.
unfoldable pub delete_owned : Pod → List OwnerReference → Io (Unit {0})
delete_owned p [] = crash out_of_range
delete_owned p (o ∷ os) =
    test str_eq o.kind "DaemonSet" then pure tt else tell (delete_pod p.namespace p.name 30)

unfoldable pub delete_pods_loop : String → List Pod → Io (Unit {0})
unfolding delete_owned
delete_pods_loop worker [] = pure tt
delete_pods_loop worker (p ∷ ps) = do
  test str_eq p.node_name worker then delete_owned p p.owner_references else pure tt
  delete_pods_loop worker ps

abbrev pods_or_fatal : Option (List Pod) → Io (List Pod)
pods_or_fatal none = crash fatal
pods_or_fatal (some ps) = pure ps

-- The error of the patch is dropped.
unfoldable pub cordon_worker_node_and_delete_pod : Env → String → Io (Unit {0})
unfolding delete_pods_loop
cordon_worker_node_and_delete_pod env worker = do
  tell (cordon worker)
  reply ← ask list_pods env.pods
  ps ← pods_or_fatal reply
  delete_pods_loop worker ps
