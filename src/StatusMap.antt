-- ===== src/StatusMap.antt =====
-- clusterstate/utils/status.go: the config map that shows the status of the cluster, and the recorder
-- of events on it.
pub mod Laws
use auto_repair.Common.{
  String, ◌<>◌, Bool, true, false, ◌&&◌, Option, none, some, List, [], ◌∷◌, ◌⊎◌, inl, inr, assign,
}
use auto_repair.Kube.{ConfigMap}
use auto_repair.Env.{
  Env, Io, pure, crash, ask, tell, ◌>>=◌, ◌>>◌, nil_map, MapReply, has_map, not_found, map_error,
  get_map, create_map, update_map, delete_map, record_event, read_clock,
}

abbrev pub config_map_last_updated_key : String
config_map_last_updated_key = "cluster-autoscaler.kubernetes.io/last-updated"

-- The recorder of the client library is the world.
pub record LogEventRecorder : Type 0 where
  pub status_object : Option ConfigMap
  pub active : Bool

-- Both `Event` and `Eventf`, whose message is formatted.
unfoldable pub event : LogEventRecorder → String → String → String → Io (Unit {0})
event ler event_type reason message = elim ler.status_object [
  | none ↦ pure tt
  | some object ↦ elim ler.active [
    | false ↦ pure tt
    | true ↦ tell (record_event object event_type reason message)
  ]
]

unfoldable pub or_empty : Option (List (String × String)) → List (String × String)
or_empty none = []
or_empty (some m) = m

-- The map that is found, with the new status. Without data the assignment panics.
unfoldable pub with_status : Env → String → String → ConfigMap → Io MapReply
unfolding assign or_empty
with_status env time message m = elim m.data_map [
  | none ↦ crash nil_map
  | some d ↦
      let changed : ConfigMap = record m {
        data_map = some (assign "status" message d);
        annotations = some (assign config_map_last_updated_key time (or_empty m.annotations));
      } in
      ask (update_map changed) (λ t. env.updated t changed)
]

abbrev pub initial_map : String → String → String → String → ConfigMap
initial_map namespace name time message = record {
  namespace = namespace;
  name = name;
  annotations = some ((config_map_last_updated_key, time) ∷ []);
  data_map = some (("status", message) ∷ []);
}

-- The answer to a write, as the result and what becomes of the recorder that was passed.
unfoldable pub written :
    Option LogEventRecorder → MapReply → (String ⊎ ConfigMap) × Option LogEventRecorder
written none (has_map m) = (inr m, none)
written (some ler) (has_map m) = (inr m, some (record ler { status_object = some m }))
written ler (not_found e) = (inl ("Failed to write status configmap: " <> e), ler)
written ler (map_error e) = (inl ("Failed to write status configmap: " <> e), ler)

-- By what the look for the map returns.
unfoldable pub write_found :
    Env
    → String
    → String
    → String
    → String
    → Option LogEventRecorder
    → MapReply
    → Io ((String ⊎ ConfigMap) × Option LogEventRecorder)
unfolding with_status written
write_found env namespace name time message ler (has_map m) = do
  reply ← with_status env time message m
  pure (written ler reply)
write_found env namespace name time message ler (not_found e) = do
  reply ←
      ask (create_map (initial_map namespace name time message))
        (λ t. env.created t (initial_map namespace name time message))
  pure (written ler reply)
write_found env namespace name time message ler (map_error e) =
    pure (inl ("Failed to retrieve status configmap for update: " <> e), ler)

abbrev pub status_message : String → String → String
status_message time msg = "Cluster-autoscaler status at " <> (time <> (":\n" <> msg))

-- The result, an error or the map, and the recorder, which is a pointer that may be nil.
unfoldable pub write_status_config_map :
    Env
    → String
    → String
    → Option LogEventRecorder
    → String
    → Io ((String ⊎ ConfigMap) × Option LogEventRecorder)
unfolding write_found
write_status_config_map env namespace msg ler name = do
  now ← ask read_clock (λ t. env.time_now t)
  let time = env.format_time now
  reply ← ask (get_map namespace name) (λ t. env.map_of t namespace name)
  write_found env namespace name time (status_message time msg) ler reply

-- An error or the recorder, from the result of the first write.
unfoldable pub recorder_of :
    (String ⊎ ConfigMap) × Option LogEventRecorder → String ⊎ LogEventRecorder
recorder_of (inl e, ler) = inl "Failed to init status ConfigMap"
recorder_of (inr m, ler) = inr (record { status_object = some m; active = true })

unfoldable pub new_status_map_recorder :
    Env → String → Bool → String → Io (String ⊎ LogEventRecorder)
unfolding write_status_config_map recorder_of
new_status_map_recorder env namespace false name =
    pure (inr (record { status_object = none; active = false }))
new_status_map_recorder env namespace true name = do
  result ← write_status_config_map env namespace "Initializing" none name
  pure (recorder_of result)

-- The error, if any.
unfoldable pub delete_status_config_map : Env → String → String → Io (Option String)
delete_status_config_map env namespace name =
    ask (delete_map namespace name) (λ t. env.delete_error t namespace name)
