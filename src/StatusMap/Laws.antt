-- ===== src/StatusMap/Laws.antt =====
-- What is written to the config map of the status, and when the recorder shows events on it.
use auto_repair.Common.{
  String, Bool, true, false, Option, none, some, List, [], ◌∷◌, ◌≡◌, ◌≢◌, refl, ◌⊎◌, inl, inr,
  arith, lookup, assign, lookup-assign, eq_iff, Option-cases,
}
use auto_repair.Kube.{ConfigMap}
use auto_repair.Env.{
  Env, Trace, MapReply, has_map, not_found, map_error, get_map, create_map, update_map, read_clock,
  nil_map,
}
use auto_repair.Calls.{Ensures, Ends, Ends-bind, CrashesWith}
use auto_repair.StatusMap.{
  LogEventRecorder, config_map_last_updated_key, initial_map, or_empty, with_status, written,
  write_found, write_status_config_map, status_message, new_status_map_recorder, recorder_of,
}

-- The map shows the status and when it was written.
abbrev pub Shows : String → String → ConfigMap → Type 0
Shows time message m =
    (lookup "status" (or_empty m.data_map) ≡ some message)
    × (lookup config_map_last_updated_key (or_empty m.annotations) ≡ some time)

-- Two maps of Go with the same values but for one key.
abbrev pub AgreeBut :
    String → Option (List (String × String)) → Option (List (String × String)) → Type 0
AgreeBut but old new =
    (key : String) → key ≢ but → lookup key (or_empty new) ≡ lookup key (or_empty old)

-- A later map is the earlier one but for its status and the time of it.
abbrev pub Keeps : ConfigMap → ConfigMap → Type 0
Keeps old m =
    (m.namespace ≡ old.namespace)
    × (m.name ≡ old.name)
    × AgreeBut "status" old.data_map m.data_map
    × AgreeBut config_map_last_updated_key old.annotations m.annotations

assign-AgreeBut :
    (but value : String) (old : Option (List (String × String)))
    → AgreeBut but old (some (assign but value (or_empty old)))
unfolding or_empty
assign-AgreeBut but value old key differs =
    ground (arith, eq_iff but key, lookup-assign key but value (or_empty old))

lookup_assigned :
    (key value : String) (m : List (String × String)) → lookup key (assign key value m) ≡ some value
lookup_assigned key value m = ground (arith, eq_iff key key, lookup-assign key key value m)

-- The last call of the trace has created the map, where none was found, or changed the one found.
abbrev pub Sends : Env → MapReply → ConfigMap → ConfigMap → Trace → Type 0
Sends env looked sent answer [] = ⊥
Sends env looked sent answer (create_map m ∷ t) =
    (m ≡ sent) × (env.created t m ≡ has_map answer) × ((e : String) × (looked ≡ not_found e))
Sends env looked sent answer (update_map m ∷ t) =
    (m ≡ sent)
    × (env.updated t m ≡ has_map answer)
    × ((old : ConfigMap) × (looked ≡ has_map old) × Keeps old sent)
Sends env looked sent answer (c ∷ t) = ⊥

abbrev pub points_to : ConfigMap → Option LogEventRecorder → Option LogEventRecorder
points_to m none = none
points_to m (some ler) = some (record ler { status_object = some m })

-- An error leaves the recorder alone; without one a map that shows the status has been sent, and the
-- recorder points to the answer.
abbrev pub Writes :
    Env
    → String
    → String
    → Option LogEventRecorder
    → MapReply
    → (String ⊎ ConfigMap) × Option LogEventRecorder
    → Trace
    → Type 0
Writes env time message ler looked (inl e, after) u = after ≡ ler
Writes env time message ler looked (inr answer, after) u =
    (after ≡ points_to answer ler)
    × ((sent : ConfigMap) × Shows time message sent × Sends env looked sent answer u)

written-Writes :
    (env : Env) (time message : String) (ler : Option LogEventRecorder) (looked reply : MapReply)
    (u : Trace) (sent : ConfigMap)
    → Shows time message sent
    → ((answer : ConfigMap) → reply ≡ has_map answer → Sends env looked sent answer u)
    → Writes env time message ler looked (written ler reply) u
unfolding written
written-Writes env time message none looked (has_map m) u sent shows sends =
    (refl, (sent, shows, sends m refl))
written-Writes env time message (some r) looked (has_map m) u sent shows sends =
    (refl, (sent, shows, sends m refl))
written-Writes env time message ler looked (not_found e) u sent shows sends = refl
written-Writes env time message ler looked (map_error e) u sent shows sends = refl

write_found-Writes :
    (env : Env) (namespace name time message : String) (ler : Option LogEventRecorder)
    (looked : MapReply) (t : Trace)
    → Ensures
        (write_found env namespace name time message ler looked t)
        (Writes env time message ler looked)
unfolding write_found with_status or_empty lookup
write_found-Writes env namespace name time message ler (map_error e) t = refl
write_found-Writes env namespace name time message ler (not_found e) t =
    written-Writes env time message ler _ _ _ (initial_map namespace name time message) (refl, refl)
      λ answer r. (refl, r, (e, refl))
write_found-Writes env namespace name time message ler (has_map m) t =
    elim (Option-cases m.data_map) [
      | inl missing ↦ rw missing tt
      | inr (d, has_data) ↦ rw has_data (
          written-Writes env time message ler _ _ _ _
            (
              lookup_assigned "status" message d,
              lookup_assigned config_map_last_updated_key time (or_empty m.annotations),
            )
            λ answer r. (
              refl,
              r,
              (
                record m { data_map = some d },
                refl,
                (
                  refl,
                  refl,
                  assign-AgreeBut "status" message (some d),
                  assign-AgreeBut config_map_last_updated_key time m.annotations,
                ),
              ),
            ))
    ]

-- Whenever the write of the status returns, an error has left the recorder as it was; without an
-- error a map that shows the message and the time has been sent last: a new one exactly if there was
-- none, and else the one that was there with its other entries unchanged; and the recorder, if one
-- was passed, points to the map that the server has answered.
pub write_status_config_map-Writes :
    (env : Env) (namespace msg : String) (ler : Option LogEventRecorder) (name : String) (t : Trace)
    → let time = env.format_time (env.time_now t) in
      Ensures
        (write_status_config_map env namespace msg ler name t)
        (Writes env time (status_message time msg) ler (env.map_of (read_clock ∷ t) namespace name))
unfolding write_status_config_map
write_status_config_map-Writes env namespace msg ler name t =
    let time = env.format_time (env.time_now t) in
    write_found-Writes env namespace name time (status_message time msg) ler
      (env.map_of (read_clock ∷ t) namespace name) (get_map namespace name ∷ read_clock ∷ t)

-- A map without data, which the API server may well have, panics: the entry is assigned to a nil map.
pub write_status_config_map_nil_map :
    (env : Env) (namespace msg : String) (ler : Option LogEventRecorder) (name : String) (t : Trace)
    (m : ConfigMap)
    → env.map_of (read_clock ∷ t) namespace name ≡ has_map m
    → m.data_map ≡ none
    → CrashesWith nil_map (write_status_config_map env namespace msg ler name t)
unfolding write_status_config_map write_found with_status
write_status_config_map_nil_map env namespace msg ler name t m found missing =
    rw (found, missing) refl

-- No config map of the server is without data.
abbrev pub HasData : Env → Type 0
HasData env =
    (t : Trace) (namespace name : String) (m : ConfigMap)
    → env.map_of t namespace name ≡ has_map m
    → m.data_map ≢ none

-- A recorder that is active has an object to record events on.
abbrev pub IsUsable : LogEventRecorder → Type 0
IsUsable ler = (ler.active ≡ true) → ler.status_object ≢ none

abbrev pub IsUsableResult : String ⊎ LogEventRecorder → Type 0
IsUsableResult (inl e) = Unit
IsUsableResult (inr ler) = IsUsable ler

abbrev pub idle : LogEventRecorder
idle = record { status_object = none; active = false }

module _ (env : Env) (has_data : HasData env) where
  write_status_config_map-Ends :
      (namespace msg : String) (ler : Option LogEventRecorder) (name : String) (t : Trace)
      → Ends (write_status_config_map env namespace msg ler name t) (λ r u. Unit)
  unfolding write_status_config_map write_found with_status
  write_status_config_map-Ends namespace msg ler name t =
      by_reply (env.map_of (read_clock ∷ t) namespace name)
        (has_data (read_clock ∷ t) namespace name)
    where
      by_reply :
          (looked : MapReply)
          → ((m : ConfigMap) → looked ≡ has_map m → m.data_map ≢ none)
          → Ends
              (write_found env namespace name
                (env.format_time (env.time_now t))
                (status_message (env.format_time (env.time_now t)) msg)
                ler
                looked
                (get_map namespace name ∷ read_clock ∷ t))
              (λ r u. Unit)
      by_reply (has_map m) h = elim (Option-cases m.data_map) [
        | inl missing ↦ absurd (h m refl missing)
        | inr (d, found) ↦ rw found tt
      ]
      by_reply (not_found e) h = tt
      by_reply (map_error e) h = tt

  -- A new recorder is usable, and one that is not to be active is made without a call.
  pub new_status_map_recorder-Ends :
      (namespace : String) (active : Bool) (name : String) (t : Trace)
      → Ends
          (new_status_map_recorder env namespace active name t)
          (λ r u. IsUsableResult r × ((active ≡ false) → (r ≡ inr idle) × (u ≡ t)))
  unfolding new_status_map_recorder recorder_of
  new_status_map_recorder-Ends namespace false name t = ((λ h. cc), λ h. (refl, refl))
  new_status_map_recorder-Ends namespace true name t =
      Ends-bind (write_status_config_map env namespace "Initializing" none name) _ t _ _
        (write_status_config_map-Ends namespace "Initializing" none name t)
        λ r u _. (usable r, λ h. cc)
    where
      usable : (r : (String ⊎ ConfigMap) × Option LogEventRecorder) → IsUsableResult (recorder_of r)
      usable (inl e, ler) = tt
      usable (inr m, ler) = λ h. cc
