-- ===== src/Builder/Laws.antt =====
-- That an autorepair is built whatever the API server answers.
use auto_repair.Common.{String, false, Option, none, some, ◌∷◌, ◌≡◌, refl, ap, ◌∙◌, ◌⊎◌, inl, inr}
use auto_repair.Env.{Env, Trace, read_clock}
use auto_repair.Calls.{Ends, Ends-bind}
use auto_repair.Errors.{AutorepairError}
use auto_repair.StatusMap.{LogEventRecorder, new_status_map_recorder}
use auto_repair.StatusMap.Laws.{
  HasData, IsUsable, IsUsableResult, idle, new_status_map_recorder-Ends,
}
use auto_repair.Builder.{
  AutorepairingOptions, AutorepairBuilder, DynamicAutorepair, recorder_or_second,
  new_static_autorepair, new_autorepair, build, dynamic_of, new_dynamic_autorepair, with_context,
  new_autorepair_context,
}

abbrev pub IsUsablePointer : Option LogEventRecorder → Type 0
IsUsablePointer none = ⊥
IsUsablePointer (some ler) = IsUsable ler

-- It is built, with the options that were given and a recorder that is not nil and usable. If the
-- options ask for no map, nothing but the clock has been called.
abbrev pub IsBuilt :
    AutorepairingOptions → Trace → AutorepairError ⊎ DynamicAutorepair → Trace → Type 0
IsBuilt opts t (inl e) u = ⊥
IsBuilt opts t (inr d) u =
    (d.autorepair.0.options ≡ opts)
    × IsUsablePointer d.autorepair.0.log_recorder
    × ((opts.write_status_config_map ≡ false) → u ≡ read_clock ∷ read_clock ∷ read_clock ∷ t)

module _ (env : Env) (opts : AutorepairingOptions) where
  recorder_or_second-Ends :
      (r : String ⊎ LogEventRecorder) (t : Trace)
      → IsUsableResult r
      → Ends (recorder_or_second env opts r t) (λ p u. IsUsablePointer p × ((r ≡ inr idle) → u ≡ t))
  unfolding recorder_or_second new_status_map_recorder
  recorder_or_second-Ends (inl e) t h = ((λ h. cc), λ h. refl)
  recorder_or_second-Ends (inr ler) t h = (h, λ _. refl)

  new_static_autorepair-Ends :
      (b : AutorepairBuilder) (t : Trace)
      → HasData env
      → Ends (new_static_autorepair env opts t) (λ r u. IsBuilt opts t (dynamic_of b r) u)
  unfolding new_static_autorepair with_context new_autorepair_context
  new_static_autorepair-Ends b t has_data =
      Ends-bind
        (new_status_map_recorder env opts.config_namespace opts.write_status_config_map
          opts.status_config_map_name)
        _ t _ _
        (new_status_map_recorder-Ends env has_data opts.config_namespace
          opts.write_status_config_map opts.status_config_map_name t)
        λ r t1 (usable, quiet).
          Ends-bind (recorder_or_second env opts r) _ t1 _ _ (recorder_or_second-Ends r t1 usable)
            λ p u (points, same). (
              refl,
              points,
              λ off.
                  let (e, s) = quiet off in
                  ap (λ v. read_clock ∷ read_clock ∷ read_clock ∷ v) (same e ∙ s),
            )

  -- Whatever the API server answers, as long as it has no config map without data, an autorepair is
  -- built without an error: with the options that were given, and a recorder that has an object to
  -- record events on if it is active. If the options ask for no status map, the server is not called.
  pub new_autorepair-IsBuilt :
      (t : Trace) → HasData env → Ends (new_autorepair env opts t) (IsBuilt opts t)
  unfolding new_autorepair new_dynamic_autorepair build
  new_autorepair-IsBuilt t has_data =
      Ends-bind (new_static_autorepair env opts) _ t _ _
        (new_static_autorepair-Ends (record { autorepairing_options = opts }) t has_data)
        λ r u built. built
