-- ===== src/Builder.antt =====
-- core/autorepair.go, core/autorepair_builder.go, core/dynamic_autorepair.go, NewStaticAutorepair of
-- core/static_autorepair.go and context/autorepair_context.go: how an autorepair is put together.
pub mod Laws
use auto_repair.Common.{ℕ, String, Bool, false, Option, none, some, ◌⊎◌, inl, inr}
use auto_repair.Env.{Env, Io, pure, ask, ◌>>=◌, ◌>>◌, read_clock}
use auto_repair.Errors.{AutorepairError}
use auto_repair.Portal.{Access}
use auto_repair.StatusMap.{LogEventRecorder, new_status_map_recorder}
use auto_repair.Core.{StaticAutorepair, run_once}

-- `AutorepairingOptions`, with the fields that are read.
pub record AutorepairingOptions : Type 0 where
  pub write_status_config_map : Bool
  pub config_namespace : String
  pub status_config_map_name : String

-- The client and the recorder of events are the world, and no registry of the cluster's state is set.
-- The log recorder is a pointer.
pub record AutorepairingContext : Type 0 where
  pub options : AutorepairingOptions
  pub log_recorder : Option LogEventRecorder

unfoldable pub new_autorepair_context :
    AutorepairingOptions → Option LogEventRecorder → AutorepairError ⊎ AutorepairingContext
new_autorepair_context options log_recorder =
    inr (record { options = options; log_recorder = log_recorder })

-- The context that `StaticAutorepair` embeds stands beside it.
abbrev pub Built : Type 0
Built = AutorepairingContext × StaticAutorepair

-- A result whose error is dropped: nil where there is one.
abbrev pub without_error : String ⊎ LogEventRecorder → Option LogEventRecorder
without_error (inl e) = none
without_error (inr ler) = some ler

-- After an error a second attempt is made, with a recorder that is not active.
unfoldable pub recorder_or_second :
    Env → AutorepairingOptions → String ⊎ LogEventRecorder → Io (Option LogEventRecorder)
recorder_or_second env opts (inr ler) = pure (some ler)
recorder_or_second env opts (inl e) = do
  second ← new_status_map_recorder env opts.config_namespace false opts.status_config_map_name
  pure (without_error second)

unfoldable pub with_context :
    Env → AutorepairError ⊎ AutorepairingContext → Io (AutorepairError ⊎ Built)
with_context env (inl e) = pure (inl e)
with_context env (inr ctx) = do
  last_scale_up_time ← ask read_clock env.time_now
  last_scale_down_delete_time ← ask read_clock env.time_now
  last_scale_down_fail_time ← ask read_clock env.time_now
  let s : StaticAutorepair = record {
    last_scale_up_time = last_scale_up_time;
    last_scale_down_delete_time = last_scale_down_delete_time;
    last_scale_down_fail_time = last_scale_down_fail_time;
  }
  pure (inr (ctx, s))

unfoldable pub new_static_autorepair : Env → AutorepairingOptions → Io (AutorepairError ⊎ Built)
unfolding recorder_or_second new_autorepair_context with_context
new_static_autorepair env opts = do
  first ←
      new_status_map_recorder env opts.config_namespace opts.write_status_config_map
        opts.status_config_map_name
  ler ← recorder_or_second env opts first
  with_context env (new_autorepair_context opts ler)

-- `AutorepairBuilderImpl`, whose client, recorder and listers are the world.
pub record AutorepairBuilder : Type 0 where
  pub autorepairing_options : AutorepairingOptions

unfoldable pub build : Env → AutorepairBuilder → Io (AutorepairError ⊎ Built)
unfolding new_static_autorepair
build env b = new_static_autorepair env b.autorepairing_options

pub record DynamicAutorepair : Type 0 where
  pub autorepair : Built
  pub autorepair_builder : AutorepairBuilder

abbrev pub dynamic_of :
    AutorepairBuilder → AutorepairError ⊎ Built → AutorepairError ⊎ DynamicAutorepair
dynamic_of b (inl e) = inl e
dynamic_of b (inr s) = inr (record { autorepair = s; autorepair_builder = b })

unfoldable pub new_dynamic_autorepair :
    Env → AutorepairBuilder → Io (AutorepairError ⊎ DynamicAutorepair)
unfolding build
new_dynamic_autorepair env b = do result ← build env b; pure (dynamic_of b result)

unfoldable pub new_autorepair :
    Env → AutorepairingOptions → Io (AutorepairError ⊎ DynamicAutorepair)
unfolding new_dynamic_autorepair
new_autorepair env opts = new_dynamic_autorepair env (record { autorepairing_options = opts })

-- `RunOnce` of `DynamicAutorepair`
unfoldable pub run_built : Env → ℕ → ℕ → Access → DynamicAutorepair → Io DynamicAutorepair
unfolding run_once
run_built env fuel repairtime a d = do
  s ← run_once env fuel repairtime a d.autorepair.1
  pure (record d { autorepair = (d.autorepair.0, s) })
