-- ===== src/EventRecorder.antt =====
-- utils/kubernetes/factory.go: `CreateEventRecorder`. The recorder of the client library is a parameter.
use auto_repair.Common.{String, Bool, if◌then◌else◌}

-- The methods of a broadcaster. A sink is that of a client's core API, in a namespace.
pub record RecordLibrary (Client Broadcaster Recorder : Type 0) : Type 0 where
  pub is_fake : Client → Bool
  pub new_broadcaster : Broadcaster
  pub start_logging : Broadcaster → Broadcaster
  pub start_recording_to_sink : Client → String → Broadcaster → Broadcaster
  pub new_recorder : String → Broadcaster → Recorder

module _ {Client Broadcaster Recorder : Type 0}
    (lib : RecordLibrary Client Broadcaster Recorder) where
  unfoldable pub create_event_recorder : Client → Recorder
  create_event_recorder kube_client =
      let logging = lib.start_logging lib.new_broadcaster in
      let recording =
        if lib.is_fake kube_client
        then logging
        else lib.start_recording_to_sink kube_client "" logging in
      lib.new_recorder "cluster-autorepair" recording
