-- ===== src/Start.antt =====
-- main.go: `main`, up to the loop of the controller. The client library is a parameter.
pub mod Laws
use auto_repair.Common.{String, Option, none, some, List, [], ◌∷◌, ◌++◌}
use auto_repair.Controller.{Controller, new_controller}

-- What a call of the library comes to: it panics, it returns an error, or it returns a value.
pub data Attempt (A : Type 0) : Type 0 where
  panics refuses : Attempt A
  gives : A → Attempt A

-- `BuildConfigFromFlags` with the master's URL and the path, `InClusterConfig` and `NewForConfig`, which
-- gets none for a nil config.
pub record ClientLibrary (Config Clientset : Type 0) : Type 0 where
  pub build_config_from_flags : String → String → Option Config
  pub in_cluster_config : Option Config
  pub new_for_config : Option Config → Attempt Clientset

-- What has been logged, the client, none for a nil one, and the controller, which runs next.
pub record Started (Clientset : Type 0) : Type 0 where
  pub logged : List String
  pub clientset : Option Clientset
  pub controller : Controller

-- The flag has its default: `flag.Parse` is not called.
abbrev pub kubeconfig : String
kubeconfig = "/home/thien/Desktop/tailieutoanhoc/be/dpqibt3c-kubeconfig"

module _ {Config Clientset : Type 0} (lib : ClientLibrary Config Clientset) where
  abbrev pub fall_back : Option Config → Option Config × List String
  fall_back (some config) = (some config, "unable to build config from flags" ∷ [])
  fall_back none =
      (none, "unable to build config from flags" ∷ "unable to get  incluster config" ∷ [])

  abbrev pub if_built : Option Config → Option Config × List String
  if_built (some config) = (some config, [])
  if_built none = fall_back lib.in_cluster_config

  unfoldable pub choose_config : Option Config × List String
  choose_config = if_built (lib.build_config_from_flags "" kubeconfig)

  abbrev pub connect : Attempt Clientset → List String → Option (Started Clientset)
  connect panics logged = none
  connect refuses logged = some (record {
    logged = logged ++ ("unable to create clientset" ∷ []);
    clientset = none;
    controller = new_controller;
  })
  connect (gives client) logged =
      some (record { logged = logged; clientset = some client; controller = new_controller })

  -- None where the process panics.
  unfoldable pub main : Option (Started Clientset)
  unfolding choose_config
  main = connect (lib.new_for_config choose_config.0) choose_config.1
