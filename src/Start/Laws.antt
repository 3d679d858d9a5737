-- ===== src/Start/Laws.antt =====
-- Starting with every kind of failure of the client library.
use auto_repair.Common.{
  String, Option, none, some, List, [], ◌∷◌, ◌≡◌, ◌++◌, ◌∙◌, sym, ap, arith, inl, inr, refl,
  Option-cases,
}
use auto_repair.Controller.{new_controller}
use auto_repair.Start.{
  Attempt, gives, panics, refuses, ClientLibrary, Started, choose_config, connect, fall_back,
  kubeconfig, main,
}

appended : (logged : List String) (m : String) → ¬ (logged ++ (m ∷ []) ≡ [])
appended [] m h = ground arith
appended (l ∷ ls) m h = ground arith

connect_lem :
    {Config Clientset : Type 0} (lib : ClientLibrary Config Clientset) (a : Attempt Clientset)
    (logged : List String) (s : Started Clientset)
    → connect lib a logged ≡ some s
    → (s.controller ≡ new_controller)
      × (s.logged ≡ []
          → (logged ≡ []) × (client : Clientset) × (a ≡ gives client) × (s.clientset ≡ some client))
connect_lem lib panics logged s h = absurd (ground arith)
connect_lem lib refuses logged s h =
    let clients : record {
      logged = logged ++ ("unable to create clientset" ∷ []);
      clientset = none;
      controller = new_controller;
    }
        ≡ s =
      ground arith in
    (ground arith, λ quiet. absurd (appended logged _ (ap Started.logged clients ∙ quiet)))
connect_lem lib (gives client) logged s h =
    (ground arith, λ quiet. (ground arith, client, refl, ground arith))

fall_back_noisy :
    {Config Clientset : Type 0} (lib : ClientLibrary Config Clientset) (inside : Option Config)
    → ¬ ((fall_back lib inside).1 ≡ [])
fall_back_noisy lib none h = ground arith
fall_back_noisy lib (some config) h = ground arith

choose_config_lem :
    {Config Clientset : Type 0} (lib : ClientLibrary Config Clientset)
    → (choose_config lib).1 ≡ []
    → (config : Config) × (lib.build_config_from_flags "" kubeconfig ≡ some config)
      × ((choose_config lib).0 ≡ some config)
unfolding choose_config
choose_config_lem lib h = elim (Option-cases (lib.build_config_from_flags "" kubeconfig)) [
  | inl failed ↦
      absurd (fall_back_noisy lib lib.in_cluster_config (rw (choose_config, failed) at h))
  | inr (config, built) ↦ (config, built, rw (choose_config, built) refl)
]

-- A started program always has a fresh controller, and it has logged nothing only if the default
-- kubeconfig gave the config and that config a client.
main_lem :
    {Config Clientset : Type 0} (lib : ClientLibrary Config Clientset) (s : Started Clientset)
    → main lib ≡ some s
    → (s.controller ≡ new_controller)
      × (s.logged ≡ []
          → ((config : Config) × (client : Clientset) × (lib.build_config_from_flags "" kubeconfig
                ≡ some config)
              × (lib.new_for_config (some config) ≡ gives client)
              × (s.clientset ≡ some client)))
unfolding main
main_lem lib s h =
    let connected =
      connect_lem lib (lib.new_for_config (choose_config lib).0) (choose_config lib).1 s h in
    (
      connected.0,
      λ quiet.
          let (silent, client, made, passed) = connected.1 quiet in
          let (config, built, chosen) = choose_config_lem lib silent in
          (config, client, built, sym (ap lib.new_for_config chosen) ∙ made, passed),
    )
