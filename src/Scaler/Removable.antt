-- ===== src/Scaler/Removable.antt =====
-- When a worker may be removed: `CheckWorkerNodeCanBeScaleDown` of scaler/ScaleDown.go.
use auto_repair.Common.{
  ℕ, String, Bool, true, false, some, refl, inl, inr, Bool-cases, List, [], ◌∷◌, ◌≡◌, ◌≢◌, ◌↔◌, ◌⊎◌,
  arith, eq_iff, Any, All,
}
use auto_repair.Env.{Env, Trace, crashed, out_of_range, list_pods}
use auto_repair.Calls.{Ends, Ends-run, CrashesWith}
use auto_repair.Kube.{Pod, OwnerReference, Volume}
use auto_repair.Scaler.{
  volumes_loop, owner_check, visit, pods_loop, check_worker_node_can_be_scale_down,
}

-- The pod goes with its node: a daemon set owns it, or it is one of several replicas (or of none)
-- and keeps nothing in an EmptyDir.
abbrev pub OwnerAllows : (String → String → ℕ) → Pod → List OwnerReference → Type 0
OwnerAllows replicas p [] = ⊥
OwnerAllows replicas p (o ∷ os) =
    (o.kind ≡ "DaemonSet")
    ⊎ (replicas p.namespace o.name ≢ 1) × All (λ (v : Volume). v.empty_dir ≡ false) p.volumes

abbrev pub MayGo : (String → String → ℕ) → String → Pod → Type 0
MayGo replicas worker p = (p.node_name ≢ worker) ⊎ OwnerAllows replicas p p.owner_references

-- A pod of the node that has no owner.
abbrev pub IsOrphan : String → Pod → Type 0
IsOrphan worker p = (p.node_name ≡ worker) × (p.owner_references ≡ [])

volumes_loop_iff :
    (vs : List Volume) (b : Bool)
    → (volumes_loop vs b ≡ true) ↔ ((b ≡ true) × All (λ (v : Volume). v.empty_dir ≡ false) vs)
unfolding volumes_loop
volumes_loop_iff [] b = ground arith
volumes_loop_iff (v ∷ vs) b = ground (arith, volumes_loop_iff vs false, volumes_loop_iff vs b)

module _ (env : Env) (replicas : String → String → ℕ)
    (steady : (t : Trace) (namespace name : String)
      → env.replicas t namespace name ≡ replicas namespace name)
    (worker : String) where
  owner_check_lem :
      (p : Pod) (os : List OwnerReference) (b : Bool) (t : Trace)
      → os ≢ []
      → Ends
          (owner_check env p os b t)
          (λ c u. (c ≡ true) ↔ ((b ≡ true) × OwnerAllows replicas p os))
  unfolding owner_check
  owner_check_lem p [] b t h = absurd (h refl)
  owner_check_lem p (o ∷ os) b t h = ground (
    arith,
    eq_iff o.kind "DaemonSet",
    steady t p.namespace o.name,
    volumes_loop_iff p.volumes b,
    volumes_loop_iff p.volumes false,
  )

  visit_lem :
      (p : Pod) (b : Bool) (t : Trace)
      → ¬ IsOrphan worker p
      → Ends (visit env worker p b t) (λ c u. (c ≡ true) ↔ ((b ≡ true) × MayGo replicas worker p))
  unfolding visit
  visit_lem p b t owned =
      ground (arith, eq_iff p.node_name worker, owner_check_lem p p.owner_references b t)

  pods_loop_lem :
      (ps : List Pod) (b : Bool) (t : Trace)
      → All (λ p. ¬ IsOrphan worker p) ps
      → Ends
          (pods_loop env worker ps b t)
          (λ c u. (c ≡ true) ↔ ((b ≡ true) × All (MayGo replicas worker) ps))
  unfolding pods_loop
  pods_loop_lem [] b t h = ground arith
  pods_loop_lem (p ∷ ps) b t (owned, h) =
      let (c, u, e, q) =
        Ends-run (visit env worker p b t)
          (λ c u. (c ≡ true) ↔ ((b ≡ true) × MayGo replicas worker p)) (visit_lem p b t owned) in
      ground (arith, pods_loop_lem ps c u h)

  -- If the pods can be listed, each pod of the worker has an owner, and the replica sets do not
  -- change meanwhile, the check returns, and says yes exactly when every pod of the worker is owned
  -- by a daemon set or is not the only replica and has no EmptyDir.
  pub check_worker_node_can_be_scale_down_lem :
      (ps : List Pod) (t : Trace)
      → env.pods t ≡ some ps
      → All (λ p. ¬ IsOrphan worker p) ps
      → Ends
          (check_worker_node_can_be_scale_down env worker t)
          (λ c u. (c ≡ true) ↔ All (MayGo replicas worker) ps)
  unfolding check_worker_node_can_be_scale_down
  check_worker_node_can_be_scale_down_lem ps t h owned =
      ground (arith, pods_loop_lem ps true (list_pods ∷ t) owned)

  -- The same, for a worker with a pod that may not go.
  pub check_worker_node_can_be_scale_down_refuses :
      (ps : List Pod) (t : Trace)
      → env.pods t ≡ some ps
      → All (λ p. ¬ IsOrphan worker p) ps
      → ¬ All (MayGo replicas worker) ps
      → Ends (check_worker_node_can_be_scale_down env worker t) (λ b u. b ≡ false)
  check_worker_node_can_be_scale_down_refuses ps t h owned stuck =
      let (b, u, e, iff) =
        Ends-run (check_worker_node_can_be_scale_down env worker t)
          (λ c u. (c ≡ true) ↔ All (MayGo replicas worker) ps)
          (check_worker_node_can_be_scale_down_lem ps t h owned) in
      rw e (elim (Bool-cases b) [
        | inl said_yes ↦ absurd (stuck (iff.0 said_yes))
        | inr said_no ↦ said_no
      ])

visit_orphan :
    (env : Env) (worker : String) (p : Pod) (b : Bool) (t : Trace)
    → IsOrphan worker p
    → visit env worker p b t ≡ crashed out_of_range t
unfolding visit owner_check
visit_orphan env worker p b t (here, alone) =
    rw (alone, owner_check) (rw ((eq_iff p.node_name worker).1 here))

visit_returns :
    (env : Env) (worker : String) (p : Pod) (b : Bool) (t : Trace)
    → Ends (visit env worker p b t) (λ _ _. Unit {0})
      ⊎ CrashesWith out_of_range (visit env worker p b t)
unfolding visit owner_check
visit_returns env worker p b t = ground arith

pods_loop_orphan :
    (env : Env) (worker : String) (ps : List Pod) (b : Bool) (t : Trace)
    → Any (IsOrphan worker) ps
    → CrashesWith out_of_range (pods_loop env worker ps b t)
unfolding pods_loop
pods_loop_orphan env worker [] b t h = absurd h
pods_loop_orphan env worker (p ∷ ps) b t (inl orphan) =
    ground (arith, visit_orphan env worker p b t orphan)
pods_loop_orphan env worker (p ∷ ps) b t (inr later) = elim (visit_returns env worker p b t) [
  | inl returned ↦
      let (c, u, e, _) = Ends-run (visit env worker p b t) (λ _ _. Unit {0}) returned in
      ground (arith, pods_loop_orphan env worker ps c u later)
  | inr out ↦ ground arith
]

-- A pod of the worker that has no owner, such as one that was created by hand, ends the process:
-- the check reads the first of its owners without asking whether there is one.
pub check_worker_node_can_be_scale_down_orphan :
    (env : Env) (worker : String) (ps : List Pod) (t : Trace)
    → env.pods t ≡ some ps
    → Any (IsOrphan worker) ps
    → CrashesWith out_of_range (check_worker_node_can_be_scale_down env worker t)
unfolding check_worker_node_can_be_scale_down
check_worker_node_can_be_scale_down_orphan env worker ps t h orphan =
    ground (arith, pods_loop_orphan env worker ps true (list_pods ∷ t) orphan)
