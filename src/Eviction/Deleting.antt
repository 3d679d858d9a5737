-- ===== src/Eviction/Deleting.antt =====
-- Which pods are deleted when a worker is cordoned.
use auto_repair.Common.{
  String, Bool, true, false, not, ◌&&◌, some, List, [], ◌∷◌, ◌≡◌, ◌≢◌, refl, All, keep, str_eq,
  eq_iff, inl, inr, Bool-cases, if◌then◌else◌, ◌∙◌, ap,
}
use auto_repair.Kube.{Pod, OwnerReference}
use auto_repair.Env.{Env, Trace, cordon, list_pods, delete_pod}
use auto_repair.Calls.{Ends, Ends-bind, Ends-weaken}
use auto_repair.Eviction.{delete_owned, delete_pods_loop, cordon_worker_node_and_delete_pod}

-- The pods whose deletion was asked for, newest first, by namespace and name.
abbrev pub deleted : Trace → List (String × String)
deleted [] = []
deleted (delete_pod namespace name grace ∷ t) = (namespace, name) ∷ deleted t
deleted (c ∷ t) = deleted t

abbrev pub by_daemon_set : List OwnerReference → Bool
by_daemon_set [] = false
by_daemon_set (o ∷ os) = str_eq o.kind "DaemonSet"

-- The pod is on the worker, and its first owner is no daemon set.
abbrev pub goes : String → Pod → Bool
goes worker p = str_eq p.node_name worker && not (by_daemon_set p.owner_references)

abbrev pub onto : List Pod → List (String × String) → List (String × String)
onto [] ds = ds
onto (p ∷ ps) ds = onto ps ((p.namespace, p.name) ∷ ds)

abbrev pub IsOwned : String → Pod → Type 0
IsOwned worker p = p.node_name ≡ worker → p.owner_references ≢ []

delete_owned-Ends :
    (p : Pod) (os : List OwnerReference) (t : Trace)
    → os ≢ []
    → Ends (delete_owned p os t) (λ _ u.
      deleted u ≡ (if by_daemon_set os then deleted t else (p.namespace, p.name) ∷ deleted t))
unfolding delete_owned
delete_owned-Ends p [] t owned = absurd (owned refl)
delete_owned-Ends p (o ∷ os) t owned = elim (Bool-cases (str_eq o.kind "DaemonSet")) [
  | inl e ↦ rw e refl
  | inr e ↦ rw e refl
]

onto_if :
    (b : Bool) (p : Pod) (ps : List Pod) (ds : List (String × String))
    → onto ps (if b then ds else (p.namespace, p.name) ∷ ds)
      ≡ onto (if not b then p ∷ ps else ps) ds
onto_if true p ps ds = refl
onto_if false p ps ds = refl

delete_pods_loop-Ends :
    (worker : String) (ps : List Pod) (t : Trace)
    → All (IsOwned worker) ps
    → Ends
        (delete_pods_loop worker ps t)
        (λ _ u. deleted u ≡ onto (keep (goes worker) ps) (deleted t))
unfolding delete_pods_loop
delete_pods_loop-Ends worker [] t owned = refl
delete_pods_loop-Ends worker (p ∷ ps) t (owned, rest) =
    elim (Bool-cases (str_eq p.node_name worker)) [
      | inl here ↦ rw here (
          Ends-bind (delete_owned p p.owner_references) (λ _. delete_pods_loop worker ps) t _ _
            (delete_owned-Ends p p.owner_references t (owned ((eq_iff p.node_name worker).0 here)))
            λ r u e.
              Ends-weaken (delete_pods_loop worker ps u) _ _
                (delete_pods_loop-Ends worker ps u rest)
                λ q v f.
                  f
                  ∙ ap (onto (keep (goes worker) ps)) e
                  ∙ onto_if (by_daemon_set p.owner_references) p (keep (goes worker) ps)
                      (deleted t))
      | inr away ↦ rw away (delete_pods_loop-Ends worker ps t rest)
    ]

-- If the pods can be listed and each pod of the worker has an owner, then cordoning the worker ends,
-- and has asked for the deletion of exactly those pods of the worker whose first owner is no daemon
-- set, each once and in the order of the list.
pub cordon_worker_node_and_delete_pod-Ends :
    (env : Env) (worker : String) (ps : List Pod) (t : Trace)
    → env.pods (cordon worker ∷ t) ≡ some ps
    → All (IsOwned worker) ps
    → Ends
        (cordon_worker_node_and_delete_pod env worker t)
        (λ _ u. deleted u ≡ onto (keep (goes worker) ps) (deleted t))
unfolding cordon_worker_node_and_delete_pod
cordon_worker_node_and_delete_pod-Ends env worker ps t listed owned =
    rw listed (delete_pods_loop-Ends worker ps (list_pods ∷ cordon worker ∷ t) owned)
