-- ===== src/Workers/Ungate.antt =====
-- ungate.go: put the assigned node on each pod and take its gate off.
pub mod Bounds
use fluxqueue.Base.{
  ℕ, suc, Bool, true, false, not, ◌||◌, List, [], ◌∷◌, ◌++◌, Option, none, some, get_elem?, length,
  ltb, leb, if◌then◌else◌,
}
use fluxqueue.Base.Int.{ℤ}
use fluxqueue.Base.Str.{Str, str, str_eq, join}
use fluxqueue.Types.{JobWrapped, UngateArgs, Pod}
use fluxqueue.Service.{Services, failure, M, ◌>>=◌, ◌>>◌, pure, fail, crash, perform}
use fluxqueue.Service.Calls.{Call}
use fluxqueue.Service.Patches.{Patch}
use fluxqueue.Workers.Gate.{scheduling_gate_name, remove_gate}
use fluxqueue.Workers.Release.{allocation_labels, separator, is_type}

abbrev pub selector_label : Str
selector_label = str "fluxqueue.selector"

unfoldable pub has_gate : List Str → Bool
has_gate [] = false
has_gate (g ∷ gs) = str_eq g scheduling_gate_name || has_gate gs

unfoldable pub selector_of : Str → UngateArgs → Str
selector_of kind args =
    selector_label ++ (str "=" ++ (kind ++ (str "-" ++ (args.name ++ (str "-" ++ args.namespace)))))

-- The empty selector is left for any other type.
unfoldable pub selector : UngateArgs → Str
unfolding selector_of
selector args =
    if is_type JobWrapped.deployment args.type
    then selector_of (str "deployment") args
    else if is_type JobWrapped.replica_set args.type
    then selector_of (str "replicaset") args
    else if is_type JobWrapped.stateful_set args.type
    then selector_of (str "statefulset") args
    else []

module _ (S : Services) (args : UngateArgs) where
  unfoldable pub label_pod : Str → Str → Str → M (Unit {0})
  label_pod namespace name nodes =
      let patch = Patch.labels (allocation_labels nodes args.job_id) in
      perform (λ t. S.patch_pod t namespace name patch) (Call.patch_pod namespace name patch)

  -- job.Args.Nodes[i] panics out of bounds.
  unfoldable pub assign : Pod → Option Str → M (Unit {0})
  unfolding label_pod
  assign pod none = crash
  assign pod (some node) =
      label_pod args.namespace pod.name node >> remove_gate S pod.namespace pod.name

  unfoldable pub visit : ℕ → Pod → M (Unit {0})
  unfolding assign has_gate
  visit i pod =
      if not (has_gate pod.scheduling_gates) then pure tt else assign pod (get_elem? args.nodes i)

  -- `total` is the number of all pods, against which the source tests `i`.
  unfoldable pub ungate_loop : ℕ → ℕ → List Pod → M (Unit {0})
  unfolding visit
  ungate_loop total i [] = pure tt
  ungate_loop total i (pod ∷ pods) =
      let rest = ungate_loop total (suc i) pods in
      if leb total i then pure tt else (visit i pod >> rest)

  unfoldable pub work_single : M (Unit {0})
  unfolding label_pod
  work_single =
      label_pod args.namespace args.name (join separator args.nodes)
      >> remove_gate S args.namespace args.name

  unfoldable pub work_group : M (Unit {0})
  unfolding ungate_loop selector
  work_group = do
    pods ←
        perform (λ t. S.list_pods t args.namespace (selector args))
          (Call.list_pods args.namespace (selector args))
    ungate_loop (length pods) 0 pods
    if ltb (length pods) (length args.nodes)
        then fail (failure (str "ungate pods job did not have all pods"))
        else pure tt

  unfoldable pub work : M (Unit {0})
  unfolding work_single work_group
  work =
      perform S.new_clientset Call.new_clientset
      >> (if is_type JobWrapped.pod args.type then work_single else work_group)
