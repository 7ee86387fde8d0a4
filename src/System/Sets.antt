-- ===== src/System/Sets.antt =====
-- A set of pods on its whole way: from its FluxJob to the nodes that the plugin binds its pods to.
use fluxqueue.Base.{◌≡◌, Bool, true, false, none, some, List, [], ◌∷◌}
use fluxqueue.Base.Str.{Str}
use fluxqueue.Types.{JobWrapped, UngateArgs, Pod}
use fluxqueue.Service.{Services, replied}
use fluxqueue.Service.Calls.{Call}
use fluxqueue.Workers.Ungate as Ungate
use fluxqueue.Workers.Ungate.{selector}
use fluxqueue.Workers.Ungate.Bounds.{IsWilling}
use fluxqueue.Base.Assoc.{lookup}
use fluxqueue.Service.Patches.{nodes_label, unschedulable_label}
use fluxqueue.Plugin.{completion_index_label}
use fluxqueue.System.Released.{TakesTasks}

-- The types that wrap a set of pods.
abbrev pub is_set : JobWrapped → Bool
is_set JobWrapped.deployment = true
is_set JobWrapped.replica_set = true
is_set JobWrapped.stateful_set = true
is_set _ = false

-- The first is related to the first, the second to the second, and so to the end of the first list.
abbrev pub Paired : {A B : Type 0} → (A → B → Type 0) → List A → List B → Type 0
Paired R [] ys = Unit
Paired R (x ∷ xs) [] = ⊥
Paired R (x ∷ xs) (y ∷ ys) = R x y × Paired R xs ys

-- What the services must do for a set of pods to be let go, beside the allocation.
pub record ReleasesSet (S : Services) (task : UngateArgs) (pods : List Pod) : Type 0 where
  pub takes : TakesTasks S
  pub clients : (t : List Call) → S.new_clientset t ≡ replied tt
  pub lists : (t : List Call) → S.list_pods t task.namespace (selector task) ≡ replied pods
  pub willing : IsWilling S task

-- The pod has the label of this node, and is neither indexed nor marked as unschedulable.
pub record IsLabelled (pod : Pod) (node : Str) : Type 0 where
  pub labelled : lookup nodes_label pod.labels ≡ some node
  pub schedulable : lookup unschedulable_label pod.labels ≡ none
  pub unindexed : lookup completion_index_label pod.labels ≡ none
