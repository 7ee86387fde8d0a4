-- ===== src/Workers/Ungate/Bounds.antt =====
-- The index into the assigned nodes, when the pods are gone through.
use fluxqueue.Base.{
  ℕ, zero, suc, All, ◌+◌, ◌≤◌, ◌<◌, ◌≡◌, ◌≢◌, refl, true, none, List, [], ◌∷◌, arith, get_elem?,
  length, inl, inr, Option-cases,
}
use fluxqueue.Base.Str.{Str}
use fluxqueue.Types.{Pod, UngateArgs}
use fluxqueue.Service.{Services, ok, panic, replied}
use fluxqueue.Service.Calls.{Call}
use fluxqueue.Service.Patches.{Patch}
use fluxqueue.Workers.Gate.{remove_gate, gate_index}
use native.Mathlib.Decide.{dec_lt}
use fluxqueue.Workers.Release.{allocation_labels}
use fluxqueue.Workers.Ungate.{has_gate, selector, work_group, visit, ungate_loop}

get_elem?-some {ℓ} : {A : Type ℓ} (xs : List A) (i : ℕ) → i < length xs → get_elem? xs i ≢ none
get_elem?-some [] i h e = elim h [ ]
get_elem?-some (x ∷ xs) zero h e = cc
get_elem?-some (x ∷ xs) (suc i) h e = get_elem?-some xs i (omega arith) e

get_elem?-none {ℓ} : {A : Type ℓ} (xs : List A) (i : ℕ) → length xs ≤ i → get_elem? xs i ≡ none
get_elem?-none [] i h = refl
get_elem?-none (x ∷ xs) zero h = absurd (omega arith)
get_elem?-none (x ∷ xs) (suc i) h = get_elem?-none xs i (omega arith)

module _ (S : Services) (args : UngateArgs) where
  visit-ne-panic :
      (i : ℕ) (pod : Pod) (t : List Call) → i < length args.nodes → (visit S args i pod t).0 ≢ panic
  unfolding visit remove_gate
  visit-ne-panic i pod t h e = elim (Option-cases (get_elem? args.nodes i)) [
    | inl missing ↦ get_elem?-some args.nodes i h missing
    | inr (node, found) ↦ ground (arith, e, found)
  ]

  ungate_loop-ne-panic :
      (total i : ℕ) (pods : List Pod) (t : List Call)
      → i + length pods ≤ length args.nodes
      → (ungate_loop S args total i pods t).0 ≢ panic
  unfolding ungate_loop
  ungate_loop-ne-panic total i [] t h e = cc
  ungate_loop-ne-panic total i (pod ∷ pods) t h e = ground (
    arith,
    e,
    visit-ne-panic i pod t (omega arith),
    ungate_loop-ne-panic total (suc i) pods (visit S args i pod t).1 (omega arith),
  )

  -- If no more pods are listed than nodes were assigned, going through them does not panic.
  pub work_group-ne-panic :
      (t : List Call) (pods : List Pod)
      → S.list_pods t args.namespace (selector args) ≡ replied pods
      → length pods ≤ length args.nodes
      → (work_group S args t).0 ≢ panic
  unfolding work_group
  work_group-ne-panic t pods listed fits e = ground (
    arith,
    e,
    listed,
    ungate_loop-ne-panic (length pods) 0 pods (Call.list_pods args.namespace (selector args) ∷ t)
        (omega arith),
  )

  -- A Kubernetes API that answers every read and takes every patch of a pod.
  pub record IsWilling : Type 0 where
    pub reads :
        (t : List Call) (namespace name : Str)
        → (pod : Pod) × (S.get_pod t namespace name ≡ replied pod)
    pub patches :
        (t : List Call) (namespace name : Str) (p : Patch)
        → S.patch_pod t namespace name p ≡ replied tt

  pub visit_ok :
      (i : ℕ) (pod : Pod) (t : List Call)
      → IsWilling
      → i < length args.nodes
      → (visit S args i pod t).0 ≡ ok tt
  unfolding visit remove_gate
  visit_ok i pod t w h = elim (Option-cases (get_elem? args.nodes i)) [
    | inl missing ↦ absurd (get_elem?-some args.nodes i h missing)
    | inr (node, found) ↦
        let patch : Patch = Patch.labels (allocation_labels node args.job_id) in
        let u : List Call = Call.patch_pod args.namespace pod.name patch ∷ t in
        let (read, answer) = w.reads u pod.namespace pod.name in
        let removal : Patch = Patch.remove_gate (gate_index read.scheduling_gates) in
        ground (
          arith,
          found,
          answer,
          w.patches t args.namespace pod.name patch,
          w.patches (Call.get_pod pod.namespace pod.name ∷ u) pod.namespace pod.name removal,
        )
  ]

  visit_panics :
      (i : ℕ) (pod : Pod) (t : List Call)
      → has_gate pod.scheduling_gates ≡ true
      → length args.nodes ≤ i
      → (visit S args i pod t).0 ≡ panic
  unfolding visit
  visit_panics i pod t gated h = ground (arith, gated, get_elem?-none args.nodes i h)

  ungate_loop_panics :
      (total i : ℕ) (pods : List Pod) (t : List Call)
      → IsWilling
      → All (λ pod. has_gate pod.scheduling_gates ≡ true) pods
      → i ≤ length args.nodes
      → i + length pods ≤ total
      → length args.nodes < i + length pods
      → (ungate_loop S args total i pods t).0 ≡ panic
  unfolding ungate_loop
  ungate_loop_panics total i [] t w gated inside h more = absurd (omega arith)
  ungate_loop_panics total i (pod ∷ pods) t w (gate, gated) inside h more =
      elim (dec_lt i (length args.nodes)) [
        | yes below ↦ ground (
          arith,
          visit_ok i pod t w below,
          ungate_loop_panics total (suc i) pods (visit S args i pod t).1 w gated (omega arith)
              (omega arith) (omega arith),
        )
        | no beyond ↦ ground (arith, visit_panics i pod t gate (omega arith))
      ]

  -- If more pods are listed than nodes were assigned and all of them have the gate, then on a
  -- willing API the worker panics.
  pub work_group_panics :
      (t : List Call) (pods : List Pod)
      → IsWilling
      → S.list_pods t args.namespace (selector args) ≡ replied pods
      → All (λ pod. has_gate pod.scheduling_gates ≡ true) pods
      → length args.nodes < length pods
      → (work_group S args t).0 ≡ panic
  unfolding work_group
  work_group_panics t pods w listed gated more = ground (
    arith,
    listed,
    ungate_loop_panics (length pods) 0 pods (Call.list_pods args.namespace (selector args) ∷ t) w
        gated (omega arith) (omega arith) (omega arith),
  )
