-- ===== src/System/Assigned.antt =====
-- The pods of a set, each of which gets the node of its own place in the list.
use mathlib.Core.Path.{subst}
use fluxqueue.Base.{
  ◌≡◌, sym, ◌<◌, inl, inr, refl, ℕ, zero, suc, ◌+◌, ◌≤◌, true, some, List, [], ◌∷◌, arith,
  get_elem?, length, Bool-cases, Option-cases,
}
use fluxqueue.Base.Str.{Str}
use fluxqueue.Types.{Pod, UngateArgs}
use fluxqueue.Service.{Services, replied}
use fluxqueue.Service.Calls.{Call}
use fluxqueue.Service.Patches.{Patch}
use fluxqueue.Service.Keeps.{perform_keeps}
use fluxqueue.Workers.Gate.{remove_gate, gate_index}
use fluxqueue.Workers.Release.{allocation_labels}
use fluxqueue.Workers.Ungate.{has_gate, selector, label_pod, assign, visit, ungate_loop, work_group}
use fluxqueue.Workers.Ungate.Bounds.{IsWilling, visit_ok}
use fluxqueue.System.Invariant.{Called}

module _ (S : Services) (args : UngateArgs) where
  remove_gate-Called :
      (c : Call) (namespace name : Str) (t : List Call)
      → Called c t
      → Called c (remove_gate S namespace name t).1
  unfolding remove_gate
  remove_gate-Called c namespace name t h =
      perform_keeps (Called c) (λ u. S.get_pod u namespace name) (Call.get_pod namespace name) _ t
        (inr h) (λ pod k. inr k)

  visit-Called :
      (c : Call) (i : ℕ) (pod : Pod) (t : List Call)
      → Called c t
      → Called c (visit S args i pod t).1
  unfolding visit assign label_pod
  visit-Called c i pod t h = elim (Bool-cases (has_gate pod.scheduling_gates)) [
    | inr free ↦ rw free h
    | inl gated ↦ elim (Option-cases (get_elem? args.nodes i)) [
      | inl missing ↦ rw (gated, missing) h
      | inr (node, found) ↦
          rw (gated, found)
            (perform_keeps (Called c)
              (λ u.
                S.patch_pod u args.namespace pod.name
                  (Patch.labels (allocation_labels node args.job_id)))
              (Call.patch_pod args.namespace pod.name
                (Patch.labels (allocation_labels node args.job_id)))
              (λ _. remove_gate S pod.namespace pod.name) t (inr h)
              (λ _ k. remove_gate-Called c pod.namespace pod.name _ k))
    ]
  ]

  ungate_loop-Called :
      (c : Call) (total i : ℕ) (pods : List Pod) (t : List Call)
      → Called c t
      → Called c (ungate_loop S args total i pods t).1
  unfolding ungate_loop
  ungate_loop-Called c total i [] t h = h
  ungate_loop-Called c total i (pod ∷ pods) t h =
      let k : Called c (visit S args i pod t).1 = visit-Called c i pod t h in
      ground (arith, h, k, ungate_loop-Called c total (suc i) pods (visit S args i pod t).1 k)

  -- The patch that gives a pod one node, and that which takes off its gate.
  abbrev pub IsAssigned : Pod → Str → List Call → Type 0
  IsAssigned pod node t =
      Called
        (Call.patch_pod args.namespace pod.name (Patch.labels (allocation_labels node args.job_id)))
        t
      × ((k : ℕ) × Called (Call.patch_pod pod.namespace pod.name (Patch.remove_gate k)) t)

  visit-IsAssigned :
      (i : ℕ) (pod : Pod) (node : Str) (t : List Call)
      → IsWilling S args
      → has_gate pod.scheduling_gates ≡ true
      → get_elem? args.nodes i ≡ some node
      → IsAssigned pod node (visit S args i pod t).1
  unfolding visit assign label_pod remove_gate
  visit-IsAssigned i pod node t w gated found =
      let patch : Patch = Patch.labels (allocation_labels node args.job_id) in
      let u : List Call = Call.patch_pod args.namespace pod.name patch ∷ t in
      let (read, answer) = w.reads u pod.namespace pod.name in
      let taken = w.patches t args.namespace pod.name patch in
      (
        rw (gated, found, taken, answer) (inr (inr (inl refl))),
        (gate_index read.scheduling_gates, rw (gated, found, taken, answer) (inl refl)),
      )

  ungate_loop_step :
      (total i : ℕ) (pod : Pod) (pods : List Pod) (t : List Call)
      → IsWilling S args
      → i < length args.nodes
      → i < total
      → (ungate_loop S args total i (pod ∷ pods) t).1
        ≡ (ungate_loop S args total (suc i) pods (visit S args i pod t).1).1
  unfolding ungate_loop
  ungate_loop_step total i pod pods t w fits within =
      ground (arith, visit_ok S args i pod t w fits, fits, within)

  IsAssigned-ungate_loop :
      (total i : ℕ) (pods : List Pod) (pod : Pod) (node : Str) (t : List Call)
      → IsAssigned pod node t
      → IsAssigned pod node (ungate_loop S args total i pods t).1
  IsAssigned-ungate_loop total i pods pod node t (h, (k, m)) =
      (ungate_loop-Called _ total i pods t h, (k, ungate_loop-Called _ total i pods t m))

  ungate_loop-IsAssigned :
      (total i : ℕ) (pods : List Pod) (j : ℕ) (pod : Pod) (node : Str) (t : List Call)
      → IsWilling S args
      → get_elem? pods j ≡ some pod
      → has_gate pod.scheduling_gates ≡ true
      → get_elem? args.nodes (i + j) ≡ some node
      → i + length pods ≤ length args.nodes
      → i + length pods ≤ total
      → IsAssigned pod node (ungate_loop S args total i pods t).1
  ungate_loop-IsAssigned total i [] j pod node t w here gated found fits within = cc
  ungate_loop-IsAssigned total i (p ∷ pods) zero pod node t w here gated found fits within =
      let same : p ≡ pod = cc in
      let first : get_elem? args.nodes i ≡ some node =
        subst (λ n. get_elem? args.nodes n ≡ some node) (omega arith) found in
      let visited : IsAssigned pod node (visit S args i p t).1 =
        rw same (visit-IsAssigned i pod node t w gated first) in
      subst (IsAssigned pod node)
        (sym (ungate_loop_step total i p pods t w (omega arith) (omega arith)))
        (IsAssigned-ungate_loop total (suc i) pods pod node _ visited)
  ungate_loop-IsAssigned total i (p ∷ pods) (suc j) pod node t w here gated found fits within =
      let next : get_elem? args.nodes (suc i + j) ≡ some node =
        subst (λ n. get_elem? args.nodes n ≡ some node) (omega arith) found in
      subst (IsAssigned pod node)
        (sym (ungate_loop_step total i p pods t w (omega arith) (omega arith)))
        (ungate_loop-IsAssigned total (suc i) pods j pod node (visit S args i p t).1 w here gated
          next (omega arith) (omega arith))

  -- What follows the loop makes no call.
  work_group_calls :
      (t : List Call) (pods : List Pod)
      → S.list_pods t args.namespace (selector args) ≡ replied pods
      → (work_group S args t).1
        ≡ (ungate_loop S args
            (length pods)
            0
            pods
            (Call.list_pods args.namespace (selector args) ∷ t)).1
  unfolding work_group
  work_group_calls t pods listed = ground (arith, listed)

  -- On a willing API, if no more pods are listed than nodes were assigned, each pod of the list that has
  -- the gate is labelled with the node of its place, and its gate is taken off.
  pub work_group_assigns :
      (t : List Call) (pods : List Pod) (i : ℕ) (pod : Pod) (node : Str)
      → IsWilling S args
      → S.list_pods t args.namespace (selector args) ≡ replied pods
      → length pods ≤ length args.nodes
      → get_elem? pods i ≡ some pod
      → has_gate pod.scheduling_gates ≡ true
      → get_elem? args.nodes i ≡ some node
      → IsAssigned pod node (work_group S args t).1
  work_group_assigns t pods i pod node w listed fits here gated found =
      let u : List Call = Call.list_pods args.namespace (selector args) ∷ t in
      let zeroth : get_elem? args.nodes (0 + i) ≡ some node =
        subst (λ n. get_elem? args.nodes n ≡ some node) (omega arith) found in
      let h : IsAssigned pod node (ungate_loop S args (length pods) 0 pods u).1 =
        ungate_loop-IsAssigned (length pods) 0 pods i pod node u w here gated zeroth (omega arith)
          (omega arith) in
      subst (IsAssigned pod node) (sym (work_group_calls t pods listed)) h
