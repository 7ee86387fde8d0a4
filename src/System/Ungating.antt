-- ===== src/System/Ungating.antt =====
-- The worker that takes gates off keeps to the law.
use fluxqueue.Base.{
  ◌≡◌, ◌⊎◌, inl, inr, refl, ℕ, suc, true, List, [], ◌∷◌, get_elem?, length, ltb, leb, Bool-cases,
  Option-cases,
}
use fluxqueue.Base.Str.{Str, join, in_list}
use fluxqueue.Types.{JobWrapped, UngateArgs, Pod}
use fluxqueue.Service.{Services, M, ◌>>◌}
use fluxqueue.Service.Calls.{Call}
use fluxqueue.Service.Patches.{Patch}
use fluxqueue.Plugin.Assign.{get_elem?-in_list}
use fluxqueue.Workers.Gate.{remove_gate}
use fluxqueue.Workers.Release.{allocation_labels, separator, is_type}
use fluxqueue.Workers.Ungate.{
  has_gate, selector, label_pod, assign, visit, ungate_loop, work_single, work_group,
}
use fluxqueue.Workers.Ungate as Ungate
use fluxqueue.System.Past.{Allocated, Marked}
use fluxqueue.System.Lawful.{Keeps, Keeps-refl, bind-Keeps, call-Keeps}
use fluxqueue.System.Tasks.{Allocated-Keeps, ends-Keeps, remove_gate-Keeps}

module _ (S : Services) where
  module _ (args : UngateArgs) where
    label_pod-Keeps :
        (namespace name text : Str) (t : List Call)
        → Allocated S args.nodes args.job_id t
        → (text ≡ join separator args.nodes) ⊎ (in_list text args.nodes ≡ true)
        → (rest : M (Unit {0}))
        → ((u : List Call)
            → Marked S name u
            → Allocated S args.nodes args.job_id u
            → Keeps S u (rest u).1)
        → Keeps S t ((label_pod S args namespace name text >> rest) t).1
    unfolding label_pod
    label_pod-Keeps namespace name text t given which rest k =
        let patch : Patch = Patch.labels (allocation_labels text args.job_id) in
        call-Keeps S (λ u. S.patch_pod u namespace name patch) (Call.patch_pod namespace name patch)
          (λ _. rest) t (λ _. inr (args.nodes, args.job_id, text, given, refl, which))
          λ _ taken. k _ (inl (taken, refl)) given

    visit-Keeps :
        (i : ℕ) (pod : Pod) (t : List Call)
        → Allocated S args.nodes args.job_id t
        → Keeps S t (visit S args i pod t).1
    unfolding visit assign
    visit-Keeps i pod t given = elim (Bool-cases (has_gate pod.scheduling_gates)) [
      | inr open_pod ↦ rw open_pod (Keeps-refl S t)
      | inl gated ↦ elim (Option-cases (get_elem? args.nodes i)) [
        | inl missing ↦ rw (gated, missing) (Keeps-refl S t)
        | inr (node, found) ↦
            rw (gated, found)
              (label_pod-Keeps args.namespace pod.name node t given
                (inr (get_elem?-in_list args.nodes i node found))
                (remove_gate S pod.namespace pod.name)
                λ u marked _. remove_gate-Keeps S pod.namespace pod.name u marked)
      ]
    ]

    ungate_loop-Keeps :
        (total i : ℕ) (pods : List Pod) (t : List Call)
        → Allocated S args.nodes args.job_id t
        → Keeps S t (ungate_loop S args total i pods t).1
    unfolding ungate_loop
    ungate_loop-Keeps total i [] t given = Keeps-refl S t
    ungate_loop-Keeps total i (pod ∷ pods) t given =
        let k : Keeps S t (visit S args i pod t).1 = visit-Keeps i pod t given in
        elim (Bool-cases (leb total i)) [
          | inl beyond ↦ rw beyond (Keeps-refl S t)
          | inr within ↦ rw within (
              bind-Keeps S (visit S args i pod) _ t k λ _ _.
                ungate_loop-Keeps total (suc i) pods _
                  (Allocated-Keeps S args.nodes args.job_id k given))
        ]

    pub ungate-Keeps :
        (t : List Call) → Allocated S args.nodes args.job_id t → Keeps S t (Ungate.work S args t).1
    unfolding Ungate.work work_single work_group
    ungate-Keeps t given =
        call-Keeps S S.new_clientset Call.new_clientset _ t (λ _. tt)
          λ _ _. elim (Bool-cases (is_type JobWrapped.pod args.type)) [
            | inl single ↦ rw single (
                label_pod-Keeps args.namespace args.name (join separator args.nodes) _ given
                  (inl refl) (remove_gate S args.namespace args.name)
                  λ u marked _. remove_gate-Keeps S args.namespace args.name u marked)
            | inr group ↦ rw group (
                call-Keeps S (λ u. S.list_pods u args.namespace (selector args))
                  (Call.list_pods args.namespace (selector args)) _ _ (λ _. tt)
                  λ pods _.
                    bind-Keeps S (ungate_loop S args (length pods) 0 pods) _ _
                      (ungate_loop-Keeps (length pods) 0 pods _ given)
                      λ _ _. ends-Keeps S (ltb (length pods) (length args.nodes)) _ _)
          ]
