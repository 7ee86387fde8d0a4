-- ===== src/System/Scheduled.antt =====
-- One pod on its whole way: from its FluxJob to its node.
use mathlib.Core.Path.{subst}
use fluxqueue.Base.{◌≡◌, inl, inr, refl, true, false, none, some, All, List, [], ◌∷◌, arith}
use fluxqueue.Base.Str.{Str, Lacks, join, str_eq_refl, split-join}
use fluxqueue.Base.Decimal.{parse_int}
use fluxqueue.Base.Assoc.{lookup}
use fluxqueue.Types.{
  JobWrapped, FluxJob, UngateArgs, ungate_args, MatchResponse, AllocationNode, Pod, status_submit,
  wrapped_string,
}
use fluxqueue.Service.{Services, replied}
use fluxqueue.Service.Calls.{Call}
use fluxqueue.Service.Patches.{Patch, nodes_label, unschedulable_label}
use fluxqueue.Queue.Pending.{has_row, table}
use fluxqueue.Webhook.{MakeJobspec}
use fluxqueue.Webhook.Handle.{Codec}
use fluxqueue.Controller.{same_status}
use fluxqueue.Plugin.{pre_filter, assigned, completion_index_label}
use fluxqueue.Workers.Nodes.{nodes_of}
use fluxqueue.Workers.Gate.{gate_index, remove_gate}
use fluxqueue.Workers.Release.{allocation_labels, separator, is_type}
use fluxqueue.Workers.Ungate as Ungate
use fluxqueue.System.{Submitted, Reach, later, ungate_task}
use fluxqueue.System.Past.{args_of}
use fluxqueue.System.Invariant.{Called}
use fluxqueue.System.Progress.{AcceptsJobs}
use fluxqueue.System.Released.{Allocates}
use fluxqueue.System.Released.{TakesTasks}
use fluxqueue.System.Gated.{gated_task, gated-Submitted}

-- What the services must do for a pod to be let go, beside the allocation: river takes its task, and the
-- API server returns the pod and takes its patches.
pub record Releases (S : Services) (namespace name : Str) (pod : Pod) : Type 0 where
  pub inserts : TakesTasks S
  pub clients : (t : List Call) → S.new_clientset t ≡ replied tt
  pub reads : (t : List Call) → S.get_pod t namespace name ≡ replied pod
  pub patches : (t : List Call) (p : Patch) → S.patch_pod t namespace name p ≡ replied tt

module _ (S : Services) where
  abbrev labels_call : UngateArgs → Call
  labels_call a =
      Call.patch_pod a.namespace a.name
        (Patch.labels (allocation_labels (join separator a.nodes) a.job_id))

  work_ungates :
      (pod : Pod) (a : UngateArgs) (t : List Call)
      → Releases S a.namespace a.name pod
      → is_type JobWrapped.pod a.type ≡ true
      → (Ungate.work S a t).1
        ≡ Call.patch_pod a.namespace a.name (Patch.remove_gate (gate_index pod.scheduling_gates))
          ∷ Call.get_pod a.namespace a.name
          ∷ labels_call a
          ∷ Call.new_clientset
          ∷ t
  unfolding Ungate.work Ungate.work_single Ungate.label_pod remove_gate
  work_ungates pod a t r single =
      let patch : Patch = Patch.labels (allocation_labels (join separator a.nodes) a.job_id) in
      ground (
        arith,
        single,
        r.clients t,
        r.patches (Call.new_clientset ∷ t) patch,
        r.reads (labels_call a ∷ Call.new_clientset ∷ t),
      )

is_type-pod :
    (w : JobWrapped) → w ≡ JobWrapped.pod → is_type JobWrapped.pod (wrapped_string w) ≡ true
is_type-pod w e = rw e (str_eq_refl (wrapped_string JobWrapped.pod))

-- A pod without a completion index is bound to the first node of its label.
pub pre_filter-first :
    (pod : Pod) (x : Str) (xs : List Str)
    → lookup unschedulable_label pod.labels ≡ none
    → lookup nodes_label pod.labels ≡ some (join separator (x ∷ xs))
    → lookup completion_index_label pod.labels ≡ none
    → All (Lacks b'_') (x ∷ xs)
    → pre_filter pod ≡ assigned x
unfolding pre_filter parse_int
pre_filter-first pod x xs schedulable labelled unindexed plain =
    ground (arith, schedulable, labelled, unindexed, split-join b'_' b'_' x xs plain.0 plain.1)

module _ (S : Services) (make_jobspec : MakeJobspec) (codec : Codec) where
  -- From every reachable state, if the services accept jobs, if a FluxJob of a pod is read that is not
  -- submitted yet and whose name and namespace no pending row has, if Fluxion answers the request of
  -- its job with an allocation whose first node is `node`, and if river and the API server accept the rest,
  -- then a state can be reached in which the pod was given the labels of that allocation and its gate was taken off;
  -- and the scheduler plugin then binds a pod with this nodes label to `node`, if the pod has no
  -- completion index, is not marked as unschedulable, and no name of a node has an underscore.
  pub pod_scheduled :
      {t : List Call} (namespace name : Str) (spec : FluxJob) (response : MatchResponse)
      (graph : List AllocationNode) (pod placed : Pod) (node : Str) (nodes : List Str)
      → Reach S make_jobspec codec t
      → AcceptsJobs S
      → S.get_flux_job t namespace name ≡ replied spec
      → same_status spec.submit_status status_submit ≡ false
      → spec.spec.type ≡ JobWrapped.pod
      → has_row spec.spec.name spec.namespace (table S [] t) ≡ false
      → Allocates S (args_of spec) response graph
      → Releases S spec.namespace spec.spec.name pod
      → nodes_of graph ≡ node ∷ nodes
      → All (Lacks b'_') (node ∷ nodes)
      → lookup nodes_label placed.labels ≡ some (join separator (node ∷ nodes))
      → lookup unschedulable_label placed.labels ≡ none
      → lookup completion_index_label placed.labels ≡ none
      → (u : List Call) × Reach S make_jobspec codec u
        × Called
            (Call.patch_pod spec.namespace spec.spec.name
              (Patch.labels (allocation_labels (join separator (node ∷ nodes)) response.job_id)))
            u
        × Called
            (Call.patch_pod spec.namespace spec.spec.name
              (Patch.remove_gate (gate_index pod.scheduling_gates)))
            u
        × (pre_filter placed ≡ assigned node)
  pod_scheduled namespace name spec response graph pod placed node nodes r accepts found new wrapped
        unseen allocates releases split_nodes plain labelled schedulable unindexed =
      let task = gated_task spec response.job_id (node ∷ nodes) in
      let (v, reached, queued) =
        gated-Submitted S make_jobspec codec namespace name spec response graph r accepts found new
          (rw wrapped refl) unseen allocates releases.inserts in
      let taken : Submitted S (ungate_args task) v =
        subst (λ ns. Submitted S (ungate_args (gated_task spec response.job_id ns)) v) split_nodes
          queued in
      let calls = work_ungates S pod task v releases (is_type-pod spec.spec.type wrapped) in
      (
        (Ungate.work S task v).1,
        later reached (ungate_task task taken),
        rw calls (inr (inr (inl refl))),
        rw calls (inl refl),
        pre_filter-first placed node nodes schedulable labelled unindexed plain,
      )
