-- ===== src/Tests/System.antt =====
-- The whole program over services that answer every call: a FluxJob that wraps a pod is queued,
-- allocated, and its pod released.
use mathlib.Core.Path.{subst}
use fluxqueue.Base.{◌≡◌, ◌⊎◌, inl, inr, refl, true, List, [], ◌∷◌, arith, All}
use fluxqueue.Base.Int.{ℤ, pos}
use fluxqueue.Base.Str.{Str, str, str_eq, contains, in_list, join, split, Lacks}
use fluxqueue.Base.Decimal.{format_int, parse_int}
use fluxqueue.Base.Assoc.{lookup, insert}
use fluxqueue.Types.{
  JobWrapped, JobArgs, UngateArgs, job_args, ungate_args, FluxJob, Pod, wrapped_string,
  status_submit,
}
use fluxqueue.Service.{Services}
use fluxqueue.Service.Calls.{Call}
use fluxqueue.Service.Patches.{Patch}
use fluxqueue.Strategy.{easy_backfill, batch_loop, job_of_model}
use fluxqueue.Queue.{enqueue, schedule, cycle, submit_batch, delete_batch, delete_job}
use fluxqueue.Queue.Cycle.{easy_queue}
use fluxqueue.Queue.Pending.{IsDatabase, has_row, model_of_row}
use fluxqueue.Controller.{reconcile}
use fluxqueue.Plugin.{pre_filter}
use fluxqueue.Workers.Nodes.{parse_nodes, nodes_of}
use fluxqueue.Workers.Release.{reserve_job, release_job, allocation_labels, separator}
use fluxqueue.Workers.Gate.{remove_gate, gate_index}
use fluxqueue.Workers.Job as Job
use fluxqueue.Workers.Ungate as Ungate
use fluxqueue.System.{Submitted, Reach, start, later, reconciled, job_task, ungate_task}
use fluxqueue.System.Past.{Labelled, Allocated}
use fluxqueue.System.Lawful.{Extends, same, more, FromFluxJob}
use fluxqueue.System.Invariant.{Called, submitted_jobs_lem}
use fluxqueue.System.Safety.{
  Patched, PlainNames, pod_labels_lem, removed_gate_lem, deleted_pending_lem, pre_filter-Allocated,
}
use fluxqueue.Tests.Webhook.{make_jobspec, job_codec}
use fluxqueue.Tests.Database.{
  rows, willing, reading, reading-IsDatabase, sample_job, sample_spec, sample_graph,
}

abbrev pub pod_job : FluxJob
pod_job = record sample_job { spec = record sample_spec { type = JobWrapped.pod } }

-- The first read returns the job as new, a later one as submitted.
unfoldable pub seen_before : List Call → FluxJob
seen_before [] = pod_job
seen_before (c ∷ t) = record pod_job { submit_status = status_submit }

unfoldable pub pods : Services
unfolding reading seen_before
pods = reading seen_before

pub pods-IsDatabase : IsDatabase pods []
unfolding pods
pods-IsDatabase = reading-IsDatabase seen_before

abbrev pub pod_args : JobArgs
pod_args = record {
  jobspec = str "version: 1";
  name = str "lammps";
  namespace = str "default";
  flux_job_name = str "lammps-job";
  type = str "0";
  reservation = pos 0;
  duration = pos 3600;
  size = pos 2;
  nodes = [];
}

abbrev pod_ungate : UngateArgs
pod_ungate = record {
  name = str "lammps";
  type = str "0";
  namespace = str "default";
  nodes = str "kind-worker" ∷ str "kind-worker2" ∷ [];
  job_id = pos 12;
}

-- The calls after the first reconciliation, after the job's task, and after the ungate task.
unfoldable pub queued : List Call
unfolding pods reconcile
queued = (reconcile pods (easy_queue pods (pos 1) 0) (str "default") (str "lammps-job") []).1

unfoldable worked : List Call
unfolding Job.work
worked = (Job.work pods pod_args queued).1

unfoldable released : List Call
unfolding Ungate.work
released = (Ungate.work pods pod_ungate worked).1

unfoldable finished : List Call
unfolding reconcile
finished =
    (reconcile pods (easy_queue pods (pos 1) 0) (str "default") (str "lammps-job") released).1

pub Submitted-queued : Submitted pods (job_args pod_args) queued
unfolding pods queued enqueue contains has_row rows schedule cycle easy_backfill submit_batch
    batch_loop delete_batch delete_job job_of_model model_of_row wrapped_string format_int
Submitted-queued = inl (refl, inl refl)

pub Reach-first : Reach pods make_jobspec job_codec []
Reach-first = start tt

Reach-worked : Reach pods make_jobspec job_codec worked
unfolding worked queued
Reach-worked =
    later (later Reach-first (reconciled (pos 1) 0 (str "default") (str "lammps-job")))
      (job_task pod_args Submitted-queued)

Submitted-worked : Submitted pods (ungate_args pod_ungate) worked
unfolding pods worked Job.work reserve_job str_eq parse_nodes release_job wrapped_string format_int
    lookup insert
Submitted-worked = inl (refl, refl)

Reach-released : Reach pods make_jobspec job_codec released
unfolding released
Reach-released = later Reach-worked (ungate_task pod_ungate Submitted-worked)

Reach-finished : Reach pods make_jobspec job_codec finished
unfolding finished
Reach-finished = later Reach-released (reconciled (pos 1) 0 (str "default") (str "lammps-job"))

abbrev gang : List Str
gang = str "kind-worker" ∷ str "kind-worker2" ∷ []

unfoldable pub pod_labels : List (Str × Str)
unfolding allocation_labels
pod_labels = allocation_labels (join separator gang) (pos 12)

Called-labels :
    Called (Call.patch_pod (str "default") (str "lammps") (Patch.labels pod_labels)) released
unfolding pod_labels pods released worked queued Ungate.work remove_gate allocation_labels str_eq
    wrapped_string format_int
Called-labels = inr (inr (inl refl))

Called-remove_gate :
    Called (Call.patch_pod (str "default") (str "lammps") (Patch.remove_gate 1)) released
unfolding pods released worked queued Ungate.work remove_gate allocation_labels str_eq
    wrapped_string format_int gate_index
Called-remove_gate = inl refl

Called-delete_pending : Called (Call.delete_pending (str "lammps") (str "default")) queued
unfolding pods queued reconcile enqueue contains has_row rows schedule cycle easy_backfill
    submit_batch batch_loop delete_batch delete_job job_of_model model_of_row
Called-delete_pending = inr (inl refl)

Called-delete_flux_job :
    Called (Call.delete_flux_job (record pod_job { submit_status = status_submit })) finished
unfolding pods finished released str_eq wrapped_string format_int remove_gate
Called-delete_flux_job = inl refl

submitted_jobs_lem_example : FromFluxJob pods pod_args queued
unfolding reconcile queued
submitted_jobs_lem_example =
    submitted_jobs_lem pods make_jobspec job_codec pods-IsDatabase pod_args
      (later Reach-first (reconciled (pos 1) 0 (str "default") (str "lammps-job"))) Submitted-queued

pod_labels_lem_example :
    (nodes : List Str) × Allocated pods nodes (pos 12) released
    × ((join separator gang ≡ join separator nodes) ⊎ (in_list (join separator gang) nodes ≡ true))
unfolding allocation_labels pod_labels
pod_labels_lem_example =
    pod_labels_lem pods make_jobspec job_codec pods-IsDatabase (str "default") (str "lammps")
      (join separator gang) (pos 12) Reach-released Called-labels

-- The calls before a call.
before : (c : Call) (t : List Call) → Called c t → (u : List Call) × Extends (c ∷ u) t
before c [] m = elim m [ ]
before c (d ∷ t) (inl e) = (t, subst (λ b. Extends (b ∷ t) (d ∷ t)) e same)
before c (d ∷ t) (inr m) = let (u, e) = before c t m in (u, more d e)

abbrev before_removal :
    (u : List Call) × Extends
      (Call.patch_pod (str "default") (str "lammps") (Patch.remove_gate 1) ∷ u)
      released
before_removal = before _ released Called-remove_gate

removed_gate_lem_example :
    (ns : Str) × (ls : List (Str × Str)) × Patched pods ns (str "lammps") ls before_removal.0
    × Labelled pods ls before_removal.0
removed_gate_lem_example =
    removed_gate_lem pods make_jobspec job_codec pods-IsDatabase (str "default") (str "lammps") 1
      Reach-released before_removal.1

abbrev before_delete :
    (u : List Call) × Extends (Call.delete_pending (str "lammps") (str "default") ∷ u) queued
before_delete = before _ queued Called-delete_pending

deleted_pending_lem_example :
    (a : JobArgs) × (a.name ≡ str "lammps")
    × (a.namespace ≡ str "default")
    × Submitted pods (job_args a) before_delete.0
unfolding reconcile queued
deleted_pending_lem_example =
    deleted_pending_lem pods make_jobspec job_codec pods-IsDatabase (str "default") (str "lammps")
      (later Reach-first (reconciled (pos 1) 0 (str "default") (str "lammps-job"))) before_delete.1

abbrev pub released_pod : Pod
released_pod = record {
  name = str "lammps";
  namespace = str "default";
  labels = pod_labels;
  scheduling_gates = [];
}

pub sample_graph-plain : All (Lacks b'_') (nodes_of sample_graph)
unfolding parse_nodes nodes_of lookup insert str_eq
sample_graph-plain = ground arith

PlainNames-pods : PlainNames pods
unfolding pods willing
PlainNames-pods allocation graph e =
    let same : sample_graph ≡ graph = cc in
    subst (λ g. All (Lacks b'_') (nodes_of g)) same sample_graph-plain

pre_filter-Allocated_example :
    (nodes : List Str) × (id : ℤ) × Allocated pods nodes id released
    × ((in_list (str "kind-worker") nodes ≡ true) ⊎ (nodes ≡ []))
unfolding pre_filter lookup pod_labels str_eq parse_int split join
pre_filter-Allocated_example =
    pre_filter-Allocated pods make_jobspec job_codec pods-IsDatabase pod_labels released_pod
      (str "kind-worker") Reach-released PlainNames-pods
      (inl (str "default", str "lammps", Called-labels)) refl refl
