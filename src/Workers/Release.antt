-- ===== src/Workers/Release.antt =====
-- The helpers of job.go that release a job's pods, or mark it as one that cannot be scheduled.
pub mod Outcome
use fluxqueue.Base.{ℕ, Bool, true, false, ◌||◌, List, [], ◌∷◌, ◌++◌, if◌then◌else◌}
use fluxqueue.Base.Int.{ℤ, pos}
use fluxqueue.Base.Str.{Str, str, str_eq, join}
use fluxqueue.Base.Decimal.{format_int}
use fluxqueue.Types.{JobArgs, JobWrapped, wrapped_string, UngateArgs, ungate_args, InsertOpts}
use fluxqueue.Service.{Services, failure, M, ◌>>=◌, ◌>>◌, pure, fail, perform, ignore}
use fluxqueue.Service.Calls.{Call}
use fluxqueue.Service.Patches.{Patch, nodes_label, flux_job_id_label, unschedulable_label}
use fluxqueue.Workers.Gate.{remove_gate}

-- The labels that carry an allocation to the scheduler plugin.
unfoldable pub allocation_labels : Str → ℤ → List (Str × Str)
allocation_labels nodes_str flux_id =
    (nodes_label, nodes_str) ∷ (flux_job_id_label, format_int flux_id) ∷ []

abbrev pub rejected_labels : List (Str × Str)
rejected_labels = (unschedulable_label, str "yes") ∷ []

abbrev pub separator : Str
separator = str "__"

abbrev pub is_type : JobWrapped → Str → Bool
is_type w type = str_eq type (wrapped_string w)

abbrev pub ungate_opts : InsertOpts
ungate_opts = record { max_attempts = pos 0; tags = str "ungate" ∷ []; queue = str "task_queue" }

module _ (S : Services) where
  unfoldable pub patch_job : Str → Str → Patch → M (Unit {0})
  patch_job namespace name patch =
      perform (λ t. S.patch_job t namespace name patch) (Call.patch_job namespace name patch)

  unfoldable pub unsuspend_job : Str → Str → List Str → ℤ → M (Unit {0})
  unfolding patch_job
  unsuspend_job namespace name nodes flux_id =
      perform S.new_clientset Call.new_clientset
      >> patch_job namespace name
          (Patch.unsuspend_template (allocation_labels (join separator nodes) flux_id))

  -- Not called by the program.
  unfoldable pub ungate_set : Str → Str → List Str → ℤ → M (Unit {0})
  ungate_set namespace name nodes flux_id =
      let patch = Patch.template (allocation_labels (join separator nodes) flux_id) in
      perform S.new_clientset Call.new_clientset
      >> perform (λ t. S.patch_stateful_set t namespace name patch)
          (Call.patch_stateful_set namespace name patch)

  unfoldable pub patch_unsuspend : Str → Str → M (Unit {0})
  unfolding patch_job
  patch_unsuspend namespace name = patch_job namespace name Patch.suspend_null

  -- The last call has its two arguments in this order in the source too.
  unfoldable pub reject_job : Str → Str → M (Unit {0})
  unfolding patch_job patch_unsuspend
  reject_job namespace name = do
    perform S.new_clientset Call.new_clientset
    patch_job namespace name (Patch.unsuspend_template rejected_labels)
    patch_unsuspend name namespace

  unfoldable pub reject_pod : Str → Str → M (Unit {0})
  reject_pod namespace name = do
    let patch = Patch.labels rejected_labels
    perform S.new_clientset Call.new_clientset
    perform (λ t. S.patch_pod t namespace name patch) (Call.patch_pod namespace name patch)
    remove_gate S namespace name

  unfoldable pub ungate_pod : Str → Str → Str → List Str → ℤ → M (Unit {0})
  ungate_pod namespace name job_type nodes flux_id =
      let args = ungate_args (record {
        name = name;
        type = job_type;
        namespace = namespace;
        nodes = nodes;
        job_id = flux_id;
      }) in
      perform (λ t. S.insert t args ungate_opts) (Call.insert args ungate_opts)

  -- The result of `ungatePod` is dropped.
  unfoldable pub release_job : JobArgs → ℤ → List Str → M (Unit {0})
  unfolding unsuspend_job ungate_pod
  release_job args flux_id nodes =
      if is_type JobWrapped.job args.type
      then unsuspend_job args.namespace args.name nodes flux_id
      else if is_type JobWrapped.deployment args.type
          || (is_type JobWrapped.pod args.type
              || (is_type JobWrapped.replica_set args.type
                  || is_type JobWrapped.stateful_set args.type))
      then ignore (ungate_pod args.namespace args.name args.type nodes flux_id)
      else fail (failure (str "unknown job type passed to fluxion schedule for job"))

  unfoldable pub mark_unschedulable : JobArgs → M (Unit {0})
  unfolding reject_job reject_pod
  mark_unschedulable args =
      if is_type JobWrapped.job args.type
      then reject_job args.namespace args.name
      else if is_type JobWrapped.pod args.type
      then reject_pod args.namespace args.name
      else pure tt

  unfoldable pub reserve_job : JobArgs → ℤ → M (Unit {0})
  reserve_job args flux_id = do
    perform S.new_pool Call.new_pool
    perform (λ t. S.add_reservation t args.name flux_id) (Call.add_reservation args.name flux_id)
