-- ===== src/Tests/Progress.antt =====
-- What the program gets done, over the services of `pods`.
use fluxqueue.Base.{◌≡◌, inl, refl, List, [], ◌∷◌, arith}
use fluxqueue.Base.Int.{pos}
use fluxqueue.Base.Str.{Str, str, str_eq, contains}
use fluxqueue.Base.Decimal.{format_int, format_nat}
use fluxqueue.Base.Assoc.{lookup, insert}
use fluxqueue.Types.{RiverConfig, JobArgs, FluxJob, wrapped_string}
use fluxqueue.Service.{ok}
use fluxqueue.Service.Calls.{Call}
use fluxqueue.Service.Patches.{Patch}
use fluxqueue.Strategy.{easy_add_workers, easy_backfill, job_params, batch_loop, job_of_model}
use fluxqueue.Queue.{
  Queue, new_queue, enqueue, schedule, cycle, submit_batch, delete_batch, delete_job,
}
use fluxqueue.Queue.Pending.{has_row, model_of_row, table}
use fluxqueue.Controller.{reconcile}
use fluxqueue.Plugin.{pre_filter, assigned}
use fluxqueue.Workers.Nodes.{see_all, see, nodes_of}
use fluxqueue.Workers.Gate.{gate_index}
use fluxqueue.System.{Reach, later, reconciled}
use fluxqueue.System.Past.{args_of}
use fluxqueue.System.Lawful.{IsServed}
use fluxqueue.System.Invariant.{Called}
use fluxqueue.Workers.Job.Outcome.{release_call}
use fluxqueue.System.Progress.{AcceptsJobs}
use fluxqueue.System.Released.{HasTaken, Allocates, new_job_released}
use fluxqueue.System.Scheduled.{Releases, pod_scheduled}
use fluxqueue.System.Served.{tasks-IsServed}
use fluxqueue.Tests.Webhook.{make_jobspec, job_codec}
use fluxqueue.Tests.Database.{
  rows, willing, reading, table-reading, reading-IsDatabase, sample_graph, sample_response,
  sample_pod,
}
use fluxqueue.Tests.System.{
  Reach-first, pod_job, seen_before, pods, pods-IsDatabase, pod_args, queued, pod_labels,
  released_pod,
}

abbrev no_tag : Str
no_tag = str "SELECT 0"

pub reading-AcceptsJobs : (job : List Call → FluxJob) → AcceptsJobs (reading job)
unfolding reading format_nat
reading-AcceptsJobs job = record {
  healthy = record {
    opens = λ t. refl;
    reads = λ t name namespace. (no_tag, refl, record { rows = 0; written = refl });
    inserts = λ t r. ground (arith, table-reading job t);
  };
  database = reading-IsDatabase job;
  queried = λ t. refl;
  collected = λ t. (_, refl);
  taken = λ t ps. refl;
  updated = λ t j. refl;
}

pub reading-Allocates :
    (job : List Call → FluxJob) (args : JobArgs)
    → Allocates (reading job) args sample_response sample_graph
unfolding reading
reading-Allocates job args = record {
  connects = λ t. refl;
  answers = λ t. refl;
  allocated = λ e. cc;
  readable = refl;
  clients = λ t. refl;
  patches = λ t namespace name p. refl;
}

new_job_released_example :
    (u : List Call) × Reach pods make_jobspec job_codec u
    × HasTaken pods (release_call (args_of pod_job) (pos 12) (nodes_of sample_graph)) u
unfolding pods reading seen_before has_row table
new_job_released_example =
    new_job_released pods make_jobspec job_codec (str "default") (str "lammps-job") pod_job
      sample_response sample_graph Reach-first (reading-AcceptsJobs seen_before) refl refl refl refl
      (reading-Allocates seen_before _) (λ t args opts. refl)

new_queue-pods : (q : Queue) × ((new_queue pods (easy_backfill pods) []).0 ≡ ok q)
unfolding pods willing new_queue easy_backfill easy_add_workers
new_queue-pods = (_, refl)

tasks-IsServed_example :
    (config : RiverConfig) × ((new_queue pods (easy_backfill pods) []).1
      ≡ Call.start_client ∷ Call.new_client config ∷ Call.new_pool ∷ [])
    × IsServed config (job_params pod_args)
unfolding pods queued reconcile enqueue contains has_row rows schedule cycle easy_backfill
    submit_batch batch_loop delete_batch delete_job job_of_model model_of_row wrapped_string
    format_int
tasks-IsServed_example =
    tasks-IsServed pods make_jobspec job_codec pods-IsDatabase [] (new_queue-pods.0)
      (job_params pod_args)
      (later Reach-first (reconciled (pos 1) 0 (str "default") (str "lammps-job")))
      (new_queue-pods.1) (inl (inl refl))

pods-Releases : Releases pods (str "default") (str "lammps") sample_pod
unfolding pods willing
pods-Releases = record {
  inserts = λ t args opts. refl;
  clients = λ t. refl;
  reads = λ t. refl;
  patches = λ t p. refl;
}

pod_scheduled_example :
    (u : List Call) × Reach pods make_jobspec job_codec u
    × Called (Call.patch_pod (str "default") (str "lammps") (Patch.labels pod_labels)) u
    × Called
        (Call.patch_pod
          (str "default")
          (str "lammps")
          (Patch.remove_gate (gate_index (sample_pod.scheduling_gates))))
        u
    × (pre_filter released_pod ≡ assigned (str "kind-worker"))
unfolding pods seen_before has_row table nodes_of see_all str_eq see lookup insert pod_labels
pod_scheduled_example =
    pod_scheduled pods make_jobspec job_codec (str "default") (str "lammps-job") pod_job
      sample_response sample_graph sample_pod released_pod (str "kind-worker")
      (str "kind-worker2" ∷ []) Reach-first (reading-AcceptsJobs seen_before) refl refl refl refl
      (reading-Allocates seen_before _) pods-Releases refl (ground arith) refl refl refl
