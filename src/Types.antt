-- ===== src/Types.antt =====
-- The records that the components pass to one another: pkg/fluxqueue/types, api/v1alpha1, the
-- arguments of the workers, and what the code reads of Kubernetes objects and Fluxion's replies.
use fluxqueue.Base.{Option, Bool, List, ◌++◌}
use fluxqueue.Base.Int.{ℤ, pos}
use fluxqueue.Base.Str.{Str, str}
use fluxqueue.Base.Decimal.{format_int}

-- `JobWrapped` is an int: `other` holds the values that have no name.
pub data JobWrapped : Type 0 where
  pod job deployment replica_set stateful_set : JobWrapped
  other : ℤ → JobWrapped

abbrev wrapped_number : JobWrapped → ℤ
wrapped_number JobWrapped.pod = pos 0
wrapped_number JobWrapped.job = pos 1
wrapped_number JobWrapped.deployment = pos 2
wrapped_number JobWrapped.replica_set = pos 3
wrapped_number JobWrapped.stateful_set = pos 4
wrapped_number (JobWrapped.other z) = z

-- JobWrapped.String()
unfoldable pub wrapped_string : JobWrapped → Str
wrapped_string w = format_int (wrapped_number w)

unfoldable pub get_job_name : JobWrapped → Str → Str
get_job_name JobWrapped.job name = name ++ str "-job"
get_job_name JobWrapped.pod name = name ++ str "-pod"
get_job_name JobWrapped.deployment name = name ++ str "-deployment"
get_job_name JobWrapped.replica_set name = name ++ str "-replicaset"
get_job_name JobWrapped.stateful_set name = name ++ str "-statefulset"
get_job_name (JobWrapped.other z) name = name ++ str "-unknown"

-- `unset` is the empty text of a status that was never written.
pub data SubmitStatus : Type 0 where
  unset status_new status_submit status_error status_cancel : SubmitStatus

pub record FluxJobSpec : Type 0 where
  pub job_spec : Str
  pub type : JobWrapped
  pub name : Str
  pub duration : ℤ
  pub reservation : Bool
  pub nodes : ℤ

pub record FluxJob : Type 0 where
  pub name : Str
  pub namespace : Str
  pub spec : FluxJobSpec
  pub submit_status : SubmitStatus

pub data EnqueueStatus : Type 0 where
  job_enqueue_success job_already_in_pending job_invalid unknown : EnqueueStatus

-- A row of pending_queue as it is read: without its creation time.
pub record JobModel : Type 0 where
  pub job_spec : Str
  pub flux_job_name : Str
  pub name : Str
  pub namespace : Str
  pub type : Str
  pub reservation : ℤ
  pub duration : ℤ
  pub size : ℤ

pub record ReservationModel : Type 0 where
  pub job_id : ℤ
  pub name : Str

pub record JobArgs : Type 0 where
  pub jobspec : Str
  pub name : Str
  pub namespace : Str
  pub flux_job_name : Str
  pub type : Str
  pub reservation : ℤ
  pub duration : ℤ
  pub size : ℤ
  pub nodes : Str

pub record CleanupArgs : Type 0 where
  pub flux_id : ℤ
  pub podspec : Str

pub record UngateArgs : Type 0 where
  pub name : Str
  pub type : Str
  pub namespace : Str
  pub nodes : List Str
  pub job_id : ℤ

-- The arguments of the four workers.
pub data Args : Type 0 where
  job_args : JobArgs → Args
  cleanup_args : CleanupArgs → Args
  reservation_args : Args
  ungate_args : UngateArgs → Args

-- Kind() of each of them, by which river finds the worker of a task.
unfoldable pub kind : Args → Str
kind (job_args a) = str "job"
kind (cleanup_args a) = str "cleanup"
kind reservation_args = str "reservation"
kind (ungate_args a) = str "ungate"

-- river.Config as far as it is set: the queues with their MaxWorkers, and the kinds of the workers
-- that river.AddWorker was called for, in that order.
pub record RiverConfig : Type 0 where
  pub queues : List (Str × ℤ)
  pub workers : List Str

-- The options that the code sets; 0 is a number of attempts that is left to the library.
pub record InsertOpts : Type 0 where
  pub max_attempts : ℤ
  pub tags : List Str
  pub queue : Str

pub record InsertManyParams : Type 0 where
  pub args : Args
  pub insert_opts : InsertOpts

pub record MatchRequest : Type 0 where
  pub jobspec : Str
  pub reservation : Bool

pub record MatchResponse : Type 0 where
  pub allocation : Str
  pub reserved : Bool
  pub job_id : ℤ

-- A vertex of Fluxion's answer, as far as `parseNodes` reads it.
pub record AllocationNode : Type 0 where
  pub type : Str
  pub basename : Str

pub record Pod : Type 0 where
  pub name : Str
  pub namespace : Str
  pub labels : List (Str × Str)
  pub scheduling_gates : List Str

-- A node of the cluster, as far as the resource graph takes it; CPUs in thousandths, memory in bytes.
pub record KubeNode : Type 0 where
  pub name : Str
  pub labels : List (Str × Str)
  pub unschedulable : Bool
  pub cpu : ℤ
  pub memory : ℤ
  pub gpus : Option ℤ
