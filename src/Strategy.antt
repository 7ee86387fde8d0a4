-- ===== src/Strategy.antt =====
-- pkg/fluxqueue/strategy: the interface of a queue strategy, and the strategy "easy" that has it.
-- A worker is built without an error, whatever its configuration, and known by the kind of its tasks.
pub mod Batch
use fluxqueue.Base.{
  ℕ, zero, suc, ◌+◌, ◌-◌, ◌%◌, ◌^◌, ◌≡◌, Bool, true, false, not, ◌&&◌, List, [], ◌∷◌, ◌++◌, map,
  ltb, if◌then◌else◌,
}
use fluxqueue.Base.Int.{ℤ, pos, negsuc, ltb_ℤ}
use fluxqueue.Base.Str.{Str, str}
use fluxqueue.Types.{
  JobModel, JobArgs, CleanupArgs, Args, job_args, cleanup_args, InsertOpts, InsertManyParams,
}
use fluxqueue.Service.{Services, Result, ok, M, ◌>>=◌, ◌>>◌, pure, perform}
use fluxqueue.Service.Calls.{Call}

pub record QueueStrategy : Type 0 where
  pub name : Str
  pub add_workers : List Str → Result (List Str)
  pub schedule : ℤ → M (List InsertManyParams)
  pub post_submit : M (Unit {0})
  pub cleanup : List ℤ → M (Unit {0})
  pub get_reservation_depth : ℤ

-- defaults.MaxAttempts and defaults.MaxCancelAttempts
abbrev pub max_attempts : ℤ
max_attempts = pos 32767

abbrev pub max_cancel_attempts : ℤ
max_cancel_attempts = pos 3

abbrev pub queue_default : Str
queue_default = str "default"

-- AddWorkers: the workers that river.AddWorker was called for before, and the four more.
unfoldable pub easy_add_workers : List Str → Result (List Str)
easy_add_workers workers =
    ok (workers ++ (str "job" ∷ str "cleanup" ∷ str "reservation" ∷ str "ungate" ∷ []))

abbrev pub easy_name : Str
easy_name = str "easy"

-- int32(i) of a non-negative int.
unfoldable pub to_int32 : ℕ → ℤ
to_int32 i = let m = i % 2 ^ 32 in if ltb m (2 ^ 31) then pos m else negsuc (2 ^ 32 - 1 - m)

abbrev pub is_minus_one : ℤ → Bool
is_minus_one (pos n) = false
is_minus_one (negsuc zero) = true
is_minus_one (negsuc (suc n)) = false

unfoldable pub job_of_model : JobModel → JobArgs
job_of_model m = record {
  jobspec = m.job_spec;
  name = m.name;
  namespace = m.namespace;
  flux_job_name = m.flux_job_name;
  type = m.type;
  reservation = m.reservation;
  size = m.size;
  duration = m.duration;
  nodes = [];
}

abbrev pub job_opts : InsertOpts
job_opts = record { max_attempts = max_attempts; tags = easy_name ∷ []; queue = queue_default }

unfoldable pub job_params : JobArgs → InsertManyParams
job_params j = record { args = job_args j; insert_opts = job_opts }

-- The loop over the ready jobs. `Args` takes a copy of `jobArgs` before its reservation is set, and
-- the loop variable that is set is not read again.
unfoldable pub batch_loop : ℤ → ℕ → List JobArgs → List InsertManyParams
unfolding job_params to_int32
batch_loop depth i [] = []
batch_loop depth i (job ∷ jobs) =
    let args = job_params job in
    let job' : JobArgs =
      if not (is_minus_one depth) && ltb_ℤ (to_int32 i) depth
      then record job { reservation = pos 1 }
      else job in
    args ∷ batch_loop depth (suc i) jobs

unfoldable pub cleanup_params : ℤ → InsertManyParams
cleanup_params fluxid = record {
  args = cleanup_args (record { flux_id = fluxid; podspec = [] });
  insert_opts = record {
    max_attempts = max_cancel_attempts;
    tags = easy_name ∷ [];
    queue = str "cleanup_queue";
  };
}

module _ (S : Services) where
  insert_batch : List InsertManyParams → M (Unit {0})
  insert_batch [] = pure tt
  insert_batch (p ∷ ps) = perform (λ t. S.insert_many t (p ∷ ps)) (Call.insert_many (p ∷ ps))

  unfoldable pub cleanup : List ℤ → M (Unit {0})
  unfolding insert_batch cleanup_params
  cleanup fluxids = insert_batch (map cleanup_params fluxids)

  unfoldable pub ready_jobs : M (List JobArgs)
  ready_jobs =
      perform S.query_pending Call.query_pending
      >> (perform S.collect_pending Call.collect_pending >>= λ models.
          pure (map job_of_model models))

  unfoldable pub schedule : ℤ → M (List InsertManyParams)
  unfolding ready_jobs
  schedule depth = ready_jobs >>= λ jobs. pure (batch_loop depth 0 jobs)

  -- PostSubmit does nothing.
  abbrev pub easy_post_submit : M (Unit {0})
  easy_post_submit = pure tt

  -- EasyBackfill
  unfoldable pub easy_backfill : QueueStrategy
  unfolding schedule cleanup
  easy_backfill = record {
    name = easy_name;
    add_workers = easy_add_workers;
    schedule = schedule;
    post_submit = easy_post_submit;
    cleanup = cleanup;
    get_reservation_depth = pos 1;
  }
