-- ===== src/Queue.antt =====
-- pkg/fluxqueue/fluxqueue.go and events.go: the queue over a strategy. The logger of the
-- river client is not modelled.
pub mod Pending
pub mod Enqueue
pub mod Cycle
pub mod Panics
pub mod Drain
pub mod Setup
pub mod Repeat
use fluxqueue.Base.{
  ℕ, ◌+◌, ◌-◌, ◌%◌, Bool, true, false, not, ◌&&◌, Option, none, some, List, [], ◌∷◌, ◌++◌, ◌==◌,
  if◌then◌else◌,
}
use fluxqueue.Base.Int.{ℤ, pos, ltb_ℤ}
use fluxqueue.Base.Str.{Str, str, contains}
use fluxqueue.Types.{
  FluxJob, EnqueueStatus, job_already_in_pending, job_enqueue_success, Args, JobArgs, job_args,
  cleanup_args, reservation_args, ungate_args, InsertManyParams, RiverConfig,
}
use fluxqueue.Service.{
  Services, Result, err, failure, M, ◌>>=◌, ◌>>◌, pure, fail, crash, perform, returned, ignore, ok,
}
use fluxqueue.Service.Calls.{Call, PendingRow}
use fluxqueue.Strategy.{QueueStrategy, is_minus_one, max_attempts, queue_default}

-- `lock_state` is the word of the mutex, whose lowest bit says that it is locked.
pub record Queue : Type 0 where
  pub strategy : QueueStrategy
  pub lock_state : ℕ
  pub reservation_depth : ℤ
  -- whether there is a river client
  pub has_client : Bool

-- queueMaxWorkers and taskMaxWorkers
abbrev pub queue_max_workers : ℤ
queue_max_workers = pos 1

abbrev pub task_max_workers : ℤ
task_max_workers = pos 1

-- The configuration that NewQueue gives to river.
unfoldable pub river_config : List Str → RiverConfig
river_config workers = record {
  queues =
      (queue_default, queue_max_workers)
      ∷ (str "cleanup_queue", queue_max_workers)
      ∷ (str "task_queue", task_max_workers)
      ∷ [];
  workers = workers;
}

-- A depth less than -1 is refused.
unfoldable pub check_depth : QueueStrategy → Result Queue
check_depth strategy =
    let depth = strategy.get_reservation_depth in
    if ltb_ℤ depth (pos 0) && not (is_minus_one depth)
    then err (failure (str "reservation depth of a strategy must be >= -1"))
    else ok (record {
      strategy = strategy;
      lock_state = 0;
      reservation_depth = depth;
      has_client = true;
    })

unfoldable pub is_in_schedule_loop : Queue → Bool
is_in_schedule_loop q = q.lock_state % 2 == 1

unfoldable pub lock : Queue → Queue
lock q = record q { lock_state = q.lock_state + 1 }

unfoldable pub unlock : Queue → Queue
unlock q = record q { lock_state = q.lock_state - 1 }

unfoldable pub reservation_number : Bool → ℤ
reservation_number true = pos 1
reservation_number false = pos 0

-- The values in the order of the columns: the FluxJob's own name goes to `flux_job_name`, and the
-- name of the wrapped object to `name`.
unfoldable pub pending_row : FluxJob → PendingRow
unfolding reservation_number
pending_row spec = record {
  job_spec = spec.spec.job_spec;
  flux_job_name = spec.name;
  namespace = spec.namespace;
  name = spec.spec.name;
  type = spec.spec.type;
  reservation = reservation_number spec.spec.reservation;
  duration = spec.spec.duration;
  size = spec.spec.nodes;
}

unfoldable pub clear_reservation_job : InsertManyParams
clear_reservation_job = record {
  args = reservation_args;
  insert_opts = record {
    max_attempts = max_attempts;
    tags = str "reservation" ∷ [];
    queue = queue_default;
  };
}

module _ (S : Services) where
  -- The source has the strategy "easy" for `strategy`. The client is started before the depth is
  -- looked at.
  unfoldable pub new_queue : QueueStrategy → M Queue
  unfolding river_config check_depth
  new_queue strategy = do
    perform S.new_pool Call.new_pool
    workers ← returned (strategy.add_workers [])
    perform (λ t. S.new_client t (river_config workers)) (Call.new_client (river_config workers))
    perform S.start_client Call.start_client
    returned (check_depth strategy)

  unfoldable pub stop : Queue → M (Unit {0})
  stop q = if q.has_client then perform S.stop_client Call.stop_client else pure tt

  unfoldable pub enqueue : FluxJob → M EnqueueStatus
  unfolding pending_row
  enqueue spec = do
    perform S.new_pool Call.new_pool
    result ←
        perform (λ t. S.is_pending t spec.name spec.namespace)
          (Call.is_pending spec.name spec.namespace)
    if contains (str "INSERT 1") result then pure job_already_in_pending else do
      perform (λ t. S.insert_pending t (pending_row spec)) (Call.insert_pending (pending_row spec))
      pure job_enqueue_success

  -- events.go: the query takes the name before the namespace.
  unfoldable pub delete_from_pending : Str → Str → M (Unit {0})
  delete_from_pending namespace name =
      perform S.new_pool Call.new_pool
      >> perform (λ t. S.delete_pending t name namespace) (Call.delete_pending name namespace)

  -- The type assertion of a batch item's arguments panics on any other arguments.
  unfoldable pub delete_job : Args → M (Unit {0})
  unfolding delete_from_pending
  delete_job (job_args a) = ignore (delete_from_pending a.namespace a.name)
  delete_job (cleanup_args a) = crash
  delete_job reservation_args = crash
  delete_job (ungate_args a) = crash

  unfoldable pub delete_batch : List InsertManyParams → M (Unit {0})
  delete_batch [] = pure tt
  delete_batch (p ∷ ps) = delete_job p.args >> delete_batch ps

  unfoldable pub submit_batch : List InsertManyParams → M (Unit {0})
  unfolding clear_reservation_job
  submit_batch [] = pure tt
  submit_batch (p ∷ ps) =
      let batch_complete = (p ∷ ps) ++ (clear_reservation_job ∷ []) in
      perform (λ t. S.insert_many t batch_complete) (Call.insert_many batch_complete)
      >> delete_batch (p ∷ ps)

  -- What Schedule does while it holds the lock.
  unfoldable pub cycle : Queue → M (Unit {0})
  cycle q = q.strategy.schedule q.reservation_depth >>= λ batch.
      (submit_batch batch >> q.strategy.post_submit)

  -- The deferred Unlock runs on every way out.
  unfoldable pub schedule : Queue → List Call → Result (Unit {0}) × List Call × Queue
  unfolding is_in_schedule_loop lock unlock
  schedule q t =
      if is_in_schedule_loop q
      then (ok tt, t, q)
      else let held = lock q in let r = cycle held t in (r.0, r.1, unlock held)

unfoldable pub cleanup : Queue → List ℤ → M (Unit {0})
cleanup q fluxids = q.strategy.cleanup fluxids
