-- ===== src/Tests/Queue.antt =====
-- The queue over the services of `willing`, with two jobs in the table.
use fluxqueue.Base.{◌≡◌, ◌≢◌, refl, List, [], ◌∷◌, ◌++◌, if◌then◌else◌, arith}
use fluxqueue.Base.Int.{pos, negsuc}
use fluxqueue.Base.Str.{Str, str, str_eq}
use fluxqueue.Base.Decimal.{format_nat}
use fluxqueue.Types.{JobModel}
use fluxqueue.Service.{Services, remote, ok, panic, replied, refused}
use fluxqueue.Service.Calls.{Call, PendingRow}
use fluxqueue.Strategy.{QueueStrategy, easy_backfill, batch_loop, job_params}
use fluxqueue.Strategy.Batch.{batch_loop-map}
use fluxqueue.Queue.{pending_row, enqueue, cycle, schedule}
use fluxqueue.Queue.Pending.{has_row, table, model_of_row}
use fluxqueue.Queue.Enqueue.{enqueued, IsSelectTag, IsHealthy, table-enqueue}
use fluxqueue.Queue.Cycle.{easy_queue, delete_calls, submission, cycle_lem}
use fluxqueue.Queue.Panics.{schedule-ne-panic}
use fluxqueue.Tests.Database.{
  rows, willing, willing-IsDatabase, table-willing, insert_reply, sample_job, sample_args,
}

abbrev second_row : PendingRow
second_row = record (pending_row sample_job) { name = str "amg"; flux_job_name = str "amg-job" }

abbrev two_inserts : List Call
two_inserts = Call.insert_pending second_row ∷ Call.insert_pending (pending_row sample_job) ∷ []

abbrev two_models : List JobModel
two_models = model_of_row second_row ∷ model_of_row (pending_row sample_job) ∷ []

abbrev read_two : List Call
read_two = Call.collect_pending ∷ Call.query_pending ∷ two_inserts

tag : IsSelectTag (str "SELECT 0")
unfolding format_nat
tag = record { rows = 0; written = refl }

willing-IsHealthy : IsHealthy willing []
unfolding willing insert_reply
willing-IsHealthy = record {
  opens = λ t. refl;
  reads = λ t name namespace. (str "SELECT 0", refl, tag);
  inserts = λ t r. ground (arith, table-willing t);
}

table-enqueue_example : table willing [] (enqueue willing sample_job []).1 ≡ (
    if enqueued (enqueue willing sample_job []).0
    then table willing [] [] ++ (pending_row sample_job ∷ [])
    else table willing [] [])
table-enqueue_example = table-enqueue willing [] sample_job []

willing_tags :
    (u : List Call) (name namespace tag : Str)
    → willing.is_pending u name namespace ≡ replied tag
    → IsSelectTag tag
unfolding willing format_nat
willing_tags u name namespace t e = record { rows = 0; written = ground (arith, e) }

cycle_lem_example : cycle willing (easy_queue willing (pos 1) 0) two_inserts ≡ (
  ok tt,
  delete_calls two_models
      (Call.insert_many (submission willing (table willing [] two_inserts)) ∷ read_two),
)
unfolding willing rows has_row str_eq pending_row
cycle_lem_example =
    cycle_lem willing [] (pos 1) 0 two_inserts two_models willing-IsDatabase (λ t. refl) refl refl
      (λ e. cc) refl

-- A river that takes no batch.
unfoldable closed : Services
unfolding willing
closed = record willing { insert_many = λ t ps. refused (remote (str "river is closed")) }

schedule-ne-panic_example : (schedule closed (easy_queue closed (pos 1) 0) two_inserts).0 ≢ panic
schedule-ne-panic_example = schedule-ne-panic closed (pos 1) 0 two_inserts

batch_loop-map_example :
    batch_loop (pos 1) 0 (sample_args ∷ sample_args ∷ [])
    ≡ job_params sample_args ∷ job_params sample_args ∷ []
batch_loop-map_example = batch_loop-map (pos 1) 0 (sample_args ∷ sample_args ∷ [])

-- A strategy that asks for a depth of -2.
abbrev deep : QueueStrategy
deep = record (easy_backfill willing) { get_reservation_depth = negsuc 1 }
