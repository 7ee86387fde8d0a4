-- ===== src/Tests/Lossless.antt =====
-- A database that refuses every delete, under a reconciliation and the task of it.
use mathlib.Core.List.{reverse}
use fluxqueue.Base.{◌≡◌, ◌≤◌, ◌+◌, refl, List, [], ◌∷◌, ◌++◌, map, arith, if◌then◌else◌}
use fluxqueue.Base.Int.{pos}
use fluxqueue.Base.Str.{str, str_eq, contains}
use fluxqueue.Base.Decimal.{format_int}
use fluxqueue.Types.{wrapped_string}
use fluxqueue.Service.{Services, remote, replied, refused}
use fluxqueue.Service.Calls.{Call, PendingRow}
use fluxqueue.Strategy.{easy_backfill, batch_loop, job_of_model}
use fluxqueue.Queue.{enqueue, schedule, cycle, submit_batch, delete_batch, delete_job}
use fluxqueue.Queue.Pending.{has_row, model_of_row, table, effect, IsDatabase}
use fluxqueue.Queue.Cycle.{easy_queue}
use fluxqueue.Controller.{reconcile}
use fluxqueue.System.{start, later, reconciled}
use fluxqueue.System.Counts.{handed, enqueued, pending, rows_in, jobs_in}
use fluxqueue.System.Lossless.{none_lost}
use fluxqueue.Tests.Webhook.{make_jobspec, job_codec}
use fluxqueue.Tests.Database.{willing, insert_reply}

-- The rows after the calls, where no delete is done.
unfoldable all_rows : List Call → List PendingRow
all_rows [] = []
all_rows (Call.insert_pending r ∷ t) =
    let kept = all_rows t in if has_row r.name r.namespace kept then kept else kept ++ (r ∷ [])
all_rows (_ ∷ t) = all_rows t

unfoldable stuck : Services
unfolding willing
stuck = record willing {
  insert_pending = λ t r. insert_reply (has_row r.name r.namespace (all_rows t));
  collect_pending = λ t. replied (map model_of_row (reverse (all_rows t)));
  delete_pending = λ t name namespace. refused (remote (str "read only"));
}

table-stuck : (t : List Call) → table stuck [] t ≡ all_rows t
unfolding table all_rows effect stuck insert_reply has_row
table-stuck [] = refl
table-stuck (Call.insert_pending r ∷ t) = ground (arith, table-stuck t)
table-stuck (Call.delete_pending name namespace ∷ t) = table-stuck t
table-stuck (_ ∷ t) = table-stuck t

stuck-IsDatabase : IsDatabase stuck []
unfolding stuck insert_reply
stuck-IsDatabase = record {
  unique_index = λ t r h. ground (arith, h, table-stuck t);
  newest_first = λ t models e. ground (arith, e, table-stuck t);
}

unfoldable stalled : List Call
unfolding stuck reconcile
stalled = (reconcile stuck (easy_queue stuck (pos 1) 0) (str "default") (str "lammps-job") []).1

none_lost_example :
    (enqueued (str "lammps") (str "default") stuck stalled
      ≤ handed (str "lammps") (str "default") stuck stalled
        + pending (str "lammps") (str "default") stuck stalled)
    × (pending (str "lammps") (str "default") stuck stalled ≤ 1)
unfolding stalled
none_lost_example =
    none_lost stuck (str "lammps") (str "default") make_jobspec job_codec stuck-IsDatabase
      (later (start tt) (reconciled (pos 1) 0 (str "default") (str "lammps-job")))

-- One row was inserted and one task was handed on, and the row is still in the table.
numbers_of_stuck_job :
    (enqueued (str "lammps") (str "default") stuck stalled ≡ 1)
    × (handed (str "lammps") (str "default") stuck stalled ≡ 1)
    × (pending (str "lammps") (str "default") stuck stalled ≡ 1)
unfolding stalled enqueue contains has_row all_rows schedule cycle easy_backfill submit_batch
    batch_loop delete_batch delete_job job_of_model model_of_row wrapped_string format_int handed
    enqueued table effect rows_in jobs_in str_eq
numbers_of_stuck_job = (refl, refl, refl)
