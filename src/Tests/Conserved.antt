-- ===== src/Tests/Conserved.antt =====
-- The numbers of one job after its reconciliation.
use fluxqueue.Base.{◌≡◌, ◌+◌, refl}
use fluxqueue.Base.Int.{pos}
use fluxqueue.Base.Str.{str}
use fluxqueue.Base.Str.{str_eq, contains}
use fluxqueue.Base.Decimal.{format_int}
use fluxqueue.Types.{wrapped_string}
use fluxqueue.Strategy.{easy_backfill, batch_loop, job_of_model}
use fluxqueue.Queue.{enqueue, schedule, cycle, submit_batch, delete_batch, delete_job}
use fluxqueue.Queue.Pending.{has_row, model_of_row, table, effect, remove_rows}
use fluxqueue.System.{later, reconciled}
use fluxqueue.System.Counts.{handed, enqueued, pending, rows_in, jobs_in}
use fluxqueue.System.Conserved.{Deletes, jobs_conserved}
use fluxqueue.Tests.Webhook.{make_jobspec, job_codec}
use fluxqueue.Tests.Database.{rows}
use fluxqueue.Tests.System.{pods, pods-IsDatabase, queued, Reach-first}

pods-Deletes : Deletes pods
unfolding pods
pods-Deletes = record {
  database = pods-IsDatabase;
  opens = λ t. refl;
  deletes = λ t name namespace. refl;
}

jobs_conserved_example :
    handed (str "lammps") (str "default") pods queued
      + pending (str "lammps") (str "default") pods queued
    ≡ enqueued (str "lammps") (str "default") pods queued
unfolding queued
jobs_conserved_example =
    jobs_conserved pods (str "lammps") (str "default") make_jobspec job_codec pods-Deletes
      (later Reach-first (reconciled (pos 1) 0 (str "default") (str "lammps-job")))

-- One row was inserted, one task was handed on, and no row is left.
numbers_of_job :
    (enqueued (str "lammps") (str "default") pods queued ≡ 1)
    × (handed (str "lammps") (str "default") pods queued ≡ 1)
    × (pending (str "lammps") (str "default") pods queued ≡ 0)
unfolding pods queued enqueue contains has_row rows schedule cycle easy_backfill submit_batch
    batch_loop delete_batch delete_job job_of_model model_of_row wrapped_string format_int handed
    enqueued table effect rows_in jobs_in str_eq remove_rows
numbers_of_job = (refl, refl, refl)
