-- ===== src/Tests/Controller.antt =====
-- The controller over the services of `willing`.
use fluxqueue.Base.{◌≡◌, refl, ◌&&◌, if◌then◌else◌, some, List, [], ◌∷◌, arith}
use fluxqueue.Base.Int.{pos}
use fluxqueue.Base.Str.{Str, str, str_eq, str_eq_refl, contains}
use fluxqueue.Base.Decimal.{format_int, format_nat}
use fluxqueue.Base.Assoc.{lookup}
use fluxqueue.Types.{job_enqueue_success, FluxJob, Pod, cleanup_args, status_submit, status_error}
use fluxqueue.Service.{Services, remote, not_found, Reply, replied, refused}
use fluxqueue.Service.Calls.{Call}
use fluxqueue.Service.Patches.{flux_job_id_label}
use fluxqueue.Strategy.{cleanup_params}
use fluxqueue.Queue.{Queue, enqueue, schedule}
use fluxqueue.Queue.Cycle.{easy_queue}
use fluxqueue.Queue.Pending.{has_row}
use fluxqueue.Workers.Cleanup as Cleanup
use fluxqueue.Controller.{reconcile, on_delete}
use fluxqueue.Controller.Status.{settled, with_status, got, reconcile_failed}
use fluxqueue.Controller.Ends.{IsApiServer, reconcile_ends}
use fluxqueue.Controller.Deletion.{on_delete_cancels}
use fluxqueue.Tests.Database.{rows, willing, sample_job, sample_pod}

abbrev calm_queue : Queue
calm_queue = easy_queue willing (pos 1) 0

abbrev first_calls : List Call
first_calls = got willing (str "default") (str "lammps-job") sample_job []

-- A database that cannot be reached.
unfoldable unreachable : Services
unfolding willing
unreachable = record willing { new_pool = λ t. refused (remote (str "no database")) }

reconcile_failed_example :
    reconcile unreachable calm_queue (str "default") (str "lammps-job") [] ≡ (
      some settled,
      Call.update_status (with_status sample_job status_error)
          ∷ (enqueue unreachable sample_job first_calls).1,
      calm_queue,
    )
unfolding unreachable willing enqueue
reconcile_failed_example =
    reconcile_failed unreachable (str "default") (str "lammps-job") sample_job [] calm_queue
      {e = remote (str "no database")} refl refl refl refl

abbrev submitted_job : FluxJob
submitted_job = with_status sample_job status_submit

-- An API that holds the job as submitted.
unfoldable after : Services
unfolding willing
after = record willing { get_flux_job = λ t namespace name. replied submitted_job }

on_delete_cancels_example :
    ((on_delete calm_queue sample_pod []).1 ≡ Call.insert_many (cleanup_params (pos 12) ∷ []) ∷ [])
    × ((cleanup_params (pos 12)).args ≡ cleanup_args (record { flux_id = pos 12; podspec = [] }))
    × ((Cleanup.work willing (record { flux_id = pos 12; podspec = [] }) []).1
        ≡ Call.cancel (pos 12) ∷ Call.new_fluxion ∷ [])
unfolding willing lookup str_eq format_int format_nat
on_delete_cancels_example =
    on_delete_cancels willing (pos 1) 0 sample_pod 12 [] [] (omega arith) refl refl

abbrev odd_pod : Pod
odd_pod = record sample_pod { labels = (flux_job_id_label, str "twelve") ∷ [] }

-- What the API server holds, from the one job.
unfoldable held : Str → Str → List Call → Reply FluxJob
held namespace name [] = replied sample_job
held namespace name (Call.update_status j ∷ t) =
    let before = held namespace name t in
    if str_eq j.namespace namespace && str_eq j.name name then replied j else before
held namespace name (Call.delete_flux_job j ∷ t) =
    let before = held namespace name t in
    if str_eq j.namespace namespace && str_eq j.name name then refused not_found else before
held namespace name (_ ∷ t) = held namespace name t

unfoldable holding : Services
unfolding willing
holding = record willing { get_flux_job = λ t namespace name. held namespace name t }

holding-IsApiServer : IsApiServer holding
unfolding holding willing held
holding-IsApiServer = record {
  updated = λ t j e. ground (arith, str_eq_refl j.namespace, str_eq_refl j.name);
  deleted = λ t j e. ground (arith, str_eq_refl j.namespace, str_eq_refl j.name);
}

reconcile_ends_example :
    let q = easy_queue holding (pos 1) 0 in
    let again = reconcile holding q (str "default") (str "lammps-job") in
    let submitted = with_status sample_job status_submit in
    let read = Call.get_flux_job (str "default") (str "lammps-job") in
    let first =
      Call.update_status submitted
      ∷ (schedule holding q (enqueue holding sample_job (read ∷ [])).1).1 in
    let second = Call.delete_flux_job submitted ∷ read ∷ first in
    (again [] ≡ (some settled, first, q))
    × (again first ≡ (some settled, second, q))
    × (again second ≡ (some settled, read ∷ second, q))
unfolding holding willing held enqueue contains has_row rows
reconcile_ends_example =
    reconcile_ends holding (pos 1) 0 sample_job [] job_enqueue_success holding-IsApiServer
      (λ u j. refl) (λ u j. refl) refl refl refl
