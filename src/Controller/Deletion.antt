-- ===== src/Controller/Deletion.antt =====
-- From a deleted pod to the cancel of its job in Fluxion.
use fluxqueue.Base.{◌≡◌, refl, ◌<◌, ◌^◌, ℕ, some, List, [], ◌∷◌, arith}
use fluxqueue.Base.Int.{ℤ, pos}
use fluxqueue.Base.Str.{Str}
use fluxqueue.Base.Decimal.{syntax, parse_int, format_int, parse_int-format_int, parse_int_syntax}
use fluxqueue.Base.Assoc.{lookup}
use fluxqueue.Types.{Pod, cleanup_args}
use fluxqueue.Service.{Services, replied}
use fluxqueue.Service.Calls.{Call}
use fluxqueue.Service.Patches.{flux_job_id_label}
use fluxqueue.Strategy.{easy_backfill, cleanup_params}
use fluxqueue.Queue.{cleanup}
use fluxqueue.Queue.Cycle.{easy_queue}
use fluxqueue.Workers.Cleanup.{work}
use fluxqueue.Controller.{on_delete}

module _ (S : Services) (depth : ℤ) (state : ℕ) where
  -- When a pod is deleted whose label holds the number that a worker printed, one cleanup job is
  -- inserted, and its worker, once connected, asks Fluxion to cancel that very number.
  pub on_delete_cancels :
      (pod : Pod) (flux_id : ℕ) (t u : List Call)
      → flux_id < 2 ^ 63
      → lookup flux_job_id_label pod.labels ≡ some (format_int (pos flux_id))
      → S.new_fluxion u ≡ replied tt
      → ((on_delete (easy_queue S depth state) pod t).1
          ≡ Call.insert_many (cleanup_params (pos flux_id) ∷ []) ∷ t)
        × ((cleanup_params (pos flux_id)).args
            ≡ cleanup_args (record { flux_id = pos flux_id; podspec = [] }))
        × ((work S (record { flux_id = pos flux_id; podspec = [] }) u).1
            ≡ Call.cancel (pos flux_id) ∷ Call.new_fluxion ∷ u)
  unfolding on_delete cleanup easy_backfill work cleanup_params
  on_delete_cancels pod flux_id t u small labelled connected = (
    ground (arith, labelled, parse_int-format_int (pos flux_id) small),
    refl,
    ground (arith, connected),
  )

  -- When a pod is deleted whose label is no number, the cleanup job that is inserted is that of
  -- Fluxion's job 0.
  pub on_delete_malformed :
      (pod : Pod) (jobid : Str) (t : List Call)
      → lookup flux_job_id_label pod.labels ≡ some jobid
      → (parse_int 64 jobid).error ≡ some syntax
      → (on_delete (easy_queue S depth state) pod t).1
        ≡ Call.insert_many (cleanup_params (pos 0) ∷ []) ∷ t
  unfolding on_delete cleanup easy_backfill cleanup_params
  on_delete_malformed pod jobid t labelled malformed =
      ground (arith, labelled, parse_int_syntax 64 jobid malformed)
