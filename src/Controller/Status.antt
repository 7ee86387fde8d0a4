-- ===== src/Controller/Status.antt =====
-- What a reconciliation leaves as the status of a FluxJob.
use fluxqueue.Base.{◌≡◌, false, none, some, List, ◌∷◌, arith, if◌then◌else◌, ℕ}
use fluxqueue.Base.Int.{ℤ}
use fluxqueue.Base.Str.{Str}
use fluxqueue.Types.{FluxJob, EnqueueStatus, SubmitStatus, status_submit, status_error}
use fluxqueue.Service.{Services, Error, ok, err, replied}
use fluxqueue.Service.Calls.{Call}
use fluxqueue.Queue.{Queue, enqueue, schedule}
use fluxqueue.Queue.Cycle.{easy_queue, schedule_restores}
use fluxqueue.Queue.Panics.{schedule-ne-panic}
use fluxqueue.Controller.{
  Outcome, same_status, then_schedule, submit_job, update_status, record_status, reconcile_found,
  reconcile_got, reconcile,
}

-- An outcome that neither fails nor asks for another reconciliation.
abbrev pub settled : Outcome
settled = record { requeue = false; error = none }

abbrev pub with_status : FluxJob → SubmitStatus → FluxJob
with_status spec status = record spec { submit_status = status }

module _ (S : Services) (namespace name : Str) (spec : FluxJob) (t : List Call) where
  -- The calls before the FluxJob is looked at.
  abbrev pub got : List Call
  got = Call.get_flux_job namespace name ∷ t

  -- A FluxJob that is submitted is deleted; it is not enqueued again and no cycle is run.
  pub reconcile_submitted :
      (q : Queue)
      → S.get_flux_job t namespace name ≡ replied spec
      → spec.submit_status ≡ status_submit
      → ((reconcile S q namespace name t).1 ≡ Call.delete_flux_job spec ∷ got)
        × ((reconcile S q namespace name t).2 ≡ q)
  unfolding reconcile reconcile_got reconcile_found
  reconcile_submitted q found submitted = ground (arith, found, submitted)

  -- If Enqueue fails and the API server accepts the status, the reconciliation still reports neither
  -- an error nor a wish to be repeated, runs no cycle, and records the status `error` unless the FluxJob has it already.
  pub reconcile_failed :
      (q : Queue) {e : Error}
      → S.get_flux_job t namespace name ≡ replied spec
      → same_status spec.submit_status status_submit ≡ false
      → (enqueue S spec got).0 ≡ err e
      → S.update_status (enqueue S spec got).1 (with_status spec status_error) ≡ replied tt
      → reconcile S q namespace name t ≡ (
        some settled,
        (if same_status spec.submit_status status_error
            then (enqueue S spec got).1
            else Call.update_status (with_status spec status_error) ∷ (enqueue S spec got).1),
        q,
      )
  unfolding reconcile reconcile_got reconcile_found submit_job then_schedule record_status
      update_status
  reconcile_failed q {e} found new failed accepted = ground (arith, found, new, failed, accepted)

  -- If Enqueue does not fail and the API server accepts the status, the reconciliation ends in no error
  -- and in the record of the status `submit`, whichever status Enqueue reported and whatever the
  -- cycle behind it came to.
  pub reconcile_submits :
      (depth : ℤ) (state : ℕ) (status : EnqueueStatus)
      → S.get_flux_job t namespace name ≡ replied spec
      → same_status spec.submit_status status_submit ≡ false
      → (enqueue S spec got).0 ≡ ok status
      → ((u : List Call) → S.update_status u (with_status spec status_submit) ≡ replied tt)
      → let q = easy_queue S depth state in
        reconcile S q namespace name t ≡ (
          some settled,
          Call.update_status (with_status spec status_submit)
              ∷ (schedule S q (enqueue S spec got).1).1,
          q,
        )
  unfolding reconcile reconcile_got reconcile_found submit_job then_schedule record_status
      update_status
  reconcile_submits depth state status found new enqueued accepted = ground (
    arith,
    found,
    new,
    enqueued,
    accepted (schedule S (easy_queue S depth state) (enqueue S spec got).1).1,
    schedule-ne-panic S depth state (enqueue S spec got).1,
    schedule_restores S (easy_queue S depth state) (enqueue S spec got).1,
  )
