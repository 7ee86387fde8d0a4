-- ===== src/Controller.antt =====
-- internal/controller: the reconciler of FluxJobs, and the handler of deleted pods. Setting up the
-- manager and the informer is not modelled. A method that runs the queue returns it too.
pub mod Status
pub mod Deletion
pub mod Ends
pub mod SetUp
use fluxqueue.Base.{Bool, true, false, Option, none, some, List, [], ◌∷◌, if◌then◌else◌}
use fluxqueue.Base.Str.{Str, str}
use fluxqueue.Base.Decimal.{parse_int}
use fluxqueue.Base.Assoc.{lookup}
use fluxqueue.Types.{
  FluxJob, Pod, EnqueueStatus, SubmitStatus, status_submit, status_error, status_new, status_cancel,
  unset,
}
use fluxqueue.Service.{
  Services, Error, not_found, Result, ok, err, panic, M, ◌>>=◌, pure, perform, ignore, result,
  crash,
}
use fluxqueue.Service.Calls.{Call}
use fluxqueue.Service.Patches.{flux_job_id_label}
use fluxqueue.Queue.{Queue, enqueue, schedule, cleanup}

-- ctrl.Result with its error.
pub record Outcome : Type 0 where
  pub requeue : Bool
  pub error : Option Error

abbrev pub same_status : SubmitStatus → SubmitStatus → Bool
same_status SubmitStatus.unset SubmitStatus.unset = true
same_status SubmitStatus.status_new SubmitStatus.status_new = true
same_status SubmitStatus.status_submit SubmitStatus.status_submit = true
same_status SubmitStatus.status_error SubmitStatus.status_error = true
same_status SubmitStatus.status_cancel SubmitStatus.status_cancel = true
same_status _ _ = false

-- What is done with an error of Schedule: it is logged.
abbrev logged : Result (Unit {0}) → Result (Unit {0})
logged (ok u) = ok tt
logged (err e) = ok tt
logged panic = panic

module _ (S : Services) where
  -- Every status that Enqueue reports is logged, and the queue is kept moving.
  unfoldable pub then_schedule :
      Queue → Result EnqueueStatus → List Call → Result (Unit {0}) × List Call × Queue
  then_schedule q (ok status) t = let s = schedule S q t in (logged s.0, s.1, s.2)
  then_schedule q (err e) t = (err e, t, q)
  then_schedule q panic t = (panic, t, q)

  unfoldable pub submit_job : Queue → FluxJob → List Call → Result (Unit {0}) × List Call × Queue
  unfolding then_schedule
  submit_job q spec t = let r = enqueue S spec t in then_schedule q r.0 r.1

  unfoldable pub update_status : FluxJob → SubmitStatus → M (Unit {0})
  update_status spec status =
      if same_status spec.submit_status status
      then pure tt
      else perform (λ t. S.update_status t (record spec { submit_status = status }))
          (Call.update_status (record spec { submit_status = status }))

  -- A panic of a reconciliation is `none`.
  abbrev finished : Result (Unit {0}) → Option Outcome
  finished (ok u) = some (record { requeue = false; error = none })
  finished (err e) = some (record { requeue = false; error = some e })
  finished panic = none

  unfoldable pub record_status :
      FluxJob → Result (Unit {0}) × List Call × Queue → Option Outcome × List Call × Queue
  unfolding update_status
  record_status spec (ok u, t, q) =
      let r = update_status spec status_submit t in (finished r.0, r.1, q)
  record_status spec (err e, t, q) =
      let r = update_status spec status_error t in (finished r.0, r.1, q)
  record_status spec (panic, t, q) = (none, t, q)

  unfoldable pub reconcile_found : Queue → FluxJob → List Call → Option Outcome × List Call × Queue
  unfolding record_status submit_job
  reconcile_found q spec t =
      if same_status spec.submit_status status_submit
      then (let r = perform (λ u. S.delete_flux_job u spec) (Call.delete_flux_job spec) t in
          (finished r.0, r.1, q))
      else record_status spec (submit_job q spec t)

  abbrev is_not_found : Error → Bool
  is_not_found not_found = true
  is_not_found _ = false

  unfoldable pub reconcile_got :
      Queue → Result FluxJob → List Call → Option Outcome × List Call × Queue
  unfolding reconcile_found
  reconcile_got q (ok spec) t = reconcile_found q spec t
  reconcile_got q (err e) t =
      if is_not_found e
      then (some (record { requeue = false; error = none }), t, q)
      else (some (record { requeue = true; error = some e }), t, q)
  reconcile_got q panic t = (none, t, q)

  unfoldable pub reconcile : Queue → Str → Str → List Call → Option Outcome × List Call × Queue
  unfolding reconcile_got
  reconcile q namespace name t =
      let r = perform (λ u. S.get_flux_job u namespace name) (Call.get_flux_job namespace name) t in
      reconcile_got q r.0 r.1

-- DeleteFunc of the informer from the pod on: a label that is no number is logged, and the value that ParseInt
-- returned is used all the same.
unfoldable pub on_delete : Queue → Pod → M (Unit {0})
on_delete q pod = elim (lookup flux_job_id_label pod.labels) [
  | none ↦ pure tt
  | some jobid ↦ ignore (cleanup q ((parse_int 64 jobid).value ∷ []))
]

-- What the informer's cache hands to DeleteFunc: the pod, or the key of an object whose deletion it has
-- missed.
pub data DeletedObject : Type 0 where
  deleted_pod : Pod → DeletedObject
  deleted_final_state_unknown : Str → DeletedObject

-- The type assertion on the object panics where it is no pod.
unfoldable pub delete_func : Queue → DeletedObject → M (Unit {0})
unfolding on_delete
delete_func q (deleted_pod pod) = on_delete q pod
delete_func q (deleted_final_state_unknown key) = crash
