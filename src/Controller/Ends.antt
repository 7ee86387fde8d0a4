-- ===== src/Controller/Ends.antt =====
-- The reconciliations of one FluxJob come to an end.
use fluxqueue.Base.{◌≡◌, refl, false, some, List, ◌∷◌, ℕ, arith}
use fluxqueue.Base.Int.{ℤ}
use fluxqueue.Base.Str.{Str}
use fluxqueue.Types.{FluxJob, EnqueueStatus, status_submit}
use fluxqueue.Service.{Services, not_found, ok, replied, refused}
use fluxqueue.Service.Calls.{Call}
use fluxqueue.Queue.{Queue, enqueue, schedule}
use fluxqueue.Queue.Cycle.{easy_queue}
use fluxqueue.Controller.{same_status, reconcile, reconcile_got, reconcile_found}
use fluxqueue.Controller.Status.{settled, with_status, reconcile_submits}

-- The API server returns what was written last, and no object that was deleted.
pub record IsApiServer (S : Services) : Type 0 where
  pub updated :
      (t : List Call) (j : FluxJob)
      → S.update_status t j ≡ replied tt
      → S.get_flux_job (Call.update_status j ∷ t) j.namespace j.name ≡ replied j
  pub deleted :
      (t : List Call) (j : FluxJob)
      → S.delete_flux_job t j ≡ replied tt
      → S.get_flux_job (Call.delete_flux_job j ∷ t) j.namespace j.name ≡ refused not_found

module _ (S : Services) where
  -- A reconciliation of a FluxJob that is gone reads it, and ends without an error.
  reconcile_gone :
      (q : Queue) (namespace name : Str) (t : List Call)
      → S.get_flux_job t namespace name ≡ refused not_found
      → reconcile S q namespace name t ≡ (some settled, Call.get_flux_job namespace name ∷ t, q)
  unfolding reconcile reconcile_got
  reconcile_gone q namespace name t gone = ground (arith, gone)

  reconcile_deletes :
      (q : Queue) (namespace name : Str) (spec : FluxJob) (t : List Call)
      → S.get_flux_job t namespace name ≡ replied spec
      → spec.submit_status ≡ status_submit
      → S.delete_flux_job (Call.get_flux_job namespace name ∷ t) spec ≡ replied tt
      → reconcile S q namespace name t
        ≡ (some settled, Call.delete_flux_job spec ∷ Call.get_flux_job namespace name ∷ t, q)
  unfolding reconcile reconcile_got reconcile_found
  reconcile_deletes q namespace name spec t found submitted done =
      ground (arith, found, submitted, done)

  -- A FluxJob that Enqueue takes is reconciled three times, of which each ends without an error and
  -- without a wish to be repeated: the first runs a cycle and records the status `submit`, the second
  -- deletes the FluxJob, and the third makes no further call; where the API server accepts the status
  -- and the deletion and returns what was written last.
  pub reconcile_ends :
      (depth : ℤ) (state : ℕ) (spec : FluxJob) (t : List Call) (status : EnqueueStatus)
      → IsApiServer S
      → ((u : List Call) (j : FluxJob) → S.update_status u j ≡ replied tt)
      → ((u : List Call) (j : FluxJob) → S.delete_flux_job u j ≡ replied tt)
      → S.get_flux_job t spec.namespace spec.name ≡ replied spec
      → same_status spec.submit_status status_submit ≡ false
      → (enqueue S spec (Call.get_flux_job spec.namespace spec.name ∷ t)).0 ≡ ok status
      → let q = easy_queue S depth state in
        let again = reconcile S q spec.namespace spec.name in
        let submitted = with_status spec status_submit in
        let first =
          Call.update_status submitted
          ∷ (schedule S q (enqueue S spec (Call.get_flux_job spec.namespace spec.name ∷ t)).1).1 in
        let second =
          Call.delete_flux_job submitted ∷ Call.get_flux_job spec.namespace spec.name ∷ first in
        (again t ≡ (some settled, first, q))
        × (again first ≡ (some settled, second, q))
        × (again second ≡ (some settled, Call.get_flux_job spec.namespace spec.name ∷ second, q))
  reconcile_ends depth state spec t status server accepts deletes found new enqueued =
      let q = easy_queue S depth state in
      let submitted = with_status spec status_submit in
      let t₁ : List Call =
        Call.update_status submitted
        ∷ (schedule S q (enqueue S spec (Call.get_flux_job spec.namespace spec.name ∷ t)).1).1 in
      let t₂ : List Call = Call.get_flux_job spec.namespace spec.name ∷ t₁ in
      (
        reconcile_submits S spec.namespace spec.name spec t depth state status found new enqueued
            (λ u. accepts u submitted),
        reconcile_deletes q spec.namespace spec.name submitted t₁
            (server.updated _ submitted (accepts _ submitted)) refl (deletes t₂ submitted),
        reconcile_gone q spec.namespace spec.name (Call.delete_flux_job submitted ∷ t₂)
            (server.deleted t₂ submitted (deletes t₂ submitted)),
      )
