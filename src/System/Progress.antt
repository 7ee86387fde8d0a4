-- ===== src/System/Progress.antt =====
-- A new FluxJob is handed to river where the services answer.
use mathlib.Core.List.{reverse, reverse_aux-append}
use fluxqueue.Base.{
  ◌≡◌, ◌≢◌, inl, refl, ap, ◌∙◌, ℕ, ◌%◌, ◌+◌, true, false, not, List, [], ◌∷◌, ◌++◌, map, arith,
}
use fluxqueue.Base.Int.{ℤ}
use fluxqueue.Base.Str.{Str}
use fluxqueue.Types.{
  FluxJob, JobModel, Args, job_args, InsertManyParams, EnqueueStatus, status_submit,
}
use fluxqueue.Service.{Services, Result, ok, err, panic, replied}
use fluxqueue.Service.Calls.{Call, PendingRow}
use fluxqueue.Strategy.{job_of_model, job_params}
use fluxqueue.Queue.{enqueue, pending_row, cycle, schedule, is_in_schedule_loop, lock}
use fluxqueue.Queue.Pending.{has_row, model_of_row, table, effect, IsDatabase}
use fluxqueue.Queue.Enqueue.{IsHealthy, enqueued, enqueue_lem, table-enqueue}
use fluxqueue.Queue.Cycle.{easy_queue, delete_calls, submission, cycle_lem}
use fluxqueue.Controller.{same_status, reconcile}
use fluxqueue.Controller.Status.{reconcile_submits, with_status, got}
use fluxqueue.System.{HasArgs, Submitted}
use fluxqueue.System.Past.{args_of}
use fluxqueue.System.Rows.{stored_args}

reverse-last : {A : Type 0} (xs : List A) (x : A) → reverse (xs ++ (x ∷ [])) ≡ x ∷ reverse xs
reverse-last xs x = reverse_aux-append xs (x ∷ []) []

pub replied-injective : {A : Type 0} {a b : A} → replied a ≡ replied b → a ≡ b
replied-injective e = cc

enqueued_ok :
    (r : Result EnqueueStatus) → enqueued r ≡ true → (status : EnqueueStatus) × (r ≡ ok status)
enqueued_ok (ok status) h = (status, refl)
enqueued_ok (err e) h = cc
enqueued_ok panic h = cc

module _ (S : Services) where
  -- What the services must do for a job to be handed to river.
  pub record AcceptsJobs : Type 0 where
    pub healthy : IsHealthy S []
    pub database : IsDatabase S []
    pub queried : (t : List Call) → S.query_pending t ≡ replied tt
    pub collected :
        (t : List Call) → (models : List JobModel) × (S.collect_pending t ≡ replied models)
    pub taken : (t : List Call) → (ps : List InsertManyParams) → S.insert_many t ps ≡ replied tt
    pub updated : (t : List Call) → (j : FluxJob) → S.update_status t j ≡ replied tt

  Submitted-delete_calls :
      (args : Args) (ms : List JobModel) (t : List Call)
      → Submitted S args t
      → Submitted S args (delete_calls ms t)
  unfolding delete_calls
  Submitted-delete_calls args [] t h = h
  Submitted-delete_calls args (m ∷ ms) t h = Submitted-delete_calls args ms _ h

  -- The row at the end of the table is in the cycle's submission.
  last_submitted :
      (rows : List PendingRow) (r : PendingRow)
      → HasArgs (job_args (job_of_model (model_of_row r))) (submission S (rows ++ (r ∷ [])))
  unfolding job_params
  last_submitted rows r = rw (reverse-last rows r) (inl refl)

  cycle_submits :
      (depth : ℤ) (state : ℕ) (t : List Call) (rows : List PendingRow) (r : PendingRow)
      → AcceptsJobs
      → table S [] t ≡ rows ++ (r ∷ [])
      → Submitted S
          (job_args (job_of_model (model_of_row r)))
          (cycle S (easy_queue S depth state) t).1
  unfolding table effect
  cycle_submits depth state t rows r a e =
      let (models, collected) = a.collected (Call.query_pending ∷ t) in
      let read : models ≡ map model_of_row (r ∷ reverse rows) =
        a.database.newest_first (Call.query_pending ∷ t) models collected
        ∙ ap (λ ts. map model_of_row (reverse ts)) e
        ∙ ap (map model_of_row) (reverse-last rows r) in
      let filled : models ≢ [] = λ empty. cc in
      rw
        (cycle_lem S [] depth state t models a.database a.healthy.opens (a.queried t) collected
          filled (a.taken _ _))
        (Submitted-delete_calls _ models _ (inl (a.taken _ _, rw e (last_submitted rows r))))

  schedule_free :
      (depth : ℤ) (state : ℕ) (t : List Call)
      → state % 2 ≡ 0
      → (schedule S (easy_queue S depth state) t).1 ≡ (cycle S (easy_queue S depth (state + 1)) t).1
  unfolding schedule is_in_schedule_loop lock
  schedule_free depth state t free = ground (arith, free)

  -- If the services accept jobs, a FluxJob that is read and is not submitted yet is handed to river by
  -- this reconciliation, unless the queue is locked or a pending row has its name and namespace.
  pub new_job-Submitted :
      (depth : ℤ) (state : ℕ) (namespace name : Str) (spec : FluxJob) (t : List Call)
      → AcceptsJobs
      → state % 2 ≡ 0
      → S.get_flux_job t namespace name ≡ replied spec
      → same_status spec.submit_status status_submit ≡ false
      → has_row spec.spec.name spec.namespace (table S [] t) ≡ false
      → Submitted S
          (job_args (args_of spec))
          (reconcile S (easy_queue S depth state) namespace name t).1
  unfolding table effect
  new_job-Submitted depth state namespace name spec t a free found new unseen =
      let u : List Call = got S namespace name spec t in
      let fresh : enqueued (enqueue S spec u).0 ≡ true =
        enqueue_lem S [] spec u a.healthy ∙ ap not unseen in
      let (status, queued) = enqueued_ok (enqueue S spec u).0 fresh in
      let row : table S [] (enqueue S spec u).1 ≡ table S [] t ++ (pending_row spec ∷ []) =
        rw (table-enqueue S [] spec u, fresh) refl in
      rw
        (
          ← stored_args spec,
          reconcile_submits S namespace name spec t depth state status found new queued
              (λ v. a.updated v (with_status spec status_submit)),
        )
        (rw (schedule_free depth state (enqueue S spec u).1 free) (
          cycle_submits depth (state + 1) (enqueue S spec u).1 (table S [] t) (pending_row spec) a
            row))
