-- ===== src/System/Control.antt =====
-- The controller keeps to the law.
use fluxqueue.Base.{◌≡◌, inl, inr, refl, ℕ, true, List, [], ◌∷◌, arith, Bool-cases, Option-cases}
use fluxqueue.Base.Int.{ℤ, pos}
use fluxqueue.Base.Str.{Str, str_eq, in_list}
use fluxqueue.Base.Decimal.{parse_int}
use fluxqueue.Base.Assoc.{lookup}
use fluxqueue.Types.{
  FluxJob, kind, InsertManyParams, Pod, EnqueueStatus, SubmitStatus, status_submit, status_error,
}
use fluxqueue.Service.{Services, Result, ok, err, panic, Reply-cases, perform}
use fluxqueue.Service.Calls.{Call}
use fluxqueue.Service.Patches.{flux_job_id_label}
use fluxqueue.Strategy.{easy_backfill, cleanup_params}
use fluxqueue.Queue.{Queue, river_config, enqueue, cleanup}
use fluxqueue.Queue.Pending.{IsDatabase}
use fluxqueue.Queue.Cycle.{easy_queue}
use fluxqueue.Controller.{
  same_status, then_schedule, submit_job, update_status, record_status, reconcile_found,
  reconcile_got, reconcile, on_delete, DeletedObject, deleted_pod, deleted_final_state_unknown,
  delete_func,
}
use fluxqueue.System.Past.{Found}
use fluxqueue.System.Lawful.{
  IsServed, easy_config, Keeps, Keeps-refl, Keeps-trans, Keeps-cons, ignore-Keeps,
}
use fluxqueue.System.Cycle.{enqueue-Keeps, schedule-Keeps}

same_status_submit : (s : SubmitStatus) → same_status s status_submit ≡ true → s ≡ status_submit
same_status_submit s h = ground (arith, h)

module _ (S : Services) where
  module _ (database : IsDatabase S []) (depth : ℤ) where
    submit_job-Keeps :
        (state : ℕ) (spec : FluxJob) (t : List Call)
        → Found S spec t
        → Keeps S t (submit_job S (easy_queue S depth state) spec t).1
    unfolding submit_job
    submit_job-Keeps state spec t found =
        then_keeps (enqueue S spec t).0 (enqueue S spec t).1 (enqueue-Keeps S spec t found)
      where
        then_keeps :
            (r : Result EnqueueStatus) (u : List Call)
            → Keeps S t u
            → Keeps S t (then_schedule S (easy_queue S depth state) r u).1
        then_keeps (ok status) u k = Keeps-trans S k (schedule-Keeps S database depth state u)
        then_keeps (err e) u k = k
        then_keeps panic u k = k

    update_status-Keeps :
        (spec : FluxJob) (status : SubmitStatus) (t : List Call)
        → Keeps S t (update_status S spec status t).1
    unfolding update_status
    update_status-Keeps spec status t = ground (
      arith,
      Keeps-refl S t,
      Keeps-cons S (Call.update_status (record spec { submit_status = status })) t (λ _. tt),
    )

    record_status-Keeps :
        (spec : FluxJob) (t : List Call) (r : Result (Unit {0})) (u : List Call) (q : Queue)
        → Keeps S t u
        → Keeps S t (record_status S spec (r, u, q)).1
    unfolding record_status
    record_status-Keeps spec t (ok _) u q k =
        Keeps-trans S k (update_status-Keeps spec status_submit u)
    record_status-Keeps spec t (err e) u q k =
        Keeps-trans S k (update_status-Keeps spec status_error u)
    record_status-Keeps spec t panic u q k = k

    reconcile_found-Keeps :
        (state : ℕ) (spec : FluxJob) (t : List Call)
        → Found S spec t
        → Keeps S t (reconcile_found S (easy_queue S depth state) spec t).1
    unfolding reconcile_found
    reconcile_found-Keeps state spec t found =
        elim (Bool-cases (same_status spec.submit_status status_submit)) [
          | inl submitted ↦ rw submitted (
              Keeps-cons S (Call.delete_flux_job spec) t
                (λ _. (found, same_status_submit spec.submit_status submitted)))
          | inr new ↦
              let r = submit_job S (easy_queue S depth state) spec t in
              rw new (record_status-Keeps spec t r.0 r.1 r.2 (submit_job-Keeps state spec t found))
        ]

    pub reconcile-Keeps :
        (state : ℕ) (namespace name : Str) (t : List Call)
        → Keeps S t (reconcile S (easy_queue S depth state) namespace name t).1
    unfolding reconcile
    reconcile-Keeps state namespace name t =
        let asked : Keeps S t (Call.get_flux_job namespace name ∷ t) =
          Keeps-cons S (Call.get_flux_job namespace name) t (λ _. tt) in
        elim (Reply-cases (S.get_flux_job t namespace name)) [
          | inr (e, missing) ↦ rw missing (unfold reconcile_got in (ground (arith, asked)))
          | inl (spec, found) ↦ rw found (
              unfold reconcile_got in
              (Keeps-trans S asked (
                reconcile_found-Keeps state spec (Call.get_flux_job namespace name ∷ t)
                  (inl found))))
        ]

  on_delete-Keeps :
      (depth : ℤ) (state : ℕ) (pod : Pod) (t : List Call)
      → Keeps S t (on_delete (easy_queue S depth state) pod t).1
  unfolding on_delete cleanup easy_backfill cleanup_params river_config kind in_list str_eq lookup
  on_delete-Keeps depth state pod t = elim (Option-cases (lookup flux_job_id_label pod.labels)) [
    | inl unlabelled ↦ rw (on_delete, unlabelled) (Keeps-refl S t)
    | inr (jobid, labelled) ↦
        let p : InsertManyParams = cleanup_params (parse_int 64 jobid).value in
        let served : IsServed easy_config p = ((pos 1, refl), refl) in
        rw (on_delete, labelled)
          (ignore-Keeps S (perform (λ u. S.insert_many u (p ∷ [])) (Call.insert_many (p ∷ []))) t
            (Keeps-cons S (Call.insert_many (p ∷ [])) t (λ _. ((tt, tt), (served, tt)))))
  ]

  pub delete_func-Keeps :
      (depth : ℤ) (state : ℕ) (object : DeletedObject) (t : List Call)
      → Keeps S t (delete_func (easy_queue S depth state) object t).1
  unfolding delete_func
  delete_func-Keeps depth state (deleted_pod pod) t = on_delete-Keeps depth state pod t
  delete_func-Keeps depth state (deleted_final_state_unknown key) t = Keeps-refl S t
