-- ===== src/System/Booked.antt =====
-- A property of the calls that follows the rules of a Ledger stands in every state of the program.
use fluxqueue.Base.{◌+◌, ℕ, arith, All, List, [], ◌∷◌, inl, inr, Bool-cases}
use fluxqueue.Base.Int.{ℤ}
use fluxqueue.Base.Str.{Str}
use fluxqueue.Types.{FluxJob, EnqueueStatus, SubmitStatus, status_submit, status_error}
use fluxqueue.Service.{Services, Result, ok, err, panic, Reply-cases}
use fluxqueue.Service.Calls.{Call}
use fluxqueue.Service.Stays.{Stays, if-Stays}
use fluxqueue.Queue.{Queue, enqueue, schedule, is_in_schedule_loop, lock}
use fluxqueue.Queue.Cycle.{easy_queue}
use fluxqueue.Webhook.{MakeJobspec}
use fluxqueue.Webhook.Handle.{Codec}
use fluxqueue.Controller.{
  same_status, then_schedule, submit_job, update_status, record_status, reconcile_found,
  reconcile_got, reconcile,
}
use fluxqueue.System.{
  Step, admit, reconciled, deleted, job_task, cleanup_task, reservation_task, ungate_task, Reach,
  start, later, IsSetUpCall,
}
use fluxqueue.System.Neutral.{IsNeutral, cleanup-Stays, reservation-Stays, job-Stays, ungate-Stays}
use fluxqueue.System.Unlisted.{handle-Stays}
use fluxqueue.System.Ledger.{Ledger, enqueue-Stays, delete_func-Stays, cycle-Stays}

set_up-IsNeutral : (c : Call) → IsSetUpCall c → IsNeutral c
set_up-IsNeutral (Call.insert args opts) h = absurd h
set_up-IsNeutral c h = ground (arith, h)

module _ {ℓ} (S : Services) (name namespace : Str) {P : List Call → Type ℓ}
    (l : Ledger S name namespace P) where
  schedule-Stays :
      (depth : ℤ) (state : ℕ) (t : List Call) → P t → P (schedule S (easy_queue S depth state) t).1
  unfolding schedule lock
  schedule-Stays depth state t h =
      elim (Bool-cases (is_in_schedule_loop (easy_queue S depth state))) [
        | inl busy ↦ rw busy h
        | inr free ↦ rw free (cycle-Stays S name namespace l depth (state + 1) t h)
      ]

  then_schedule-Stays :
      (depth : ℤ) (state : ℕ) (r : Result EnqueueStatus) (t : List Call)
      → P t
      → P (then_schedule S (easy_queue S depth state) r t).1
  unfolding then_schedule
  then_schedule-Stays depth state (ok status) t h = schedule-Stays depth state t h
  then_schedule-Stays depth state (err e) t h = h
  then_schedule-Stays depth state panic t h = h

  update_status-Stays :
      (spec : FluxJob) (status : SubmitStatus) → Stays P (update_status S spec status)
  unfolding update_status
  update_status-Stays spec status =
      if-Stays P (same_status spec.submit_status status) _ _ (λ t h. h)
        (l.neutral (Call.update_status (record spec { submit_status = status })) tt)

  record_status-Stays :
      (spec : FluxJob) (r : Result (Unit {0})) (t : List Call) (q : Queue)
      → P t
      → P (record_status S spec (r, t, q)).1
  unfolding record_status
  record_status-Stays spec (ok u) t q h = update_status-Stays spec status_submit t h
  record_status-Stays spec (err e) t q h = update_status-Stays spec status_error t h
  record_status-Stays spec panic t q h = h

  reconcile_found-Stays :
      (depth : ℤ) (state : ℕ) (spec : FluxJob) (t : List Call)
      → P t
      → P (reconcile_found S (easy_queue S depth state) spec t).1
  unfolding reconcile_found submit_job
  reconcile_found-Stays depth state spec t h =
      elim (Bool-cases (same_status spec.submit_status status_submit)) [
        | inl submitted ↦ rw submitted (l.neutral (Call.delete_flux_job spec) tt t h)
        | inr new ↦
            let e = enqueue S spec t in
            let r = then_schedule S (easy_queue S depth state) e.0 e.1 in
            rw new (
              record_status-Stays spec r.0 r.1 r.2 (
                then_schedule-Stays depth state e.0 e.1
                  (enqueue-Stays S name namespace l spec t h)))
      ]

  reconcile-Stays :
      (depth : ℤ) (state : ℕ) (ns n : Str) (t : List Call)
      → P t
      → P (reconcile S (easy_queue S depth state) ns n t).1
  unfolding reconcile reconcile_got
  reconcile-Stays depth state ns n t h =
      let u : List Call = Call.get_flux_job ns n ∷ t in
      let k : P u = l.neutral (Call.get_flux_job ns n) tt t h in
      elim (Reply-cases (S.get_flux_job t ns n)) [
        | inr (e, missing) ↦ rw missing (ground (arith, k))
        | inl (spec, found) ↦ rw found (reconcile_found-Stays depth state spec u k)
      ]

  module _ (make_jobspec : MakeJobspec) (codec : Codec) where
    Step-Stays : {t u : List Call} → Step S make_jobspec codec t u → P t → P u
    Step-Stays {t} (admit req) = handle-Stays P (l.neutral) S make_jobspec codec req t
    Step-Stays {t} (reconciled depth state ns n) = reconcile-Stays depth state ns n t
    Step-Stays {t} (deleted depth state object) =
        delete_func-Stays S name namespace l depth state object t
    Step-Stays {t} (job_task a m) = job-Stays P (l.neutral) S a t
    Step-Stays {t} (cleanup_task a m) = cleanup-Stays P (l.neutral) S a t
    Step-Stays {t} (reservation_task m) = reservation-Stays P (l.neutral) S t
    Step-Stays {t} (ungate_task a m) = ungate-Stays P (l.neutral) S a t

    set_up-Stays : (t : List Call) → All IsSetUpCall t → P t
    set_up-Stays [] h = l.none_yet
    set_up-Stays (c ∷ t) (h, hs) = l.neutral c (set_up-IsNeutral c h) t (set_up-Stays t hs)

    pub Reach-holds : {t : List Call} → Reach S make_jobspec codec t → P t
    Reach-holds (start h) = set_up-Stays _ h
    Reach-holds (later r step) = Step-Stays step (Reach-holds r)
