-- ===== src/System/Lossless.antt =====
-- No job is lost on its way through the table of pending jobs, whatever fails.
use fluxqueue.Base.{
  ◌≡◌, ◌≢◌, refl, ap, ◌∙◌, ℕ, ◌+◌, ◌≤◌, List, [], ◌∷◌, ◌++◌, arith, if◌then◌else◌, map,
}
use mathlib.Core.List.{reverse}
use fluxqueue.Base.Int.{ℤ}
use fluxqueue.Base.Str.{Str}
use fluxqueue.Types.{
  Args, job_args, cleanup_args, reservation_args, ungate_args, InsertManyParams, JobModel,
}
use fluxqueue.Service.{Services, replied, is_ok, M, ◌>>◌, pure}
use fluxqueue.Service.Calls.{Call, PendingRow}
use fluxqueue.Service.Stays.{Stays, bind-Stays, call-Stays, perform-Stays, ignore-Stays}
use fluxqueue.Strategy.{easy_backfill}
use fluxqueue.Strategy.Batch.{batch_loop-map}
use fluxqueue.Queue.{
  cycle, submit_batch, clear_reservation_job, delete_batch, delete_job, delete_from_pending,
}
use fluxqueue.Queue.Pending.{table, effect, IsDatabase, model_of_row}
use fluxqueue.Queue.Cycle.{easy_queue, batch}
use fluxqueue.Webhook.{MakeJobspec}
use fluxqueue.Webhook.Handle.{Codec}
use fluxqueue.System.{Reach}
use fluxqueue.System.Neutral.{IsNeutral}
use fluxqueue.System.Counts.{
  jobs_in, rows_in, handed, enqueued, pending, jobs_in-submission, enqueued-insert_pending,
  handed-insert_pending, pending-insert_pending, handed-insert_many, enqueued-insert_many,
  pending-insert_many,
}
use fluxqueue.System.Single.{pending-single}
use fluxqueue.System.Ledger.{Ledger}
use fluxqueue.System.Booked.{Reach-holds}

module _ (S : Services) (name namespace : Str) where
  abbrev Kept : List Call → Type 0
  Kept t = enqueued name namespace S t ≤ handed name namespace S t + pending name namespace S t

  neutral-Kept : (c : Call) → IsNeutral c → (t : List Call) → Kept t → Kept (c ∷ t)
  unfolding handed enqueued table effect
  neutral-Kept (Call.insert_pending r) p t h = elim p [ ]
  neutral-Kept (Call.delete_pending n ns) p t h = elim p [ ]
  neutral-Kept (Call.insert_many ps) p t h = elim p [ ]
  neutral-Kept (Call.insert args opts) p t h = ground (arith, p, h)
  neutral-Kept c p t h = h

  insert-Kept : (r : PendingRow) (t : List Call) → Kept t → Kept (Call.insert_pending r ∷ t)
  insert-Kept r t h = omega (
    arith,
    h,
    enqueued-insert_pending name namespace S r t,
    handed-insert_pending name namespace S r t,
    pending-insert_pending name namespace S r t,
  )

  listed-Kept :
      (ps : List InsertManyParams) (t : List Call) → Kept t → Kept (Call.insert_many ps ∷ t)
  listed-Kept ps t h = omega (
    arith,
    h,
    handed-insert_many name namespace S ps t,
    enqueued-insert_many name namespace S ps t,
    pending-insert_many name namespace S ps t,
  )

  -- River has every row that was inserted, however many are still in the table.
  abbrev Taken : List Call → Type 0
  Taken t = enqueued name namespace S t ≤ handed name namespace S t

  Taken-Kept : (t : List Call) → Taken t → Kept t
  Taken-Kept t h = omega (arith, h)

  delete_job-Taken : (args : Args) → Stays Taken (delete_job S args)
  unfolding delete_job delete_from_pending handed enqueued
  delete_job-Taken (job_args a) = ignore-Stays Taken (delete_from_pending S a.namespace a.name) (
      call-Stays Taken S.new_pool Call.new_pool _ (λ t h. h)
        (λ _.
          perform-Stays Taken (λ t. S.delete_pending t a.name a.namespace)
            (Call.delete_pending a.name a.namespace) (λ t h. h)))
  delete_job-Taken (cleanup_args a) = λ t h. h
  delete_job-Taken reservation_args = λ t h. h
  delete_job-Taken (ungate_args a) = λ t h. h

  delete_batch-Taken : (ps : List InsertManyParams) → Stays Taken (delete_batch S ps)
  unfolding delete_batch
  delete_batch-Taken [] = λ t h. h
  delete_batch-Taken (p ∷ ps) =
      bind-Stays Taken (delete_job S p.args) _ (delete_job-Taken p.args)
        (λ _. delete_batch-Taken ps)

  -- What is left of a cycle once river has taken the jobs.
  abbrev rest : List JobModel → M (Unit {0})
  rest models = delete_batch S (batch models) >> pure tt

  cycle_taken :
      (depth : ℤ) (state : ℕ) (t : List Call) (m : JobModel) (ms : List JobModel)
      → S.query_pending t ≡ replied tt
      → S.collect_pending (Call.query_pending ∷ t) ≡ replied (m ∷ ms)
      → S.insert_many
          (Call.collect_pending ∷ Call.query_pending ∷ t)
          (batch (m ∷ ms) ++ (clear_reservation_job ∷ []))
        ≡ replied tt
      → (cycle S (easy_queue S depth state) t).1
        ≡ (rest (m ∷ ms) (
            Call.insert_many (batch (m ∷ ms) ++ (clear_reservation_job ∷ []))
            ∷ Call.collect_pending
            ∷ Call.query_pending
            ∷ t)).1
  unfolding cycle easy_backfill submit_batch
  cycle_taken depth state t m ms queried collected taken =
      rw (queried, collected, batch_loop-map, taken) refl

  cycle-Kept :
      (depth : ℤ) (state : ℕ) (t : List Call) (models : List JobModel)
      → IsDatabase S []
      → S.query_pending t ≡ replied tt
      → S.collect_pending (Call.query_pending ∷ t) ≡ replied models
      → models ≢ []
      → S.insert_many
          (Call.collect_pending ∷ Call.query_pending ∷ t)
          (batch models ++ (clear_reservation_job ∷ []))
        ≡ replied tt
      → Kept t
      → Kept (cycle S (easy_queue S depth state) t).1
  unfolding table effect handed enqueued
  cycle-Kept depth state t [] d queried collected filled taken h = absurd (filled refl)
  cycle-Kept depth state t (m ∷ ms) d queried collected filled taken h =
      let u : List Call = Call.collect_pending ∷ Call.query_pending ∷ t in
      let ps : List InsertManyParams = batch (m ∷ ms) ++ (clear_reservation_job ∷ []) in
      let rows : m ∷ ms ≡ map model_of_row (reverse (table S [] t)) =
        d.newest_first (Call.query_pending ∷ t) (m ∷ ms) collected in
      let jobs : jobs_in name namespace ps ≡ pending name namespace S t =
        ap (λ js. jobs_in name namespace (batch js ++ (clear_reservation_job ∷ []))) rows
        ∙ jobs_in-submission name namespace S (table S [] t) in
      let counted : (if is_ok (S.insert_many u ps) then jobs_in name namespace ps else 0)
          ≡ jobs_in name namespace ps =
        rw taken refl in
      let all : Taken (Call.insert_many ps ∷ u) = omega (
        arith,
        h,
        jobs,
        counted,
        handed-insert_many name namespace S ps u,
        enqueued-insert_many name namespace S ps u,
      ) in
      let end : List Call = (rest (m ∷ ms) (Call.insert_many ps ∷ u)).1 in
      rw (cycle_taken depth state t m ms queried collected taken) (
        Taken-Kept end (
          bind-Stays Taken (delete_batch S (batch (m ∷ ms))) _ (delete_batch-Taken (batch (m ∷ ms)))
            (λ _ t h. h) (Call.insert_many ps ∷ u) all))

  Kept-Ledger : IsDatabase S [] → Ledger S name namespace Kept
  unfolding handed enqueued table rows_in
  Kept-Ledger d = record {
    none_yet = omega arith;
    neutral = neutral-Kept;
    inserted = insert-Kept;
    idle = λ ps t none_taken h. listed-Kept ps t h;
    full = λ depth state t models queried collected filled taken h.
        cycle-Kept depth state t models d queried collected filled taken h;
  }

  -- In every reachable state, if the table of pending jobs starts empty, refuses a second row of one
  -- name and namespace, and a read returns exactly the rows that this program put there, latest first, then
  -- whichever calls fail, a delete of a row or the opening of a pool included, for each name and
  -- namespace the rows that Enqueue inserted are at most as many as the tasks that river has taken
  -- for the job and the rows that are pending together, and at most one row is pending: no failure
  -- loses a job on the way to river, and at most one of its jobs still waits.
  pub none_lost :
      (make_jobspec : MakeJobspec) (codec : Codec) {t : List Call}
      → IsDatabase S []
      → Reach S make_jobspec codec t
      → (enqueued name namespace S t ≤ handed name namespace S t + pending name namespace S t)
        × (pending name namespace S t ≤ 1)
  none_lost make_jobspec codec {t} d r = (
    Reach-holds S name namespace (Kept-Ledger d) make_jobspec codec r,
    pending-single name namespace S d t,
  )
