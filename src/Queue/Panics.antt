-- ===== src/Queue/Panics.antt =====
-- Scheduling over the strategy "easy" and its type assertions.
use fluxqueue.Base.{ℕ, ◌≡◌, ◌≢◌, refl, List, [], ◌∷◌, ◌++◌, map, arith, inl, inr}
use fluxqueue.Base.Int.{ℤ}
use fluxqueue.Types.{JobModel}
use fluxqueue.Service.{Services, ok, panic, Reply-cases}
use fluxqueue.Service.Calls.{Call}
use fluxqueue.Strategy.{easy_backfill, job_params, job_of_model}
use fluxqueue.Strategy.Batch.{batch_loop-map}
use fluxqueue.Queue.Cycle.{batch, easy_queue}
use fluxqueue.Queue.{
  delete_job, delete_batch, submit_batch, clear_reservation_job, cycle, schedule, lock,
}

module _ (S : Services) where
  pub delete_batch_ok :
      (ms : List JobModel) (t : List Call) → (delete_batch S (batch ms) t).0 ≡ ok tt
  unfolding delete_batch delete_job job_params job_of_model
  delete_batch_ok [] t = refl
  delete_batch_ok (m ∷ ms) t = ground (
    arith,
    delete_batch_ok ms (Call.new_pool ∷ t),
    delete_batch_ok ms (Call.delete_pending m.name m.namespace ∷ Call.new_pool ∷ t),
  )

  submit_batch-ne-panic :
      (ms : List JobModel) (u : List Call) → (submit_batch S (batch ms) u).0 ≢ panic
  unfolding submit_batch
  submit_batch-ne-panic [] u e = ground (arith, e)
  submit_batch-ne-panic (m ∷ ms) u e = ground (
    arith,
    e,
    delete_batch_ok (m ∷ ms)
        (Call.insert_many (batch (m ∷ ms) ++ (clear_reservation_job ∷ [])) ∷ u),
  )

  -- Whatever the services reply, Schedule over the strategy "easy" does not panic: every item of
  -- a batch carries the arguments of a job, which the type assertion of its delete expects.
  pub schedule-ne-panic :
      (depth : ℤ) (state : ℕ) (t : List Call) → (schedule S (easy_queue S depth state) t).0 ≢ panic
  unfolding schedule cycle easy_backfill lock
  schedule-ne-panic depth state t e = elim (Reply-cases (S.query_pending t)) [
    | inr (_, unread) ↦ ground (arith, e, unread)
    | inl (_, queried) ↦ elim (Reply-cases (S.collect_pending (Call.query_pending ∷ t))) [
      | inr (_, lost) ↦ ground (arith, e, queried, lost)
      | inl (models, collected) ↦ ground (
        arith,
        e,
        queried,
        collected,
        batch_loop-map depth 0 (map job_of_model models),
        submit_batch-ne-panic models (Call.collect_pending ∷ Call.query_pending ∷ t),
      )
    ]
  ]
