-- ===== src/Queue/Cycle.antt =====
-- One scheduling cycle over the strategy "easy".
use mathlib.Core.List.{reverse}
use mathlib.Core.Path.{subst}
use fluxqueue.Base.{◌≢◌, ℕ, ◌≡◌, refl, sym, true, List, [], ◌∷◌, ◌++◌, map, arith}
use fluxqueue.Base.Int.{ℤ}
use fluxqueue.Types.{JobModel, InsertManyParams}
use fluxqueue.Service.{Services, ok, replied}
use fluxqueue.Service.Calls.{Call, PendingRow}
use fluxqueue.Strategy.{easy_backfill, job_params, job_of_model}
use fluxqueue.Strategy.Batch.{batch_loop-map}
use fluxqueue.Queue.Pending.{model_of_row, table, effect, IsDatabase}
use fluxqueue.Queue.{
  Queue, delete_job, delete_batch, submit_batch, clear_reservation_job, cycle, schedule,
}

abbrev pub easy_queue : Services → ℤ → ℕ → Queue
easy_queue S depth state = record {
  strategy = easy_backfill S;
  lock_state = state;
  reservation_depth = depth;
  has_client = true;
}

-- Schedule leaves the queue as it found it, its lock included, whether it returns, fails or panics.
pub schedule_restores : (S : Services) (q : Queue) (t : List Call) → (schedule S q t).2 ≡ q
unfolding schedule
schedule_restores S q t = ground arith

abbrev pub batch : List JobModel → List InsertManyParams
batch models = map job_params (map job_of_model models)

-- The calls by which the jobs leave the table, where every pool opens.
unfoldable pub delete_calls : List JobModel → List Call → List Call
delete_calls [] t = t
delete_calls (m ∷ ms) t =
    delete_calls ms (Call.delete_pending m.name m.namespace ∷ Call.new_pool ∷ t)

module _ (S : Services) where
  abbrev pub Opens : Type 0
  Opens = (t : List Call) → S.new_pool t ≡ replied tt

  -- A failed delete is dropped, so the loop goes through all jobs.
  delete_batch_lem :
      (models : List JobModel) (t : List Call)
      → Opens
      → delete_batch S (batch models) t ≡ (ok tt, delete_calls models t)
  unfolding delete_batch delete_job delete_calls job_params job_of_model
  delete_batch_lem [] t opens = refl
  delete_batch_lem (m ∷ ms) t opens = ground (
    arith,
    opens t,
    delete_batch_lem ms (Call.delete_pending m.name m.namespace ∷ Call.new_pool ∷ t) opens,
  )

  -- What a cycle hands to river: the jobs of the rows, the last inserted first, and the job that
  -- clears the reservations.
  abbrev pub submission : List PendingRow → List InsertManyParams
  submission rows = batch (map model_of_row (reverse rows)) ++ (clear_reservation_job ∷ [])

  module _ (initial : List PendingRow) (depth : ℤ) (state : ℕ) (t : List Call) where
    abbrev read_calls : List Call
    read_calls = Call.collect_pending ∷ Call.query_pending ∷ t

    submit_batch_lem :
        (m : JobModel) (ms : List JobModel) (u : List Call)
        → let all = batch (m ∷ ms) ++ (clear_reservation_job ∷ []) in
          Opens
          → S.insert_many u all ≡ replied tt
          → submit_batch S (batch (m ∷ ms)) u
            ≡ (ok tt, delete_calls (m ∷ ms) (Call.insert_many all ∷ u))
    unfolding submit_batch
    submit_batch_lem m ms u opens inserted = ground (
      arith,
      inserted,
      delete_batch_lem (m ∷ ms)
          (Call.insert_many (batch (m ∷ ms) ++ (clear_reservation_job ∷ [])) ∷ u) opens,
    )

    -- Where every pool opens, a second row of one name and namespace is refused, and a read of the table
    -- returns exactly its rows, those that this program inserted and did not delete behind those that
    -- were there before, latest first: a cycle whose reads succeed on a table that is not empty, and whose
    -- submission succeeds, makes these calls and no others: it reads the table, submits the jobs of its
    -- rows, the last inserted first, with the job that clears the reservations behind them, and then
    -- asks for the delete of each row.
    pub cycle_lem :
        (models : List JobModel)
        → IsDatabase S initial
        → Opens
        → S.query_pending t ≡ replied tt
        → S.collect_pending (Call.query_pending ∷ t) ≡ replied models
        → models ≢ []
        → S.insert_many read_calls (submission (table S initial t)) ≡ replied tt
        → cycle S (easy_queue S depth state) t ≡ (
          ok tt,
          delete_calls models (Call.insert_many (submission (table S initial t)) ∷ read_calls),
        )
    unfolding cycle easy_backfill table effect
    cycle_lem [] d opens queried collected filled inserted = absurd (filled refl)
    cycle_lem (m ∷ ms) d opens queried collected filled inserted =
        let rows : m ∷ ms ≡ map model_of_row (reverse (table S initial t)) =
          d.newest_first (Call.query_pending ∷ t) (m ∷ ms) collected in
        let submitted : S.insert_many read_calls (batch (m ∷ ms) ++ (clear_reservation_job ∷ []))
            ≡ replied tt =
          subst
            (λ ms'.
              S.insert_many read_calls (batch ms' ++ (clear_reservation_job ∷ [])) ≡ replied tt)
            (sym rows) inserted in
        rw (queried, collected, batch_loop-map, ← rows)
          (ground (arith, submit_batch_lem m ms read_calls opens submitted))
