-- ===== src/System/Counts.antt =====
-- How often a job was put into the table of pending jobs, how often it stands there, and how often it
-- was handed to river.
use mathlib.Core.List.{reverse, reverse_aux}
use fluxqueue.Base.{
  ◌≡◌, refl, ◌∙◌, ℕ, ◌+◌, Bool, false, ◌&&◌, List, [], ◌∷◌, inl, inr, Bool-cases, ◌++◌, map, arith,
  if◌then◌else◌,
}
use fluxqueue.Base.Str.{Str, str_eq}
use fluxqueue.Types.{JobModel, Args, job_args, InsertManyParams}
use fluxqueue.Service.{Services, is_ok}
use fluxqueue.Service.Calls.{Call, PendingRow}
use fluxqueue.Strategy.{job_params, job_of_model}
use fluxqueue.Queue.{clear_reservation_job}
use fluxqueue.Queue.Pending.{matches, model_of_row, table, effect}
use fluxqueue.Queue.Cycle.{batch, submission, delete_calls}

module _ (name namespace : Str) where
  -- The task is the job of this name and namespace.
  abbrev pub is_job : Args → Bool
  is_job (job_args a) = str_eq a.name name && str_eq a.namespace namespace
  is_job _ = false

  unfoldable pub jobs_in : List InsertManyParams → ℕ
  jobs_in [] = 0
  jobs_in (p ∷ ps) = (if is_job p.args then 1 else 0) + jobs_in ps

  unfoldable pub rows_in : List PendingRow → ℕ
  rows_in [] = 0
  rows_in (r ∷ rs) = (if matches name namespace r then 1 else 0) + rows_in rs

  pub rows_in-append : (rs qs : List PendingRow) → rows_in (rs ++ qs) ≡ rows_in rs + rows_in qs
  unfolding rows_in
  rows_in-append [] qs = ground arith
  rows_in-append (r ∷ rs) qs = ground (arith, rows_in-append rs qs)

  pub rows_in_none : rows_in [] ≡ 0
  unfolding rows_in
  rows_in_none = refl

  rows_in_one : (r : PendingRow) → rows_in (r ∷ []) ≡ (if matches name namespace r then 1 else 0)
  unfolding rows_in
  rows_in_one r = omega arith

  jobs_in-append : (ps qs : List InsertManyParams) → jobs_in (ps ++ qs) ≡ jobs_in ps + jobs_in qs
  unfolding jobs_in
  jobs_in-append [] qs = ground arith
  jobs_in-append (p ∷ ps) qs = ground (arith, jobs_in-append ps qs)

  rows_in-reverse_aux :
      (rs acc : List PendingRow) → rows_in (reverse_aux rs acc) ≡ rows_in rs + rows_in acc
  unfolding rows_in
  rows_in-reverse_aux [] acc = ground arith
  rows_in-reverse_aux (r ∷ rs) acc = ground (arith, rows_in-reverse_aux rs (r ∷ acc))

  jobs_in-batch : (rs : List PendingRow) → jobs_in (batch (map model_of_row rs)) ≡ rows_in rs
  unfolding jobs_in rows_in job_params job_of_model model_of_row
  jobs_in-batch [] = refl
  jobs_in-batch (r ∷ rs) = ground (arith, jobs_in-batch rs)

  module _ (S : Services) where
    -- How many tasks river has taken for this job.
    unfoldable pub handed : List Call → ℕ
    handed [] = 0
    handed (Call.insert_many ps ∷ t) =
        (if is_ok (S.insert_many t ps) then jobs_in ps else 0) + handed t
    handed (Call.insert args opts ∷ t) =
        (if is_ok (S.insert t args opts) && is_job args then 1 else 0) + handed t
    handed (_ ∷ t) = handed t

    -- How often the table has accepted a row of this job.
    unfoldable pub enqueued : List Call → ℕ
    enqueued [] = 0
    enqueued (Call.insert_pending r ∷ t) =
        (if is_ok (S.insert_pending t r) && matches name namespace r then 1 else 0) + enqueued t
    enqueued (_ ∷ t) = enqueued t

    -- How many rows of this job the table has.
    abbrev pub pending : List Call → ℕ
    pending t = rows_in (table S [] t)

    pub jobs_in-submission : (rows : List PendingRow) → jobs_in (submission S rows) ≡ rows_in rows
    unfolding jobs_in rows_in clear_reservation_job
    jobs_in-submission rows =
        jobs_in-append (batch (map model_of_row (reverse rows))) (clear_reservation_job ∷ [])
        ∙ ground (arith, jobs_in-batch (reverse rows), rows_in-reverse_aux rows [])

    pub handed-delete_calls :
        (ms : List JobModel) (t : List Call) → handed (delete_calls ms t) ≡ handed t
    unfolding handed delete_calls
    handed-delete_calls [] t = refl
    handed-delete_calls (m ∷ ms) t = handed-delete_calls ms _

    pub enqueued-delete_calls :
        (ms : List JobModel) (t : List Call) → enqueued (delete_calls ms t) ≡ enqueued t
    unfolding enqueued delete_calls
    enqueued-delete_calls [] t = refl
    enqueued-delete_calls (m ∷ ms) t = enqueued-delete_calls ms _

    abbrev row_counts : List Call → PendingRow → ℕ
    row_counts t r = if is_ok (S.insert_pending t r) && matches name namespace r then 1 else 0

    pub enqueued-insert_pending :
        (r : PendingRow) (t : List Call)
        → enqueued (Call.insert_pending r ∷ t) ≡ row_counts t r + enqueued t
    unfolding enqueued
    enqueued-insert_pending r t = refl

    pub handed-insert_pending :
        (r : PendingRow) (t : List Call) → handed (Call.insert_pending r ∷ t) ≡ handed t
    unfolding handed
    handed-insert_pending r t = refl

    pub pending-insert_pending :
        (r : PendingRow) (t : List Call)
        → pending (Call.insert_pending r ∷ t) ≡ row_counts t r + pending t
    unfolding table effect
    pending-insert_pending r t = elim (Bool-cases (is_ok (S.insert_pending t r))) [
      | inr refused ↦ rw refused (omega arith)
      | inl taken ↦ rw taken (rows_in-append (table S [] t) (r ∷ []) ∙ omega (arith, rows_in_one r))
    ]

    pub handed-insert_many :
        (ps : List InsertManyParams) (t : List Call)
        → handed (Call.insert_many ps ∷ t)
          ≡ (if is_ok (S.insert_many t ps) then jobs_in ps else 0) + handed t
    unfolding handed
    handed-insert_many ps t = refl

    pub enqueued-insert_many :
        (ps : List InsertManyParams) (t : List Call)
        → enqueued (Call.insert_many ps ∷ t) ≡ enqueued t
    unfolding enqueued
    enqueued-insert_many ps t = refl

    pub pending-insert_many :
        (ps : List InsertManyParams) (t : List Call) → pending (Call.insert_many ps ∷ t) ≡ pending t
    unfolding table effect
    pending-insert_many ps t = refl
