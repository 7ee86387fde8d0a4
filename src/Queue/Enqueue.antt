-- ===== src/Queue/Enqueue.antt =====
-- `Enqueue` against the table of pending jobs.
use fluxqueue.Base.{
  ℕ, ◌≡◌, ◌≢◌, Bool, true, false, List, [], ◌∷◌, ◌++◌, arith, inl, inr, All-append, if◌then◌else◌,
  not,
}
use fluxqueue.Base.Str.{Str, str, contains, contains_of_Lacks}
use fluxqueue.Base.Decimal.{format_nat, format_nat-Lacks}
use fluxqueue.Types.{
  FluxJob, EnqueueStatus, job_enqueue_success, job_already_in_pending, job_invalid, unknown,
}
use fluxqueue.Service.{Services, Result, ok, err, panic, is_ok, replied, Reply-cases}
use fluxqueue.Service.Calls.{Call, PendingRow}
use fluxqueue.Queue.Pending.{has_row, table, effect}
use fluxqueue.Queue.{enqueue, pending_row}

abbrev pub enqueued : Result EnqueueStatus → Bool
enqueued (ok job_enqueue_success) = true
enqueued (ok job_already_in_pending) = false
enqueued (ok job_invalid) = false
enqueued (ok unknown) = false
enqueued (err e) = false
enqueued panic = false

-- Whatever the services reply, Enqueue adds the row of the job at the end of the table if it
-- reports success, and leaves the table as it was if it reports anything else or fails.
pub table-enqueue :
    (S : Services) (initial : List PendingRow) (spec : FluxJob) (t : List Call)
    → table S initial (enqueue S spec t).1 ≡ (
        if enqueued (enqueue S spec t).0
        then table S initial t ++ (pending_row spec ∷ [])
        else table S initial t)
unfolding enqueue table effect
table-enqueue S initial spec t = ground arith

-- A command tag as PostgreSQL gives it for a query that reads rows.
pub record IsSelectTag (tag : Str) : Type 0 where
  pub rows : ℕ
  pub written : tag ≡ str "SELECT " ++ format_nat rows

-- Such a tag never says that a row was inserted.
select_tag : (tag : Str) → IsSelectTag tag → contains (str "INSERT 1") tag ≡ false
select_tag tag s = rw s.written (
    contains_of_Lacks b'I' (str "NSERT 1") _ (
      All-append (λ c. c ≢ b'I') (str "SELECT ") (format_nat s.rows) (omega arith)
        (format_nat-Lacks b'I' s.rows (omega arith))))

-- What a healthy database replies: the pool opens, a read of the table answers with the tag of a
-- SELECT, and only the unique index refuses a row.
pub record IsHealthy (S : Services) (initial : List PendingRow) : Type 0 where
  pub opens : (t : List Call) → S.new_pool t ≡ replied tt
  pub reads :
      (t : List Call) (name namespace : Str)
      → (tag : Str) × (S.is_pending t name namespace ≡ replied tag) × IsSelectTag tag
  pub inserts :
      (t : List Call) (r : PendingRow)
      → is_ok (S.insert_pending t r) ≡ not (has_row r.name r.namespace (table S initial t))

-- If every read of the table is answered with the tag of a SELECT, Enqueue never finds that a job
-- is in the queue already.
pub enqueue-ne-job_already_in_pending :
    (S : Services) (spec : FluxJob) (t : List Call)
    → ((u : List Call) (name namespace tag : Str)
        → S.is_pending u name namespace ≡ replied tag
        → IsSelectTag tag)
    → (enqueue S spec t).0 ≢ ok job_already_in_pending
unfolding enqueue
enqueue-ne-job_already_in_pending S spec t tags e =
    elim (Reply-cases (S.is_pending (Call.new_pool ∷ t) spec.name spec.namespace)) [
      | inl (tag, answer) ↦ ground (
        arith,
        e,
        answer,
        select_tag tag (tags (Call.new_pool ∷ t) spec.name spec.namespace tag answer),
      )
      | inr (_, failed) ↦ ground (arith, e, failed)
    ]

-- With a healthy database Enqueue reports success exactly when no pending row has the name of the
-- wrapped object and the namespace.
pub enqueue_lem :
    (S : Services) (initial : List PendingRow) (spec : FluxJob) (t : List Call)
    → IsHealthy S initial
    → enqueued (enqueue S spec t).0
      ≡ not (has_row spec.spec.name spec.namespace (table S initial t))
unfolding enqueue table effect
enqueue_lem S initial spec t h =
    let opened : List Call = Call.new_pool ∷ t in
    let (tag, answer, select) = h.reads opened spec.name spec.namespace in
    ground (
      arith,
      h.opens t,
      answer,
      select_tag tag select,
      h.inserts (Call.is_pending spec.name spec.namespace ∷ opened) (pending_row spec),
    )
