-- ===== src/System/Conserved.antt =====
-- No job is lost on its way through the table of pending jobs, and where no delete of a row fails, none
-- is handed to river twice.
use mathlib.Core.Path.{subst}
use fluxqueue.Base.{
  ◌≡◌, ◌≢◌, refl, sym, ap, ◌∙◌, ℕ, ◌+◌, true, List, [], ◌∷◌, ◌++◌, arith, if◌then◌else◌,
}
use fluxqueue.Base.Int.{ℤ}
use fluxqueue.Base.Str.{Str}
use fluxqueue.Types.{InsertManyParams, JobModel}
use fluxqueue.Service.{Services, replied, is_ok}
use fluxqueue.Service.Calls.{Call, PendingRow}
use fluxqueue.Queue.{cycle, clear_reservation_job}
use fluxqueue.Queue.Pending.{table, effect, IsDatabase}
use fluxqueue.Queue.Cycle.{easy_queue, batch, submission, delete_calls, Opens, cycle_lem}
use fluxqueue.Queue.Drain.{cycle_drains}
use fluxqueue.System.Neutral.{IsNeutral}
use fluxqueue.System.Counts.{
  jobs_in, rows_in, handed, enqueued, pending, jobs_in-submission, handed-delete_calls,
  enqueued-delete_calls, rows_in_none, enqueued-insert_pending, handed-insert_pending,
  pending-insert_pending, handed-insert_many, enqueued-insert_many, pending-insert_many,
}
use fluxqueue.System.Ledger.{Ledger}
use fluxqueue.System.Booked.{Reach-holds}
use fluxqueue.System.{Reach}
use fluxqueue.Webhook.{MakeJobspec}
use fluxqueue.Webhook.Handle.{Codec}

-- What the database must do: it is one that this program alone writes, and it does not fail a delete.
pub record Deletes (S : Services) : Type 0 where
  pub database : IsDatabase S []
  pub opens : Opens S
  pub deletes :
      (t : List Call) (name namespace : Str) → is_ok (S.delete_pending t name namespace) ≡ true

module _ (S : Services) (name namespace : Str) where
  -- The tasks of this job and its rows are as many as its insertions.
  abbrev pub Balanced : List Call → Type 0
  Balanced t = handed name namespace S t + pending name namespace S t ≡ enqueued name namespace S t

  pub neutral-Balanced : (c : Call) → IsNeutral c → (t : List Call) → Balanced t → Balanced (c ∷ t)
  unfolding handed enqueued table effect
  neutral-Balanced (Call.insert_pending r) p t h = elim p [ ]
  neutral-Balanced (Call.delete_pending n ns) p t h = elim p [ ]
  neutral-Balanced (Call.insert_many ps) p t h = elim p [ ]
  neutral-Balanced (Call.insert args opts) p t h = ground (arith, p, h)
  neutral-Balanced c p t h = h

  insert-Balanced :
      (r : PendingRow) (t : List Call) → Balanced t → Balanced (Call.insert_pending r ∷ t)
  insert-Balanced r t h = omega (
    arith,
    h,
    enqueued-insert_pending name namespace S r t,
    handed-insert_pending name namespace S r t,
    pending-insert_pending name namespace S r t,
  )

  -- A list of tasks that river refuses, or that has no job of this name and namespace.
  listed-Balanced :
      (ps : List InsertManyParams) (t : List Call)
      → (if is_ok (S.insert_many t ps) then jobs_in name namespace ps else 0) ≡ 0
      → Balanced t
      → Balanced (Call.insert_many ps ∷ t)
  listed-Balanced ps t none_taken h = omega (
    arith,
    h,
    none_taken,
    handed-insert_many name namespace S ps t,
    enqueued-insert_many name namespace S ps t,
    pending-insert_many name namespace S ps t,
  )

  handed_read :
      (t : List Call)
      → handed name namespace S (Call.collect_pending ∷ Call.query_pending ∷ t)
        ≡ handed name namespace S t
  unfolding handed
  handed_read t = refl

  enqueued_read :
      (t : List Call)
      → enqueued name namespace S (Call.collect_pending ∷ Call.query_pending ∷ t)
        ≡ enqueued name namespace S t
  unfolding enqueued
  enqueued_read t = refl

  drained-Balanced :
      (depth : ℤ) (state : ℕ) (t : List Call) (models : List JobModel)
      → Deletes S
      → S.query_pending t ≡ replied tt
      → S.collect_pending (Call.query_pending ∷ t) ≡ replied models
      → models ≢ []
      → S.insert_many
          (Call.collect_pending ∷ Call.query_pending ∷ t)
          (batch models ++ (clear_reservation_job ∷ []))
        ≡ replied tt
      → Balanced t
      → Balanced (cycle S (easy_queue S depth state) t).1
  unfolding table effect
  drained-Balanced depth state t models d queried collected filled taken h =
      let v : List Call = Call.query_pending ∷ t in
      let u : List Call = Call.collect_pending ∷ v in
      let listed : List InsertManyParams = submission S (table S [] t) in
      let inserted : S.insert_many u listed ≡ replied tt =
        subst (λ ms. S.insert_many u (batch ms ++ (clear_reservation_job ∷ [])) ≡ replied tt)
          (d.database.newest_first v models collected) taken in
      let empty =
        cycle_drains S [] depth state t models d.database d.opens d.deletes queried collected filled
          inserted in
      let calls : (cycle S (easy_queue S depth state) t).1
          ≡ delete_calls models (Call.insert_many (submission S (table S [] t)) ∷ u) =
        ap (λ r. r.1)
          (cycle_lem S [] depth state t models d.database d.opens queried collected filled
            inserted) in
      let end : List Call = delete_calls models (Call.insert_many listed ∷ u) in
      let counted : (if is_ok (S.insert_many u listed) then jobs_in name namespace listed else 0)
          ≡ jobs_in name namespace listed =
        rw inserted refl in
      rw calls (
        omega (
          arith,
          h,
          counted,
          ap (rows_in name namespace) (sym (ap (table S []) calls) ∙ empty),
          rows_in_none name namespace,
          jobs_in-submission name namespace S (table S [] t),
          handed-delete_calls name namespace S models (Call.insert_many listed ∷ u),
          enqueued-delete_calls name namespace S models (Call.insert_many listed ∷ u),
          handed-insert_many name namespace S listed u,
          enqueued-insert_many name namespace S listed u,
          handed_read t,
          enqueued_read t,
        ))

  Balanced-Ledger : Deletes S → Ledger S name namespace Balanced
  unfolding handed enqueued table rows_in
  Balanced-Ledger d = record {
    none_yet = refl;
    neutral = neutral-Balanced;
    inserted = insert-Balanced;
    idle = listed-Balanced;
    full = λ depth state t models queried collected filled taken h.
        drained-Balanced depth state t models d queried collected filled taken h;
  }

  -- In every reachable state, if the table of pending jobs starts empty, refuses a second row of one
  -- name and namespace, and a read returns exactly the rows that this program put there, latest first, every
  -- pool opens and no delete of a row fails, then for each name and namespace, the tasks that river has taken for
  -- the job and the rows that are pending are together exactly as many as the rows that Enqueue inserted:
  -- no job is lost on the way to river, and none is handed to river twice.
  pub jobs_conserved :
      (make_jobspec : MakeJobspec) (codec : Codec) {t : List Call}
      → Deletes S
      → Reach S make_jobspec codec t
      → handed name namespace S t + pending name namespace S t ≡ enqueued name namespace S t
  jobs_conserved make_jobspec codec d r =
      Reach-holds S name namespace (Balanced-Ledger d) make_jobspec codec r
