-- ===== src/System/Rows.antt =====
-- The rows of the pending table come from FluxJobs that the API server returned.
use mathlib.Core.List.{reverse, reverse_aux}
use fluxqueue.Base.{
  ◌≡◌, inr, refl, Bool, true, false, List, [], ◌∷◌, ◌++◌, map, arith, All, All-imp, All-append,
  if◌then◌else◌,
}
use fluxqueue.Base.Int.{pos}
use fluxqueue.Base.Str.{Str, str_eq, in_list}
use fluxqueue.Base.Assoc.{lookup}
use fluxqueue.Types.{FluxJob, JobModel, kind}
use fluxqueue.Service.{Services, is_ok}
use fluxqueue.Service.Calls.{Call, PendingRow}
use fluxqueue.Strategy.{job_params, job_of_model}
use fluxqueue.Queue.{river_config, reservation_number, pending_row, clear_reservation_job}
use fluxqueue.Queue.Pending.{table, effect, remove_rows, matches, model_of_row}
use fluxqueue.Queue.Cycle.{batch, submission}
use fluxqueue.System.Past.{Found, args_of}
use fluxqueue.System.Lawful.{AreLawful, LawfulItems, IsServed, easy_config}

-- A job comes back from its row as it was stored.
pub stored_args : (spec : FluxJob) → job_of_model (model_of_row (pending_row spec)) ≡ args_of spec
unfolding job_of_model model_of_row pending_row reservation_number
stored_args spec = ground arith

module _ (S : Services) where
  pub Found-cons :
      (spec : FluxJob) (c : Call) (t : List Call) → Found S spec t → Found S spec (c ∷ t)
  Found-cons spec (Call.get_flux_job namespace name) t h = inr h
  Found-cons spec _ t h = h

  abbrev pub FromRow : List Call → PendingRow → Type 0
  FromRow t r = (spec : FluxJob) × Found S spec t × (r ≡ pending_row spec)

  FromRow-cons :
      (c : Call) (t : List Call) (rows : List PendingRow)
      → All (FromRow t) rows
      → All (FromRow (c ∷ t)) rows
  FromRow-cons c t rows =
      All-imp (FromRow t) (FromRow (c ∷ t)) rows λ r h. (h.0, Found-cons h.0 c t h.1, h.2)

  FromRow-rest :
      (b : Bool) (r : PendingRow) (rows : List PendingRow) (t : List Call)
      → FromRow t r
      → All (FromRow t) rows
      → All (FromRow t) (if b then rows else r ∷ rows)
  FromRow-rest true r rows t h hs = hs
  FromRow-rest false r rows t h hs = (h, hs)

  FromRow-remove_rows :
      (name namespace : Str) (t : List Call) (rows : List PendingRow)
      → All (FromRow t) rows
      → All (FromRow t) (remove_rows name namespace rows)
  unfolding remove_rows
  FromRow-remove_rows name namespace t [] h = tt
  FromRow-remove_rows name namespace t (r ∷ rows) (h, hs) =
      FromRow-rest (matches name namespace r) r (remove_rows name namespace rows) t h
        (FromRow-remove_rows name namespace t rows hs)

  FromRow-insert :
      (r : PendingRow) (t : List Call) (rows : List PendingRow) (b : Bool)
      → FromRow t r
      → All (FromRow t) rows
      → All (FromRow t) (if b then rows ++ (r ∷ []) else rows)
  FromRow-insert r t rows true h hs = All-append (FromRow t) rows (r ∷ []) hs (h, tt)
  FromRow-insert r t rows false h hs = hs

  FromRow-delete :
      (name namespace : Str) (t : List Call) (rows : List PendingRow) (b : Bool)
      → All (FromRow t) rows
      → All (FromRow t) (if b then remove_rows name namespace rows else rows)
  FromRow-delete name namespace t rows true hs = FromRow-remove_rows name namespace t rows hs
  FromRow-delete name namespace t rows false hs = hs

  pub FromRow-table : (t : List Call) → AreLawful S t → All (FromRow t) (table S [] t)
  unfolding table effect
  FromRow-table [] h = tt
  FromRow-table (Call.insert_pending r ∷ t) (h, hs) =
      FromRow-cons (Call.insert_pending r) t _
        (FromRow-insert r t (table S [] t) (is_ok (S.insert_pending t r)) h (FromRow-table t hs))
  FromRow-table (Call.delete_pending name namespace ∷ t) (h, hs) =
      FromRow-cons (Call.delete_pending name namespace) t _ (
        FromRow-delete name namespace t (table S [] t) (is_ok (S.delete_pending t name namespace))
          (FromRow-table t hs))
  FromRow-table (c ∷ t) (h, hs) = FromRow-cons c t (table S [] t) (FromRow-table t hs)

  All-reverse_aux :
      (t : List Call) (rows acc : List PendingRow)
      → All (FromRow t) rows
      → All (FromRow t) acc
      → All (FromRow t) (reverse_aux rows acc)
  All-reverse_aux t [] acc h k = k
  All-reverse_aux t (r ∷ rows) acc (h, hs) k = All-reverse_aux t rows (r ∷ acc) hs (h, k)

  items_lawful :
      (t : List Call) (rows : List PendingRow)
      → All (FromRow t) rows
      → LawfulItems S (batch (map model_of_row rows) ++ (clear_reservation_job ∷ [])) t
  unfolding job_params clear_reservation_job
  items_lawful t [] h = (tt, tt)
  items_lawful t (r ∷ rows) ((spec, found, e), hs) =
      ((spec, found, rw e (stored_args spec)), items_lawful t rows hs)

  batch-IsServed :
      (models : List JobModel)
      → All (IsServed easy_config) (batch models ++ (clear_reservation_job ∷ []))
  unfolding job_params clear_reservation_job river_config kind in_list str_eq lookup
  batch-IsServed [] = (((pos 1, refl), refl), tt)
  batch-IsServed (m ∷ ms) = (((pos 1, refl), refl), batch-IsServed ms)

  -- What a cycle hands to river.
  pub submission_lawful :
      (t : List Call)
      → AreLawful S t
      → LawfulItems S (submission S (table S [] t)) t
        × All (IsServed easy_config) (submission S (table S [] t))
  submission_lawful t h = (
    items_lawful t (reverse (table S [] t))
        (All-reverse_aux t (table S [] t) [] (FromRow-table t h) tt),
    batch-IsServed (map model_of_row (reverse (table S [] t))),
  )
