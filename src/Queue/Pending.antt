-- ===== src/Queue/Pending.antt =====
-- The table pending_queue as it follows from the calls made: build/postgres/create-tables.sql and
-- pkg/fluxqueue/queries. This program is taken to be the table's only writer.
use mathlib.Core.List.{reverse}
use fluxqueue.Base.{◌≡◌, Bool, true, false, ◌&&◌, ◌||◌, List, [], ◌∷◌, ◌++◌, map, if◌then◌else◌}
use fluxqueue.Base.Str.{Str, str_eq}
use fluxqueue.Types.{JobModel, wrapped_string}
use fluxqueue.Service.{Services, replied, is_ok}
use fluxqueue.Service.Calls.{Call, PendingRow}

-- name = $1 and namespace = $2
abbrev pub matches : Str → Str → PendingRow → Bool
matches name namespace r = str_eq r.name name && str_eq r.namespace namespace

unfoldable pub has_row : Str → Str → List PendingRow → Bool
has_row name namespace [] = false
has_row name namespace (r ∷ rows) = matches name namespace r || has_row name namespace rows

-- delete from pending_queue where …
unfoldable pub remove_rows : Str → Str → List PendingRow → List PendingRow
remove_rows name namespace [] = []
remove_rows name namespace (r ∷ rows) =
    let rest = remove_rows name namespace rows in
    if matches name namespace r then rest else r ∷ rest

-- The columns that the queries read.
unfoldable pub model_of_row : PendingRow → JobModel
model_of_row r = record {
  job_spec = r.job_spec;
  flux_job_name = r.flux_job_name;
  name = r.name;
  namespace = r.namespace;
  type = wrapped_string r.type;
  reservation = r.reservation;
  duration = r.duration;
  size = r.size;
}

module _ (S : Services) where
  -- What one call does to the table; a call that fails does nothing.
  unfoldable pub effect : List Call → Call → List PendingRow → List PendingRow
  effect t (Call.insert_pending r) rows =
      if is_ok (S.insert_pending t r) then rows ++ (r ∷ []) else rows
  effect t (Call.delete_pending name namespace) rows =
      if is_ok (S.delete_pending t name namespace) then remove_rows name namespace rows else rows
  effect t _ rows = rows

  -- The rows after the calls, in the order of their insertion.
  unfoldable pub table : List PendingRow → List Call → List PendingRow
  table initial [] = initial
  table initial (c ∷ t) = effect t c (table initial t)

  -- What the code relies on: the unique index refuses a second row of one name and namespace, and a
  -- read returns the rows by the time of their insertion, the latest first.
  pub record IsDatabase (initial : List PendingRow) : Type 0 where
    pub unique_index :
        (t : List Call) (r : PendingRow)
        → has_row r.name r.namespace (table initial t) ≡ true
        → is_ok (S.insert_pending t r) ≡ false
    pub newest_first :
        (t : List Call) (models : List JobModel)
        → S.collect_pending t ≡ replied models
        → models ≡ map model_of_row (reverse (table initial t))
