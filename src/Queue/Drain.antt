-- ===== src/Queue/Drain.antt =====
-- What a cycle leaves in the table of pending jobs.
use mathlib.Core.List.{reverse, reverse_aux}
use fluxqueue.Base.{
  ℕ, ◌≡◌, ◌≢◌, refl, ap, ◌∙◌, Bool, true, false, ◌&&◌, ◌||◌, List, [], ◌∷◌, ◌++◌, map, arith, All,
  inl, inr,
}
use fluxqueue.Base.Int.{ℤ}
use fluxqueue.Base.Str.{Str, str_eq, str_eq_iff, str_eq_refl}
use fluxqueue.Types.{JobModel}
use fluxqueue.Service.{Services, Error, err, replied, Reply-cases, is_ok}
use fluxqueue.Service.Calls.{Call, PendingRow}
use fluxqueue.Strategy.{easy_backfill, job_of_model}
use fluxqueue.Strategy.Batch.{batch_loop-map}
use fluxqueue.Queue.Pending.{model_of_row, table, effect, remove_rows, IsDatabase}
use fluxqueue.Queue.Cycle.{batch, easy_queue, delete_calls, Opens, submission, cycle_lem}
use fluxqueue.Queue.Panics.{delete_batch_ok}
use fluxqueue.Queue.{submit_batch, clear_reservation_job, cycle}

abbrev names : Str → Str → JobModel → Bool
names name namespace m = str_eq m.name name && str_eq m.namespace namespace

has_model : Str → Str → List JobModel → Bool
has_model name namespace [] = false
has_model name namespace (m ∷ ms) = names name namespace m || has_model name namespace ms

remove_models : List JobModel → List PendingRow → List PendingRow
remove_models [] rows = rows
remove_models (m ∷ ms) rows = remove_models ms (remove_rows m.name m.namespace rows)

abbrev Covers : List JobModel → List PendingRow → Type 0
Covers ms = All (λ r. has_model r.name r.namespace ms ≡ true)

Covers-remove_rows :
    (m : JobModel) (ms : List JobModel) (rows : List PendingRow)
    → Covers (m ∷ ms) rows
    → Covers ms (remove_rows m.name m.namespace rows)
unfolding remove_rows has_model
Covers-remove_rows m ms [] c = tt
Covers-remove_rows m ms (r ∷ rows) (c, cs) = ground (
  arith,
  Covers-remove_rows m ms rows cs,
  str_eq_iff r.name m.name,
  str_eq_iff m.name r.name,
  str_eq_iff r.namespace m.namespace,
  str_eq_iff m.namespace r.namespace,
)

remove_models_covered :
    (ms : List JobModel) (rows : List PendingRow) → Covers ms rows → remove_models ms rows ≡ []
unfolding remove_models has_model
remove_models_covered [] [] c = refl
remove_models_covered [] (r ∷ rows) c = cc
remove_models_covered (m ∷ ms) rows c =
    remove_models_covered ms (remove_rows m.name m.namespace rows) (Covers-remove_rows m ms rows c)

has_model-reverse_aux :
    (name namespace : Str) (rows acc : List PendingRow)
    → has_model name namespace (map model_of_row acc) ≡ true
    → has_model name namespace (map model_of_row (reverse_aux rows acc)) ≡ true
unfolding has_model model_of_row
has_model-reverse_aux name namespace [] acc h = h
has_model-reverse_aux name namespace (r ∷ rows) acc h =
    has_model-reverse_aux name namespace rows (r ∷ acc) (ground arith)

Covers-reverse_aux :
    (rows acc : List PendingRow) → Covers (map model_of_row (reverse_aux rows acc)) rows
unfolding has_model model_of_row
Covers-reverse_aux [] acc = tt
Covers-reverse_aux (r ∷ rows) acc = (
  has_model-reverse_aux r.name r.namespace rows (r ∷ acc)
      (ground (arith, str_eq_refl r.name, str_eq_refl r.namespace)),
  Covers-reverse_aux rows (r ∷ acc),
)

module _ (S : Services) (initial : List PendingRow) where
  table-delete_calls :
      (ms : List JobModel) (u : List Call)
      → ((t : List Call) (name namespace : Str) → is_ok (S.delete_pending t name namespace) ≡ true)
      → table S initial (delete_calls ms u) ≡ remove_models ms (table S initial u)
  unfolding delete_calls remove_models table effect
  table-delete_calls [] u deletes = refl
  table-delete_calls (m ∷ ms) u deletes =
      table-delete_calls ms (Call.delete_pending m.name m.namespace ∷ Call.new_pool ∷ u) deletes
      ∙ ap (remove_models ms) (ground (arith, deletes (Call.new_pool ∷ u) m.name m.namespace))

  submit_batch_failed :
      (ms : List JobModel) (u : List Call) {e : Error}
      → (submit_batch S (batch ms) u).0 ≡ err e
      → table S initial (submit_batch S (batch ms) u).1 ≡ table S initial u
  unfolding submit_batch table effect
  submit_batch_failed [] u h = refl
  submit_batch_failed (m ∷ ms) u h = ground (
    arith,
    delete_batch_ok S (m ∷ ms)
        (Call.insert_many (batch (m ∷ ms) ++ (clear_reservation_job ∷ [])) ∷ u),
  )

  -- A cycle that fails has taken no job out of the table.
  pub cycle_failed :
      (depth : ℤ) (state : ℕ) (t : List Call) {e : Error}
      → (cycle S (easy_queue S depth state) t).0 ≡ err e
      → table S initial (cycle S (easy_queue S depth state) t).1 ≡ table S initial t
  unfolding cycle easy_backfill table effect
  cycle_failed depth state t {e} h = elim (Reply-cases (S.query_pending t)) [
    | inr (_, unread) ↦ ground (arith, unread)
    | inl (_, queried) ↦ elim (Reply-cases (S.collect_pending (Call.query_pending ∷ t))) [
      | inr (_, lost) ↦ ground (arith, queried, lost)
      | inl (models, collected) ↦ ground (
        arith,
        queried,
        collected,
        batch_loop-map depth 0 (map job_of_model models),
        submit_batch_failed models (Call.collect_pending ∷ Call.query_pending ∷ t) {e = e},
      )
    ]
  ]

  -- After a cycle whose reads, submission and deletes all succeed the table is empty.
  pub cycle_drains :
      (depth : ℤ) (state : ℕ) (t : List Call) (models : List JobModel)
      → IsDatabase S initial
      → Opens S
      → ((u : List Call) (name namespace : Str) → is_ok (S.delete_pending u name namespace) ≡ true)
      → S.query_pending t ≡ replied tt
      → S.collect_pending (Call.query_pending ∷ t) ≡ replied models
      → models ≢ []
      → S.insert_many
          (Call.collect_pending ∷ Call.query_pending ∷ t)
          (submission S (table S initial t))
        ≡ replied tt
      → table S initial (cycle S (easy_queue S depth state) t).1 ≡ []
  unfolding table effect
  cycle_drains depth state t models d opens deletes queried collected filled inserted =
      let rows : models ≡ map model_of_row (reverse (table S initial t)) =
        d.newest_first (Call.query_pending ∷ t) models collected in
      rw (cycle_lem S initial depth state t models d opens queried collected filled inserted) (
        table-delete_calls models _ deletes
        ∙ rw rows (
            remove_models_covered _ (table S initial t)
              (Covers-reverse_aux (table S initial t) [])))
