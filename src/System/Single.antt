-- ===== src/System/Single.antt =====
-- The table of pending jobs never has two rows of one name and namespace.
use fluxqueue.Base.{
  ◌≡◌, refl, ◌∙◌, sym, ◌≤◌, true, false, List, [], ◌∷◌, ◌++◌, arith, inl, inr, Bool-cases,
}
use fluxqueue.Base.Str.{Str, str_eq_iff}
use fluxqueue.Service.{Services, is_ok}
use fluxqueue.Service.Calls.{Call, PendingRow}
use fluxqueue.Queue.Pending.{matches, has_row, remove_rows, table, effect, IsDatabase}
use fluxqueue.System.Counts.{rows_in, rows_in-append, pending}

module _ (name namespace : Str) where
  rows_in-has_row :
      (rows : List PendingRow)
      → has_row name namespace rows ≡ false
      → rows_in name namespace rows ≡ 0
  unfolding has_row rows_in
  rows_in-has_row [] h = refl
  rows_in-has_row (r ∷ rows) h = ground (arith, h, rows_in-has_row rows)

  rows_in-remove_rows :
      (n ns : Str) (rows : List PendingRow)
      → rows_in name namespace (remove_rows n ns rows) ≤ rows_in name namespace rows
  unfolding rows_in remove_rows
  rows_in-remove_rows n ns [] = omega arith
  rows_in-remove_rows n ns (r ∷ rows) = ground (arith, rows_in-remove_rows n ns rows)

  has_row-matches :
      (r : PendingRow) (rows : List PendingRow)
      → matches name namespace r ≡ true
      → has_row r.name r.namespace rows ≡ has_row name namespace rows
  has_row-matches r rows h =
      let same_name : r.name ≡ name = (str_eq_iff r.name name).0 (ground (arith, h)) in
      let same_namespace : r.namespace ≡ namespace =
        (str_eq_iff r.namespace namespace).0 (ground (arith, h)) in
      rw (same_name, same_namespace) refl

  rows_in-matches :
      (r : PendingRow) → matches name namespace r ≡ false → rows_in name namespace (r ∷ []) ≡ 0
  unfolding rows_in
  rows_in-matches r h = ground (arith, h)

  rows_in_one_le : (r : PendingRow) → rows_in name namespace (r ∷ []) ≤ 1
  unfolding rows_in
  rows_in_one_le r = ground arith

  module _ (S : Services) (d : IsDatabase S []) where
    inserted-single :
        (r : PendingRow) (t : List Call)
        → is_ok (S.insert_pending t r) ≡ true
        → pending name namespace S t ≤ 1
        → rows_in name namespace (table S [] t ++ (r ∷ [])) ≤ 1
    inserted-single r t taken h = elim (Bool-cases (matches name namespace r)) [
      | inr other ↦
          omega (
            arith,
            h,
            rows_in-append name namespace (table S [] t) (r ∷ []),
            rows_in-matches r other,
          )
      | inl same ↦ elim (Bool-cases (has_row r.name r.namespace (table S [] t))) [
        | inl there ↦ absurd (let refused = d.unique_index t r there in cc)
        | inr absent ↦ omega (
          arith,
          rows_in-append name namespace (table S [] t) (r ∷ []),
          rows_in-has_row (table S [] t) (sym (has_row-matches r (table S [] t) same) ∙ absent),
          rows_in_one_le r,
        )
      ]
    ]

    pub pending-single : (t : List Call) → pending name namespace S t ≤ 1
    unfolding table effect rows_in
    pending-single [] = omega arith
    pending-single (Call.insert_pending r ∷ t) = elim (Bool-cases (is_ok (S.insert_pending t r))) [
      | inl taken ↦ rw taken (inserted-single r t taken (pending-single t))
      | inr refused ↦ rw refused (pending-single t)
    ]
    pending-single (Call.delete_pending n ns ∷ t) =
        elim (Bool-cases (is_ok (S.delete_pending t n ns))) [
          | inl taken ↦
              rw taken (omega (arith, rows_in-remove_rows n ns (table S [] t), pending-single t))
          | inr refused ↦ rw refused (pending-single t)
        ]
    pending-single (_ ∷ t) = pending-single t
