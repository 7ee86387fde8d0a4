-- ===== src/Workers/Reservation/Unread.antt =====
-- The worker against the columns that its query selects.
use fluxqueue.Base.{ℕ, suc, ◌≡◌, ◌≢◌, refl, true, Bool, List, [], ◌∷◌, arith, All, length, inl, inr}
use fluxqueue.Base.Int.{ℤ}
use fluxqueue.Base.Str.{Str, in_list, str_eq}
use fluxqueue.Types.{ReservationModel}
use fluxqueue.Service.{Services, Error, err, replied, refused, Reply-cases}
use fluxqueue.Service.Calls.{Call}
use fluxqueue.Workers.Reservation.{get_reservations_columns, reservation_columns, work}
use fluxqueue.Workers.Reservation.Table.{effect, reservations}

-- How many cancels were asked of Fluxion.
unfoldable pub cancel_count : List Call → ℕ
cancel_count [] = 0
cancel_count (Call.cancel id ∷ t) = suc (cancel_count t)
cancel_count (_ ∷ t) = cancel_count t

module _ (S : Services) (stored : List Call → Str → ℤ → Bool)
    (initial : List ReservationModel) where
  -- What CollectRows with RowToStructByName does: it gives one struct for each row of the table, and
  -- the struct of a row only where each of its fields has a column of the query.
  pub record CollectsByName : Type 0 where
    pub complete :
        (t : List Call) (rows : List ReservationModel)
        → S.collect_reservations t ≡ replied rows
        → length rows ≡ length (reservations S stored initial t)
    pub by_name :
        (t : List Call) (row : ReservationModel) (rows : List ReservationModel)
        → S.collect_reservations t ≡ replied (row ∷ rows)
        → All (λ c. in_list c get_reservations_columns ≡ true) reservation_columns

  -- No row of the table is read.
  collect_refused :
      (t : List Call)
      → CollectsByName
      → reservations S stored initial t ≢ []
      → (e : Error) × (S.collect_reservations t ≡ refused e)
  unfolding in_list str_eq
  collect_refused t c filled = elim (Reply-cases (S.collect_reservations t)) [
    | inr failed ↦ failed
    | inl ([], none_read) ↦
        absurd (filled (empty_of (reservations S stored initial t) (c.complete t [] none_read)))
    | inl (row ∷ rows, read) ↦ let (no_column, _) = c.by_name t row rows read in cc
  ]
    where
      empty_of : (rows : List ReservationModel) → 0 ≡ length rows → rows ≡ []
      empty_of [] h = refl
      empty_of (r ∷ rows) h = absurd (omega (arith, h))

  -- Where pgx fills a struct only from columns of its names, and gives a struct for every row, then as
  -- long as there is a reservation in the table, the worker fails, asks for no cancel and leaves the
  -- table as it is, whatever else the services reply.
  pub work_unread :
      (t : List Call)
      → CollectsByName
      → reservations S stored initial t ≢ []
      → ((e : Error) × ((work S t).0 ≡ err e))
        × (cancel_count (work S t).1 ≡ cancel_count t)
        × (reservations S stored initial (work S t).1 ≡ reservations S stored initial t)
  unfolding work reservations effect cancel_count
  work_unread t c filled =
      let u : List Call = Call.new_pool ∷ t in
      let v : List Call = Call.query_reservations ∷ u in
      let w : List Call = Call.new_fluxion ∷ v in
      let (e, unread) = collect_refused w c filled in
      elim (Reply-cases (S.new_pool t)) [
        | inr (d, closed) ↦ rw closed ((d, refl), refl, refl)
        | inl (_, opened) ↦ elim (Reply-cases (S.query_reservations u)) [
          | inr (d, lost) ↦ rw (opened, lost) ((d, refl), refl, refl)
          | inl (_, queried) ↦ elim (Reply-cases (S.new_fluxion v)) [
            | inr (d, away) ↦ rw (opened, queried, away) ((d, refl), refl, refl)
            | inl (_, connected) ↦ rw (opened, queried, connected, unread) ((e, refl), refl, refl)
          ]
        ]
      ]
