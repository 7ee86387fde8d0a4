-- ===== src/Workers/Reservation/Table.antt =====
-- The table of reservations as it follows from the calls made, and what the worker leaves in it.
use fluxqueue.Base.{
  ◌≡◌, refl, Bool, true, false, ◌&&◌, List, [], ◌∷◌, ◌++◌, ◌==◌, if◌then◌else◌, inl, inr,
}
use fluxqueue.Base.Int.{ℤ, pos, negsuc}
use fluxqueue.Base.Str.{Str}
use fluxqueue.Types.{ReservationModel}
use fluxqueue.Service.{Services, Reply-cases, is_ok}
use fluxqueue.Service.Calls.{Call}
use fluxqueue.Service.Keeps.{perform_keeps}
use fluxqueue.Workers.Reservation.{clear_loop, work}

abbrev pub int_eq : ℤ → ℤ → Bool
int_eq (pos a) (pos b) = a == b
int_eq (pos a) (negsuc b) = false
int_eq (negsuc a) (pos b) = false
int_eq (negsuc a) (negsuc b) = a == b

-- delete from reservations where flux_id = $1
unfoldable pub remove_reservation : ℤ → List ReservationModel → List ReservationModel
remove_reservation id [] = []
remove_reservation id (r ∷ rows) =
    let rest = remove_reservation id rows in if int_eq r.job_id id then rest else r ∷ rest

-- `stored` says whether the insert of a reservation takes place. The reply of pool.Query does not tell,
-- since pgx reports the error of an insert where the rows are closed, and reserveJob does not look.
module _ (S : Services) (stored : List Call → Str → ℤ → Bool) where
  -- What one call does to the table; a call that fails does nothing.
  unfoldable pub effect : List Call → Call → List ReservationModel → List ReservationModel
  unfolding remove_reservation
  effect t (Call.add_reservation name id) rows =
      if is_ok (S.add_reservation t name id) && stored t name id
      then rows ++ (record { job_id = id; name = name } ∷ [])
      else rows
  effect t (Call.delete_reservation id) rows =
      if is_ok (S.delete_reservation t id) then remove_reservation id rows else rows
  effect t _ rows = rows

  unfoldable pub reservations : List ReservationModel → List Call → List ReservationModel
  reservations initial [] = initial
  reservations initial (c ∷ t) = effect t c (reservations initial t)

module _ (S : Services) where
  -- A delete of a reservation stands right after a successful cancel of the same number.
  abbrev pub AfterCancel : ℤ → List Call → Type 0
  AfterCancel id [] = ⊥
  AfterCancel id (Call.cancel id' ∷ t) = (id ≡ id') × (is_ok (S.cancel t id') ≡ true)
  AfterCancel id (_ ∷ t) = ⊥

  abbrev IsAllowed : Call → List Call → Type 0
  IsAllowed (Call.delete_reservation id) t = AfterCancel id t
  IsAllowed _ t = Unit

  abbrev pub AreCancelled : List Call → Type 0
  AreCancelled [] = Unit
  AreCancelled (c ∷ t) = IsAllowed c t × AreCancelled t

  clear_loop-AreCancelled :
      (items : List ReservationModel) (t : List Call)
      → AreCancelled t
      → AreCancelled (clear_loop S items t).1
  unfolding clear_loop
  clear_loop-AreCancelled [] t h = h
  clear_loop-AreCancelled (item ∷ items) t h = elim (Reply-cases (S.cancel t item.job_id)) [
    | inr (_, kept) ↦ rw kept (clear_loop-AreCancelled items (Call.cancel item.job_id ∷ t) (tt, h))
    | inl (_, cancelled) ↦
        let u : List Call = Call.cancel item.job_id ∷ t in
        let v : List Call = Call.delete_reservation item.job_id ∷ u in
        let deleted : AreCancelled v = ((refl, rw cancelled), (tt, h)) in
        elim (Reply-cases (S.delete_reservation u item.job_id)) [
          | inr (_, failed) ↦ rw (cancelled, failed) deleted
          | inl (_, done) ↦ rw (cancelled, done) (clear_loop-AreCancelled items v deleted)
        ]
  ]

  -- Whatever the services reply, if every delete of a reservation before stands right after a
  -- successful cancel of its number, then so does every delete that the worker makes.
  pub work-AreCancelled : (t : List Call) → AreCancelled t → AreCancelled (work S t).1
  unfolding work
  work-AreCancelled t h =
      perform_keeps AreCancelled S.new_pool Call.new_pool _ t (tt, h)
        λ _ h₁.
          perform_keeps AreCancelled S.query_reservations Call.query_reservations _ _ (tt, h₁)
            λ _ h₂.
              perform_keeps AreCancelled S.new_fluxion Call.new_fluxion _ _ (tt, h₂)
                λ _ h₃.
                  perform_keeps AreCancelled S.collect_reservations Call.collect_reservations _ _
                    (tt, h₃) λ rows h₄. clear_loop-AreCancelled rows _ h₄
