-- ===== src/Workers/Reservation.antt =====
-- reservation.go: the job that cancels the reservations at the end of a batch.
pub mod Table
pub mod Unread
use fluxqueue.Base.{List, [], ◌∷◌}
use fluxqueue.Base.Str.{Str, str}
use fluxqueue.Types.{ReservationModel}
use fluxqueue.Service.{
  Services, Result, ok, err, panic, M, ◌>>=◌, ◌>>◌, pure, perform, attempt, continue, Error,
}
use fluxqueue.Base.{Option, none, some}
use fluxqueue.Service.Calls.{Call}

-- The columns of the worker's query: it selects one record, which PostgreSQL names so.
abbrev pub get_reservations_columns : List Str
get_reservations_columns = str "row" ∷ []

-- The columns from which a ReservationModel is filled.
abbrev pub reservation_columns : List Str
reservation_columns = str "flux_id" ∷ str "name" ∷ []

module _ (S : Services) where
  unfoldable pub delete_reservation : ReservationModel → M (Unit {0})
  delete_reservation item =
      perform (λ t. S.delete_reservation t item.job_id) (Call.delete_reservation item.job_id)

  -- An item whose cancel fails is passed over.
  unfoldable pub clear_item : ReservationModel → Option Error → M (Unit {0})
  unfolding delete_reservation
  clear_item item (some e) = pure tt
  clear_item item none = delete_reservation item

  unfoldable pub clear_loop : List ReservationModel → M (Unit {0})
  unfolding clear_item
  clear_loop [] = pure tt
  clear_loop (item ∷ items) =
      attempt (perform (λ t. S.cancel t item.job_id) (Call.cancel item.job_id)) >>= λ failed.
      (clear_item item failed >> clear_loop items)

  -- What the reply to the collection can be, given the columns of the query, is the subject of Unread.
  unfoldable pub work : M (Unit {0})
  unfolding clear_loop
  work = do
    perform S.new_pool Call.new_pool
    perform S.query_reservations Call.query_reservations
    perform S.new_fluxion Call.new_fluxion
    rows ← perform S.collect_reservations Call.collect_reservations
    clear_loop rows
