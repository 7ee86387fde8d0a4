-- ===== src/Workers/Job/Reserve.antt =====
-- What `Work` of the job worker writes to the table of reservations.
use fluxqueue.Base.{◌≡◌, Bool, ◌&&◌, List, [], ◌∷◌, ◌++◌, arith, if◌then◌else◌, inl, inr}
use fluxqueue.Base.Int.{ℤ}
use fluxqueue.Base.Str.{Str}
use fluxqueue.Types.{JobArgs, MatchResponse, ReservationModel}
use fluxqueue.Service.{Services, is_ok, Reply-cases}
use fluxqueue.Service.Calls.{Call}
use fluxqueue.Workers.Gate.{remove_gate}
use fluxqueue.Workers.Nodes.{nodes_of, parse_nodes}
use fluxqueue.Workers.Release.{release_job, mark_unschedulable, reserve_job}
use fluxqueue.Workers.Reservation.Table.{effect, reservations}
use fluxqueue.Workers.Job.{reserve_if, handle_response}
use fluxqueue.Workers.Job.Outcome.{mark_unschedulable_ignored, reserve_if_ok}

module _ (S : Services) (stored : List Call → Str → ℤ → Bool) (initial : List ReservationModel)
    (args : JobArgs) where
  reservations-release_job :
      (flux_id : ℤ) (nodes : List Str) (t : List Call)
      → reservations S stored initial (release_job S args flux_id nodes t).1
        ≡ reservations S stored initial t
  unfolding release_job reservations effect
  reservations-release_job flux_id nodes t = ground arith

  reservations-mark_unschedulable :
      (t : List Call)
      → reservations S stored initial (mark_unschedulable S args t).1
        ≡ reservations S stored initial t
  unfolding mark_unschedulable remove_gate reservations effect
  reservations-mark_unschedulable t = ground arith

  -- The rows after an answer: one more if Fluxion reserved, and the pool and the insert succeed.
  abbrev pub recorded : MatchResponse → List Call → List ReservationModel
  recorded response t =
      if response.reserved
        && (is_ok (S.new_pool t)
            && (is_ok (S.add_reservation (Call.new_pool ∷ t) args.name response.job_id)
                && stored (Call.new_pool ∷ t) args.name response.job_id))
      then reservations S stored initial t
        ++ (record { job_id = response.job_id; name = args.name } ∷ [])
      else reservations S stored initial t

  reservations-reserve_if :
      (response : MatchResponse) (t : List Call)
      → reservations S stored initial (reserve_if S response.reserved args response.job_id t).1
        ≡ recorded response t
  unfolding reserve_if reserve_job reservations effect
  reservations-reserve_if response t = ground arith

  -- A reservation is recorded, under the job's name and Fluxion's number, exactly when Fluxion says
  -- that it reserved and the database takes the row, whether or not there is an allocation too and
  -- whatever becomes of the release.
  pub reservations-handle_response :
      (response : MatchResponse) (t : List Call)
      → reservations S stored initial (handle_response S args response t).1 ≡ recorded response t
  unfolding handle_response parse_nodes
  reservations-handle_response response t =
      let u : List Call = (reserve_if S response.reserved args response.job_id t).1 in
      elim (Reply-cases (S.unmarshal response.allocation)) [
        | inl (graph, read) ↦ ground (
          arith,
          read,
          mark_unschedulable_ignored S args t,
          reservations-mark_unschedulable t,
          reserve_if_ok S args response.reserved response.job_id t,
          reservations-reserve_if response t,
          reservations-release_job response.job_id (nodes_of graph) u,
        )
        | inr (_, unread) ↦ ground (
          arith,
          unread,
          mark_unschedulable_ignored S args t,
          reservations-mark_unschedulable t,
          reserve_if_ok S args response.reserved response.job_id t,
          reservations-reserve_if response t,
        )
      ]
