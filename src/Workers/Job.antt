-- ===== src/Workers/Job.antt =====
-- `JobWorker.Work` of job.go: ask Fluxion for an allocation and release the job with it.
pub mod Outcome
pub mod Reserve
use fluxqueue.Base.{ℕ, Bool, true, false, not, ◌&&◌, List, [], ◌∷◌, if◌then◌else◌, ◌==◌}
use fluxqueue.Base.Int.{ℤ, pos, negsuc}
use fluxqueue.Base.Str.{Str, str, str_eq}
use fluxqueue.Types.{JobArgs, MatchRequest, MatchResponse}
use fluxqueue.Service.{Services, failure, job_cancel, M, ◌>>=◌, ◌>>◌, pure, fail, perform, ignore}
use fluxqueue.Service.Calls.{Call}
use fluxqueue.Workers.Nodes.{parse_nodes}
use fluxqueue.Workers.Release.{release_job, mark_unschedulable, reserve_job}

abbrev pub is_one : ℤ → Bool
is_one (pos n) = n == 1
is_one (negsuc n) = false

unfoldable pub match_request : JobArgs → MatchRequest
match_request args = record { jobspec = args.jobspec; reservation = is_one args.reservation }

-- Asked to reserve, and neither reserved nor allocated.
unfoldable pub is_impossible : JobArgs → MatchResponse → Bool
is_impossible args response =
    is_one args.reservation && (not response.reserved && str_eq response.allocation [])

module _ (S : Services) where
  unfoldable pub reserve_if : Bool → JobArgs → ℤ → M (Unit {0})
  reserve_if true args flux_id = ignore (reserve_job S args flux_id)
  reserve_if false args flux_id = pure tt

  -- From the answer on.
  unfoldable pub handle_response : JobArgs → MatchResponse → M (Unit {0})
  unfolding is_impossible reserve_if
  handle_response args response =
      if is_impossible args response
      then ignore (mark_unschedulable S args)
        >> fail
            (job_cancel (failure (str "fluxion could not allocate nodes, likely Unsatisfiable")))
      else do
        reserve_if response.reserved args response.job_id
        if str_eq response.allocation []
            then fail (failure (str "fluxion could not allocate nodes for job"))
            else do
              nodes ← parse_nodes S response.allocation
              release_job S args response.job_id nodes

  unfoldable pub work : JobArgs → M (Unit {0})
  unfolding handle_response match_request
  work args = do
    perform S.new_fluxion Call.new_fluxion
    response ← perform (λ t. S.match t (match_request args)) (Call.match (match_request args))
    handle_response args response
