-- ===== src/Workers/Job/Outcome.antt =====
-- How `Work` of the job worker ends, against Fluxion's answer.
use mathlib.Core.List.{head?}
use fluxqueue.Base.{
  ◌≡◌, ◌≢◌, refl, Bool, true, false, not, ◌&&◌, some, List, [], ◌∷◌, arith, if◌then◌else◌, inl, inr,
}
use fluxqueue.Base.Int.{ℤ}
use fluxqueue.Base.Str.{Str, str, str_eq_iff, join}
use fluxqueue.Types.{JobArgs, JobWrapped, MatchResponse, AllocationNode, ungate_args}
use fluxqueue.Service.{Services, failure, job_cancel, ok, err, replied, Reply-cases, ignore}
use fluxqueue.Service.Calls.{Call}
use fluxqueue.Service.Patches.{Patch}
use fluxqueue.Workers.Gate.{remove_gate}
use fluxqueue.Workers.Nodes.{nodes_of, parse_nodes}
use fluxqueue.Workers.Release.{
  allocation_labels, separator, is_type, ungate_opts, release_job, mark_unschedulable, reserve_job,
}
use fluxqueue.Workers.Job.{is_one, match_request, reserve_if, handle_response, work}

-- The call that gives an allocation to the pods: a patch of a job, or a task to ungate pods.
abbrev pub release_call : JobArgs → ℤ → List Str → Call
release_call args flux_id nodes =
    if is_type JobWrapped.job args.type
    then Call.patch_job args.namespace args.name
        (Patch.unsuspend_template (allocation_labels (join separator nodes) flux_id))
    else Call.insert
        (ungate_args (record {
          name = args.name;
          type = args.type;
          namespace = args.namespace;
          nodes = nodes;
          job_id = flux_id;
        }))
        ungate_opts

module _ (S : Services) (args : JobArgs) where
  release_job_ok :
      (flux_id : ℤ) (nodes : List Str) (t : List Call)
      → (release_job S args flux_id nodes t).0 ≡ ok tt
      → head? (release_job S args flux_id nodes t).1 ≡ some (release_call args flux_id nodes)
  unfolding release_job
  release_job_ok flux_id nodes t h = ground arith

  -- The steps whose errors are dropped always go on.
  pub mark_unschedulable_ignored :
      (t : List Call) → (ignore (mark_unschedulable S args) t).0 ≡ ok tt
  unfolding mark_unschedulable remove_gate
  mark_unschedulable_ignored t = ground arith

  pub reserve_if_ok :
      (b : Bool) (flux_id : ℤ) (t : List Call) → (reserve_if S b args flux_id t).0 ≡ ok tt
  unfolding reserve_if reserve_job
  reserve_if_ok true flux_id t = ground arith
  reserve_if_ok false flux_id t = refl

  handle_response_ok :
      (response : MatchResponse) (t : List Call)
      → (handle_response S args response t).0 ≡ ok tt
      → (graph : List AllocationNode) × (response.allocation ≢ [])
        × (S.unmarshal response.allocation ≡ replied graph)
        × (head? (handle_response S args response t).1
            ≡ some (release_call args response.job_id (nodes_of graph)))
  unfolding handle_response parse_nodes
  handle_response_ok response t h = elim (Reply-cases (S.unmarshal response.allocation)) [
    | inl (graph, read) ↦
        let u : List Call = (reserve_if S response.reserved args response.job_id t).1 in
        (
          graph,
          λ e. ground (
            arith,
            h,
            e,
            str_eq_iff response.allocation [],
            mark_unschedulable_ignored t,
            reserve_if_ok response.reserved response.job_id t,
          ),
          read,
          ground (
            arith,
            h,
            read,
            mark_unschedulable_ignored t,
            reserve_if_ok response.reserved response.job_id t,
            release_job_ok response.job_id (nodes_of graph) u,
          ),
        )
    | inr (_, unread) ↦ absurd (
        ground (
          arith,
          h,
          unread,
          mark_unschedulable_ignored t,
          reserve_if_ok response.reserved response.job_id t,
        ))
  ]

  -- Work succeeds only if Fluxion answered with an allocation that can be read, and its last call
  -- then releases the job with the nodes of that allocation and Fluxion's job number.
  pub work_ok :
      (t : List Call)
      → (work S args t).0 ≡ ok tt
      → (response : MatchResponse) × (graph : List AllocationNode) × (S.match
            (Call.new_fluxion ∷ t)
            (match_request args)
          ≡ replied response)
        × (response.allocation ≢ [])
        × (S.unmarshal response.allocation ≡ replied graph)
        × (head? (work S args t).1 ≡ some (release_call args response.job_id (nodes_of graph)))
  unfolding work
  work_ok t h = elim (Reply-cases (S.new_fluxion t)) [
    | inr (_, unconnected) ↦ absurd (ground (arith, h, unconnected))
    | inl (_, connected) ↦
        elim (Reply-cases (S.match (Call.new_fluxion ∷ t) (match_request args))) [
          | inr (_, unanswered) ↦ absurd (ground (arith, h, connected, unanswered))
          | inl (response, answered) ↦
              let u : List Call = Call.match (match_request args) ∷ Call.new_fluxion ∷ t in
              let handled : (handle_response S args response u).0 ≡ ok tt =
                ground (arith, h, connected, answered) in
              let (graph, allocated, read, released) = handle_response_ok response u handled in
              (
                response,
                graph,
                answered,
                allocated,
                read,
                ground (arith, connected, answered, released),
              )
        ]
  ]

  -- Where Fluxion answers with no allocation, Work fails: with a cancel of the job if it asked for a
  -- reservation and got none, and otherwise with an error that leaves the job to be tried again.
  pub work_unallocated :
      (t : List Call) (response : MatchResponse)
      → S.new_fluxion t ≡ replied tt
      → S.match (Call.new_fluxion ∷ t) (match_request args) ≡ replied response
      → response.allocation ≡ []
      → (work S args t).0
        ≡ err (
            if is_one args.reservation && not response.reserved
            then job_cancel (failure (str "fluxion could not allocate nodes, likely Unsatisfiable"))
            else failure (str "fluxion could not allocate nodes for job"))
  unfolding work
  work_unallocated t response connected answered unallocated =
      let u : List Call = Call.match (match_request args) ∷ Call.new_fluxion ∷ t in
      ground (
        arith,
        connected,
        answered,
        unallocated,
        str_eq_iff response.allocation [],
        mark_unschedulable_ignored u,
        reserve_if_ok response.reserved response.job_id u,
      )
