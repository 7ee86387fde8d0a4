-- ===== src/System/Released.antt =====
-- The worker releases what a new FluxJob wraps where the services answer.
use mathlib.Core.List.{head?}
use mathlib.Core.Path.{subst}
use fluxqueue.Base.{
  ◌≡◌, ◌≢◌, ◌⊎◌, inl, refl, sym, ap, ◌∙◌, Bool, true, false, List, [], ◌∷◌, arith, some,
}
use fluxqueue.Base.Int.{pos}
use fluxqueue.Base.Str.{Str, str_eq, str_eq_iff, join}
use fluxqueue.Base.Decimal.{format_int}
use fluxqueue.Service.Patches.{Patch}
use fluxqueue.Types.{
  JobWrapped, FluxJob, Args, InsertOpts, JobArgs, MatchResponse, AllocationNode, status_submit,
  wrapped_string,
}
use fluxqueue.Service.{Services, ok, replied}
use fluxqueue.Service.Calls.{Call}
use fluxqueue.Queue.Pending.{has_row, table}
use fluxqueue.Webhook.{MakeJobspec}
use fluxqueue.Webhook.Handle.{Codec}
use fluxqueue.Controller.{same_status}
use fluxqueue.Workers.Nodes.{nodes_of, parse_nodes}
use fluxqueue.Workers.Release.{release_job, allocation_labels, separator}
use fluxqueue.Workers.Job as Job
use fluxqueue.Workers.Job.{match_request, handle_response, is_impossible, reserve_if}
use fluxqueue.Workers.Job.Outcome.{release_call, work_ok, reserve_if_ok}
use fluxqueue.System.{Reach, later, reconciled, job_task}
use fluxqueue.System.Past.{args_of}
use fluxqueue.System.Progress.{replied-injective, AcceptsJobs, new_job-Submitted}

-- The types that the program has a name for.
abbrev pub is_named : JobWrapped → Bool
is_named (JobWrapped.other z) = false
is_named _ = true

-- What the services must do for a job to be allocated: Fluxion answers its request with `response`,
-- in which `graph` is read, and the API server takes the patch of a job.
pub record Allocates (S : Services) (args : JobArgs) (response : MatchResponse)
    (graph : List AllocationNode) : Type 0 where
  pub connects : (t : List Call) → S.new_fluxion t ≡ replied tt
  pub answers : (t : List Call) → S.match t (match_request args) ≡ replied response
  pub allocated : response.allocation ≢ []
  pub readable : S.unmarshal response.allocation ≡ replied graph
  pub clients : (t : List Call) → S.new_clientset t ≡ replied tt
  pub patches :
      (t : List Call) (namespace name : Str) (p : Patch)
      → S.patch_job t namespace name p ≡ replied tt

module _ (S : Services) (args : JobArgs) (response : MatchResponse)
    (graph : List AllocationNode) where
  release_job_succeeds :
      (w : JobWrapped) (nodes : List Str) (t : List Call)
      → Allocates S args response graph
      → args.type ≡ wrapped_string w
      → is_named w ≡ true
      → (release_job S args response.job_id nodes t).0 ≡ ok tt
  unfolding release_job wrapped_string str_eq format_int
  release_job_succeeds JobWrapped.pod nodes t a e named = ground (arith, e)
  release_job_succeeds JobWrapped.job nodes t a e named = ground (
    arith,
    e,
    a.clients t,
    a.patches (Call.new_clientset ∷ t) args.namespace args.name
        (Patch.unsuspend_template (allocation_labels (join separator nodes) response.job_id)),
  )
  release_job_succeeds JobWrapped.deployment nodes t a e named = ground (arith, e)
  release_job_succeeds JobWrapped.replica_set nodes t a e named = ground (arith, e)
  release_job_succeeds JobWrapped.stateful_set nodes t a e named = ground (arith, e)
  release_job_succeeds (JobWrapped.other z) nodes t a e named = cc

  work_succeeds :
      (w : JobWrapped) (t : List Call)
      → Allocates S args response graph
      → args.type ≡ wrapped_string w
      → is_named w ≡ true
      → (Job.work S args t).0 ≡ ok tt
  unfolding Job.work handle_response is_impossible parse_nodes
  work_succeeds w t a e named =
      let u : List Call = Call.match (match_request args) ∷ Call.new_fluxion ∷ t in
      ground (
        arith,
        a.connects t,
        a.answers (Call.new_fluxion ∷ t),
        a.allocated,
        a.readable,
        str_eq_iff response.allocation [],
        reserve_if_ok S args response.reserved response.job_id u,
        release_job_succeeds w (nodes_of graph)
            (reserve_if S response.reserved args response.job_id u).1 a e named,
      )

  pub work_releases :
      (w : JobWrapped) (t : List Call)
      → Allocates S args response graph
      → args.type ≡ wrapped_string w
      → is_named w ≡ true
      → head? (Job.work S args t).1 ≡ some (release_call args response.job_id (nodes_of graph))
  work_releases w t a e named =
      let (response', graph', answered, _, read, last) =
        work_ok S args t (work_succeeds w t a e named) in
      let responses : response' ≡ response = replied-injective (sym answered ∙ a.answers _) in
      let graphs : graph' ≡ graph =
        replied-injective (
          sym read ∙ ap (λ (r : MatchResponse). S.unmarshal r.allocation) responses ∙ a.readable) in
      rw (← responses, ← graphs) last

-- River takes every task.
abbrev pub TakesTasks : Services → Type 0
TakesTasks S = (t : List Call) (args : Args) (opts : InsertOpts) → S.insert t args opts ≡ replied tt

module _ (S : Services) where
  -- The call that releases a job was made last, and river or the API server took it.
  abbrev IsTaken : Call → List Call → Type 0
  IsTaken (Call.insert args opts) t = S.insert t args opts ≡ replied tt
  IsTaken (Call.patch_job namespace name p) t = S.patch_job t namespace name p ≡ replied tt
  IsTaken _ t = ⊥

  -- The call was made, and taken.
  abbrev pub HasTaken : Call → List Call → Type 0
  HasTaken c [] = ⊥
  HasTaken c (d ∷ t) = ((d ≡ c) × IsTaken d t) ⊎ HasTaken c t

  IsTaken-release_call :
      (args : JobArgs) (response : MatchResponse) (graph : List AllocationNode) (w : JobWrapped)
      (t : List Call)
      → Allocates S args response graph
      → TakesTasks S
      → args.type ≡ wrapped_string w
      → is_named w ≡ true
      → IsTaken (release_call args response.job_id (nodes_of graph)) t
  unfolding wrapped_string str_eq format_int
  IsTaken-release_call args response graph JobWrapped.pod t a takes e named = rw e (takes t _ _)
  IsTaken-release_call args response graph JobWrapped.job t a takes e named =
      rw e (a.patches t _ _ _)
  IsTaken-release_call args response graph JobWrapped.deployment t a takes e named =
      rw e (takes t _ _)
  IsTaken-release_call args response graph JobWrapped.replica_set t a takes e named =
      rw e (takes t _ _)
  IsTaken-release_call args response graph JobWrapped.stateful_set t a takes e named =
      rw e (takes t _ _)
  IsTaken-release_call args response graph (JobWrapped.other z) t a takes e named = cc

  HasTaken-last :
      (c : Call) (t : List Call) → ((u : List Call) → IsTaken c u) → head? t ≡ some c → HasTaken c t
  HasTaken-last c [] taken e = cc
  HasTaken-last c (d ∷ t) taken e =
      let equal : c ≡ d = cc in inl (sym equal, subst (λ b. IsTaken b t) equal (taken t))

module _ (S : Services) (make_jobspec : MakeJobspec) (codec : Codec) where
  -- From every reachable state, if the services accept jobs, if a FluxJob of a named type is read that is
  -- not submitted yet and whose name and namespace no pending row has, if Fluxion answers the request of
  -- its job with an allocation, and if the API server takes the patches of a job and river every task,
  -- then a state can be reached in which the release was asked for and taken: the patch of a job, or
  -- the task that takes the gates off its pods, with the nodes of that allocation.
  pub new_job_released :
      {t : List Call} (namespace name : Str) (spec : FluxJob) (response : MatchResponse)
      (graph : List AllocationNode)
      → Reach S make_jobspec codec t
      → AcceptsJobs S
      → S.get_flux_job t namespace name ≡ replied spec
      → same_status spec.submit_status status_submit ≡ false
      → is_named spec.spec.type ≡ true
      → has_row spec.spec.name spec.namespace (table S [] t) ≡ false
      → Allocates S (args_of spec) response graph
      → TakesTasks S
      → (u : List Call) × Reach S make_jobspec codec u
        × HasTaken S (release_call (args_of spec) response.job_id (nodes_of graph)) u
  new_job_released {t} namespace name spec response graph r accepts found new named unseen allocates
        takes =
      let queued =
        new_job-Submitted S (pos 1) 0 namespace name spec t accepts refl found new unseen in
      (
        _,
        later (later r (reconciled (pos 1) 0 namespace name)) (job_task (args_of spec) queued),
        HasTaken-last S _ _
            (λ u.
              IsTaken-release_call S (args_of spec) response graph spec.spec.type u allocates takes
                refl named)
            (work_releases S (args_of spec) response graph spec.spec.type _ allocates refl named),
      )
