-- ===== src/System/Gated.antt =====
-- The way of a FluxJob whose pods carry a gate to the task that ungates them.
use mathlib.Core.List.{head?}
use mathlib.Core.Path.{subst}
use fluxqueue.Base.{◌≡◌, inl, refl, ap, ◌∙◌, Bool, true, false, some, List, [], ◌∷◌, arith}
use fluxqueue.Base.Int.{ℤ, pos}
use fluxqueue.Base.Str.{Str, str_eq}
use fluxqueue.Base.Decimal.{format_int}
use fluxqueue.Types.{
  JobWrapped, FluxJob, Args, InsertOpts, UngateArgs, ungate_args, MatchResponse, AllocationNode,
  status_submit, wrapped_string,
}
use fluxqueue.Service.{Services, replied}
use fluxqueue.Service.Calls.{Call}
use fluxqueue.Queue.Pending.{has_row, table}
use fluxqueue.Queue.Cycle.{easy_queue}
use fluxqueue.Webhook.{MakeJobspec}
use fluxqueue.Webhook.Handle.{Codec}
use fluxqueue.Controller.{same_status, reconcile}
use fluxqueue.Workers.Nodes.{nodes_of}
use fluxqueue.Workers.Release.{ungate_opts}
use fluxqueue.Workers.Job as Job
use fluxqueue.Workers.Job.Outcome.{release_call}
use fluxqueue.System.{Submitted, Reach, later, reconciled, job_task}
use fluxqueue.System.Past.{args_of}
use fluxqueue.System.Progress.{AcceptsJobs, new_job-Submitted}
use fluxqueue.System.Released.{Allocates, TakesTasks, is_named, work_releases}

-- The types whose pods are released by a task.
abbrev pub is_gated : JobWrapped → Bool
is_gated JobWrapped.job = false
is_gated (JobWrapped.other z) = false
is_gated _ = true

is_gated-is_named : (w : JobWrapped) → is_gated w ≡ true → is_named w ≡ true
is_gated-is_named w h = ground arith

-- The task that lets go of the pods of a FluxJob.
abbrev pub gated_task : FluxJob → ℤ → List Str → UngateArgs
gated_task spec job_id nodes = record {
  name = spec.spec.name;
  type = wrapped_string spec.spec.type;
  namespace = spec.namespace;
  nodes = nodes;
  job_id = job_id;
}

release_call-gated :
    (spec : FluxJob) (w : JobWrapped) (job_id : ℤ) (nodes : List Str)
    → spec.spec.type ≡ w
    → is_gated w ≡ true
    → release_call (args_of spec) job_id nodes
      ≡ Call.insert (ungate_args (gated_task spec job_id nodes)) ungate_opts
unfolding wrapped_string format_int str_eq
release_call-gated spec JobWrapped.pod job_id nodes e h = ground (arith, e)
release_call-gated spec JobWrapped.deployment job_id nodes e h = ground (arith, e)
release_call-gated spec JobWrapped.replica_set job_id nodes e h = ground (arith, e)
release_call-gated spec JobWrapped.stateful_set job_id nodes e h = ground (arith, e)
release_call-gated spec JobWrapped.job job_id nodes e h = cc
release_call-gated spec (JobWrapped.other z) job_id nodes e h = cc

module _ (S : Services) where
  -- A task is taken where river was asked for it last and takes every task.
  Submitted-last :
      (args : Args) (opts : InsertOpts) (t : List Call)
      → TakesTasks S
      → head? t ≡ some (Call.insert args opts)
      → Submitted S args t
  Submitted-last args opts [] inserts e = cc
  Submitted-last args opts (c ∷ t) inserts e =
      let equal : Call.insert args opts ≡ c = cc in
      subst (λ d. Submitted S args (d ∷ t)) equal (inl (inserts t args opts, refl))

module _ (S : Services) (make_jobspec : MakeJobspec) (codec : Codec) where
  -- The state after a reconciliation and the job's own task, in which river has the task.
  pub gated-Submitted :
      {t : List Call} (namespace name : Str) (spec : FluxJob) (response : MatchResponse)
      (graph : List AllocationNode)
      → Reach S make_jobspec codec t
      → AcceptsJobs S
      → S.get_flux_job t namespace name ≡ replied spec
      → same_status spec.submit_status status_submit ≡ false
      → is_gated spec.spec.type ≡ true
      → has_row spec.spec.name spec.namespace (table S [] t) ≡ false
      → Allocates S (args_of spec) response graph
      → TakesTasks S
      → (u : List Call) × Reach S make_jobspec codec u
        × Submitted S (ungate_args (gated_task spec response.job_id (nodes_of graph))) u
  gated-Submitted {t} namespace name spec response graph r accepts found new gated unseen allocates
        inserts =
      let a = args_of spec in
      let task = gated_task spec response.job_id (nodes_of graph) in
      let queued =
        new_job-Submitted S (pos 1) 0 namespace name spec t accepts refl found new unseen in
      let u : List Call = (reconcile S (easy_queue S (pos 1) 0) namespace name t).1 in
      let v : List Call = (Job.work S a u).1 in
      let last : head? v ≡ some (Call.insert (ungate_args task) ungate_opts) =
        work_releases S a response graph spec.spec.type u allocates refl
          (is_gated-is_named spec.spec.type gated)
        ∙ ap some
            (release_call-gated spec spec.spec.type response.job_id (nodes_of graph) refl gated) in
      (
        v,
        later (later r (reconciled (pos 1) 0 namespace name)) (job_task a queued),
        Submitted-last S (ungate_args task) ungate_opts v inserts last,
      )
