-- ===== src/Workers/Release/Outcome.antt =====
-- Errors that the helpers of job.go drop, and the objects that they patch.
use fluxqueue.Base.{◌≡◌, true, false, ◌||◌, List, ◌∷◌, arith}
use fluxqueue.Base.Int.{ℤ}
use fluxqueue.Base.Str.{Str}
use fluxqueue.Types.{JobArgs, JobWrapped}
use fluxqueue.Service.{Services, ok, replied}
use fluxqueue.Service.Calls.{Call}
use fluxqueue.Service.Patches.{Patch}
use fluxqueue.Workers.Release.{is_type, rejected_labels, release_job, reject_job}

module _ (S : Services) where
  -- Releasing anything but a job or an unknown type reports success whatever river replies, also
  -- where the task that would ungate the pods was not inserted.
  pub release_job_ungated :
      (args : JobArgs) (flux_id : ℤ) (nodes : List Str) (t : List Call)
      → is_type JobWrapped.job args.type ≡ false
      → (is_type JobWrapped.deployment args.type
          || (is_type JobWrapped.pod args.type
              || (is_type JobWrapped.replica_set args.type
                  || is_type JobWrapped.stateful_set args.type)))
        ≡ true
      → (release_job S args flux_id nodes t).0 ≡ ok tt
  unfolding release_job
  release_job_ungated args flux_id nodes t other known = ground arith

  -- Where the API takes every patch, rejecting a job labels that job and then clears the suspension
  -- of the job with the name and the namespace exchanged.
  pub reject_job_exchanges :
      (namespace name : Str) (t : List Call)
      → S.new_clientset t ≡ replied tt
      → ((u : List Call) (ns n : Str) (p : Patch) → S.patch_job u ns n p ≡ replied tt)
      → reject_job S namespace name t ≡ (
        ok tt,
        Call.patch_job name namespace Patch.suspend_null
            ∷ Call.patch_job namespace name (Patch.unsuspend_template rejected_labels)
            ∷ Call.new_clientset
            ∷ t,
      )
  unfolding reject_job
  reject_job_exchanges namespace name t connected patched =
      let label : Patch = Patch.unsuspend_template rejected_labels in
      let u : List Call = Call.new_clientset ∷ t in
      ground (
        arith,
        connected,
        patched u namespace name label,
        patched (Call.patch_job namespace name label ∷ u) name namespace Patch.suspend_null,
      )
