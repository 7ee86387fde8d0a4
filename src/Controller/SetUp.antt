-- ===== src/Controller/SetUp.antt =====
-- The reconciler and its set-up: NewFluxJobReconciler, SetDuration, SetupWithManager and
-- SetupEvents. The clients and the scheme of the manager are handed through and left out.
use fluxqueue.Base.{Bool, Option}
use fluxqueue.Base.Int.{ℤ, pos}
use fluxqueue.Service.{Services, M, ◌>>◌, perform, note}
use fluxqueue.Service.Calls.{Call}
use fluxqueue.Service.Runtime.{SetUp}
use fluxqueue.Queue.{Queue}

-- FluxJobReconciler: the queue is nil if there is none, and likewise the client of Fluxion.
pub record FluxJobReconciler : Type 0 where
  pub queue : Option Queue
  pub has_fluxion : Bool
  pub duration : ℤ

unfoldable pub new_flux_job_reconciler : Option Queue → Bool → FluxJobReconciler
new_flux_job_reconciler queue has_fluxion = record {
  queue = queue;
  has_fluxion = has_fluxion;
  duration = pos 0;
}

unfoldable pub set_duration : ℤ → FluxJobReconciler → FluxJobReconciler
set_duration duration r = record r { duration = duration }

module _ (S : Services) where
  unfoldable pub setup_with_manager : M (Unit {0})
  setup_with_manager =
      perform (λ t. S.set_up t SetUp.build_controller) (Call.set_up SetUp.build_controller)

  -- The informer is given the handler of deleted pods, and run at the side.
  unfoldable pub setup_events : M (Unit {0})
  setup_events = perform S.new_clientset Call.new_clientset >> note SetUp.run_informer
