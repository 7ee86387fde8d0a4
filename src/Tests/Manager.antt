-- ===== src/Tests/Manager.antt =====
-- main over services that answer every call, and where the nodes cannot be listed.
use fluxqueue.Base.{◌≡◌, refl, inl, inr, false, List, [], ◌∷◌}
use fluxqueue.Base.Str.{Str, str, str_eq}
use fluxqueue.Service.{blocked, Services, remote, ok, Reply, replied, refused}
use fluxqueue.Service.Calls.{Call}
use fluxqueue.Service.Runtime.{SetUp}
use fluxqueue.Jgf.{FluxJgf, new_flux_jgf, init_cluster}
use fluxqueue.Cluster.{Requests, create_in_cluster_jgf}
use fluxqueue.Cluster.Init.{init_fluxion}
use fluxqueue.Strategy.{easy_backfill, easy_add_workers}
use fluxqueue.Queue.{Queue, new_queue, stop}
use fluxqueue.System.{Reach}
use fluxqueue.System.Lawful.{Extends}
use fluxqueue.System.Invariant.{Called}
use fluxqueue.Manager.{Flags, default_flags, main, run, init, client_go_types, flux_job_types}
use fluxqueue.Manager.Started.{start_call, HasQueue, IsReady}
use fluxqueue.Manager.Run.{Registered, run_started}
use fluxqueue.Manager.Pool.{IsOpen, main-IsOpen}
use fluxqueue.Manager.Uninitialized.{HidesNodes, begun, with_webhook, main_uninitialized}
use fluxqueue.Tests.Webhook.{make_jobspec, job_codec}
use fluxqueue.Tests.Database.{willing, contents}

abbrev encode : FluxJgf → Reply Str
encode g = replied (str "{}")

abbrev no_pods : Str → Reply (List Requests)
no_pods name = replied []

abbrev calls : List Call
calls = (run willing encode no_pods false (ok default_flags) []).1

Called-start : Called start_call calls
unfolding run init main willing new_queue easy_backfill easy_add_workers init_fluxion
    create_in_cluster_jgf init_cluster new_flux_jgf contents str_eq stop
Called-start = inr (inl refl)

run_started_example :
    (flags : Flags) × (ok default_flags ≡ ok flags)
    × (q : Queue) × (u : List Call) × Registered willing client_go_types u
    × Registered willing flux_job_types u
    × HasQueue willing q u
    × IsReady willing flags [] u
    × Reach willing make_jobspec job_codec (start_call ∷ u)
    × Extends (start_call ∷ u) calls
run_started_example =
    run_started willing encode no_pods make_jobspec job_codec false (ok default_flags) Called-start

main-IsOpen_example : IsOpen (main willing encode no_pods false default_flags []).1
main-IsOpen_example = main-IsOpen willing encode no_pods false default_flags

unfoldable hidden : Services
unfolding willing
hidden = record willing { list_nodes = λ t. refused (remote (str "forbidden")) }

hidden-HidesNodes : HidesNodes hidden
unfolding hidden
hidden-HidesNodes = record {
  accepts = λ t s. refl;
  opens = λ t. refl;
  configures = λ t. refl;
  starts = λ t. refl;
  stops = λ t. refl;
  connects = λ t. refl;
  clients = λ t. refl;
  hides = λ t. (_, refl);
}

main_uninitialized_example : main hidden encode no_pods false default_flags [] ≡ (
  ok blocked,
  Call.stop_client
      ∷ Call.set_up SetUp.start_manager
      ∷ Call.set_up (SetUp.add_check (str "readyz"))
      ∷ Call.set_up (SetUp.add_check (str "healthz"))
      ∷ Call.set_up SetUp.run_informer
      ∷ Call.new_clientset
      ∷ with_webhook default_flags (Call.set_up SetUp.build_controller ∷ begun default_flags),
)
main_uninitialized_example =
    main_uninitialized hidden encode no_pods false default_flags hidden-HidesNodes
