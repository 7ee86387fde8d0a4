-- ===== src/Manager/Uninitialized.antt =====
-- main where Fluxion never gets a graph.
use fluxqueue.Base.{
  if◌then◌else◌, ◌≡◌, List, [], ◌∷◌, Bool, arith, true, some, none, inl, inr, Bool-cases, refl,
}
use fluxqueue.Base.Str.{Str, str, str_eq}
use fluxqueue.Base.Int.{pos}
use fluxqueue.Queue.Cycle.{easy_queue}
use fluxqueue.Service.{Services, tried, Error, blocked, ok, Reply, replied, refused}
use fluxqueue.Service.Calls.{Call}
use fluxqueue.Service.Runtime.{SetUp}
use fluxqueue.Jgf.{FluxJgf}
use fluxqueue.Cluster.{Requests}
use fluxqueue.Cluster.Init.{init_fluxion, create_jgf_file}
use fluxqueue.Strategy.{easy_backfill, easy_add_workers}
use fluxqueue.Queue.{new_queue, check_depth, stop}
use fluxqueue.Controller.SetUp.{
  new_flux_job_reconciler, set_duration, setup_with_manager, setup_events, FluxJobReconciler,
}
use fluxqueue.System.Lawful.{easy_config}
use fluxqueue.Manager.{
  Flags, webhook_path, manager_options, new_reconciler, init_reconciler, register, start,
  start_queued, serve, serve_closing, main,
}

-- The services answer, but the nodes cannot be listed.
pub record HidesNodes (S : Services) : Type 0 where
  pub accepts : (t : List Call) (s : SetUp) → S.set_up t s ≡ replied tt
  pub opens : (t : List Call) → S.new_pool t ≡ replied tt
  pub configures : (t : List Call) → S.new_client t easy_config ≡ replied tt
  pub starts : (t : List Call) → S.start_client t ≡ replied tt
  pub stops : (t : List Call) → S.stop_client t ≡ replied tt
  pub connects : (t : List Call) → S.new_fluxion t ≡ replied tt
  pub clients : (t : List Call) → S.new_clientset t ≡ replied tt
  pub hides : (t : List Call) → (e : Error) × (S.list_nodes t ≡ refused e)

abbrev asked : Flags → List Call
asked flags =
    Call.set_up SetUp.rest_client
    ∷ Call.set_up SetUp.http_client
    ∷ Call.set_up (SetUp.new_manager (manager_options flags))
    ∷ Call.set_up SetUp.get_config
    ∷ []

-- What is made before the controller is built.
abbrev pub begun : Flags → List Call
begun flags =
    Call.list_nodes
    ∷ Call.new_clientset
    ∷ Call.new_fluxion
    ∷ Call.start_client
    ∷ Call.new_client easy_config
    ∷ Call.new_pool
    ∷ asked flags

abbrev pub with_webhook : Flags → List Call → List Call
with_webhook flags t =
    if str_eq flags.enable_webhooks (str "false")
    then t
    else Call.set_up (SetUp.register_webhook webhook_path) ∷ Call.set_up SetUp.set_manager ∷ t

module _ (S : Services) (encode : FluxJgf → Reply Str) (list_running : Str → Reply (List Requests))
    (client_beside_error : Bool) (flags : Flags) where
  abbrev queued : FluxJobReconciler
  queued = record {
    queue = some (easy_queue S (pos 1) 0);
    has_fluxion = true;
    duration = flags.job_duration;
  }

  made :
      HidesNodes S
      → new_queue S (easy_backfill S) (asked flags) ≡ (
        ok (easy_queue S (pos 1) 0),
        Call.start_client ∷ Call.new_client easy_config ∷ Call.new_pool ∷ asked flags,
      )
  unfolding new_queue easy_backfill easy_add_workers check_depth
  made h = ground (
    arith,
    h.opens (asked flags),
    h.configures (Call.new_pool ∷ asked flags),
    h.starts (Call.new_client easy_config ∷ Call.new_pool ∷ asked flags),
  )

  reconciler_made :
      HidesNodes S
      → new_reconciler S client_beside_error flags [] ≡ (
        ok queued,
        Call.new_fluxion
            ∷ Call.start_client
            ∷ Call.new_client easy_config
            ∷ Call.new_pool
            ∷ asked flags,
      )
  unfolding new_reconciler new_flux_job_reconciler set_duration
  reconciler_made h = simp (h.accepts, made h, h.connects)

  init_failed :
      HidesNodes S
      → (t : List Call)
      → tried (init_reconciler S encode list_running flags.policy queued) t
        ≡ (ok none, Call.list_nodes ∷ Call.new_clientset ∷ t)
  unfolding init_reconciler init_fluxion create_jgf_file
  init_failed h t =
      let (e, hidden) = h.hides (Call.new_clientset ∷ t) in rw (h.clients t, hidden) refl

  served :
      HidesNodes S
      → (t : List Call)
      → serve_closing S flags queued t ≡ (
        ok blocked,
        Call.stop_client
            ∷ Call.set_up SetUp.start_manager
            ∷ Call.set_up (SetUp.add_check (str "readyz"))
            ∷ Call.set_up (SetUp.add_check (str "healthz"))
            ∷ Call.set_up SetUp.run_informer
            ∷ Call.new_clientset
            ∷ with_webhook flags (Call.set_up SetUp.build_controller ∷ t),
      )
  unfolding serve_closing serve setup_with_manager setup_events start_queued start stop register
  served h t = elim (Bool-cases (str_eq flags.enable_webhooks (str "false"))) [
    | inl off ↦ rw off (simp (h.accepts, h.clients, h.stops))
    | inr on ↦ rw on (simp (h.accepts, h.clients, h.stops))
  ]

  -- Where the nodes cannot be listed and the services answer all else, main starts the manager all the
  -- same: it makes these calls and no others, among them none that gives Fluxion a graph, and then waits
  -- for ever.
  pub main_uninitialized :
      HidesNodes S
      → main S encode list_running client_beside_error flags [] ≡ (
        ok blocked,
        Call.stop_client
            ∷ Call.set_up SetUp.start_manager
            ∷ Call.set_up (SetUp.add_check (str "readyz"))
            ∷ Call.set_up (SetUp.add_check (str "healthz"))
            ∷ Call.set_up SetUp.run_informer
            ∷ Call.new_clientset
            ∷ with_webhook flags (Call.set_up SetUp.build_controller ∷ begun flags),
      )
  unfolding main
  main_uninitialized h = simp (reconciler_made h, init_failed h, served h)
