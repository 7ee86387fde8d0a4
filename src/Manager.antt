-- ===== src/Manager.antt =====
-- cmd/manager/main.go: the order in which the program is put together. The end of the program by
-- os.Exit(1) is an error, and `ok` says how main goes on at its last statement. What the flags parser
-- reads from the command line is a parameter. What the manager does once it is started is the
-- subject of System.
pub mod Prefix
pub mod Started
pub mod Order
pub mod Run
pub mod Pool
pub mod Uninitialized
use fluxqueue.Base.{Bool, true, false, not, Option, none, some, List, [], ◌∷◌, if◌then◌else◌}
use fluxqueue.Base.Int.{ℤ, pos}
use fluxqueue.Base.Str.{Str, str, str_eq}
use fluxqueue.Service.{
  Services, Reply, Error, Result, ok, err, panic, M, ◌>>=◌, ◌>>◌, pure, perform, returned, crash,
  tried, note, deferring, End, Channel, nil_channel, received,
}
use fluxqueue.Service.Calls.{Call}
use fluxqueue.Service.Runtime.{SetUp, TlsOption, disable_http2, MetricsOptions, ManagerOptions}
use fluxqueue.Strategy.{easy_backfill}
use fluxqueue.Queue.{Queue, new_queue, stop}
use fluxqueue.Jgf.{FluxJgf}
use fluxqueue.Cluster.{Requests}
use fluxqueue.Cluster.Init.{create_jgf_file, init_fluxion, graph_file}
use fluxqueue.Webhook.Handle.{new_mutating_webhook}
use fluxqueue.Controller.SetUp.{
  FluxJobReconciler, new_flux_job_reconciler, set_duration, setup_with_manager, setup_events,
}

-- The flags, and the value of ENABLE_WEBHOOKS, empty if it is not set.
pub record Flags : Type 0 where
  pub metrics_addr : Str
  pub probe_addr : Str
  pub policy : Str
  pub enable_leader_election : Bool
  pub job_duration : ℤ
  pub secure_metrics : Bool
  pub enable_http2 : Bool
  pub enable_webhooks : Str

-- What the flags are where the command line is empty.
abbrev pub default_flags : Flags
default_flags = record {
  metrics_addr = str "0";
  probe_addr = str ":8081";
  policy = [];
  enable_leader_election = false;
  job_duration = pos 0;
  secure_metrics = true;
  enable_http2 = false;
  enable_webhooks = [];
}

unfoldable pub tls_opts : Flags → List TlsOption
tls_opts flags = if not flags.enable_http2 then disable_http2 ∷ [] else []

unfoldable pub manager_options : Flags → ManagerOptions
unfolding tls_opts
manager_options flags = record {
  metrics = record {
    bind_address = flags.metrics_addr;
    secure_serving = flags.secure_metrics;
    tls_opts = tls_opts flags;
    authorized = flags.secure_metrics;
  };
  webhook_tls_opts = tls_opts flags;
  health_probe_bind_address = flags.probe_addr;
  leader_election = flags.enable_leader_election;
  leader_election_id = str "b321c34b.converged-computing.org";
}

abbrev pub webhook_path : Str
webhook_path = str "/mutate-v1-sidecar"

abbrev is_some {ℓ} : {A : Type ℓ} → Option A → Bool
is_some none = false
is_some (some a) = true

unfoldable pub register : Flags → M (Unit {0})
register flags =
    if not (str_eq flags.enable_webhooks (str "false"))
    then new_mutating_webhook >> note (SetUp.register_webhook webhook_path)
    else pure tt

-- The channel of context.Background() is nil, by its documentation.
abbrev background_done : Channel
background_done = nil_channel

-- utilruntime.Must: an error is a panic.
abbrev pub insisted : Result (Unit {0}) → List Call → Result (Unit {0}) × List Call
insisted (ok u) t = (ok u, t)
insisted (err e) t = (panic, t)
insisted panic t = (panic, t)

abbrev pub must : M (Unit {0}) → M (Unit {0})
must m t = insisted (m t).0 (m t).1

abbrev pub client_go_types : Str
client_go_types = str "client-go"

abbrev pub flux_job_types : Str
flux_job_types = str "jobs.converged-computing.org/v1alpha1"

module _ (S : Services) where
  abbrev pub ask : SetUp → M (Unit {0})
  ask s = perform (λ t. S.set_up t s) (Call.set_up s)

  -- What runs before main: both groups of types are registered.
  unfoldable pub init : M (Unit {0})
  init =
      must (ask (SetUp.add_to_scheme client_go_types))
      >> must (ask (SetUp.add_to_scheme flux_job_types))

  -- From the start of the manager to the end of main, with the wait on the context's channel.
  unfoldable pub start : Queue → M End
  unfolding received
  start queue = do
    ask SetUp.start_manager
    stopped ← tried (stop S queue)
    pure (received background_done)

  -- `queue.Pool` of a nil queue panics.
  unfoldable pub start_queued : Option Queue → M End
  unfolding start
  start_queued none = crash
  start_queued (some queue) = deferring SetUp.close_pool (start queue)

  unfoldable pub serve : Flags → FluxJobReconciler → M End
  unfolding setup_with_manager setup_events register start_queued
  serve flags r = do
    setup_with_manager S
    register flags
    events ← tried (setup_events S)
    ask (SetUp.add_check (str "healthz"))
    ask (SetUp.add_check (str "readyz"))
    start_queued r.queue

  -- The deferred Close of a nil client panics where it is deferred.
  unfoldable pub serve_closing : Flags → FluxJobReconciler → M End
  unfolding serve
  serve_closing flags r =
      if r.has_fluxion then deferring SetUp.close_fluxion (serve flags r) else crash

  -- From the configuration to the reconciler. `client_beside_error` says whether Fluxion's NewClient
  -- returns a client beside an error.
  unfoldable pub new_reconciler : Bool → Flags → M FluxJobReconciler
  unfolding manager_options new_flux_job_reconciler set_duration
  new_reconciler client_beside_error flags = do
    ask SetUp.get_config
    ask (SetUp.new_manager (manager_options flags))
    c ← tried (ask SetUp.http_client)
    rest ← tried (ask SetUp.rest_client)
    queue ← tried (new_queue S (easy_backfill S))
    client ← tried (perform S.new_fluxion Call.new_fluxion)
    pure (
        set_duration flags.job_duration
          (new_flux_job_reconciler queue (if is_some client then true else client_beside_error)))

module _ (S : Services) (encode : FluxJgf → Reply Str)
    (list_running : Str → Reply (List Requests)) where
  -- InitFluxion of a reconciler: a call of a nil client panics.
  unfoldable pub init_reconciler : Str → FluxJobReconciler → M (Unit {0})
  init_reconciler policy r =
      if r.has_fluxion then init_fluxion S encode list_running policy else (do
        create_jgf_file S encode list_running graph_file []
        graph ← perform (λ t. S.read_file t graph_file) (Call.read_file graph_file)
        crash)

  unfoldable pub main : Bool → Flags → M End
  unfolding new_reconciler init_reconciler serve_closing
  main client_beside_error flags = do
    r ← new_reconciler S client_beside_error flags
    initialized ← tried (init_reconciler flags.policy r)
    serve_closing S flags r

  -- The program: `parsed` is what the parser of the flags reads, which ends the program if it fails.
  unfoldable pub run : Bool → Result Flags → M End
  unfolding init main
  run client_beside_error parsed = do
    init S
    flags ← returned parsed
    note SetUp.set_logger
    main client_beside_error flags
