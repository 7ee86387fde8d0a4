-- ===== src/Service/Runtime.antt =====
-- What the manager's main and the set-up of the controller ask of controller-runtime, of the
-- informer and of the connections that they close.
use fluxqueue.Base.{Bool, List}
use fluxqueue.Base.Str.{Str}

-- A function that main passes on to set the TLS configuration of a server.
pub data TlsOption : Type 0 where
  disable_http2 : TlsOption

pub record MetricsOptions : Type 0 where
  pub bind_address : Str
  pub secure_serving : Bool
  pub tls_opts : List TlsOption
  -- whether only authorized users may read the metrics
  pub authorized : Bool

pub record ManagerOptions : Type 0 where
  pub metrics : MetricsOptions
  pub webhook_tls_opts : List TlsOption
  pub health_probe_bind_address : Str
  pub leader_election : Bool
  pub leader_election_id : Str

pub data SetUp : Type 0 where
  -- the registration of a group's types
  add_to_scheme : Str → SetUp
  set_logger : SetUp
  get_config : SetUp
  new_manager : ManagerOptions → SetUp
  http_client : SetUp
  rest_client : SetUp
  build_controller : SetUp
  -- the package variable `mgr` of the webhook
  set_manager : SetUp
  register_webhook : Str → SetUp
  run_informer : SetUp
  add_check : Str → SetUp
  start_manager : SetUp
  close_fluxion : SetUp
  close_pool : SetUp
