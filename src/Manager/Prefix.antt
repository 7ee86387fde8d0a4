-- ===== src/Manager/Prefix.antt =====
-- What main does before the manager is started: it only makes calls of the set-up, and keeps
-- whatever these keep.
use fluxqueue.Base.{Bool, Option, List, [], ◌∷◌, Bool-cases, inl, inr}
use fluxqueue.Base.Str.{Str}
use fluxqueue.Service.{Services, Reply, M, ◌>>=◌, perform, result, fatal, tried}
use fluxqueue.Service.Calls.{Call}
use fluxqueue.Service.Runtime.{SetUp}
use fluxqueue.Service.Stays.{Stays, bind-Stays, tried-Stays, call-Stays, returned-Stays}
use fluxqueue.Strategy.{easy_backfill}
use fluxqueue.Queue.{new_queue, river_config}
use fluxqueue.Jgf.{FluxJgf}
use fluxqueue.Cluster.{Requests, create_in_cluster_jgf}
use fluxqueue.Cluster.Init.{write_jgf, create_jgf_file, read_back, init_fluxion, graph_file}
use fluxqueue.Controller.SetUp.{FluxJobReconciler, setup_events}
use fluxqueue.Manager.{Flags, manager_options, new_reconciler, init_reconciler}

-- A call that comes before the start of the manager.
abbrev pub IsPreparing : Call → Type 0
IsPreparing Call.new_pool = Unit
IsPreparing (Call.new_client config) = Unit
IsPreparing Call.start_client = Unit
IsPreparing Call.new_fluxion = Unit
IsPreparing Call.new_clientset = Unit
IsPreparing Call.list_nodes = Unit
IsPreparing (Call.create_file path) = Unit
IsPreparing (Call.write_file path text) = Unit
IsPreparing (Call.read_file path) = Unit
IsPreparing (Call.init policy graph) = Unit
IsPreparing (Call.set_up SetUp.start_manager) = ⊥
IsPreparing (Call.set_up SetUp.close_fluxion) = ⊥
IsPreparing (Call.set_up SetUp.close_pool) = ⊥
IsPreparing (Call.set_up _) = Unit
IsPreparing _ = ⊥

module _ {ℓ} (P : List Call → Type ℓ)
    (grows : (c : Call) → IsPreparing c → (t : List Call) → P t → P (c ∷ t)) (S : Services) where
  then_call {κ μ} :
      {A : Type κ} {B : Type μ} (reply : List Call → Reply A) (c : Call) (f : A → M B)
      → IsPreparing c
      → ((a : A) → Stays P (f a))
      → Stays P (perform reply c >>= f)
  then_call reply c f p rest = call-Stays P reply c f (grows c p) rest

  abbrev asking : SetUp → M (Unit {0})
  asking s = perform (λ t. S.set_up t s) (Call.set_up s)

  then_asking {κ} :
      {B : Type κ} (s : SetUp) (f : Unit {0} → M B)
      → IsPreparing (Call.set_up s)
      → ((a : Unit {0}) → Stays P (f a))
      → Stays P (asking s >>= f)
  then_asking s f p rest = then_call (λ t. S.set_up t s) (Call.set_up s) f p rest

  then_trying {κ μ} :
      {A : Type κ} {B : Type μ} (m : M A) (f : Option A → M B)
      → Stays P m
      → ((a : Option A) → Stays P (f a))
      → Stays P (tried m >>= f)
  then_trying m f stays rest = bind-Stays P (tried m) f (tried-Stays P m stays) rest

  pub new_queue-Stays : Stays P (new_queue S (easy_backfill S))
  unfolding new_queue
  new_queue-Stays = then_call S.new_pool Call.new_pool _ tt (λ _.
      returned-Stays P ((easy_backfill S).add_workers []) _ (λ workers.
        then_call (λ t. S.new_client t (river_config workers))
          (Call.new_client (river_config workers)) _ tt
          (λ _. then_call S.start_client Call.start_client _ tt (λ _ t h. h))))

  pub setup_events-Stays : Stays P (setup_events S)
  unfolding setup_events
  setup_events-Stays =
      then_call S.new_clientset Call.new_clientset _ tt
        (λ _. grows (Call.set_up SetUp.run_informer) tt)

  pub new_reconciler-Stays :
      (client_beside_error : Bool) (flags : Flags)
      → Stays P (new_reconciler S client_beside_error flags)
  unfolding new_reconciler
  new_reconciler-Stays client_beside_error flags = then_asking SetUp.get_config _ tt (λ _.
      then_asking (SetUp.new_manager (manager_options flags)) _ tt (λ _.
        then_trying (asking SetUp.http_client) _ (grows (Call.set_up SetUp.http_client) tt) (λ _.
          then_trying (asking SetUp.rest_client) _ (grows (Call.set_up SetUp.rest_client) tt) (λ _.
            then_trying (new_queue S (easy_backfill S)) _ new_queue-Stays (λ _.
              then_trying (perform S.new_fluxion Call.new_fluxion) _ (grows Call.new_fluxion tt)
                (λ _ t h. h))))))

  module _ (encode : FluxJgf → Reply Str) (list_running : Str → Reply (List Requests)) where
    write_jgf-Stays : (path : Str) (g : FluxJgf) → Stays P (write_jgf S encode list_running path g)
    unfolding write_jgf
    write_jgf-Stays path g = returned-Stays P (fatal (result (encode g))) _ (λ text.
        bind-Stays P (λ t. (fatal (result (S.create_file t path)), Call.create_file path ∷ t)) _
          (grows (Call.create_file path) tt) (λ _. grows (Call.write_file path text) tt))

    create_jgf_file-Stays :
        (filename skip_label : Str)
        → Stays P (create_jgf_file S encode list_running filename skip_label)
    unfolding create_jgf_file
    create_jgf_file-Stays filename skip_label =
        then_call S.new_clientset Call.new_clientset _ tt (λ _.
          then_call S.list_nodes Call.list_nodes _ tt (λ nodes.
            returned-Stays P (result (create_in_cluster_jgf list_running skip_label nodes)) _
              (λ built. write_jgf-Stays filename built.graph)))

    init_fluxion-Stays : (policy : Str) → Stays P (init_fluxion S encode list_running policy)
    unfolding init_fluxion read_back
    init_fluxion-Stays policy =
        bind-Stays P (create_jgf_file S encode list_running graph_file []) _
          (create_jgf_file-Stays graph_file [])
          (λ _.
            then_call (λ t. S.read_file t graph_file) (Call.read_file graph_file) _ tt
              (λ graph.
                then_call (λ t. S.init t policy graph) (Call.init policy graph) _ tt (λ _ t h. h)))

    pub init_reconciler-Stays :
        (policy : Str) (r : FluxJobReconciler)
        → Stays P (init_reconciler S encode list_running policy r)
    unfolding init_reconciler
    init_reconciler-Stays policy r t h = elim (Bool-cases r.has_fluxion) [
      | inl present ↦ rw present (init_fluxion-Stays policy t h)
      | inr absent ↦ rw absent (
          bind-Stays P (create_jgf_file S encode list_running graph_file []) _
            (create_jgf_file-Stays graph_file [])
            (λ _.
              then_call (λ u. S.read_file u graph_file) (Call.read_file graph_file) _ tt
                (λ graph u k. k))
            t h)
    ]
