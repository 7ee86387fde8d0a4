-- ===== src/Queue/Setup.antt =====
-- NewQueue against the depth of a strategy.
use fluxqueue.Base.{◌≡◌, ℕ, suc, List, [], ◌∷◌, arith}
use fluxqueue.Base.Int.{negsuc}
use fluxqueue.Base.Str.{Str, str}
use fluxqueue.Service.{Services, failure, ok, err, replied}
use fluxqueue.Service.Calls.{Call}
use fluxqueue.Strategy.{QueueStrategy}
use fluxqueue.Queue.{new_queue, river_config, check_depth}

-- Where the services accept everything and the strategy's workers are registered, a strategy whose depth is below
-- -1 makes NewQueue fail after it has started the river client, which is not stopped.
pub new_queue_refused :
    (S : Services) (strategy : QueueStrategy) (workers : List Str) (n : ℕ) (u : List Call)
    → S.new_pool u ≡ replied tt
    → strategy.add_workers [] ≡ ok workers
    → S.new_client (Call.new_pool ∷ u) (river_config workers) ≡ replied tt
    → S.start_client (Call.new_client (river_config workers) ∷ Call.new_pool ∷ u) ≡ replied tt
    → strategy.get_reservation_depth ≡ negsuc (suc n)
    → new_queue S strategy u ≡ (
      err (failure (str "reservation depth of a strategy must be >= -1")),
      Call.start_client ∷ Call.new_client (river_config workers) ∷ Call.new_pool ∷ u,
    )
unfolding new_queue check_depth
new_queue_refused S strategy workers n u pool added client started depth =
    ground (arith, pool, added, client, started, depth)
