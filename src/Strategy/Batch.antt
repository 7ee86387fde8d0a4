-- ===== src/Strategy/Batch.antt =====
-- The batches that the strategy "easy" makes.
use fluxqueue.Base.{ℕ, suc, ◌≡◌, refl, ap, List, [], ◌∷◌, map}
use fluxqueue.Base.Int.{ℤ}
use fluxqueue.Types.{JobArgs}
use fluxqueue.Strategy.{batch_loop, job_params}

-- A batch is the ready jobs in their order, one item each and each as it was read, whatever the
-- reservation depth: no job of the batch asks for a reservation that its row did not ask for.
pub batch_loop-map :
    (depth : ℤ) (i : ℕ) (jobs : List JobArgs) → batch_loop depth i jobs ≡ map job_params jobs
unfolding batch_loop
batch_loop-map depth i [] = refl
batch_loop-map depth i (job ∷ jobs) =
    ap (λ ps. job_params job ∷ ps) (batch_loop-map depth (suc i) jobs)
