-- ===== src/Cluster/Free.antt =====
-- How much of a node is free.
use fluxqueue.Base.{ℕ, ◌≡◌, ◌<◌, ◌-◌, ◌/◌, ◌^◌, arith, ap}
use fluxqueue.Base.Int.{pos}
use fluxqueue.Jobspec.{residue, signed}
use fluxqueue.Types.{KubeNode}
use fluxqueue.Cluster.{Requests, times, sub_int64, cores_of, gibs_of}

-- The difference in an int64 of two numbers that an int64 holds, where a negative one counts as none.
times-sub_int64 : (a b : ℕ) → a < 2 ^ 63 → b < 2 ^ 63 → times (sub_int64 (pos a) (pos b)) ≡ a - b
unfolding sub_int64 residue signed
times-sub_int64 a b ha hb = ground arith

-- The cores and the GiB that a node offers are those of the CPU and of the memory that its pods leave,
-- rounded down, and none where the pods ask for more than there is; where the four quantities are not
-- negative and fit in an int64.
pub free_lem :
    (node : KubeNode) (reqs : Requests) (cpu cpu_reqs memory memory_reqs : ℕ)
    → node.cpu ≡ pos cpu
    → reqs.cpu ≡ pos cpu_reqs
    → node.memory ≡ pos memory
    → reqs.memory ≡ pos memory_reqs
    → cpu < 2 ^ 63
    → cpu_reqs < 2 ^ 63
    → memory < 2 ^ 63
    → memory_reqs < 2 ^ 63
    → (cores_of node reqs ≡ (cpu - cpu_reqs) / 1000)
      × (gibs_of node reqs ≡ (memory - memory_reqs) / 2 ^ 30)
unfolding cores_of gibs_of
free_lem node reqs cpu cpu_reqs memory memory_reqs a b c d ha hb hc hd = (
  rw (a, b) (ap (λ n. n / 1000) (times-sub_int64 cpu cpu_reqs ha hb)),
  rw (c, d) (ap (λ n. n / 2 ^ 30) (times-sub_int64 memory memory_reqs hc hd)),
)
