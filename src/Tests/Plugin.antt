-- ===== src/Tests/Plugin.antt =====
-- The scheduler plugin on the second pod of a job.
use fluxqueue.Base.{◌≡◌, ◌↔◌, ◌⊎◌, refl, true, [], ◌∷◌, arith}
use fluxqueue.Base.Int.{pos}
use fluxqueue.Base.Str.{str, str_eq, join}
use fluxqueue.Base.Decimal.{format_int, format_nat}
use fluxqueue.Base.Assoc.{lookup}
use fluxqueue.Types.{Pod}
use fluxqueue.Service.Patches.{nodes_label}
use fluxqueue.Plugin.{
  assigned, pre_filter, str_lt, less_by, less, get_namespaced_name, completion_index_label,
}
use fluxqueue.Plugin.Assign.{pre_filter-join}
use fluxqueue.Plugin.Order.{Before, less_iff}
use fluxqueue.Tests.Database.{sample_pod}

pre_filter-join_example : pre_filter sample_pod ≡ assigned (str "kind-worker2")
unfolding lookup str_eq format_int format_nat join
pre_filter-join_example =
    pre_filter-join sample_pod (str "kind-worker") (str "kind-worker2" ∷ []) 1 (str "kind-worker2")
      refl refl refl ((omega arith), ((omega arith), tt)) (omega arith) refl

sample_assigned : pre_filter sample_pod ≡ assigned (str "kind-worker2")
unfolding lookup str_eq format_int format_nat join
sample_assigned =
    pre_filter-join sample_pod (str "kind-worker") (str "kind-worker2" ∷ []) 1 (str "kind-worker2")
      refl refl refl ((omega arith), ((omega arith), tt)) (omega arith) refl

abbrev negative_pod : Pod
negative_pod = record sample_pod {
  labels = (nodes_label, str "kind-worker__kind-worker2") ∷ (completion_index_label, str "-1") ∷ [];
}

abbrev first_pod : Pod
first_pod = record sample_pod { name = str "amg-0" }

abbrev last_pod : Pod
last_pod = record sample_pod { name = str "mpi-0" }

less_iff_example :
    ((less (λ p. pos 0) first_pod last_pod ≡ true) ↔ Before (λ p. pos 0) first_pod last_pod)
    × (Before (λ p. pos 0) first_pod last_pod
        ⊎ (((pos 0 ≡ pos 0) × (get_namespaced_name first_pod ≡ get_namespaced_name last_pod))
            ⊎ Before (λ p. pos 0) last_pod first_pod))
less_iff_example = less_iff (λ p. pos 0) first_pod last_pod

-- The keys decide between pods of one priority, and a higher priority goes before.
first_before_last : less (λ p. pos 0) first_pod last_pod ≡ true
unfolding less less_by str_lt get_namespaced_name
first_before_last = refl
