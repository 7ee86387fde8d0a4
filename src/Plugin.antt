-- ===== src/Plugin.antt =====
-- build/scheduler/pkg/scheduler: the plugin that gives each pod the node that Fluxion chose. The
-- priority of a pod is a function of a Kubernetes library, and so a parameter. `Filter` accepts
-- every node and is not modelled.
pub mod Assign
pub mod Order
use fluxqueue.Base.{
  ℕ, Bool, true, false, not, Option, none, some, List, [], ◌∷◌, ◌++◌, get_elem?, length, leb, ltb,
  ◌==◌, if◌then◌else◌,
}
use fluxqueue.Base.Int.{ℤ, pos, negsuc, ltb_ℤ}
use fluxqueue.Base.Str.{Str, str, split}
use fluxqueue.Base.Decimal.{parse_int, Parsed}
use fluxqueue.Base.Assoc.{lookup}
use fluxqueue.Types.{Pod}
use fluxqueue.Service.Patches.{nodes_label, unschedulable_label}

abbrev pub completion_index_label : Str
completion_index_label = str "batch.kubernetes.io/job-completion-index"

-- The codes of the framework that the plugin returns.
pub data Code : Type 0 where
  error unschedulable_and_unresolvable : Code

-- The node of a pod with the status Success, another status, or a panic.
pub data PreFilterResult : Type 0 where
  assigned : Str → PreFilterResult
  status : Code → Str → PreFilterResult
  panicked : PreFilterResult

abbrev or_text : Option Str → Str → Str
or_text none d = d
or_text (some s) d = s

abbrev node_at : Option Str → PreFilterResult
node_at none = panicked
node_at (some n) = assigned n

-- nodes[index], behind the test that the index is not too large.
unfoldable pub pick : List Str → ℤ → PreFilterResult
pick nodes (pos i) =
    if leb (length nodes) i
    then status error (str "Not enough nodes for pod")
    else node_at (get_elem? nodes i)
pick nodes (negsuc i) = panicked

unfoldable pub pick_parsed : List Str → Parsed → PreFilterResult
unfolding pick
pick_parsed nodes p = elim p.error [
  | none ↦ pick nodes p.value
  | some e ↦ status unschedulable_and_unresolvable (str "strconv.Atoi")
]

unfoldable pub pre_filter_labelled : Pod → Str → PreFilterResult
unfolding pick_parsed
pre_filter_labelled pod nodes_str =
    pick_parsed (split b'_' b'_' nodes_str)
      (parse_int 64 (or_text (lookup completion_index_label pod.labels) (str "0")))

unfoldable pub pre_filter : Pod → PreFilterResult
unfolding pre_filter_labelled
pre_filter pod = elim (lookup unschedulable_label pod.labels) [
  | some v ↦ status unschedulable_and_unresolvable (str "Fluxion cannot find resources")
  | none ↦ elim (lookup nodes_label pod.labels) [
    | none ↦ status unschedulable_and_unresolvable (str "Pod missing nodes label")
    | some nodes_str ↦ pre_filter_labelled pod nodes_str
  ]
]

unfoldable pub get_namespaced_name : Pod → Str
get_namespaced_name pod = pod.namespace ++ (str "/" ++ pod.name)

-- s < t on strings: byte by byte.
unfoldable pub str_lt : Str → Str → Bool
str_lt s [] = false
str_lt [] (d ∷ t) = true
str_lt (c ∷ s) (d ∷ t) =
    let rest = str_lt s t in if ltb c d then true else if ltb d c then false else rest

abbrev pub differ : ℤ → ℤ → Bool
differ (pos a) (pos b) = not (a == b)
differ (pos a) (negsuc b) = true
differ (negsuc a) (pos b) = true
differ (negsuc a) (negsuc b) = not (a == b)

-- The comparison of two priorities and two keys.
unfoldable pub less_by : ℤ → ℤ → Str → Str → Bool
less_by prio1 prio2 key1 key2 = if differ prio1 prio2 then ltb_ℤ prio2 prio1 else str_lt key1 key2

unfoldable pub less : (Pod → ℤ) → Pod → Pod → Bool
unfolding less_by
less priority p q =
    less_by (priority p) (priority q) (get_namespaced_name p) (get_namespaced_name q)
