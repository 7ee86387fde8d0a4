-- ===== src/Plugin/Assign.antt =====
-- The node that `PreFilter` gives a pod, against the labels that the workers write.
use fluxqueue.Base.{
  ℕ, zero, suc, get_elem?-lt, ◌<◌, ◌^◌, ◌≡◌, true, none, some, List, [], ◌∷◌, arith, All, get_elem?,
  inl, inr, Option-cases,
}
use fluxqueue.Base.Int.{ℤ, pos, negsuc}
use fluxqueue.Base.Str.{in_list, Str, str_eq_iff, split, join, Lacks, split-join}
use fluxqueue.Base.Decimal.{format_int, Parsed, parse_int-format_int}
use fluxqueue.Base.Assoc.{lookup}
use fluxqueue.Types.{Pod}
use fluxqueue.Service.Patches.{nodes_label, unschedulable_label}
use fluxqueue.Workers.Release.{separator}
use fluxqueue.Plugin.{
  completion_index_label, assigned, panicked, pick, pick_parsed, pre_filter, pre_filter_labelled,
}

-- A pod that is not marked as unschedulable, carries the workers' join of node names without an
-- underscore, and a completion index within them and below 2^63, is assigned the node at its index.
pub pre_filter-join :
    (pod : Pod) (x : Str) (xs : List Str) (i : ℕ) (node : Str)
    → lookup unschedulable_label pod.labels ≡ none
    → lookup nodes_label pod.labels ≡ some (join separator (x ∷ xs))
    → lookup completion_index_label pod.labels ≡ some (format_int (pos i))
    → All (Lacks b'_') (x ∷ xs)
    → i < 2 ^ 63
    → get_elem? (x ∷ xs) i ≡ some node
    → pre_filter pod ≡ assigned node
unfolding pre_filter
pre_filter-join pod x xs i node schedulable labelled indexed plain small found = ground (
  arith,
  schedulable,
  labelled,
  indexed,
  found,
  get_elem?-lt (x ∷ xs) i found,
  parse_int-format_int (pos i) small,
  split-join b'_' b'_' x xs plain.0 plain.1,
)

pub get_elem?-in_list :
    (xs : List Str) (i : ℕ) (x : Str) → get_elem? xs i ≡ some x → in_list x xs ≡ true
unfolding in_list
get_elem?-in_list [] i x h = cc
get_elem?-in_list (y ∷ ys) zero x h = ground (arith, h, str_eq_iff y x)
get_elem?-in_list (y ∷ ys) (suc i) x h = ground (arith, get_elem?-in_list ys i x h)

pick_assigned :
    (nodes : List Str) (z : ℤ) (node : Str)
    → pick nodes z ≡ assigned node
    → in_list node nodes ≡ true
unfolding pick
pick_assigned nodes (negsuc i) node h = cc
pick_assigned nodes (pos i) node h = elim (Option-cases (get_elem? nodes i)) [
  | inl missing ↦ absurd (ground (arith, h, missing))
  | inr (n, found) ↦ get_elem?-in_list nodes i node (ground (arith, h, found))
]

pick_parsed_assigned :
    (nodes : List Str) (p : Parsed) (node : Str)
    → pick_parsed nodes p ≡ assigned node
    → in_list node nodes ≡ true
unfolding pick_parsed
pick_parsed_assigned nodes p node h = elim (Option-cases p.error) [
  | inl fine ↦ pick_assigned nodes p.value node (ground (arith, h, fine))
  | inr (_, bad) ↦ absurd (ground (arith, h, bad))
]

pre_filter_labelled_assigned :
    (pod : Pod) (nodes_str node : Str)
    → pre_filter_labelled pod nodes_str ≡ assigned node
    → in_list node (split b'_' b'_' nodes_str) ≡ true
unfolding pre_filter_labelled pick_parsed
pre_filter_labelled_assigned pod nodes_str node h =
    pick_parsed_assigned (split b'_' b'_' nodes_str) _ node h

-- A pod is assigned a node only if it is not marked as unschedulable and its nodes label lists that
-- node.
pub pre_filter_assigned :
    (pod : Pod) (node : Str)
    → pre_filter pod ≡ assigned node
    → (lookup unschedulable_label pod.labels ≡ none)
      × ((nodes_str : Str) × (lookup nodes_label pod.labels ≡ some nodes_str)
          × (in_list node (split b'_' b'_' nodes_str) ≡ true))
unfolding pre_filter
pre_filter_assigned pod node h = elim (Option-cases (lookup unschedulable_label pod.labels)) [
  | inr (_, marked) ↦ absurd (ground (arith, h, marked))
  | inl schedulable ↦ elim (Option-cases (lookup nodes_label pod.labels)) [
    | inl unlabelled ↦ absurd (ground (arith, h, schedulable, unlabelled))
    | inr (nodes_str, labelled) ↦ (
      schedulable,
      (
        nodes_str,
        labelled,
        pre_filter_labelled_assigned pod nodes_str node (ground (arith, h, schedulable, labelled)),
      ),
    )
  ]
]

-- A pod with a negative completion index makes the plugin panic.
pub pre_filter_negative :
    (pod : Pod) (nodes_str : Str) (i : ℕ)
    → lookup unschedulable_label pod.labels ≡ none
    → lookup nodes_label pod.labels ≡ some nodes_str
    → lookup completion_index_label pod.labels ≡ some (format_int (negsuc i))
    → i < 2 ^ 63
    → pre_filter pod ≡ panicked
unfolding pre_filter
pre_filter_negative pod nodes_str i schedulable labelled indexed small =
    ground (arith, schedulable, labelled, indexed, parse_int-format_int (negsuc i) small)
