-- ===== src/Workers/Nodes.antt =====
-- `parseNodes` of job.go: from Fluxion's answer to the list of assigned nodes.
pub mod Distinct
use fluxqueue.Base.{ℕ, ◌+◌, Option, none, some, List, [], ◌∷◌, ◌++◌, if◌then◌else◌}
use fluxqueue.Base.Str.{Str, str, str_eq}
use fluxqueue.Base.Assoc.{lookup, insert}
use fluxqueue.Types.{AllocationNode}
use fluxqueue.Service.{Services, ok, M, continue, result}

-- The two variables of the loop.
pub record Seen : Type 0 where
  pub cores : List (Str × ℕ)
  pub nodes : List Str

abbrev pub count_of : Option ℕ → ℕ
count_of none = 0
count_of (some n) = n

unfoldable pub see : Str → Seen → Seen
see node_id s = elim (lookup node_id s.cores) [
  | none ↦ record {
    cores = insert node_id (0 + 1) (insert node_id 0 s.cores);
    nodes = s.nodes ++ (node_id ∷ []);
  }
  | some n ↦ record { cores = insert node_id (n + 1) s.cores; nodes = s.nodes }
]

unfoldable pub see_all : Seen → List AllocationNode → Seen
see_all s [] = s
see_all s (n ∷ ns) = see_all (if str_eq n.type (str "node") then see n.basename s else s) ns

unfoldable pub nodes_of : List AllocationNode → List Str
nodes_of graph = (see_all (record { cores = []; nodes = [] }) graph).nodes

unfoldable pub parse_nodes : Services → Str → M (List Str)
unfolding nodes_of see_all see
parse_nodes S allocation t =
    continue (result (S.unmarshal allocation)) (λ graph u. (ok (nodes_of graph), u)) t
