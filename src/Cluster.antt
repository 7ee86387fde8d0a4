-- ===== src/Cluster.antt =====
-- internal/controller/cluster.go: the resource graph of the nodes of a cluster. The requests of a
-- pod come from a copy of Kubernetes' own helper, and the list of the running pods from the API:
-- both are a parameter. CPUs are in thousandths, as `MilliValue` gives them, and memory in bytes.
pub mod Grown
pub mod Valid
pub mod Kinds
pub mod Free
pub mod Init
use fluxqueue.Base.{
  ℕ, zero, suc, ◌+◌, ◌-◌, ◌*◌, ◌/◌, ◌%◌, ◌^◌, Bool, true, false, not, ◌&&◌, ◌||◌, Option, none,
  some, List, [], ◌∷◌, ◌++◌, if◌then◌else◌,
}
use fluxqueue.Base.Int.{ℤ, pos, negsuc, ◌+ℤ◌}
use fluxqueue.Base.Str.{Str, str, str_eq}
use fluxqueue.Base.Assoc.{lookup}
use fluxqueue.Types.{KubeNode}
use fluxqueue.Service.{Error, failure, Reply, replied, refused}
use fluxqueue.Jobspec.{residue, signed}
use fluxqueue.Jgf.{
  Node, FluxJgf, new_flux_jgf, init_cluster, make_subnet, make_node, make_core, make_memory,
  make_gpu, make_bidirectional_edge,
}

pub record Requests : Type 0 where
  pub cpu : ℤ
  pub memory : ℤ

abbrev control_plane_label : Str
control_plane_label = str "node-role.kubernetes.io/control-plane"

abbrev pub zone_label : Str
zone_label = str "topology.kubernetes.io/zone"

abbrev has_key : Option Str → Bool
has_key none = false
has_key (some v) = true

abbrev pub or_empty : Option Str → Str
or_empty none = []
or_empty (some v) = v

-- The nodes that the graph leaves out.
unfoldable pub is_skipped : Str → KubeNode → Bool
is_skipped skip_label node =
    has_key (lookup control_plane_label node.labels)
    || ((not (str_eq skip_label []) && has_key (lookup skip_label node.labels))
        || node.unschedulable)

unfoldable pub compute_total_requests : List Requests → Requests
compute_total_requests [] = record { cpu = pos 0; memory = pos 0 }
compute_total_requests (p ∷ ps) =
    let rest = compute_total_requests ps in
    record { cpu = p.cpu +ℤ rest.cpu; memory = p.memory +ℤ rest.memory }

-- a - b in an int64
unfoldable pub sub_int64 : ℤ → ℤ → ℤ
unfolding residue signed
sub_int64 a b = signed 64 ((residue 64 a + (2 ^ 64 - residue 64 b)) % 2 ^ 64)

-- How often `for index := 0; index < n; index++` runs.
abbrev pub times : ℤ → ℕ
times (pos n) = n
times (negsuc n) = 0

-- The numbers of cores and of GiB that are left: a quotient or a shift of a negative number is none.
unfoldable pub cores_of : KubeNode → Requests → ℕ
unfolding sub_int64
cores_of node reqs = times (sub_int64 node.cpu reqs.cpu) / 1000

unfoldable pub gibs_of : KubeNode → Requests → ℕ
unfolding sub_int64
gibs_of node reqs = times (sub_int64 node.memory reqs.memory) / 2 ^ 30

abbrev pub gpus_of : Option ℤ → ℕ
gpus_of none = 0
gpus_of (some n) = times n

-- A loop that adds children of one parent, from the index `i` on.
unfoldable pub add_children : (FluxJgf → ℤ → Node × FluxJgf) → Str → ℕ → ℕ → FluxJgf → FluxJgf
add_children make parent zero i g = g
add_children make parent (suc n) i g =
    let r = make g (pos i) in
    add_children make parent n (suc i) (make_bidirectional_edge r.1 parent r.0.id)

-- The variables of the loop over the nodes.
pub record Building : Type 0 where
  pub graph : FluxJgf
  pub subnet_lookup : List (Str × Node)
  pub subnet_counter : ℕ

-- The node of a subnet; the table of the subnets is read and never written, as in the source.
unfoldable pub subnet_of : Str → Str → Building → Node × Building
subnet_of cluster_id subnet_name b = elim (lookup subnet_name b.subnet_lookup) [
  | some subnet ↦ (subnet, b)
  | none ↦
      let r = make_subnet b.graph subnet_name (pos b.subnet_counter) in
      (
        r.0,
        record b {
          graph = make_bidirectional_edge r.1 cluster_id r.0.id;
          subnet_counter = b.subnet_counter + 1;
        },
      )
]

-- The resources of a node of the cluster under its node of the graph.
unfoldable pub add_resources : Str → Str → ℕ → ℕ → ℕ → FluxJgf → FluxJgf
unfolding add_children
add_resources id subpath gpus cores gibs g =
    add_children (λ h i. make_memory h (str "memory") subpath (pos 1024) i) id gibs 0
      (add_children (λ h i. make_core h (str "core") subpath i) id cores 0
        (add_children (λ h i. make_gpu h (str "nvidiagpu") subpath (pos 1) i) id gpus 0 g))

unfoldable pub add_compute : ℕ → KubeNode → Requests → Node → FluxJgf → FluxJgf
unfolding add_resources cores_of gibs_of
add_compute i node reqs subnet g =
    let r = make_node g node.name subnet.metadata.name (pos i) in
    add_resources r.0.id (subnet.metadata.name ++ (str "/" ++ r.0.metadata.name))
      (gpus_of node.gpus) (cores_of node reqs) (gibs_of node reqs)
      (make_bidirectional_edge r.1 subnet.id r.0.id)

unfoldable pub add_kube_node : Str → ℕ → KubeNode → Requests → Building → Building
unfolding subnet_of add_compute
add_kube_node cluster_id i node reqs b =
    let r = subnet_of cluster_id (or_empty (lookup zone_label node.labels)) b in
    record (r.1) { graph = add_compute i node reqs r.0 r.1.graph }

module _ (list_running : Str → Reply (List Requests)) (skip_label : Str) where
  abbrev with_running : Reply (List Requests) → (Requests → Reply Building) → Reply Building
  with_running (replied ps) f = f (compute_total_requests ps)
  with_running (refused e) f = refused e

  unfoldable pub build_loop : Str → ℕ → List KubeNode → Building → Reply Building
  unfolding is_skipped add_kube_node
  build_loop cluster_id i [] b = replied b
  build_loop cluster_id i (node ∷ nodes) b =
      if is_skipped skip_label node
      then build_loop cluster_id (suc i) nodes b
      else with_running (list_running node.name)
          (λ reqs. build_loop cluster_id (suc i) nodes (add_kube_node cluster_id i node reqs b))

  abbrev started : List KubeNode → Option (Node × FluxJgf) → Reply Building
  started nodes none = refused (failure (str "init can only be called for a new cluster"))
  started nodes (some (cluster, g)) =
      build_loop cluster.id 0 nodes (record { graph = g; subnet_lookup = []; subnet_counter = 0 })

  unfoldable pub create_in_cluster_jgf : List KubeNode → Reply Building
  unfolding build_loop
  create_in_cluster_jgf nodes = started nodes (init_cluster new_flux_jgf (str "cluster"))
