-- ===== src/Tests/Cluster.antt =====
-- The graph of a cluster of a control plane and two nodes of one zone.
use fluxqueue.Base.{◌≡◌, ◌<◌, ◌+◌, ◌^◌, refl, false, none, some, List, [], ◌∷◌, arith, length}
use fluxqueue.Base.Int.{pos, ◌+ℤ◌}
use fluxqueue.Jobspec.{residue, signed}
use fluxqueue.Base.Str.{Str, str, str_eq, str_eq_refl}
use fluxqueue.Base.Decimal.{format_int}
use mathlib.Core.Path.{subst}
use fluxqueue.Service.Calls.{Call}
use fluxqueue.Cluster.Free.{free_lem}
use fluxqueue.Cluster.Init.{graph_file, init_fluxion, KeepsFiles, init_fluxion_lem}
use fluxqueue.Tests.Database.{willing, contents}
use fluxqueue.Base.Assoc.{lookup}
use fluxqueue.Service.{Services, Reply, replied}
use fluxqueue.Jgf.{
  Node, FluxJgf, new_flux_jgf, make_new_node, root_resource, default_size, init_cluster,
}
use fluxqueue.Jgf.Invariant.{IsValid}
use fluxqueue.Types.{KubeNode}
use fluxqueue.Cluster.{
  Requests, Building, is_skipped, compute_total_requests, add_kube_node, build_loop,
  create_in_cluster_jgf, cores_of, gibs_of, sub_int64,
}
use fluxqueue.Cluster.Valid.{vertices, resources_of}
use fluxqueue.Cluster.Kinds.{
  kinds, all_kinds, node_kinds, resource_kinds, repeated, kinds-create_in_cluster_jgf,
}

abbrev control_plane : KubeNode
control_plane = record {
  name = str "kind-control-plane";
  labels = (str "node-role.kubernetes.io/control-plane", []) ∷ [];
  unschedulable = false;
  cpu = pos 4000;
  memory = pos 8589934592;
  gpus = none;
}

abbrev worker : KubeNode
worker = record {
  name = str "kind-worker";
  labels = (str "topology.kubernetes.io/zone", str "a") ∷ [];
  unschedulable = false;
  cpu = pos 4000;
  memory = pos 3221225472;
  gpus = some (pos 1);
}

abbrev worker2 : KubeNode
worker2 = record worker { name = str "kind-worker2" }

-- Every node has one pod, of a CPU and a half and of one GiB.
abbrev pub one_pod : Str → Reply (List Requests)
one_pod name = replied (record { cpu = pos 1500; memory = pos 1073741824 } ∷ [])

abbrev begun : Node × FluxJgf
begun =
    make_new_node (root_resource new_flux_jgf (str "cluster")).1
      (root_resource new_flux_jgf (str "cluster")).0 [] [] default_size

abbrev taken : Requests
taken = compute_total_requests (record { cpu = pos 1500; memory = pos 1073741824 } ∷ [])

abbrev built : Building
built = add_kube_node begun.0.id 2 worker2 taken (
    add_kube_node begun.0.id 1 worker taken
      (record { graph = begun.1; subnet_lookup = []; subnet_counter = 0 }))

kinds-create_in_cluster_jgf_example :
    IsValid built.graph
    × (kinds built.graph
        ≡ (str "cluster", (str "cluster", pos 1))
          ∷ all_kinds one_pod [] (control_plane ∷ worker ∷ worker2 ∷ []))
unfolding create_in_cluster_jgf build_loop init_cluster new_flux_jgf is_skipped lookup str_eq
    vertices resources_of compute_total_requests cores_of gibs_of sub_int64 residue signed ◌+ℤ◌
kinds-create_in_cluster_jgf_example =
    kinds-create_in_cluster_jgf one_pod [] (control_plane ∷ worker ∷ worker2 ∷ []) built
      (omega arith) refl

-- The control plane is left out, and each of the two workers has its node and its subnet.
vertices_of_three : length (all_kinds one_pod [] (control_plane ∷ worker ∷ worker2 ∷ [])) ≡ 14
unfolding all_kinds node_kinds resource_kinds repeated is_skipped lookup str_eq
    compute_total_requests cores_of gibs_of sub_int64 residue signed ◌+ℤ◌
vertices_of_three = refl

free_lem_example : (cores_of worker2 taken ≡ 2) × (gibs_of worker2 taken ≡ 2)
unfolding compute_total_requests ◌+ℤ◌
free_lem_example =
    free_lem worker2 taken 4000 1500 3221225472 1073741824 refl refl refl refl (omega arith)
      (omega arith) (omega arith) (omega arith)

abbrev pub cluster_nodes : List KubeNode
cluster_nodes = control_plane ∷ worker ∷ worker2 ∷ []

unfoldable pub three : Services
unfolding willing
three = record willing { list_nodes = λ t. replied cluster_nodes }

-- An encoding that tells graphs apart by their number of vertices.
abbrev pub encode : FluxJgf → Reply Str
encode g = replied (format_int (pos (length g.graph.nodes)))

three-KeepsFiles : KeepsFiles three encode one_pod
unfolding three willing contents
three-KeepsFiles t path text read e = ground (arith, e, str_eq_refl path)

pub few_nodes :
    (nodes : List KubeNode)
    → three.list_nodes (Call.new_clientset ∷ []) ≡ replied nodes
    → 1 + vertices one_pod [] nodes < 2 ^ 63
unfolding three vertices is_skipped lookup str_eq resources_of compute_total_requests cores_of
    gibs_of sub_int64 residue signed ◌+ℤ◌
few_nodes nodes e =
    let same : cluster_nodes ≡ nodes = cc in
    subst (λ ns. 1 + vertices one_pod [] ns < 2 ^ 63) same (omega arith)

init_fluxion_lem_example :
    (nodes : List KubeNode) × (b : Building) × (text : Str) × (three.list_nodes
        (Call.new_clientset ∷ [])
      ≡ replied nodes)
    × (create_in_cluster_jgf one_pod [] nodes ≡ replied b)
    × (encode b.graph ≡ replied text)
    × IsValid b.graph
    × ((init_fluxion three encode one_pod (str "lonode") []).1
        ≡ Call.init (str "lonode") text
          ∷ Call.read_file graph_file
          ∷ Call.write_file graph_file text
          ∷ Call.create_file graph_file
          ∷ Call.list_nodes
          ∷ Call.new_clientset
          ∷ [])
unfolding three init_fluxion create_in_cluster_jgf init_cluster new_flux_jgf lookup str_eq contents
init_fluxion_lem_example =
    init_fluxion_lem three encode one_pod (str "lonode") [] three-KeepsFiles few_nodes refl
