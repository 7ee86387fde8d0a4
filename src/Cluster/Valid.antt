-- ===== src/Cluster/Valid.antt =====
-- The graph of a cluster is valid, and how many nodes it has.
use mathlib.Core.Path.{subst}
use fluxqueue.Base.{
  ℕ, suc, ◌+◌, ◌^◌, ◌<◌, ◌≡◌, refl, ap, true, none, List, [], ◌∷◌, arith, length, if◌then◌else◌,
  inl, inr, Bool-cases, Option-cases,
}
use fluxqueue.Base.Int.{pos}
use fluxqueue.Base.Str.{Str, str}
use fluxqueue.Base.Assoc.{lookup}
use fluxqueue.Service.{Reply, replied, refused, Reply-cases}
use fluxqueue.Jgf.{
  Node, FluxJgf, new_flux_jgf, init_cluster, make_subnet, make_node, make_core, make_memory,
  make_gpu, make_bidirectional_edge,
}
use fluxqueue.Jgf.Invariant.{IsValid, has_node, has_node-append_last, new_flux_jgf-IsValid}
use fluxqueue.Jgf.Growth.{init_cluster-IsValid}
use fluxqueue.Types.{KubeNode}
use fluxqueue.Cluster.{
  Requests, Building, is_skipped, compute_total_requests, cores_of, gibs_of, gpus_of, add_children,
  subnet_of, add_resources, add_compute, add_kube_node, or_empty, zone_label, build_loop,
  create_in_cluster_jgf,
}
use fluxqueue.Cluster.Grown.{
  IsGrown, IsGrown-refl, IsGrown-trans, make_subnet-Adds, make_below-Adds, joined-IsGrown,
  add_children-IsGrown,
}

add_resources-IsGrown :
    (id subpath : Str) (gpus cores gibs : ℕ) (g : FluxJgf)
    → IsValid g
    → has_node id g.graph.nodes ≡ true
    → length g.graph.nodes + (gpus + cores + gibs) < 2 ^ 63
    → IsGrown (gpus + cores + gibs) g (add_resources id subpath gpus cores gibs g)
unfolding add_resources make_gpu make_core make_memory
add_resources-IsGrown id subpath gpus cores gibs g v there fits =
    let h₁ : FluxJgf =
      add_children (λ h i. make_gpu h (str "nvidiagpu") subpath (pos 1) i) id gpus 0 g in
    let h₂ : FluxJgf = add_children (λ h i. make_core h (str "core") subpath i) id cores 0 h₁ in
    let p₁ : IsGrown gpus g h₁ =
      add_children-IsGrown (λ h i. make_gpu h (str "nvidiagpu") subpath (pos 1) i) id gpus 0 g
        (λ h i w f. make_below-Adds _ h _ _ _ _ _ w f) v there (omega arith) in
    let p₂ : IsGrown cores h₁ h₂ =
      add_children-IsGrown (λ h i. make_core h (str "core") subpath i) id cores 0 h₁
        (λ h i w f. make_below-Adds _ h _ _ _ _ _ w f) p₁.valid (p₁.kept id there)
        (omega (arith, p₁.size)) in
    let q : IsGrown (gpus + cores) g h₂ =
      IsGrown-trans gpus cores (gpus + cores) g h₁ h₂ refl p₁ p₂ in
    IsGrown-trans (gpus + cores) gibs (gpus + cores + gibs) g h₂ _ refl q (
      add_children-IsGrown (λ h i. make_memory h (str "memory") subpath (pos 1024) i) id gibs 0 h₂
        (λ h i w f. make_below-Adds _ h _ _ _ _ _ w f) q.valid (q.kept id there)
        (omega (arith, q.size)))

-- The vertices for the GPUs, the cores and the memory of a node.
unfoldable pub resources_of : KubeNode → Requests → ℕ
resources_of node reqs = gpus_of node.gpus + cores_of node reqs + gibs_of node reqs

add_compute-IsGrown :
    (i : ℕ) (node : KubeNode) (reqs : Requests) (subnet : Node) (g : FluxJgf)
    → IsValid g
    → has_node subnet.id g.graph.nodes ≡ true
    → length g.graph.nodes + (1 + resources_of node reqs) < 2 ^ 63
    → IsGrown (1 + resources_of node reqs) g (add_compute i node reqs subnet g)
unfolding add_compute make_node resources_of
add_compute-IsGrown i node reqs subnet g v there fits =
    let r : Node × FluxJgf = make_node g node.name subnet.metadata.name (pos i) in
    let h : FluxJgf = make_bidirectional_edge r.1 subnet.id r.0.id in
    let (one, own) =
      joined-IsGrown r g subnet.id
        (make_below-Adds (str "node") g node.name subnet.metadata.name [] (pos 1) (pos i) v
          (omega arith))
        there in
    IsGrown-trans 1 (resources_of node reqs) (1 + resources_of node reqs) g h _ refl one (
      add_resources-IsGrown r.0.id _ (gpus_of node.gpus) (cores_of node reqs) (gibs_of node reqs) h
        one.valid own (omega (arith, one.size)))

subnet_of-IsGrown :
    (cluster_id name : Str) (b : Building)
    → b.subnet_lookup ≡ []
    → IsValid b.graph
    → has_node cluster_id b.graph.graph.nodes ≡ true
    → length b.graph.graph.nodes + 1 < 2 ^ 63
    → IsGrown 1 b.graph (subnet_of cluster_id name b).1.graph
      × (has_node
            (subnet_of cluster_id name b).0.id
            (subnet_of cluster_id name b).1.graph.graph.nodes
          ≡ true)
      × ((subnet_of cluster_id name b).1.subnet_lookup ≡ [])
unfolding subnet_of lookup
subnet_of-IsGrown cluster_id name b unread v there fits =
    let absent : lookup name b.subnet_lookup ≡ none = rw unread refl in
    let r : Node × FluxJgf = make_subnet b.graph name (pos b.subnet_counter) in
    let (one, own) =
      joined-IsGrown r b.graph cluster_id
        (make_subnet-Adds b.graph name (pos b.subnet_counter) v fits) there in
    let out : Building = record b {
      graph = make_bidirectional_edge r.1 cluster_id r.0.id;
      subnet_counter = b.subnet_counter + 1;
    } in
    let taken : (r.0, out) ≡ subnet_of cluster_id name b = ground (arith, absent) in
    subst
      (λ (p : Node × Building).
        IsGrown 1 b.graph p.1.graph
        × (has_node p.0.id p.1.graph.graph.nodes ≡ true)
        × (p.1.subnet_lookup ≡ []))
      taken (one, own, unread)

add_kube_node-IsGrown :
    (cluster_id : Str) (i : ℕ) (node : KubeNode) (reqs : Requests) (b : Building)
    → b.subnet_lookup ≡ []
    → IsValid b.graph
    → has_node cluster_id b.graph.graph.nodes ≡ true
    → length b.graph.graph.nodes + (2 + resources_of node reqs) < 2 ^ 63
    → IsGrown (2 + resources_of node reqs) b.graph (add_kube_node cluster_id i node reqs b).graph
      × ((add_kube_node cluster_id i node reqs b).subnet_lookup ≡ [])
unfolding add_kube_node subnet_of lookup
add_kube_node-IsGrown cluster_id i node reqs b unread v there fits =
    let name : Str = or_empty (lookup zone_label node.labels) in
    let r : Node × Building = subnet_of cluster_id name b in
    let (one, own, still) = subnet_of-IsGrown cluster_id name b unread v there (omega arith) in
    (
      IsGrown-trans 1 (1 + resources_of node reqs) (2 + resources_of node reqs) b.graph r.1.graph _
          (omega arith) one
          (add_compute-IsGrown i node reqs r.0 r.1.graph one.valid own (omega (arith, one.size))),
      still,
    )

module _ (list_running : Str → Reply (List Requests)) (skip_label : Str) where
  abbrev vertices_with : KubeNode → Reply (List Requests) → ℕ
  vertices_with node (replied ps) = 2 + resources_of node (compute_total_requests ps)
  vertices_with node (refused e) = 0

  -- Two vertices and those of the resources for each node that is not left out.
  unfoldable pub vertices : List KubeNode → ℕ
  vertices [] = 0
  vertices (node ∷ nodes) =
      let rest = vertices nodes in
      if is_skipped skip_label node
      then rest
      else vertices_with node (list_running node.name) + rest

  build_loop-IsGrown :
      (cluster_id : Str) (i : ℕ) (nodes : List KubeNode) (b b' : Building)
      → b.subnet_lookup ≡ []
      → IsValid b.graph
      → has_node cluster_id b.graph.graph.nodes ≡ true
      → length b.graph.graph.nodes + vertices nodes < 2 ^ 63
      → build_loop list_running skip_label cluster_id i nodes b ≡ replied b'
      → IsGrown (vertices nodes) b.graph b'.graph
  unfolding build_loop vertices
  build_loop-IsGrown cluster_id i [] b b' unread v there fits e =
      let same : b ≡ b' = ground (arith, e) in
      subst (λ (c : Building). IsGrown 0 b.graph c.graph) same (IsGrown-refl b.graph v)
  build_loop-IsGrown cluster_id i (node ∷ nodes) b b' unread v there fits e =
      elim (Bool-cases (is_skipped skip_label node)) [
        | inl skipped ↦
            let left : vertices (node ∷ nodes) ≡ vertices nodes = ground (arith, skipped) in
            IsGrown-trans 0 (vertices nodes) (vertices (node ∷ nodes)) b.graph b.graph b'.graph
              (omega (arith, left)) (IsGrown-refl b.graph v)
              (build_loop-IsGrown cluster_id (suc i) nodes b b' unread v there (omega (arith, left))
                (ground (arith, e, skipped)))
        | inr taken ↦ elim (Reply-cases (list_running node.name)) [
          | inr (_, lost) ↦ absurd (ground (arith, e, taken, lost))
          | inl (ps, running) ↦
              let reqs : Requests = compute_total_requests ps in
              let c : Building = add_kube_node cluster_id i node reqs b in
              let more : vertices (node ∷ nodes) ≡ 2 + resources_of node reqs + vertices nodes =
                ground (arith, taken, running) in
              let (grown, still) =
                add_kube_node-IsGrown cluster_id i node reqs b unread v there
                  (omega (arith, more)) in
              IsGrown-trans (2 + resources_of node reqs) (vertices nodes) (vertices (node ∷ nodes))
                b.graph c.graph b'.graph more grown
                (build_loop-IsGrown cluster_id (suc i) nodes c b' still grown.valid
                  (grown.kept cluster_id there) (omega (arith, more, grown.size))
                  (ground (arith, e, taken, running)))
        ]
      ]

  -- Where the graph of a cluster is built and has fewer than 2^63 vertices, it is valid, and it has one
  -- vertex for the cluster, and for each node that is not left out one for the node, one for a subnet
  -- of that node alone, whatever the zones are, and those for its GPUs, its cores and its memory.
  pub create_in_cluster_jgf-IsValid :
      (nodes : List KubeNode) (b : Building)
      → 1 + vertices nodes < 2 ^ 63
      → create_in_cluster_jgf list_running skip_label nodes ≡ replied b
      → IsValid b.graph × (length b.graph.graph.nodes ≡ 1 + vertices nodes)
  unfolding create_in_cluster_jgf
  create_in_cluster_jgf-IsValid nodes b fits e =
      elim (Option-cases (init_cluster new_flux_jgf (str "cluster"))) [
        | inl refused_init ↦ absurd (ground (arith, e, refused_init))
        | inr ((cluster, g), init) ↦
            let (v, only) =
              init_cluster-IsValid new_flux_jgf (str "cluster") new_flux_jgf-IsValid {n = cluster}
                {h = g} (unfold new_flux_jgf in (omega arith)) init in
            let one : length g.graph.nodes ≡ 1 = ap length only in
            let there : has_node cluster.id g.graph.nodes ≡ true =
              rw only (has_node-append_last cluster []) in
            let begun : Building = record { graph = g; subnet_lookup = []; subnet_counter = 0 } in
            let grown : IsGrown (vertices nodes) g b.graph =
              build_loop-IsGrown cluster.id 0 nodes begun b refl v there (omega (arith, one))
                (ground (arith, e, init)) in
            (grown.valid, ground (arith, one, grown.size))
      ]
