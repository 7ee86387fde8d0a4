-- ===== src/Cluster/Kinds.antt =====
-- What the vertices of a cluster's graph stand for, against an independent list of them.
use fluxqueue.Base.{
  ℕ, zero, suc, ◌+◌, ◌^◌, ◌<◌, ◌≡◌, refl, sym, ap, ◌∙◌, some, List, [], ◌∷◌, ◌++◌, map,
  append_assoc, append-nil, map-append, arith, if◌then◌else◌, inl, inr, Bool-cases, Option-cases,
}
use fluxqueue.Base.Int.{ℤ, pos}
use fluxqueue.Base.Str.{Str, str}
use fluxqueue.Base.Assoc.{lookup}
use fluxqueue.Service.{Reply, replied, refused, Reply-cases}
use fluxqueue.Types.{KubeNode}
use fluxqueue.Jgf.{
  Node, FluxJgf, new_flux_jgf, init_cluster, root_resource, make_new_node, counted, make_subnet,
  make_below, make_node, make_core, make_memory, make_gpu, make_bidirectional_edge, make_edge,
}
use fluxqueue.Jgf.Counter.{get_counter}
use fluxqueue.Jgf.Invariant.{IsValid}
use fluxqueue.Cluster.{
  Requests, Building, is_skipped, compute_total_requests, cores_of, gibs_of, gpus_of, add_children,
  subnet_of, add_resources, add_compute, add_kube_node, or_empty, zone_label, build_loop,
  create_in_cluster_jgf,
}
use fluxqueue.Cluster.Valid.{vertices, create_in_cluster_jgf-IsValid}

-- The type of a vertex, the name of what it stands for, and its size.
abbrev pub Kind : Type 0
Kind = Str × (Str × ℤ)

abbrev kind_of : Node → Kind
kind_of n = (n.metadata.type, (n.metadata.basename, n.metadata.size))

unfoldable pub kinds : FluxJgf → List Kind
kinds g = map kind_of g.graph.nodes

unfoldable pub repeated : ℕ → Kind → List Kind
repeated zero k = []
repeated (suc n) k = k ∷ repeated n k

kinds-make_subnet :
    (g : FluxJgf) (name : Str) (index : ℤ)
    → kinds (make_subnet g name index).1 ≡ kinds g ++ ((str "subnet", (name, pos 1)) ∷ [])
unfolding kinds make_subnet counted make_new_node get_counter
kinds-make_subnet g name index = map-append kind_of g.graph.nodes _

kinds-make_below :
    (type : Str) (g : FluxJgf) (name subpath unit : Str) (size index : ℤ)
    → kinds (make_below type g name subpath unit size index).1
      ≡ kinds g ++ ((type, (name, size)) ∷ [])
unfolding kinds make_below counted make_new_node get_counter
kinds-make_below type g name subpath unit size index = map-append kind_of g.graph.nodes _

kinds-make_bidirectional_edge :
    (g : FluxJgf) (parent child : Str) → kinds (make_bidirectional_edge g parent child) ≡ kinds g
unfolding kinds make_bidirectional_edge make_edge
kinds-make_bidirectional_edge g parent child = refl

-- Children that are each of one kind.
kinds-add_children :
    (make : FluxJgf → ℤ → Node × FluxJgf) (k : Kind) (parent : Str) (n i : ℕ) (g : FluxJgf)
    → ((h : FluxJgf) (index : ℤ) → kinds (make h index).1 ≡ kinds h ++ (k ∷ []))
    → kinds (add_children make parent n i g) ≡ kinds g ++ repeated n k
unfolding add_children repeated
kinds-add_children make k parent zero i g each = sym (append-nil (kinds g))
kinds-add_children make k parent (suc n) i g each =
    let r : Node × FluxJgf = make g (pos i) in
    kinds-add_children make k parent n (suc i) (make_bidirectional_edge r.1 parent r.0.id) each
    ∙ ap (λ ks. ks ++ repeated n k)
        (kinds-make_bidirectional_edge r.1 parent r.0.id ∙ each g (pos i))
    ∙ append_assoc (kinds g) (k ∷ []) (repeated n k)

-- The GPUs, the cores and the blocks of 1024 MB of a node.
unfoldable pub resource_kinds : KubeNode → Requests → List Kind
resource_kinds node reqs =
    repeated (gpus_of node.gpus) (str "gpu", (str "nvidiagpu", pos 1))
    ++ (repeated (cores_of node reqs) (str "core", (str "core", pos 1))
        ++ repeated (gibs_of node reqs) (str "memory", (str "memory", pos 1024)))

-- A node of the cluster: a subnet with the name of its zone, the node, and its resources.
unfoldable pub node_kinds : KubeNode → Requests → List Kind
unfolding resource_kinds
node_kinds node reqs =
    (str "subnet", (or_empty (lookup zone_label node.labels), pos 1))
    ∷ (str "node", (node.name, pos 1))
    ∷ resource_kinds node reqs

kinds-add_resources :
    (id subpath : Str) (node : KubeNode) (reqs : Requests) (g : FluxJgf)
    → kinds
        (add_resources id subpath (gpus_of node.gpus) (cores_of node reqs) (gibs_of node reqs) g)
      ≡ kinds g ++ resource_kinds node reqs
unfolding add_resources make_gpu make_core make_memory resource_kinds
kinds-add_resources id subpath node reqs g =
    kinds-add_children (λ h i. make_memory h (str "memory") subpath (pos 1024) i) _ id
      (gibs_of node reqs) 0 _ (λ h i. kinds-make_below _ h _ _ _ _ _)
    ∙ ap (λ ks. ks ++ repeated (gibs_of node reqs) (str "memory", (str "memory", pos 1024)))
        (kinds-add_children (λ h i. make_core h (str "core") subpath i) _ id (cores_of node reqs) 0
            _ (λ h i. kinds-make_below _ h _ _ _ _ _)
          ∙ ap (λ ks. ks ++ repeated (cores_of node reqs) (str "core", (str "core", pos 1)))
              (kinds-add_children (λ h i. make_gpu h (str "nvidiagpu") subpath (pos 1) i) _ id
                (gpus_of node.gpus) 0 g (λ h i. kinds-make_below _ h _ _ _ _ _)))
    ∙ append_assoc (kinds g ++ repeated (gpus_of node.gpus) (str "gpu", (str "nvidiagpu", pos 1))) _
        _
    ∙ append_assoc (kinds g) _ _

kinds-add_compute :
    (i : ℕ) (node : KubeNode) (reqs : Requests) (subnet : Node) (g : FluxJgf)
    → kinds (add_compute i node reqs subnet g)
      ≡ kinds g ++ ((str "node", (node.name, pos 1)) ∷ resource_kinds node reqs)
unfolding add_compute make_node
kinds-add_compute i node reqs subnet g =
    let r : Node × FluxJgf = make_node g node.name subnet.metadata.name (pos i) in
    kinds-add_resources r.0.id _ node reqs (make_bidirectional_edge r.1 subnet.id r.0.id)
    ∙ ap (λ ks. ks ++ resource_kinds node reqs)
        (kinds-make_bidirectional_edge r.1 subnet.id r.0.id ∙ kinds-make_below _ g _ _ _ _ _)
    ∙ append_assoc (kinds g) _ _

-- As the table of subnets stays empty, every node gets a subnet of its own.
kinds-add_kube_node :
    (cluster_id : Str) (i : ℕ) (node : KubeNode) (reqs : Requests) (b : Building)
    → b.subnet_lookup ≡ []
    → (kinds (add_kube_node cluster_id i node reqs b).graph ≡ kinds b.graph ++ node_kinds node reqs)
      × ((add_kube_node cluster_id i node reqs b).subnet_lookup ≡ [])
unfolding add_kube_node subnet_of lookup node_kinds
kinds-add_kube_node cluster_id i node reqs b unread =
    let name : Str = or_empty (lookup zone_label node.labels) in
    let r : Node × FluxJgf = make_subnet b.graph name (pos b.subnet_counter) in
    rw unread (
      kinds-add_compute i node reqs r.0 (make_bidirectional_edge r.1 cluster_id r.0.id)
          ∙ ap (λ ks. ks ++ ((str "node", (node.name, pos 1)) ∷ resource_kinds node reqs))
              (kinds-make_bidirectional_edge r.1 cluster_id r.0.id
                ∙ kinds-make_subnet b.graph name (pos b.subnet_counter))
          ∙ append_assoc (kinds b.graph) _ _,
      refl,
    )

module _ (list_running : Str → Reply (List Requests)) (skip_label : Str) where
  abbrev kinds_with : KubeNode → Reply (List Requests) → List Kind
  kinds_with node (replied ps) = node_kinds node (compute_total_requests ps)
  kinds_with node (refused e) = []

  -- The vertices of all the nodes that are not left out, in order.
  unfoldable pub all_kinds : List KubeNode → List Kind
  all_kinds [] = []
  all_kinds (node ∷ nodes) =
      let rest = all_kinds nodes in
      if is_skipped skip_label node then rest else kinds_with node (list_running node.name) ++ rest

  kinds-build_loop :
      (cluster_id : Str) (i : ℕ) (nodes : List KubeNode) (b b' : Building)
      → b.subnet_lookup ≡ []
      → build_loop list_running skip_label cluster_id i nodes b ≡ replied b'
      → kinds b'.graph ≡ kinds b.graph ++ all_kinds nodes
  unfolding build_loop all_kinds
  kinds-build_loop cluster_id i [] b b' unread e =
      let same : b ≡ b' = ground (arith, e) in rw (← same) (sym (append-nil (kinds b.graph)))
  kinds-build_loop cluster_id i (node ∷ nodes) b b' unread e =
      elim (Bool-cases (is_skipped skip_label node)) [
        | inl skipped ↦
            rw skipped
              (kinds-build_loop cluster_id (suc i) nodes b b' unread (ground (arith, e, skipped)))
        | inr taken ↦ elim (Reply-cases (list_running node.name)) [
          | inr (_, lost) ↦ absurd (ground (arith, e, taken, lost))
          | inl (ps, running) ↦
              let reqs : Requests = compute_total_requests ps in
              let c : Building = add_kube_node cluster_id i node reqs b in
              let (grown, still) = kinds-add_kube_node cluster_id i node reqs b unread in
              rw (taken, running)
                (kinds-build_loop cluster_id (suc i) nodes c b' still
                    (ground (arith, e, taken, running))
                  ∙ ap (λ ks. ks ++ all_kinds nodes) grown
                  ∙ append_assoc (kinds b.graph) (node_kinds node reqs) (all_kinds nodes))
        ]
      ]

  kinds-init_cluster :
      {n : Node} {g : FluxJgf}
      → init_cluster new_flux_jgf (str "cluster") ≡ some (n, g)
      → kinds g ≡ (str "cluster", (str "cluster", pos 1)) ∷ []
  unfolding init_cluster new_flux_jgf root_resource make_new_node get_counter kinds
  kinds-init_cluster {n} {g} e = ground (arith, e)

  -- Where the graph of a cluster is built and has fewer than 2^63 vertices, it is valid, and its vertices
  -- are, in this order, the cluster, and for each node that is not left out a subnet with
  -- the name of its zone, whatever zones the others have, the node itself under its name,
  -- one for each of its GPUs, for each of its free cores, and for each of its free GiB a block of
  -- memory of size 1024.
  pub kinds-create_in_cluster_jgf :
      (nodes : List KubeNode) (b : Building)
      → 1 + vertices list_running skip_label nodes < 2 ^ 63
      → create_in_cluster_jgf list_running skip_label nodes ≡ replied b
      → IsValid b.graph
        × (kinds b.graph ≡ (str "cluster", (str "cluster", pos 1)) ∷ all_kinds nodes)
  unfolding create_in_cluster_jgf
  kinds-create_in_cluster_jgf nodes b fits e = (
    (create_in_cluster_jgf-IsValid list_running skip_label nodes b fits e).0,
    elim (Option-cases (init_cluster new_flux_jgf (str "cluster"))) [
      | inl refused_init ↦ absurd (ground (arith, e, refused_init))
      | inr ((cluster, g), init) ↦
          let begun : Building = record { graph = g; subnet_lookup = []; subnet_counter = 0 } in
          kinds-build_loop cluster.id 0 nodes begun b refl (ground (arith, e, init))
          ∙ ap (λ ks. ks ++ all_kinds nodes) (kinds-init_cluster init)
    ],
  )
