-- ===== src/Cluster/Init.antt =====
-- InitFluxion of cluster.go and WriteJGF of jgf.go: the graph goes through a file to Fluxion. The JSON
-- encoding is a parameter.
use fluxqueue.Base.{◌≡◌, ◌<◌, ◌+◌, ◌^◌, List, [], ◌∷◌, arith, inl, inr}
use fluxqueue.Base.Str.{Str, str}
use fluxqueue.Types.{KubeNode}
use fluxqueue.Service.{
  Services, ok, Reply, replied, Reply-cases, M, ◌>>=◌, ◌>>◌, pure, perform, returned, fatal, result,
}
use fluxqueue.Service.Calls.{Call}
use fluxqueue.Jgf.{FluxJgf}
use fluxqueue.Jgf.Invariant.{IsValid}
use fluxqueue.Cluster.{Requests, Building, create_in_cluster_jgf}
use fluxqueue.Cluster.Valid.{vertices, create_in_cluster_jgf-IsValid}

abbrev pub graph_file : Str
graph_file = str "/kubecluster.json"

module _ (S : Services) (encode : FluxJgf → Reply Str)
    (list_running : Str → Reply (List Requests)) where
  -- Every error ends the program.
  unfoldable pub write_jgf : Str → FluxJgf → M (Unit {0})
  write_jgf path g = do
    text ← returned (fatal (result (encode g)))
    λ t. (fatal (result (S.create_file t path)), Call.create_file path ∷ t)
    λ t. (fatal (result (S.write_file t path text)), Call.write_file path text ∷ t)

  -- createInClusterJGF, around the building of the graph.
  unfoldable pub create_jgf_file : Str → Str → M (Unit {0})
  unfolding write_jgf
  create_jgf_file filename skip_label = do
    perform S.new_clientset Call.new_clientset
    nodes ← perform S.list_nodes Call.list_nodes
    built ← returned (result (create_in_cluster_jgf list_running skip_label nodes))
    write_jgf filename built.graph

  -- The part of InitFluxion behind the file.
  unfoldable pub read_back : Str → M (Unit {0})
  read_back policy = do
    graph ← perform (λ t. S.read_file t graph_file) (Call.read_file graph_file)
    status ← perform (λ t. S.init t policy graph) (Call.init policy graph)
    pure tt

  unfoldable pub init_fluxion : Str → M (Unit {0})
  unfolding create_jgf_file read_back
  init_fluxion policy = create_jgf_file graph_file [] >> read_back policy

  -- A file that was just written is read back.
  abbrev pub KeepsFiles : Type 0
  KeepsFiles =
      (t : List Call) (path text read : Str)
      → S.read_file (Call.write_file path text ∷ t) path ≡ replied read
      → read ≡ text

  -- What is left of InitFluxion once the graph is built and encoded.
  written_lem :
      (policy text : Str) (g : FluxJgf) (t : List Call)
      → KeepsFiles
      → encode g ≡ replied text
      → ((write_jgf graph_file g >> read_back policy) t).0 ≡ ok tt
      → ((write_jgf graph_file g >> read_back policy) t).1
        ≡ Call.init policy text
          ∷ Call.read_file graph_file
          ∷ Call.write_file graph_file text
          ∷ Call.create_file graph_file
          ∷ t
  unfolding write_jgf read_back
  written_lem policy text g t keeps encoded h =
      let u : List Call = Call.write_file graph_file text ∷ Call.create_file graph_file ∷ t in
      elim (Reply-cases (S.read_file u graph_file)) [
        | inl (read, there) ↦ ground (
          arith,
          h,
          encoded,
          there,
          keeps (Call.create_file graph_file ∷ t) graph_file text read there,
        )
        | inr (_, lost) ↦ absurd (ground (arith, h, encoded, lost))
      ]

  -- If InitFluxion succeeds, Fluxion was told the policy and the JSON of the graph that is built from the
  -- nodes which the API server listed, and that graph is valid; where a file that was just written is
  -- read back, and the graph has fewer than 2^63 vertices.
  pub init_fluxion_lem :
      (policy : Str) (t : List Call)
      → KeepsFiles
      → ((nodes : List KubeNode)
          → S.list_nodes (Call.new_clientset ∷ t) ≡ replied nodes
          → 1 + vertices list_running [] nodes < 2 ^ 63)
      → (init_fluxion policy t).0 ≡ ok tt
      → (nodes : List KubeNode) × (built : Building) × (text : Str) × (S.list_nodes
            (Call.new_clientset ∷ t)
          ≡ replied nodes)
        × (create_in_cluster_jgf list_running [] nodes ≡ replied built)
        × (encode built.graph ≡ replied text)
        × IsValid built.graph
        × ((init_fluxion policy t).1
            ≡ Call.init policy text
              ∷ Call.read_file graph_file
              ∷ Call.write_file graph_file text
              ∷ Call.create_file graph_file
              ∷ Call.list_nodes
              ∷ Call.new_clientset
              ∷ t)
  unfolding init_fluxion
  init_fluxion_lem policy t keeps fits h = elim (Reply-cases (S.new_clientset t)) [
    | inr (_, refused_client) ↦ absurd (ground (arith, h, refused_client))
    | inl (_, connected) ↦ elim (Reply-cases (S.list_nodes (Call.new_clientset ∷ t))) [
      | inr (_, unlisted) ↦ absurd (ground (arith, h, connected, unlisted))
      | inl (nodes, listed) ↦ elim (Reply-cases (create_in_cluster_jgf list_running [] nodes)) [
        | inr (_, unbuilt) ↦ absurd (ground (arith, h, connected, listed, unbuilt))
        | inl (built, building) ↦ elim (Reply-cases (encode built.graph)) [
          | inr (_, unencoded) ↦
              absurd
                (unfold write_jgf in (ground (arith, h, connected, listed, building, unencoded)))
          | inl (text, encoded) ↦
              let u : List Call = Call.list_nodes ∷ Call.new_clientset ∷ t in
              let rest : ((write_jgf graph_file built.graph >> read_back policy) u).0 ≡ ok tt =
                ground (arith, h, connected, listed, building) in
              (
                nodes,
                built,
                text,
                listed,
                building,
                encoded,
                (create_in_cluster_jgf-IsValid list_running [] nodes built (fits nodes listed)
                    building).0,
                rw (connected, listed, building)
                    (written_lem policy text built.graph u keeps encoded rest),
              )
        ]
      ]
    ]
  ]
