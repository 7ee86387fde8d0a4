-- ===== src/Tests/Server.antt =====
-- GetResources right after InitFluxion on a cluster of three nodes.
use fluxqueue.Base.{◌≡◌, refl, List, [], ◌∷◌, arith}
use fluxqueue.Base.Str.{Str, str, str_eq, str_eq_iff, str_eq_refl}
use fluxqueue.Base.Assoc.{lookup}
use fluxqueue.Types.{KubeNode}
use fluxqueue.Service.{replied}
use fluxqueue.Service.Calls.{Call}
use fluxqueue.Jgf.{new_flux_jgf, init_cluster}
use fluxqueue.Cluster.{Building, create_in_cluster_jgf}
use fluxqueue.Cluster.Init.{init_fluxion}
use fluxqueue.Server.{get_resources}
use fluxqueue.Server.Graph.{Untouched, here, further, IsFileSystem, get_resources_lem}
use fluxqueue.Tests.Database.{willing, contents}
use fluxqueue.Tests.Cluster.{three, encode, one_pod, few_nodes}

three_files :
    (path text : Str) (t u : List Call)
    → Untouched path (Call.write_file path text ∷ t) u
    → contents path u ≡ replied text
unfolding contents
three_files path text t u here = ground (arith, str_eq_refl path)
three_files path text t (Call.write_file p x ∷ u) (further c h rest) =
    ground (arith, str_eq_iff p path, h, three_files path text t u rest)
three_files path text t (c ∷ u) (further d h rest) = three_files path text t u rest

three-IsFileSystem : IsFileSystem three encode one_pod
unfolding three willing
three-IsFileSystem path text read t u since e = ground (arith, e, three_files path text t u since)

abbrev initialized : List Call
initialized = (init_fluxion three encode one_pod (str "lonode") []).1

get_resources_lem_example :
    (nodes : List KubeNode) × (built : Building) × (text : Str) × (v : List Call)
    × (three.list_nodes (Call.new_clientset ∷ []) ≡ replied nodes)
    × (create_in_cluster_jgf one_pod [] nodes ≡ replied built)
    × (encode built.graph ≡ replied text)
    × (initialized ≡ Call.init (str "lonode") text ∷ v)
    × ((get_resources three initialized).0.0 ≡ record { graph = text })
unfolding three init_fluxion create_in_cluster_jgf init_cluster new_flux_jgf lookup str_eq contents
    get_resources
get_resources_lem_example =
    get_resources_lem three encode one_pod (str "lonode") [] initialized three-IsFileSystem
      few_nodes refl here refl
