-- ===== src/Jgf.antt =====
-- pkg/jgf/jgf.go and pkg/jgf/types.go: the resource graph that is sent to Fluxion. A method on
-- `*FluxJGF` or `*ResourceCounter` returns the new object beside its result. The JSON encoding and
-- the file that holds it are not modelled.
pub mod Clean
pub mod Counter
pub mod Invariant
pub mod Growth
pub mod Edges
pub mod Naming
use fluxqueue.Base.{
  ◌≡◌, ℕ, Bool, true, false, Option, none, some, List, [], ◌∷◌, ◌++◌, if◌then◌else◌,
}
use fluxqueue.Base.Int.{ℤ, pos, negsuc, ltb_ℤ}
use fluxqueue.Base.Str.{Str, str, str_eq}
use fluxqueue.Base.Decimal.{format_int}
use fluxqueue.Base.Assoc.{insert}
use Clean.{clean}
use Counter.{ResourceCount, ResourceCounter, name_with_index, string_element_id, get_counter}

pub record EdgeMetadata : Type 0 where
  pub subsystem : Str

pub record Edge : Type 0 where
  pub source : Str
  pub relation : Str
  pub target : Str
  pub directed : Bool
  pub metadata : EdgeMetadata

pub record NodeMetadata : Type 0 where
  pub type : Str
  pub basename : Str
  pub name : Str
  pub id : ℤ
  pub uniq_id : ℤ
  pub rank : ℤ
  pub exclusive : Bool
  pub unit : Str
  pub size : ℤ
  pub paths : List (Str × Str)
  pub properties : List (Str × Str)

pub record Node : Type 0 where
  pub id : Str
  pub label : Str
  pub metadata : NodeMetadata

pub record Graph : Type 0 where
  pub nodes : List Node
  pub edges : List Edge
  pub directed : Bool

pub record FluxJgf : Type 0 where
  pub graph : Graph
  pub node_map : List (Str × Node)
  pub resources : ResourceCounter

-- Two of the constants; `default_unit` is the empty text, `default_size` 1, `default_rank` -1.
abbrev pub containment_key : Str
containment_key = str "containment"

abbrev pub contains_relation : Str
contains_relation = str "contains"

abbrev pub in_relation : Str
in_relation = str "in"

abbrev pub default_size : ℤ
default_size = pos 1

abbrev pub default_rank : ℤ
default_rank = negsuc 0

unfoldable pub new_flux_jgf : FluxJgf
new_flux_jgf = record {
  graph = record { nodes = []; edges = []; directed = false };
  node_map = [];
  resources = record { counts = (str "cluster", pos 1) ∷ []; elements = pos 0; root_name = [] };
}

unfoldable pub get_node_path : Str → Str → Str
get_node_path root [] = clean (str "/" ++ root)
get_node_path root (c ∷ subpath) = clean (str "/" ++ (root ++ (str "/" ++ (c ∷ subpath))))

unfoldable pub get_containment_path : FluxJgf → Str → List (Str × Str)
get_containment_path g subpath = (containment_key, get_node_path g.resources.root_name subpath) ∷ []

-- `contains` is not used, as in the source.
unfoldable pub make_edge : FluxJgf → Str → Str → Str → FluxJgf
make_edge g source target contains =
    let newedge : Edge = record {
      source = source;
      relation = [];
      target = target;
      directed = false;
      metadata = record { subsystem = containment_key };
    } in
    record g { graph = record (g.graph) { edges = g.graph.edges ++ (newedge ∷ []) } }

unfoldable pub make_bidirectional_edge : FluxJgf → Str → Str → FluxJgf
make_bidirectional_edge g parent child =
    make_edge (make_edge g parent child contains_relation) child parent in_relation

unfoldable pub make_new_node : FluxJgf → ResourceCount → Str → Str → ℤ → Node × FluxJgf
make_new_node g resource subpath unit size =
    let new_node : Node = record {
      id = string_element_id resource;
      label = [];
      metadata = record {
        type = resource.type;
        basename = resource.name;
        name = name_with_index resource;
        id = resource.index;
        uniq_id = resource.element_id;
        rank = default_rank;
        exclusive = false;
        unit = unit;
        size = size;
        paths = get_containment_path g subpath;
        properties = [];
      };
    } in
    (
      new_node,
      record g {
        graph = record (g.graph) { nodes = g.graph.nodes ++ (new_node ∷ []) };
        node_map = insert new_node.id new_node g.node_map;
      },
    )

-- The resource of a name and a type with its index set, and the graph with its counters moved on.
unfoldable pub counted : FluxJgf → Str → Str → ℤ → ResourceCount × FluxJgf
counted g name type index =
    let (resource, resources) = get_counter g.resources name type in
    (record resource { index = index }, record g { resources = resources })

unfoldable pub make_subnet : FluxJgf → Str → ℤ → Node × FluxJgf
make_subnet g name index =
    let (resource, g') = counted g name (str "subnet") index in
    make_new_node g' resource (name_with_index resource) [] default_size

-- What MakeNode, MakeCore, MakeMemory and MakeGPU share: a node of a type under a path.
unfoldable pub make_below : Str → FluxJgf → Str → Str → Str → ℤ → ℤ → Node × FluxJgf
make_below type g name subpath unit size index =
    let (resource, g') = counted g name type index in
    make_new_node g' resource (subpath ++ (str "/" ++ name_with_index resource)) unit size

unfoldable pub make_node : FluxJgf → Str → Str → ℤ → Node × FluxJgf
unfolding make_below
make_node g name subpath index = make_below (str "node") g name subpath [] default_size index

unfoldable pub make_core : FluxJgf → Str → Str → ℤ → Node × FluxJgf
unfolding make_below
make_core g name subpath index = make_below (str "core") g name subpath [] default_size index

unfoldable pub make_memory : FluxJgf → Str → Str → ℤ → ℤ → Node × FluxJgf
unfolding make_below
make_memory g name subpath size index =
    make_below (str "memory") g name subpath (str "MB") size index

unfoldable pub make_gpu : FluxJgf → Str → Str → ℤ → ℤ → Node × FluxJgf
unfolding make_below
make_gpu g name subpath size index = make_below (str "gpu") g name subpath [] size index

-- The root name set and the counters moved on for the cluster itself.
unfoldable pub root_resource : FluxJgf → Str → ResourceCount × FluxJgf
root_resource g name =
    let named : ResourceCounter = record (g.resources) { root_name = name ++ str "0" } in
    let (resource, resources) = get_counter named name (str "cluster") in
    (resource, record g { resources = resources })

-- `none` is the error "init can only be called for a new cluster".
unfoldable pub init_cluster : FluxJgf → Str → Option (Node × FluxJgf)
init_cluster g name =
    if ltb_ℤ (pos 0) g.resources.elements
    then none
    else let (resource, g') = root_resource g name in
      some (make_new_node g' resource [] [] default_size)
