-- ===== src/Jgf/Invariant.antt =====
-- What holds of a graph between two calls of pkg/jgf: the nodes are numbered in the order of their
-- creation, the map of nodes agrees with the list, and the edges join nodes of the graph.
use fluxqueue.Base.{
  ℕ, suc, ◌+◌, ◌^◌, ◌≤◌, ◌<◌, ◌≡◌, refl, Bool, true, false, ◌||◌, Option, none, some, List, [], ◌∷◌,
  ◌++◌, arith, length, get_elem?, get_elem?-lt, All, if◌then◌else◌, zero,
}
use fluxqueue.Base.Int.{pos}
use fluxqueue.Base.Str.{Str, str_eq, str_eq_iff, str_eq_refl}
use fluxqueue.Base.Decimal.{format_int, format_int-injective}
use fluxqueue.Base.Assoc.{lookup}
use fluxqueue.Jgf.{Node, Edge, FluxJgf, new_flux_jgf}

-- The nodes carry the numbers from `k` on, as integers and as text.
abbrev pub Numbered : ℕ → List Node → Type 0
Numbered k [] = Unit
Numbered k (n ∷ ns) =
    (n.id ≡ format_int (pos k)) × (n.metadata.uniq_id ≡ pos k) × Numbered (suc k) ns

-- The first node with an identifier.
pub find_node : Str → List Node → Option Node
find_node k [] = none
find_node k (n ∷ ns) = if str_eq n.id k then some n else find_node k ns

unfoldable pub has_node : Str → List Node → Bool
has_node k [] = false
has_node k (n ∷ ns) = str_eq n.id k || has_node k ns

-- Both ends of an edge are nodes of the list.
pub record Joins (ns : List Node) (e : Edge) : Type 0 where
  pub source_in : has_node e.source ns ≡ true
  pub target_in : has_node e.target ns ≡ true

pub record IsValid (g : FluxJgf) : Type 0 where
  pub counted : g.resources.elements ≡ pos (length g.graph.nodes)
  pub numbered : Numbered 0 g.graph.nodes
  pub mapped : (k : Str) → lookup k g.node_map ≡ find_node k g.graph.nodes
  pub joined : All (Joins g.graph.nodes) g.graph.edges

pub new_flux_jgf-IsValid : IsValid new_flux_jgf
unfolding new_flux_jgf lookup find_node
new_flux_jgf-IsValid = record { counted = refl; numbered = tt; mapped = λ k. refl; joined = tt }

pub Numbered-append :
    (k : ℕ) (ns : List Node) (n : Node)
    → Numbered k ns
    → n.id ≡ format_int (pos (k + length ns))
    → n.metadata.uniq_id ≡ pos (k + length ns)
    → Numbered k (ns ++ (n ∷ []))
Numbered-append k [] n h e u = ground arith
Numbered-append k (m ∷ ns) n h e u =
    (h.0, h.1, Numbered-append (suc k) ns n h.2 (ground arith) (ground arith))

-- A number that was not given yet is the identifier of no node.
pub find_node_fresh :
    (k m : ℕ) (ns : List Node)
    → Numbered k ns
    → k + length ns ≤ m
    → m < 2 ^ 63
    → find_node (format_int (pos m)) ns ≡ none
unfolding find_node
find_node_fresh k m [] h le lt = refl
find_node_fresh k m (n ∷ ns) h le lt = ground (
  arith,
  find_node_fresh (suc k) m ns h.2 (omega arith) lt,
  str_eq_iff n.id (format_int (pos m)),
  format_int-injective (pos k) (pos m),
)

pub find_node-append :
    (k : Str) (ns : List Node) (n : Node)
    → find_node n.id ns ≡ none
    → find_node k (ns ++ (n ∷ [])) ≡ (if str_eq n.id k then some n else find_node k ns)
unfolding find_node
find_node-append k [] n h = refl
find_node-append k (m ∷ ns) n h =
    ground
      (arith, find_node-append k ns n, str_eq_iff m.id k, str_eq_iff n.id k, str_eq_iff m.id n.id)

pub has_node-append_left :
    (k : Str) (ns ms : List Node) → has_node k ns ≡ true → has_node k (ns ++ ms) ≡ true
unfolding has_node
has_node-append_left k [] ms h = cc
has_node-append_left k (n ∷ ns) ms h = ground (arith, has_node-append_left k ns ms)

pub Joins-append : (ns ms : List Node) (e : Edge) → Joins ns e → Joins (ns ++ ms) e
Joins-append ns ms e h = record {
  source_in = has_node-append_left e.source ns ms h.source_in;
  target_in = has_node-append_left e.target ns ms h.target_in;
}

pub has_node-append_last : (n : Node) (ns : List Node) → has_node n.id (ns ++ (n ∷ [])) ≡ true
unfolding has_node
has_node-append_last n [] = ground (arith, str_eq_refl n.id)
has_node-append_last n (m ∷ ns) = ground (arith, has_node-append_last n ns)

Numbered-get_elem? :
    (k i : ℕ) (ns : List Node) (n : Node)
    → Numbered k ns
    → get_elem? ns i ≡ some n
    → n.id ≡ format_int (pos (k + i))
Numbered-get_elem? k i [] n h e = cc
Numbered-get_elem? k zero (m ∷ ns) n h e = ground arith
Numbered-get_elem? k (suc i) (m ∷ ns) n h e =
    ground (arith, Numbered-get_elem? (suc k) i ns n h.2 e)

-- In a valid graph of fewer than 2^63 nodes, two positions that hold nodes of one identifier are
-- the same position.
pub id_unique :
    (g : FluxJgf) (i j : ℕ) (a b : Node)
    → IsValid g
    → length g.graph.nodes < 2 ^ 63
    → get_elem? g.graph.nodes i ≡ some a
    → get_elem? g.graph.nodes j ≡ some b
    → a.id ≡ b.id
    → i ≡ j
id_unique g i j a b v fits ea eb e = ground (
  arith,
  get_elem?-lt g.graph.nodes i ea,
  get_elem?-lt g.graph.nodes j eb,
  Numbered-get_elem? 0 i g.graph.nodes a v.numbered ea,
  Numbered-get_elem? 0 j g.graph.nodes b v.numbered eb,
  format_int-injective (pos i) (pos j),
)
