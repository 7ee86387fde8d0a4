-- ===== src/Jgf/Growth.antt =====
-- Every operation of pkg/jgf that adds a node keeps the graph valid, up to 2^63 - 1 nodes.
use fluxqueue.Base.{
  ◌+◌, ◌^◌, ◌<◌, ◌≡◌, ◌≢◌, ◌↔◌, none, some, [], ◌∷◌, ◌++◌, arith, length, length-append, All,
  All-imp,
}
use mathlib.Core.Path.{subst}
use fluxqueue.Base.Int.{ℤ, pos}
use fluxqueue.Base.Str.{Str, str}
use fluxqueue.Base.Assoc.{lookup, lookup-insert}
use fluxqueue.Jgf.Counter.{ResourceCount, get_counter, succ_int64-pos, string_element_id}
use fluxqueue.Jgf.Invariant.{
  IsValid, Joins, Numbered, Numbered-append, find_node, find_node_fresh, find_node-append,
  Joins-append,
}
use fluxqueue.Jgf.{
  Node, FluxJgf, make_new_node, counted, root_resource, default_size, make_subnet, make_below,
  init_cluster,
}

-- A graph that is valid but for a counter that is one ahead: an element is being added.
pub record IsPending (g : FluxJgf) (r : ResourceCount) : Type 0 where
  pub fits : length g.graph.nodes + 1 < 2 ^ 63
  pub ahead : g.resources.elements ≡ pos (length g.graph.nodes + 1)
  pub next : r.element_id ≡ pos (length g.graph.nodes)
  pub numbered : Numbered 0 g.graph.nodes
  pub mapped : (k : Str) → lookup k g.node_map ≡ find_node k g.graph.nodes
  pub joined : All (Joins g.graph.nodes) g.graph.edges

make_new_node-IsValid :
    (g : FluxJgf) (r : ResourceCount) (subpath unit : Str) (size : ℤ)
    → IsPending g r
    → IsValid (make_new_node g r subpath unit size).1
unfolding make_new_node string_element_id
make_new_node-IsValid g r subpath unit size p =
    let n : Node = (make_new_node g r subpath unit size).0 in
    let fresh : find_node n.id g.graph.nodes ≡ none =
      ground
        (arith, find_node_fresh 0 (length g.graph.nodes) g.graph.nodes p.numbered (omega arith)) in
    record {
      counted = ground (arith, p.ahead, length-append g.graph.nodes (n ∷ []));
      numbered = Numbered-append 0 g.graph.nodes n p.numbered (ground arith) (ground arith);
      mapped = λ k. ground (
        arith,
        lookup-insert n.id k n g.node_map,
        find_node-append k g.graph.nodes n fresh,
        p.mapped k,
      );
      joined =
          All-imp (Joins g.graph.nodes) (Joins (g.graph.nodes ++ (n ∷ []))) g.graph.edges
            (Joins-append g.graph.nodes (n ∷ [])) p.joined;
    }

counted-IsPending :
    (g : FluxJgf) (name type : Str) (index : ℤ)
    → IsValid g
    → length g.graph.nodes + 1 < 2 ^ 63
    → IsPending (counted g name type index).1 (counted g name type index).0
unfolding counted get_counter
counted-IsPending g name type index v fits = record {
  fits = fits;
  ahead = ground (arith, v.counted, succ_int64-pos (length g.graph.nodes) fits);
  next = v.counted;
  numbered = v.numbered;
  mapped = v.mapped;
  joined = v.joined;
}

module _ (g : FluxJgf) (v : IsValid g) (fits : length g.graph.nodes + 1 < 2 ^ 63) where
  -- From a valid graph of fewer than 2^63 - 1 nodes, adding a subnet gives a valid graph.
  pub make_subnet-IsValid : (name : Str) (index : ℤ) → IsValid (make_subnet g name index).1
  unfolding make_subnet
  make_subnet-IsValid name index =
      make_new_node-IsValid _ _ _ _ _ (counted-IsPending g name (str "subnet") index v fits)

  -- From a valid graph of fewer than 2^63 - 1 nodes, adding a node of any type below a path gives
  -- a valid graph.
  pub make_below-IsValid :
      (type name subpath unit : Str) (size index : ℤ)
      → IsValid (make_below type g name subpath unit size index).1
  unfolding make_below
  make_below-IsValid type name subpath unit size index =
      make_new_node-IsValid _ _ _ _ _ (counted-IsPending g name type index v fits)

root_resource-IsPending :
    (g : FluxJgf) (name : Str)
    → IsValid g
    → length g.graph.nodes + 1 < 2 ^ 63
    → IsPending (root_resource g name).1 (root_resource g name).0
unfolding root_resource get_counter
root_resource-IsPending g name v fits = record {
  fits = fits;
  ahead = ground (arith, v.counted, succ_int64-pos (length g.graph.nodes) fits);
  next = v.counted;
  numbered = v.numbered;
  mapped = v.mapped;
  joined = v.joined;
}

module _ (g : FluxJgf) (name : Str) (v : IsValid g) where
  -- Starting the cluster of a valid graph is refused exactly when the graph has a node.
  pub init_cluster_refused : (init_cluster g name ≡ none) ↔ (g.graph.nodes ≢ [])
  unfolding init_cluster
  init_cluster_refused = (λ e. ground (arith, v.counted), λ ne. ground (arith, v.counted))

  -- Where it is not refused, it gives a valid graph whose one node is the node returned.
  pub init_cluster-IsValid :
      {n : Node} {h : FluxJgf}
      → length g.graph.nodes + 1 < 2 ^ 63
      → init_cluster g name ≡ some (n, h)
      → IsValid h × (h.graph.nodes ≡ n ∷ [])
  unfolding init_cluster
  init_cluster-IsValid {n} {h} fits e =
      let start : ResourceCount × FluxJgf = root_resource g name in
      let added : Node × FluxJgf = make_new_node start.1 start.0 [] [] default_size in
      let first : g.graph.nodes ≡ [] = ground (arith, v.counted) in
      let returned : added ≡ (n, h) = ground (arith, v.counted) in
      subst (λ p. IsValid p.1 × (p.1.graph.nodes ≡ p.0 ∷ [])) returned
        (
          make_new_node-IsValid _ _ _ _ _ (root_resource-IsPending g name v fits),
          unfold make_new_node root_resource in rw first,
        )
