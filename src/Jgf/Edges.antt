-- ===== src/Jgf/Edges.antt =====
-- Edges come in pairs: what `MakeBidirectionalEdge` adds, and what it keeps.
use fluxqueue.Base.{
  ◌≡◌, refl, Bool, true, false, ◌&&◌, ◌||◌, List, [], ◌∷◌, ◌++◌, arith, All-append, append_assoc,
}
use fluxqueue.Base.Str.{Str, str_eq, str_eq_refl}
use fluxqueue.Jgf.Invariant.{IsValid, Joins, has_node}
use fluxqueue.Jgf.{Edge, FluxJgf, make_edge, make_bidirectional_edge}

-- Is there an edge from `s` to `t`?
unfoldable pub has_edge : Str → Str → List Edge → Bool
has_edge s t [] = false
has_edge s t (e ∷ es) = (str_eq e.source s && str_eq e.target t) || has_edge s t es

has_edge-append :
    (s t : Str) (es fs : List Edge) → has_edge s t (es ++ fs) ≡ (has_edge s t es || has_edge s t fs)
unfolding has_edge
has_edge-append s t [] fs = refl
has_edge-append s t (e ∷ es) fs = ground (arith, has_edge-append s t es fs)

-- Every edge has its reverse.
pub record IsSymmetric (es : List Edge) : Type 0 where
  pub reversed : (s t : Str) → has_edge s t es ≡ has_edge t s es

-- The relation that a caller names has no effect on the graph: every edge is made with an empty one.
pub make_edge_relation :
    (g : FluxJgf) (source target contains contains' : Str)
    → make_edge g source target contains ≡ make_edge g source target contains'
unfolding make_edge
make_edge_relation g source target contains contains' = refl

module _ (g : FluxJgf) (parent child : Str) where
  -- Joining two nodes of a valid graph keeps it valid.
  pub make_bidirectional_edge-IsValid :
      IsValid g
      → has_node parent g.graph.nodes ≡ true
      → has_node child g.graph.nodes ≡ true
      → IsValid (make_bidirectional_edge g parent child)
  unfolding make_bidirectional_edge make_edge
  make_bidirectional_edge-IsValid v p c = record {
    counted = v.counted;
    numbered = v.numbered;
    mapped = v.mapped;
    joined =
        All-append (Joins g.graph.nodes) (g.graph.edges ++ _) _
          (All-append (Joins g.graph.nodes) g.graph.edges _ v.joined
            (record { source_in = p; target_in = c }, tt))
          (record { source_in = c; target_in = p }, tt);
  }

  has_edge-make_bidirectional_edge :
      (s t : Str)
      → has_edge s t (make_bidirectional_edge g parent child).graph.edges ≡ (
          has_edge s t g.graph.edges
          || ((str_eq parent s && str_eq child t) || (str_eq child s && str_eq parent t)))
  unfolding make_bidirectional_edge make_edge has_edge
  has_edge-make_bidirectional_edge s t =
      rw append_assoc (rw (has_edge-append s t g.graph.edges) (ground arith))

  -- If every edge of the graph has its reverse, so it is after a pair of edges is added, and the
  -- edges from the parent to the child and back are there.
  pub make_bidirectional_edge-IsSymmetric :
      IsSymmetric g.graph.edges
      → IsSymmetric (make_bidirectional_edge g parent child).graph.edges
        × (has_edge parent child (make_bidirectional_edge g parent child).graph.edges ≡ true)
        × (has_edge child parent (make_bidirectional_edge g parent child).graph.edges ≡ true)
  make_bidirectional_edge-IsSymmetric h = (
    record {
      reversed = λ s t. ground (
        arith,
        h.reversed s t,
        has_edge-make_bidirectional_edge s t,
        has_edge-make_bidirectional_edge t s,
      );
    },
    ground (
      arith,
      str_eq_refl parent,
      str_eq_refl child,
      has_edge-make_bidirectional_edge parent child,
    ),
    ground (
      arith,
      str_eq_refl parent,
      str_eq_refl child,
      has_edge-make_bidirectional_edge child parent,
    ),
  )
