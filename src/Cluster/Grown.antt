-- ===== src/Cluster/Grown.antt =====
-- Steps that add a given number of nodes to a valid graph.
use fluxqueue.Base.{ℕ, zero, suc, ◌+◌, ◌^◌, ◌<◌, ◌≡◌, true, [], ◌∷◌, arith, length, length-append}
use fluxqueue.Base.Int.{ℤ, pos}
use fluxqueue.Base.Str.{Str}
use fluxqueue.Jgf.{
  Node, FluxJgf, make_new_node, counted, make_subnet, make_below, make_bidirectional_edge,
  make_edge,
}
use fluxqueue.Jgf.Invariant.{IsValid, has_node, has_node-append_left, has_node-append_last}
use fluxqueue.Jgf.Growth.{make_subnet-IsValid, make_below-IsValid}
use fluxqueue.Jgf.Edges.{make_bidirectional_edge-IsValid}
use fluxqueue.Cluster.{add_children}

-- `h` is a valid graph with `k` nodes more than `g`, those of `g` among them.
pub record IsGrown (k : ℕ) (g h : FluxJgf) : Type 0 where
  pub valid : IsValid h
  pub size : length h.graph.nodes ≡ length g.graph.nodes + k
  pub kept : (id : Str) → has_node id g.graph.nodes ≡ true → has_node id h.graph.nodes ≡ true

pub IsGrown-refl : (g : FluxJgf) → IsValid g → IsGrown 0 g g
IsGrown-refl g v = record { valid = v; size = omega arith; kept = λ id h. h }

pub IsGrown-trans :
    (j k m : ℕ) (g h i : FluxJgf) → m ≡ j + k → IsGrown j g h → IsGrown k h i → IsGrown m g i
IsGrown-trans j k m g h i e p q = record {
  valid = q.valid;
  size = ground (arith, e, p.size, q.size);
  kept = λ id there. q.kept id (p.kept id there);
}

-- Making a node adds it, and one node.
pub record Adds (made : Node × FluxJgf) (g : FluxJgf) : Type 0 where
  pub grown : IsGrown 1 g made.1
  pub added : has_node made.0.id made.1.graph.nodes ≡ true

pub make_subnet-Adds :
    (g : FluxJgf) (name : Str) (index : ℤ)
    → IsValid g
    → length g.graph.nodes + 1 < 2 ^ 63
    → Adds (make_subnet g name index) g
unfolding make_subnet make_new_node counted
make_subnet-Adds g name index v fits =
    let n : Node = (make_subnet g name index).0 in
    record {
      grown = record {
        valid = make_subnet-IsValid g v fits name index;
        size = ground (arith, length-append g.graph.nodes (n ∷ []));
        kept = λ id e. has_node-append_left id g.graph.nodes (n ∷ []) e;
      };
      added = has_node-append_last n g.graph.nodes;
    }

pub make_below-Adds :
    (type : Str) (g : FluxJgf) (name subpath unit : Str) (size index : ℤ)
    → IsValid g
    → length g.graph.nodes + 1 < 2 ^ 63
    → Adds (make_below type g name subpath unit size index) g
unfolding make_below make_new_node counted
make_below-Adds type g name subpath unit size index v fits =
    let n : Node = (make_below type g name subpath unit size index).0 in
    record {
      grown = record {
        valid = make_below-IsValid g v fits type name subpath unit size index;
        size = ground (arith, length-append g.graph.nodes (n ∷ []));
        kept = λ id e. has_node-append_left id g.graph.nodes (n ∷ []) e;
      };
      added = has_node-append_last n g.graph.nodes;
    }

-- A node that was made and joined to its parent.
pub joined-IsGrown :
    (made : Node × FluxJgf) (g : FluxJgf) (parent : Str)
    → Adds made g
    → has_node parent g.graph.nodes ≡ true
    → IsGrown 1 g (make_bidirectional_edge made.1 parent made.0.id)
      × (has_node made.0.id (make_bidirectional_edge made.1 parent made.0.id).graph.nodes ≡ true)
unfolding make_bidirectional_edge make_edge
joined-IsGrown made g parent a there = (
  record {
    valid =
        make_bidirectional_edge-IsValid made.1 parent made.0.id a.grown.valid
          (a.grown.kept parent there) a.added;
    size = a.grown.size;
    kept = a.grown.kept;
  },
  a.added,
)

pub add_children-IsGrown :
    (make : FluxJgf → ℤ → Node × FluxJgf) (parent : Str) (n i : ℕ) (g : FluxJgf)
    → ((h : FluxJgf) (j : ℤ) → IsValid h → length h.graph.nodes + 1 < 2 ^ 63 → Adds (make h j) h)
    → IsValid g
    → has_node parent g.graph.nodes ≡ true
    → length g.graph.nodes + n < 2 ^ 63
    → IsGrown n g (add_children make parent n i g)
unfolding add_children
add_children-IsGrown make parent zero i g adds v there fits = IsGrown-refl g v
add_children-IsGrown make parent (suc n) i g adds v there fits =
    let r : Node × FluxJgf = make g (pos i) in
    let h : FluxJgf = make_bidirectional_edge r.1 parent r.0.id in
    let (one, _) = joined-IsGrown r g parent (adds g (pos i) v (omega arith)) there in
    IsGrown-trans 1 n (suc n) g h (add_children make parent n (suc i) h) (omega arith) one (
      add_children-IsGrown make parent n (suc i) h adds one.valid (one.kept parent there)
        (omega (arith, one.size)))
