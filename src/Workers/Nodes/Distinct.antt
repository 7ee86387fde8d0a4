-- ===== src/Workers/Nodes/Distinct.antt =====
-- What `parseNodes` makes of an allocation.
use fluxqueue.Base.{
  ℕ, suc, ◌+◌, ◌≡◌, refl, Bool, true, false, ◌&&◌, ◌||◌, Option, none, some, List, [], ◌∷◌, ◌++◌,
  arith, if◌then◌else◌, Option-cases, Bool-cases, inl, inr,
}
use fluxqueue.Base.Str.{in_list, Str, str, str_eq, str_eq_iff}
use fluxqueue.Base.Assoc.{lookup, insert, lookup-insert}
use fluxqueue.Types.{AllocationNode}
use fluxqueue.Workers.Nodes.{Seen, see, see_all, nodes_of, count_of}

abbrev pub Distinct : List Str → Type 0
Distinct [] = Unit
Distinct (x ∷ xs) = (in_list x xs ≡ false) × Distinct xs

-- A vertex of the type "node" with the name.
abbrev is_vertex : Str → AllocationNode → Bool
is_vertex x n = str_eq n.type (str "node") && str_eq n.basename x

pub has_vertex : Str → List AllocationNode → Bool
has_vertex x [] = false
has_vertex x (n ∷ ns) = is_vertex x n || has_vertex x ns

pub count_vertices : Str → List AllocationNode → ℕ
count_vertices x [] = 0
count_vertices x (n ∷ ns) =
    let rest = count_vertices x ns in if is_vertex x n then suc rest else rest

in_list-append :
    (x : Str) (ys : List Str) (y : Str) → in_list x (ys ++ (y ∷ [])) ≡ (in_list x ys || str_eq y x)
unfolding in_list
in_list-append x [] y = ground arith
in_list-append x (z ∷ ys) y = ground (arith, in_list-append x ys y)

Distinct-append :
    (ys : List Str) (y : Str) → Distinct ys → in_list y ys ≡ false → Distinct (ys ++ (y ∷ []))
unfolding in_list
Distinct-append [] y d h = (refl, tt)
Distinct-append (z ∷ ys) y (fresh, d) h = (
  ground (arith, in_list-append z ys y, str_eq_iff y z, str_eq_iff z y),
  Distinct-append ys y d (ground arith),
)

abbrev is_some : Option ℕ → Bool
is_some none = false
is_some (some n) = true

record IsSeen (s : Seen) : Type 0 where
  counted : (x : Str) → in_list x s.nodes ≡ is_some (lookup x s.cores)
  distinct : Distinct s.nodes

in_list-see :
    (y x : Str) (s : Seen)
    → IsSeen s
    → in_list x (see y s).nodes ≡ (in_list x s.nodes || str_eq y x)
unfolding see
in_list-see y x s v =
    ground (arith, in_list-append x s.nodes y, v.counted x, v.counted y, str_eq_iff y x)

count_of-see :
    (y x : Str) (s : Seen)
    → count_of (lookup x (see y s).cores)
      ≡ (if str_eq y x then suc (count_of (lookup x s.cores)) else count_of (lookup x s.cores))
unfolding see
count_of-see y x s = elim (Option-cases (lookup y s.cores)) [
  | inl new ↦ ground (
    arith,
    new,
    str_eq_iff y x,
    lookup-insert y x 1 (insert y 0 s.cores),
    lookup-insert y x 0 s.cores,
  )
  | inr (n, old) ↦ ground (arith, old, str_eq_iff y x, lookup-insert y x (n + 1) s.cores)
]

see-IsSeen : (y : Str) (s : Seen) → IsSeen s → IsSeen (see y s)
unfolding see
see-IsSeen y s v = elim (Option-cases (lookup y s.cores)) [
  | inl new ↦ record {
    counted = λ x. ground (
      arith,
      new,
      v.counted x,
      str_eq_iff y x,
      in_list-append x s.nodes y,
      lookup-insert y x 1 (insert y 0 s.cores),
      lookup-insert y x 0 s.cores,
    );
    distinct = ground (arith, new, v.counted y, Distinct-append s.nodes y v.distinct);
  }
  | inr (n, old) ↦ record {
    counted = λ x.
        ground
          (arith, old, v.counted x, v.counted y, str_eq_iff y x, lookup-insert y x (n + 1) s.cores);
    distinct = ground (arith, old, v.distinct);
  }
]

see_all-IsSeen : (s : Seen) (ns : List AllocationNode) → IsSeen s → IsSeen (see_all s ns)
unfolding see_all
see_all-IsSeen s [] v = v
see_all-IsSeen s (n ∷ ns) v = elim (Bool-cases (str_eq n.type (str "node"))) [
  | inl vertex ↦ rw vertex (see_all-IsSeen (see n.basename s) ns (see-IsSeen n.basename s v))
  | inr other ↦ rw other (see_all-IsSeen s ns v)
]

in_list-see_all :
    (x : Str) (s : Seen) (ns : List AllocationNode)
    → IsSeen s
    → in_list x (see_all s ns).nodes ≡ (in_list x s.nodes || has_vertex x ns)
unfolding see_all has_vertex
in_list-see_all x s [] v = ground arith
in_list-see_all x s (n ∷ ns) v = elim (Bool-cases (str_eq n.type (str "node"))) [
  | inl vertex ↦ rw vertex (
      ground (
        arith,
        in_list-see_all x (see n.basename s) ns (see-IsSeen n.basename s v),
        in_list-see n.basename x s v,
      ))
  | inr other ↦ rw other (ground (arith, in_list-see_all x s ns v))
]

count_of-see_all :
    (x : Str) (s : Seen) (ns : List AllocationNode)
    → count_of (lookup x (see_all s ns).cores) ≡ count_of (lookup x s.cores) + count_vertices x ns
unfolding see_all count_vertices
count_of-see_all x s [] = omega arith
count_of-see_all x s (n ∷ ns) = elim (Bool-cases (str_eq n.type (str "node"))) [
  | inl vertex ↦
      rw vertex
        (ground (arith, count_of-see_all x (see n.basename s) ns, count_of-see n.basename x s))
  | inr other ↦ rw other (ground (arith, count_of-see_all x s ns))
]

abbrev none_seen : Seen
none_seen = record { cores = []; nodes = [] }

none_seen-IsSeen : IsSeen none_seen
unfolding in_list lookup
none_seen-IsSeen = record { counted = λ x. refl; distinct = tt }

-- The nodes of an allocation are the names of its vertices of the type "node", each listed once.
pub nodes_of_lem :
    (graph : List AllocationNode)
    → Distinct (nodes_of graph) × ((x : Str) → in_list x (nodes_of graph) ≡ has_vertex x graph)
unfolding nodes_of in_list
nodes_of_lem graph = (
  (see_all-IsSeen none_seen graph none_seen-IsSeen).distinct,
  λ x. in_list-see_all x none_seen graph none_seen-IsSeen,
)

-- The count that the loop keeps for a name is the number of the allocation's vertices of the type
-- "node" with that name.
pub see_all_counts :
    (x : Str) (graph : List AllocationNode)
    → count_of (lookup x (see_all none_seen graph).cores) ≡ count_vertices x graph
unfolding lookup
see_all_counts x graph = ground (arith, count_of-see_all x none_seen graph)
