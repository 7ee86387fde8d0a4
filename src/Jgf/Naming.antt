-- ===== src/Jgf/Naming.antt =====
-- The names and the containment paths of the nodes.
use mathlib.Core.Path.{subst}
use fluxqueue.Base.Assoc.{lookup}
use fluxqueue.Base.{
  All-append, ap, ◌∙◌, sym, ◌≡◌, refl, List, [], ◌∷◌, ◌++◌, arith, some, if◌then◌else◌,
  append_assoc, All, append-nil,
}
use fluxqueue.Base.Int.{ℤ}
use fluxqueue.Base.Str.{Str, str, str_eq, join}
use fluxqueue.Base.Decimal.{format_int}
use fluxqueue.Jgf.Clean.{IsPlain, clean, rooted, clean-rooted, join-rooted}
use fluxqueue.Jgf.Counter.{get_counter, name_with_index}
use fluxqueue.Jgf.{
  Node, FluxJgf, make_new_node, counted, make_below, get_containment_path, get_node_path,
  new_flux_jgf, init_cluster, root_resource, containment_key, default_size,
}

rooted-append : (xs ys : List Str) → rooted (xs ++ ys) ≡ rooted xs ++ rooted ys
rooted-append [] ys = refl
rooted-append (x ∷ xs) ys =
    ap (λ (s : Str). b'/' ∷ s)
      (ap (λ (s : Str). x ++ s) (rooted-append xs ys)
        ∙ sym (append_assoc x (rooted xs) (rooted ys)))

joined_below :
    (x : Str) (xs : List Str) (y : Str)
    → b'/' ∷ (join (str "/") (x ∷ xs) ++ (b'/' ∷ y)) ≡ rooted (x ∷ (xs ++ (y ∷ [])))
joined_below x xs y =
    ap (λ (s : Str). s ++ (b'/' ∷ y)) (join-rooted x xs)
    ∙ rw (rooted-append (x ∷ xs) (y ∷ []), append-nil)

get_node_path-append :
    (root a b : Str)
    → get_node_path root (a ++ (b'/' ∷ b)) ≡ clean (b'/' ∷ (root ++ (b'/' ∷ (a ++ (b'/' ∷ b)))))
unfolding get_node_path
get_node_path-append root [] b = refl
get_node_path-append root (c ∷ a) b = refl

-- The path of a node below a path: the cluster's root, the elements of the path, and the node's
-- own name with its index, each behind a slash, where all of these are plain path elements.
pub make_below_path :
    (type name unit : Str) (size index : ℤ) (g : FluxJgf) (x : Str) (xs : List Str)
    → All IsPlain (g.resources.root_name ∷ x ∷ xs)
    → IsPlain (name ++ format_int index)
    → (make_below type g name (join (str "/") (x ∷ xs)) unit size index).0.metadata.paths
      ≡ (
        containment_key,
        rooted (g.resources.root_name ∷ x ∷ (xs ++ ((name ++ format_int index) ∷ []))),
      )
        ∷ []
unfolding make_below make_new_node counted get_counter name_with_index get_containment_path
make_below_path type name unit size index g x xs ps p =
    let root : Str = g.resources.root_name in
    let own : Str = name ++ format_int index in
    let plain : All IsPlain (root ∷ x ∷ (xs ++ (own ∷ []))) =
      (ps.0, (ps.1.0, All-append IsPlain xs (own ∷ []) ps.1.1 (p, tt))) in
    ap (λ (s : Str). (containment_key, s) ∷ [])
      (get_node_path-append root (join (str "/") (x ∷ xs)) own
        ∙ ap (λ (s : Str). clean (b'/' ∷ (root ++ s))) (joined_below x xs own)
        ∙ clean-rooted root (x ∷ (xs ++ (own ∷ []))) plain)

-- The cluster node of a new graph is named with the index that the counter gives to its name: 1
-- for the name "cluster", which a new graph has counted once, and 0 for any other. Its path ends
-- in the name with a 0 in either case.
pub init_cluster_naming :
    (name : Str) {n : Node} {h : FluxJgf}
    → init_cluster new_flux_jgf name ≡ some (n, h)
    → (n.metadata.name ≡ (if str_eq (str "cluster") name then name ++ str "1" else name ++ str "0"))
      × (n.metadata.paths ≡ (containment_key, get_node_path (name ++ str "0") []) ∷ [])
unfolding init_cluster new_flux_jgf root_resource make_new_node name_with_index format_int
    get_counter lookup get_containment_path
init_cluster_naming name {n} {h} e =
    let started : Node × FluxJgf =
      make_new_node (root_resource new_flux_jgf name).1 (root_resource new_flux_jgf name).0 [] []
        default_size in
    let returned : started ≡ (n, h) = ground arith in
    subst
      (λ p.
        (p.0.metadata.name
          ≡ (if str_eq (str "cluster") name then name ++ str "1" else name ++ str "0"))
        × (p.0.metadata.paths ≡ (containment_key, get_node_path (name ++ str "0") []) ∷ []))
      returned (ground arith, refl)
