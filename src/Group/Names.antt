-- ===== src/Group/Names.antt =====
-- The names of pod groups.
use fluxqueue.Base.{
  ◌≡◌, ◌≢◌, refl, sym, ap, ◌∙◌, ◌+◌, length, length-append, append_assoc, [], ◌∷◌, ◌++◌, arith, ℕ,
}
use fluxqueue.Base.Str.{Str, str, Lacks, str_eq}
use fluxqueue.Group.{GroupPod, get_pod_group_label, get_pod_group_name, get_pod_group_full_name}

-- Where the first `c` stands is where two texts without a `c` end.
cut :
    (c : ℕ) (a b x y : Str)
    → Lacks c a
    → Lacks c b
    → a ++ (c ∷ x) ≡ b ++ (c ∷ y)
    → (a ≡ b) × (x ≡ y)
cut c [] [] x y h k e = ground (arith, e)
cut c [] (d ∷ b) x y h k e = ground (arith, e, k)
cut c (d ∷ a) [] x y h k e = ground (arith, e, h)
cut c (d ∷ a) (d' ∷ b) x y h k e = ground (arith, e, h, k, cut c a b x y h.1 k.1)

append_cancel : (a x y : Str) → a ++ x ≡ a ++ y → x ≡ y
append_cancel [] x y e = e
append_cancel (c ∷ a) x y e = append_cancel a x y cc

default_name :
    (p : GroupPod)
    → get_pod_group_label p ≡ []
    → get_pod_group_name p ≡ str "fluxnetes-group-" ++ (p.namespace ++ (str "-" ++ p.name))
unfolding get_pod_group_name str_eq
default_name p h = rw h refl

-- Two pods with the same full name, in namespaces without a slash, are in one namespace and in groups
-- of one name; and if neither names a group, they have one name.
pub full_name_unique :
    (p q : GroupPod)
    → Lacks b'/' p.namespace
    → Lacks b'/' q.namespace
    → get_pod_group_full_name p ≡ get_pod_group_full_name q
    → (p.namespace ≡ q.namespace)
      × (get_pod_group_name p ≡ get_pod_group_name q)
      × (get_pod_group_label p ≡ [] → get_pod_group_label q ≡ [] → p.name ≡ q.name)
unfolding get_pod_group_full_name
full_name_unique p q hp hq e =
    let (spaces, groups) =
      cut b'/' p.namespace q.namespace (get_pod_group_name p) (get_pod_group_name q) hp hq e in
    (
      spaces,
      groups,
      λ np nq.
          let same : str "fluxnetes-group-" ++ (p.namespace ++ (str "-" ++ p.name))
              ≡ str "fluxnetes-group-" ++ (p.namespace ++ (str "-" ++ q.name)) =
            sym (default_name p np) ∙ groups ∙ default_name q nq ∙ rw spaces refl in
          append_cancel (str "-") p.name q.name
            (append_cancel p.namespace _ _ (append_cancel (str "fluxnetes-group-") _ _ same)),
    )

-- Pods of different namespaces that name no group can be in groups of one name.
pub group_name_collides :
    (p q : GroupPod) (s : Str)
    → get_pod_group_label p ≡ []
    → get_pod_group_label q ≡ []
    → p.namespace ≡ q.namespace ++ (str "-" ++ s)
    → q.name ≡ s ++ (str "-" ++ p.name)
    → (p.namespace ≢ q.namespace) × (get_pod_group_name p ≡ get_pod_group_name q)
group_name_collides p q s np nq e n = (
  λ same.
      let longer : length q.namespace ≡ length q.namespace + length (str "-" ++ s) =
        ap length (sym same ∙ e) ∙ length-append q.namespace (str "-" ++ s) in
      omega (arith, longer),
  default_name p np
      ∙ rw (e, n, append_assoc q.namespace (str "-" ++ s) (str "-" ++ p.name)) refl
      ∙ sym (default_name q nq),
)
