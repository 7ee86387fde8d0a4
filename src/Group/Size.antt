-- ===== src/Group/Size.antt =====
-- The size of a pod's group.
use fluxqueue.Base.{◌≡◌, some, arith, Option-cases, inl, inr}
use fluxqueue.Base.Int.{ℤ}
use fluxqueue.Base.Str.{Str, str, str_eq_refl}
use fluxqueue.Base.Decimal.{
  parse_int, IsInt32, parse_int-IsInt32, parse_int32-format_int, format_int,
}
use fluxqueue.Base.Assoc.{lookup-insert}
use fluxqueue.Group.{
  GroupPod, sized, read_label, pod_group_size_label, parse_size, default_size, get_pod_group_size,
}

parse_size-IsInt32 : (s : Str) (z : ℤ) → parse_size s ≡ sized z → IsInt32 z
unfolding parse_size
parse_size-IsInt32 s z e = elim (Option-cases (parse_int 32 s).error) [
  | inl fine ↦ ground (arith, e, fine, parse_int-IsInt32 s)
  | inr (_, bad) ↦ ground (arith, e, bad)
]

-- A size that is returned is one of an int32, so the conversion of the 64 bits that ParseInt returns
-- loses nothing.
pub size_bounds : (pod : GroupPod) (z : ℤ) → (get_pod_group_size pod).0 ≡ sized z → IsInt32 z
unfolding get_pod_group_size default_size
size_bounds pod z e = elim (Option-cases (read_label pod_group_size_label pod.labels)) [
  | inl missing ↦ elim (Option-cases pod.labels) [
    | inl none_there ↦ ground (arith, e, missing, none_there)
    | inr (m, there) ↦ ground (arith, e, missing, there, parse_size-IsInt32 (str "1") z)
  ]
  | inr (s, written) ↦ ground (arith, e, written, parse_size-IsInt32 s z)
]

-- The size that a label writes in decimal is the one that is returned, and the pod is left as it is.
pub size_written :
    (pod : GroupPod) (z : ℤ)
    → IsInt32 z
    → read_label pod_group_size_label pod.labels ≡ some (format_int z)
    → get_pod_group_size pod ≡ (sized z, pod)
unfolding get_pod_group_size parse_size
size_written pod z h e = ground (arith, e, parse_int32-format_int z h)

-- Asked again about the pod that it leaves, GetPodGroupSize returns the same and writes nothing more.
pub size_again :
    (pod : GroupPod) → get_pod_group_size (get_pod_group_size pod).1 ≡ get_pod_group_size pod
unfolding get_pod_group_size default_size
size_again pod = elim (Option-cases (read_label pod_group_size_label pod.labels)) [
  | inl missing ↦ elim (Option-cases pod.labels) [
    | inl none_there ↦ ground (arith, missing, none_there)
    | inr (m, there) ↦ ground (
      arith,
      missing,
      there,
      lookup-insert pod_group_size_label pod_group_size_label (str "1") m,
      str_eq_refl pod_group_size_label,
    )
  ]
  | inr (s, written) ↦ ground (arith, written)
]
