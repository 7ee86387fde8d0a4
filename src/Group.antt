-- ===== src/Group.antt =====
-- pkg/fluxqueue/group/group.go with pkg/fluxqueue/labels/labels.go: what a pod says of its group. No
-- other part of the program calls it. The time of the clock is a parameter.
pub mod Names
pub mod Size
use fluxqueue.Base.{Bool, true, false, Option, none, some, List, [], ◌∷◌, ◌++◌, if◌then◌else◌}
use fluxqueue.Base.Int.{ℤ, pos, ltb_ℤ}
use fluxqueue.Base.Str.{Str, str, str_eq}
use fluxqueue.Base.Decimal.{NumError, parse_int, Parsed}
use fluxqueue.Base.Assoc.{lookup, insert}
use fluxqueue.Service.{Services, M, ◌>>=◌, ◌>>◌, pure, perform}
use fluxqueue.Service.Calls.{Call}
use fluxqueue.Service.Patches.{Patch}

abbrev pub pod_group_label : Str
pod_group_label = str "fluxnetes.group-name"

abbrev pub pod_group_size_label : Str
pod_group_size_label = str "fluxnetes.group-size"

-- `labels` is `none` where the map is nil, and `creation_timestamp` where the time is zero.
pub record GroupPod : Type 0 where
  pub name : Str
  pub namespace : Str
  pub labels : Option (List (Str × Str))
  pub active_deadline_seconds : Option ℤ
  pub creation_timestamp : Option ℤ

-- Read from a map that may be nil.
abbrev pub read_label : Str → Option (List (Str × Str)) → Option Str
read_label k none = none
read_label k (some m) = lookup k m

-- The empty text where the label is absent.
abbrev text_of : Option Str → Str
text_of none = []
text_of (some s) = s

unfoldable pub get_pod_group_label : GroupPod → Str
get_pod_group_label pod = text_of (read_label pod_group_label pod.labels)

unfoldable pub get_pod_group_name : GroupPod → Str
unfolding get_pod_group_label
get_pod_group_name pod =
    let group_name = get_pod_group_label pod in
    if str_eq group_name []
    then str "fluxnetes-group-" ++ (pod.namespace ++ (str "-" ++ pod.name))
    else group_name

unfoldable pub get_pod_group_full_name : GroupPod → Str
unfolding get_pod_group_name
get_pod_group_full_name pod = pod.namespace ++ (str "/" ++ get_pod_group_name pod)

-- The size with a nil error, the error of ParseInt, or the panic of a write to a nil map.
pub data GroupSize : Type 0 where
  sized : ℤ → GroupSize
  invalid : NumError → GroupSize
  nil_map : GroupSize

unfoldable pub parse_size : Str → GroupSize
parse_size group_size =
    let p = parse_int 32 group_size in elim p.error [ none ↦ sized p.value | some e ↦ invalid e ]

-- The default is written to the pod's labels.
unfoldable pub default_size : GroupPod → GroupSize × GroupPod
unfolding parse_size
default_size pod = elim pod.labels [
  | none ↦ (nil_map, pod)
  | some m ↦
      (parse_size (str "1"), record pod { labels = some (insert pod_group_size_label (str "1") m) })
]

unfoldable pub get_pod_group_size : GroupPod → GroupSize × GroupPod
unfolding default_size parse_size
get_pod_group_size pod = elim (read_label pod_group_size_label pod.labels) [
  | none ↦ default_size pod
  | some group_size ↦ (parse_size group_size, pod)
]

abbrev pub is_positive : ℤ → Bool
is_positive d = ltb_ℤ (pos 0) d

-- A deadline that is set and not positive is replaced.
unfoldable pub add_deadline : Services → GroupPod → M (Unit {0})
add_deadline S pod = elim pod.active_deadline_seconds [
  | none ↦ pure tt
  | some d ↦
      if is_positive d
      then pure tt
      else (perform S.new_clientset Call.new_clientset
          >> perform (λ t. S.patch_pod t pod.namespace pod.name Patch.deadline)
              (Call.patch_pod pod.namespace pod.name Patch.deadline))
]

unfoldable pub get_pod_group_duration : GroupPod → ℤ
get_pod_group_duration pod = elim pod.active_deadline_seconds [
  | none ↦ pos 0
  | some d ↦ if is_positive d then d else pos 0
]

unfoldable pub get_pod_creation_timestamp : ℤ → GroupPod → ℤ
get_pod_creation_timestamp now pod = elim pod.creation_timestamp [ none ↦ now | some time ↦ time ]
