-- ===== src/Tests/Group.antt =====
-- Pods and their groups.
use fluxqueue.Base.{◌≡◌, refl, none, some, [], ◌∷◌}
use fluxqueue.Base.Int.{pos, negsuc}
use fluxqueue.Base.Str.{Str, str}
use fluxqueue.Base.Decimal.{format_int, parse_int}
use fluxqueue.Base.Assoc.{lookup}
use fluxqueue.Group.{
  GroupPod, sized, nil_map, get_pod_group_size, get_pod_group_duration, get_pod_creation_timestamp,
  pod_group_size_label, add_deadline,
}
use fluxqueue.Service.{ok}
use fluxqueue.Service.Calls.{Call}
use fluxqueue.Service.Patches.{Patch}
use fluxqueue.Tests.Database.{willing}

abbrev pod_of : Str → Str → GroupPod
pod_of namespace name = record {
  name = name;
  namespace = namespace;
  labels = some [];
  active_deadline_seconds = some (negsuc 0);
  creation_timestamp = none;
}

abbrev trio : GroupPod
trio = record (pod_of (str "default") (str "lammps-0")) {
  labels = some ((pod_group_size_label, format_int (pos 3)) ∷ []);
}

test_default : (get_pod_group_size (pod_of (str "a") (str "b"))).0 ≡ sized (pos 1)
unfolding get_pod_group_size parse_int lookup
test_default = refl

test_nil : (get_pod_group_size (record trio { labels = none })).0 ≡ nil_map
unfolding get_pod_group_size
test_nil = refl

test_deadline :
    (get_pod_group_duration trio ≡ pos 0)
    × (get_pod_creation_timestamp (pos 9) trio ≡ pos 9)
    × (add_deadline willing trio [] ≡ (
      ok tt,
      Call.patch_pod (str "default") (str "lammps-0") Patch.deadline ∷ Call.new_clientset ∷ [],
    ))
unfolding willing get_pod_group_duration get_pod_creation_timestamp add_deadline
test_deadline = (refl, refl, refl)
