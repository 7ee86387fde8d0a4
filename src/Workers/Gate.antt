-- ===== src/Workers/Gate.antt =====
-- `removeGate` of job.go, which takes this program's scheduling gate off a pod.
pub mod Index
use fluxqueue.Base.{ℕ, suc, Bool, true, false, ◌||◌, List, [], ◌∷◌, if◌then◌else◌}
use fluxqueue.Base.Str.{Str, str, str_eq}
use fluxqueue.Types.{Pod}
use fluxqueue.Service.{Services, M, ◌>>=◌, perform}
use fluxqueue.Service.Calls.{Call}
use fluxqueue.Service.Patches.{Patch}

abbrev pub scheduling_gate_name : Str
scheduling_gate_name = str "fluxqueue"

-- The loop that looks for the gate from position `i`, and leaves 0 where it finds none.
unfoldable pub find_gate : ℕ → List Str → ℕ
find_gate i [] = 0
find_gate i (g ∷ gs) =
    let rest = find_gate (suc i) gs in if str_eq g scheduling_gate_name then i else rest

unfoldable pub gate_index : List Str → ℕ
unfolding find_gate
gate_index gates = find_gate 0 gates

unfoldable pub remove_gate : Services → Str → Str → M (Unit {0})
remove_gate S namespace name = do
  pod ← perform (λ t. S.get_pod t namespace name) (Call.get_pod namespace name)
  let patch = Patch.remove_gate (gate_index pod.scheduling_gates)
  perform (λ t. S.patch_pod t namespace name patch) (Call.patch_pod namespace name patch)
