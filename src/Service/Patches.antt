-- ===== src/Service/Patches.antt =====
-- The patches that pkg/fluxqueue sends to the Kubernetes API, and the texts that the code writes.
use fluxqueue.Base.{ℕ, List, [], ◌∷◌, ◌++◌}
use fluxqueue.Base.Int.{pos}
use fluxqueue.Base.Str.{Str, str}
use fluxqueue.Base.Decimal.{format_int}

abbrev pub flux_job_id_label : Str
flux_job_id_label = str "fluxqueue/jobid"

abbrev pub nodes_label : Str
nodes_label = str "fluxqueue/fluxion-nodes"

abbrev pub unschedulable_label : Str
unschedulable_label = str "fluxqueue/unschedulable"

pub data Patch : Type 0 where
  -- a pod's labels
  labels : List (Str × Str) → Patch
  -- the labels of a template, and of a job also `suspend: false`
  unsuspend_template : List (Str × Str) → Patch
  template : List (Str × Str) → Patch
  -- JSON patches
  suspend_null : Patch
  remove_gate : ℕ → Patch
  -- a pod's deadline, in group.go
  deadline : Patch

quoted : Str → Str
quoted s = str "\"" ++ (s ++ str "\"")

entries : List (Str × Str) → Str
entries [] = []
entries ((k, v) ∷ []) = quoted k ++ (str ": " ++ quoted v)
entries ((k, v) ∷ l ∷ ls) = quoted k ++ (str ": " ++ (quoted v ++ (str ", " ++ entries (l ∷ ls))))

metadata : List (Str × Str) → Str
metadata ls = str "{\"metadata\": {\"labels\": {" ++ (entries ls ++ str "}}}")

-- The text of a patch.
unfoldable pub render : Patch → Str
unfolding quoted entries metadata
render (labels ls) = metadata ls
render (unsuspend_template ls) =
    str "{\"spec\": {\"suspend\": false, \"template\": " ++ (metadata ls ++ str "}}")
render (template ls) = str "{\"spec\": {\"template\": " ++ (metadata ls ++ str "}}")
render suspend_null = str "[{\"op\": \"replace\", \"path\": \"/spec/suspend\", \"value\": null}]"
render (remove_gate i) =
    str "[{\"op\": \"remove\", \"path\": \"/spec/schedulingGates/"
    ++ (format_int (pos i) ++ str "\"}]")
render deadline = str "{\"spec\": {\"activeDeadlineSeconds\": 3600}"
