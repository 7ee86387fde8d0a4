-- ===== src/System/Past.antt =====
-- What may be said of the calls made so far, and stays true as more are made.
use fluxqueue.Base.{◌≡◌, ◌⊎◌, inr, true, List, [], ◌∷◌, if◌then◌else◌}
use fluxqueue.Base.Int.{ℤ, pos}
use fluxqueue.Base.Str.{Str, in_list, join}
use fluxqueue.Types.{FluxJob, AllocationNode, MatchResponse, JobArgs, wrapped_string}
use fluxqueue.Service.{Services, replied}
use fluxqueue.Service.Calls.{Call}
use fluxqueue.Service.Patches.{Patch}
use fluxqueue.Workers.Nodes.{nodes_of}
use fluxqueue.Workers.Release.{allocation_labels, rejected_labels, separator}

-- The job of a FluxJob: its fields under the names that the job worker reads.
abbrev pub args_of : FluxJob → JobArgs
args_of spec = record {
  jobspec = spec.spec.job_spec;
  name = spec.spec.name;
  namespace = spec.namespace;
  flux_job_name = spec.name;
  type = wrapped_string spec.spec.type;
  reservation = if spec.spec.reservation then pos 1 else pos 0;
  duration = spec.spec.duration;
  size = spec.spec.nodes;
  nodes = [];
}

module _ (S : Services) where
  -- Fluxion answered with an allocation of these nodes under this number.
  abbrev pub Allocated : List Str → ℤ → List Call → Type 0
  Allocated nodes id [] = ⊥
  Allocated nodes id (Call.match r ∷ t) =
      ((response : MatchResponse) × (graph : List AllocationNode) × (S.match t r ≡ replied response)
        × (S.unmarshal response.allocation ≡ replied graph)
        × (response.job_id ≡ id)
        × (nodes_of graph ≡ nodes))
      ⊎ Allocated nodes id t
  Allocated nodes id (_ ∷ t) = Allocated nodes id t

  -- The API server returned this FluxJob.
  abbrev pub Found : FluxJob → List Call → Type 0
  Found spec [] = ⊥
  Found spec (Call.get_flux_job namespace name ∷ t) =
      (S.get_flux_job t namespace name ≡ replied spec) ⊎ Found spec t
  Found spec (_ ∷ t) = Found spec t

  -- A pod of this name has taken labels.
  abbrev pub Marked : Str → List Call → Type 0
  Marked name [] = ⊥
  Marked name (Call.patch_pod namespace n (Patch.labels ls) ∷ t) =
      ((S.patch_pod t namespace n (Patch.labels ls) ≡ replied tt) × (n ≡ name)) ⊎ Marked name t
  Marked name (_ ∷ t) = Marked name t

  -- The labels of an object that is rejected, or those of an allocation: all of its nodes, or one.
  abbrev pub Labelled : List (Str × Str) → List Call → Type 0
  Labelled ls t =
      (ls ≡ rejected_labels)
      ⊎ ((nodes : List Str) × (id : ℤ) × (text : Str) × Allocated nodes id t
          × (ls ≡ allocation_labels text id)
          × ((text ≡ join separator nodes) ⊎ (in_list text nodes ≡ true)))

  pub Allocated-cons :
      (nodes : List Str) (id : ℤ) (c : Call) (t : List Call)
      → Allocated nodes id t
      → Allocated nodes id (c ∷ t)
  Allocated-cons nodes id (Call.match r) t h = inr h
  Allocated-cons nodes id _ t h = h
