-- ===== src/Server/Graph.antt =====
-- GetResources after InitFluxion.
use mathlib.Core.Path.{subst}
use fluxqueue.Base.{◌≡◌, ◌≢◌, ◌<◌, ◌+◌, ◌^◌, refl, inl, inr, none, List, [], ◌∷◌, arith}
use fluxqueue.Base.Str.{Str}
use fluxqueue.Types.{KubeNode}
use fluxqueue.Service.{Services, ok, Reply, replied, Reply-cases}
use fluxqueue.Service.Calls.{Call}
use fluxqueue.Jgf.{FluxJgf}
use fluxqueue.Cluster.{Requests, Building, create_in_cluster_jgf}
use fluxqueue.Cluster.Valid.{vertices}
use fluxqueue.Cluster.Init.{graph_file, init_fluxion, init_fluxion_lem}
use fluxqueue.Server.{get_resources}

abbrev pub LeavesFile : Str → Call → Type 0
LeavesFile path (Call.create_file p) = p ≢ path
LeavesFile path (Call.write_file p text) = p ≢ path
LeavesFile path _ = Unit

-- `u` is `t` after further calls, none of which is on the file.
pub data Untouched (path : Str) (t : List Call) : List Call → Type 0 where
  here : Untouched path t t
  further :
      {u : List Call} (c : Call) → LeavesFile path c → Untouched path t u → Untouched path t (c ∷ u)

Untouched-trans :
    {path : Str} {t u v : List Call} → Untouched path t u → Untouched path u v → Untouched path t v
Untouched-trans p here = p
Untouched-trans p (further c h q) = further c h (Untouched-trans p q)

module _ (S : Services) (encode : FluxJgf → Reply Str)
    (list_running : Str → Reply (List Requests)) where
  -- What is read from a file is what was written to it last.
  abbrev pub IsFileSystem : Type 0
  IsFileSystem =
      (path text read : Str) (t u : List Call)
      → Untouched path (Call.write_file path text ∷ t) u
      → S.read_file u path ≡ replied read
      → read ≡ text

  -- If InitFluxion has succeeded and the file of the graph is not written to since, GetResources fails, or it
  -- returns the JSON of the graph that is built from the nodes which the API server listed, which is what
  -- Fluxion was told; where the graph has fewer than 2^63 vertices.
  pub get_resources_lem :
      (policy : Str) (t u : List Call)
      → IsFileSystem
      → ((nodes : List KubeNode)
          → S.list_nodes (Call.new_clientset ∷ t) ≡ replied nodes
          → 1 + vertices list_running [] nodes < 2 ^ 63)
      → (init_fluxion S encode list_running policy t).0 ≡ ok tt
      → Untouched graph_file (init_fluxion S encode list_running policy t).1 u
      → (get_resources S u).0.1 ≡ none
      → (nodes : List KubeNode) × (built : Building) × (text : Str) × (v : List Call)
        × (S.list_nodes (Call.new_clientset ∷ t) ≡ replied nodes)
        × (create_in_cluster_jgf list_running [] nodes ≡ replied built)
        × (encode built.graph ≡ replied text)
        × ((init_fluxion S encode list_running policy t).1 ≡ Call.init policy text ∷ v)
        × ((get_resources S u).0.0 ≡ record { graph = text })
  unfolding get_resources
  get_resources_lem policy t u files fits done untouched answered =
      let (nodes, built, text, listed, building, encoded, valid, calls) =
        init_fluxion_lem S encode list_running policy t
          (λ t' path text' read e.
            files path text' read t' (Call.write_file path text' ∷ t') here e)
          fits done in
      elim (Reply-cases (S.read_file u graph_file)) [
        | inr (e, lost) ↦ absurd (ground (arith, answered, lost))
        | inl (read, there) ↦
            let since : Untouched graph_file
                (Call.write_file graph_file text
                  ∷ Call.create_file graph_file
                  ∷ Call.list_nodes
                  ∷ Call.new_clientset
                  ∷ t)
                u =
              Untouched-trans (further _ tt (further _ tt here))
                (subst (λ w. Untouched graph_file w u) calls untouched) in
            let kept : read ≡ text = files graph_file text read _ u since there in
            (nodes, built, text, _, listed, building, encoded, calls, rw (there, kept) refl)
      ]
