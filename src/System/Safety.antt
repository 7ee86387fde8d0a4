-- ===== src/System/Safety.antt =====
-- What holds in every reachable state over a database that this program alone writes, whatever else
-- the services reply and in whatever order requests, events and tasks are handled.
use mathlib.Core.Path.{subst}
use fluxqueue.Base.{
  ◌≡◌, ◌≢◌, ◌⊎◌, ◌∙◌, inl, inr, refl, sym, ap, ℕ, true, none, some, List, [], ◌∷◌, arith, All,
  Bool-cases,
}
use fluxqueue.Base.Int.{ℤ}
use fluxqueue.Base.Str.{
  Str, str_eq, str_eq_iff, in_list, join, split, Lacks, split_plain, split-join,
}
use fluxqueue.Base.Decimal.{format_int, format_int-injective}
use fluxqueue.Base.Assoc.{lookup}
use fluxqueue.Types.{FluxJob, JobArgs, AllocationNode, Pod, job_args, status_submit}
use fluxqueue.Service.{Services, replied}
use fluxqueue.Service.Calls.{Call}
use fluxqueue.Service.Patches.{Patch, nodes_label}
use fluxqueue.Queue.Pending.{IsDatabase}
use fluxqueue.Webhook.{MakeJobspec}
use fluxqueue.Webhook.Handle.{Codec}
use fluxqueue.Workers.Nodes.{nodes_of}
use fluxqueue.Workers.Release.{allocation_labels, rejected_labels, separator}
use fluxqueue.Plugin.{pre_filter, assigned}
use fluxqueue.Plugin.Assign.{pre_filter_assigned}
use fluxqueue.System.{Submitted, Reach}
use fluxqueue.System.Past.{Allocated, Allocated-cons, Found, Marked, Labelled}
use fluxqueue.System.Lawful.{AreLawful, Extends, Extends-keeps}
use fluxqueue.System.Rows.{Found-cons}
use fluxqueue.System.Invariant.{Called, Called-Lawful, before-AreLawful, Reach-AreLawful}

module _ (S : Services) where
  Marked-cons : (name : Str) (c : Call) (t : List Call) → Marked S name t → Marked S name (c ∷ t)
  Marked-cons name (Call.patch_pod namespace n (Patch.labels ls)) t h = inr h
  Marked-cons name _ t h = h

  Labelled-cons :
      (ls : List (Str × Str)) (c : Call) (t : List Call) → Labelled S ls t → Labelled S ls (c ∷ t)
  Labelled-cons ls c t (inl e) = inl e
  Labelled-cons ls c t (inr (nodes, id, text, h, e, which)) =
      inr (nodes, id, text, Allocated-cons S nodes id c t h, e, which)

  -- The API server took these labels for a pod.
  abbrev pub Patched : Str → Str → List (Str × Str) → List Call → Type 0
  Patched ns name ls [] = ⊥
  Patched ns name ls (c ∷ t) =
      ((c ≡ Call.patch_pod ns name (Patch.labels ls))
        × (S.patch_pod t ns name (Patch.labels ls) ≡ replied tt))
      ⊎ Patched ns name ls t

  Patched-Called :
      (ns name : Str) (ls : List (Str × Str)) (t : List Call)
      → Patched ns name ls t
      → Called (Call.patch_pod ns name (Patch.labels ls)) t
  Patched-Called ns name ls [] h = elim h [ ]
  Patched-Called ns name ls (c ∷ t) (inl (e, taken)) = inl e
  Patched-Called ns name ls (c ∷ t) (inr h) = inr (Patched-Called ns name ls t h)

  Marked-Patched :
      (name : Str) (t : List Call)
      → Marked S name t
      → (ns : Str) × (ls : List (Str × Str)) × Patched ns name ls t
  Marked-Patched name [] h = elim h [ ]
  Marked-Patched name (Call.patch_pod ns n (Patch.labels ls) ∷ t) (inl (taken, e)) = (
    ns,
    ls,
    inl (
      ap (λ m. Call.patch_pod ns m (Patch.labels ls)) e,
      subst (λ m. S.patch_pod t ns m (Patch.labels ls) ≡ replied tt) e taken,
    ),
  )
  Marked-Patched name (Call.patch_pod ns n (Patch.labels ls) ∷ t) (inr h) =
      let (ns', ls', k) = Marked-Patched name t h in (ns', ls', inr k)
  Marked-Patched name (c ∷ t) h = let (ns, ls, k) = Marked-Patched name t h in (ns, ls, inr k)

  -- The names of nodes that Fluxion gives have no underscore.
  abbrev pub PlainNames : Type 0
  PlainNames =
      (allocation : Str) (graph : List AllocationNode)
      → S.unmarshal allocation ≡ replied graph
      → All (Lacks b'_') (nodes_of graph)

  Allocated-plain :
      (nodes : List Str) (id : ℤ) (t : List Call)
      → PlainNames
      → Allocated S nodes id t
      → All (Lacks b'_') nodes
  Allocated-plain nodes id [] plain h = elim h [ ]
  Allocated-plain nodes id (Call.match r ∷ t) plain (inl (response, graph, _, read, _, e)) =
      subst (All (Lacks b'_')) e (plain response.allocation graph read)
  Allocated-plain nodes id (Call.match r ∷ t) plain (inr h) = Allocated-plain nodes id t plain h
  Allocated-plain nodes id (_ ∷ t) plain h = Allocated-plain nodes id t plain h

in_list-Lacks : (x : Str) (xs : List Str) → All (Lacks b'_') xs → in_list x xs ≡ true → Lacks b'_' x
unfolding in_list
in_list-Lacks x [] h m = cc
in_list-Lacks x (y ∷ ys) (h, hs) m = elim (Bool-cases (str_eq y x)) [
  | inl found ↦ subst (Lacks b'_') ((str_eq_iff y x).0 found) h
  | inr other ↦ in_list-Lacks x ys hs (ground (arith, m, other))
]

-- A node of the text that a label holds is a node of the allocation.
listed :
    (nodes : List Str) (text node : Str)
    → All (Lacks b'_') nodes
    → (text ≡ join separator nodes) ⊎ (in_list text nodes ≡ true)
    → in_list node (split b'_' b'_' text) ≡ true
    → (in_list node nodes ≡ true) ⊎ (nodes ≡ [])
listed [] text node plain which m = inr refl
listed (x ∷ xs) text node plain (inl e) m =
    inl (rw (← split-join b'_' b'_' x xs plain.0 plain.1, ← e) m)
listed (x ∷ xs) text node plain (inr h) m =
    let single : split b'_' b'_' text ≡ text ∷ [] =
      split_plain b'_' b'_' text (in_list-Lacks text (x ∷ xs) plain h) in
    let is_text : text ≡ node =
      unfold in_list in (ground (arith, m, single, str_eq_iff text node)) in
    inl (rw (← is_text) h)

allocated-ne-rejected : (text : Str) (id : ℤ) → allocation_labels text id ≢ rejected_labels
unfolding allocation_labels
allocated-ne-rejected text id e = ground (arith, e)

nodes-rejected : lookup nodes_label rejected_labels ≡ none
unfolding lookup str_eq
nodes-rejected = refl

nodes-allocated : (text : Str) (id : ℤ) → lookup nodes_label (allocation_labels text id) ≡ some text
unfolding lookup str_eq allocation_labels
nodes-allocated text id = refl

allocation_labels-injective :
    (text text' : Str) (id id' : ℤ)
    → allocation_labels text id ≡ allocation_labels text' id'
    → (text ≡ text') × (id ≡ id')
unfolding allocation_labels
allocation_labels-injective text text' id id' e =
    let texts : text ≡ text' = cc in
    let prints : format_int id ≡ format_int id' = cc in (texts, format_int-injective id id' prints)

module _ (S : Services) (make_jobspec : MakeJobspec) (codec : Codec)
    (database : IsDatabase S []) where
  -- The labels that a pod was given, or the template of a job.
  abbrev pub Given : List (Str × Str) → List Call → Type 0
  Given ls t =
      ((namespace : Str) × (name : Str) × Called (Call.patch_pod namespace name (Patch.labels ls))
          t)
      ⊎ ((namespace : Str) × (name : Str) × Called
            (Call.patch_job namespace name (Patch.unsuspend_template ls)) t)

  Given-Labelled :
      (t : List Call) (ls : List (Str × Str)) → AreLawful S t → Given ls t → Labelled S ls t
  Given-Labelled t ls r (inl (namespace, name, c)) =
      let (u, h, e) = Called-Lawful S (Call.patch_pod namespace name (Patch.labels ls)) t r c in
      Extends-keeps (Labelled S ls) (Labelled-cons S ls) e h
  Given-Labelled t ls r (inr (namespace, name, c)) =
      let (u, h, e) =
        Called-Lawful S (Call.patch_job namespace name (Patch.unsuspend_template ls)) t r c in
      Extends-keeps (Labelled S ls) (Labelled-cons S ls) e h

  -- In every reachable state, if the table of pending jobs starts empty, refuses a second row of one
  -- name and namespace, and a read returns exactly the rows that this program put there, latest first, then a
  -- label of nodes and of a job number that a pod was given comes from an allocation that Fluxion
  -- answered with under that number: it is one of its nodes, or all of them.
  pub pod_labels_lem :
      {t : List Call} (namespace name text : Str) (id : ℤ)
      → Reach S make_jobspec codec t
      → Called (Call.patch_pod namespace name (Patch.labels (allocation_labels text id))) t
      → (nodes : List Str) × Allocated S nodes id t
        × ((text ≡ join separator nodes) ⊎ (in_list text nodes ≡ true))
  pod_labels_lem {t} namespace name text id r c =
      elim (Given-Labelled t (allocation_labels text id)
        (Reach-AreLawful S make_jobspec codec database r) (inl (namespace, name, c))) [
          | inl rejected ↦ elim (allocated-ne-rejected text id rejected) [ ]
          | inr (nodes, id', text', h, e, which) ↦
              let (texts, ids) = allocation_labels-injective text text' id id' e in
              (nodes, subst (λ i. Allocated S nodes i t) (sym ids) h, rw texts which)
        ]

  -- In every reachable state, if the table of pending jobs starts empty, refuses a second row of one
  -- name and namespace, and a read returns exactly the rows that this program put there, latest first, then a
  -- scheduling gate was each time taken off a pod only after the API server had taken, for a pod of that name,
  -- the labels of a rejection or those of an allocation that Fluxion answered with.
  pub removed_gate_lem :
      {t u : List Call} (namespace name : Str) (i : ℕ)
      → Reach S make_jobspec codec t
      → Extends (Call.patch_pod namespace name (Patch.remove_gate i) ∷ u) t
      → (ns : Str) × (ls : List (Str × Str)) × Patched S ns name ls u × Labelled S ls u
  removed_gate_lem {t} {u} namespace name i r here =
      let (marked, lawful) =
        before-AreLawful S here (Reach-AreLawful S make_jobspec codec database r) in
      let (ns, ls, patched) = Marked-Patched S name u marked in
      (
        ns,
        ls,
        patched,
        Given-Labelled u ls lawful (inl (ns, name, Patched-Called S ns name ls u patched)),
      )

  -- In every reachable state, if the table of pending jobs starts empty, refuses a second row of one
  -- name and namespace, and a read returns exactly the rows that this program put there, latest first, then a job
  -- was each time asked to leave that table only after river had taken a job of its name and its namespace.
  pub deleted_pending_lem :
      {t u : List Call} (namespace name : Str)
      → Reach S make_jobspec codec t
      → Extends (Call.delete_pending name namespace ∷ u) t
      → (a : JobArgs) × (a.name ≡ name) × (a.namespace ≡ namespace) × Submitted S (job_args a) u
  deleted_pending_lem namespace name r here =
      (before-AreLawful S here (Reach-AreLawful S make_jobspec codec database r)).0

  -- In every reachable state, if the table of pending jobs starts empty, refuses a second row of one
  -- name and namespace, and a read returns exactly the rows that this program put there, latest first, then a
  -- FluxJob was deleted only if the API server had returned it as submitted.
  pub deleted_flux_job_lem :
      {t : List Call} (j : FluxJob)
      → Reach S make_jobspec codec t
      → Called (Call.delete_flux_job j) t
      → Found S j t × (j.submit_status ≡ status_submit)
  deleted_flux_job_lem {t} j r c =
      let (u, (found, submitted), e) =
        Called-Lawful S (Call.delete_flux_job j) t (Reach-AreLawful S make_jobspec codec database r)
          c in
      (Extends-keeps (Found S j) (Found-cons S j) e found, submitted)

  -- In every reachable state, if the table of pending jobs starts empty, refuses a second row of one
  -- name and namespace, and a read returns exactly the rows that this program put there, latest first, and if
  -- the names of nodes that Fluxion answers with have no underscore (a DNS name has none), then the
  -- scheduler plugin binds a pod whose nodes label is one that the workers gave only to a node of an
  -- allocation that Fluxion answered with, or the allocation had no node.
  pub pre_filter-Allocated :
      {t : List Call} (ls : List (Str × Str)) (pod : Pod) (node : Str)
      → Reach S make_jobspec codec t
      → PlainNames S
      → Given ls t
      → lookup nodes_label pod.labels ≡ lookup nodes_label ls
      → pre_filter pod ≡ assigned node
      → (nodes : List Str) × (id : ℤ) × Allocated S nodes id t
        × ((in_list node nodes ≡ true) ⊎ (nodes ≡ []))
  pre_filter-Allocated {t} ls pod node r plain given labels bound =
      let (_, (text, labelled, m)) = pre_filter_assigned pod node bound in
      elim (Given-Labelled t ls (Reach-AreLawful S make_jobspec codec database r) given) [
        | inl rejected ↦
            let missing : lookup nodes_label ls ≡ none = rw rejected nodes-rejected in
            let both : none ≡ some text = sym missing ∙ sym labels ∙ labelled in cc
        | inr (nodes, id, text', h, e, which) ↦
            let here : lookup nodes_label ls ≡ some text' = rw e (nodes-allocated text' id) in
            let both : some text' ≡ some text = sym here ∙ sym labels ∙ labelled in
            let texts : text' ≡ text = cc in
            (
              nodes,
              id,
              h,
              listed nodes text node (Allocated-plain S nodes id t plain h) (rw (← texts) which) m,
            )
      ]
