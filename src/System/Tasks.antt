-- ===== src/System/Tasks.antt =====
-- The workers of jobs, cleanups and reservations keep to the law.
use fluxqueue.Base.{
  ◌≡◌, inl, inr, refl, Bool, true, false, List, [], ◌∷◌, arith, if◌then◌else◌, Bool-cases,
}
use fluxqueue.Base.Int.{ℤ, pos}
use fluxqueue.Base.Str.{Str, str_eq, join, in_list}
use fluxqueue.Base.Assoc.{lookup}
use fluxqueue.Queue.{river_config}
use fluxqueue.Types.{
  kind, JobArgs, CleanupArgs, Args, ungate_args, ReservationModel, MatchResponse, AllocationNode,
}
use fluxqueue.Service.{Services, Error, replied, Reply-cases, ◌>>=◌, pure, fail, ignore}
use fluxqueue.Service.Calls.{Call}
use fluxqueue.Service.Patches.{Patch}
use fluxqueue.Workers.Nodes.{nodes_of, parse_nodes}
use fluxqueue.Workers.Gate.{gate_index, remove_gate}
use fluxqueue.Workers.Release.{
  allocation_labels, rejected_labels, separator, ungate_opts, patch_job, unsuspend_job,
  patch_unsuspend, reject_job, reject_pod, ungate_pod, release_job, mark_unschedulable, reserve_job,
}
use fluxqueue.Workers.Job.{match_request, is_impossible, reserve_if, handle_response}
use fluxqueue.Workers.Job as Job
use fluxqueue.Workers.Cleanup as Cleanup
use fluxqueue.Workers.Reservation.{clear_item, clear_loop, delete_reservation}
use fluxqueue.Workers.Reservation as Reservation
use fluxqueue.System.Past.{Allocated, Marked, Labelled, Allocated-cons}
use fluxqueue.System.Lawful.{
  IsServed, easy_config, Extends-keeps, Keeps, Keeps-refl, Keeps-trans, Keeps-cons, bind-Keeps,
  call-Keeps, ignore-Keeps,
}

module _ (S : Services) where
  pub Allocated-Keeps :
      (nodes : List Str) (id : ℤ) {t u : List Call}
      → Keeps S t u
      → Allocated S nodes id t
      → Allocated S nodes id u
  Allocated-Keeps nodes id k =
      Extends-keeps (Allocated S nodes id) (Allocated-cons S nodes id) k.extends

  pub ends-Keeps :
      (b : Bool) (e : Error) (t : List Call)
      → Keeps S t ((if b then fail {A = Unit {0}} e else pure tt) t).1
  ends-Keeps true e t = Keeps-refl S t
  ends-Keeps false e t = Keeps-refl S t

  pub cleanup-Keeps : (a : CleanupArgs) (t : List Call) → Keeps S t (Cleanup.work S a t).1
  unfolding Cleanup.work Cleanup.cleanup Cleanup.delete_fluxion
  cleanup-Keeps a t =
      let connect : Keeps S t (Call.new_fluxion ∷ t) = Keeps-cons S Call.new_fluxion t (λ _. tt) in
      let cancel : Keeps S t (Call.cancel a.flux_id ∷ Call.new_fluxion ∷ t) =
        Keeps-trans S connect
          (Keeps-cons S (Call.cancel a.flux_id) (Call.new_fluxion ∷ t) (λ _. tt)) in
      ground (arith, connect, cancel, Keeps-refl S t)

  clear_loop-Keeps :
      (items : List ReservationModel) (t : List Call) → Keeps S t (clear_loop S items t).1
  unfolding clear_loop
  clear_loop-Keeps [] t = Keeps-refl S t
  clear_loop-Keeps (item ∷ items) t =
      let u : List Call = Call.cancel item.job_id ∷ t in
      let asked : Keeps S t u = Keeps-cons S (Call.cancel item.job_id) t (λ _. tt) in
      elim (Reply-cases (S.cancel t item.job_id)) [
        | inr (_, kept) ↦ rw kept (Keeps-trans S asked (clear_loop-Keeps items u))
        | inl (_, cancelled) ↦
            let v : List Call = Call.delete_reservation item.job_id ∷ u in
            let deleted : Keeps S t v =
              Keeps-trans S asked (
                Keeps-cons S (Call.delete_reservation item.job_id) u (λ _. (refl, rw cancelled))) in
            elim (Reply-cases (S.delete_reservation u item.job_id)) [
              | inr (_, failed) ↦ rw (cancelled, failed) deleted
              | inl (_, done) ↦
                  rw (cancelled, done) (Keeps-trans S deleted (clear_loop-Keeps items v))
            ]
      ]

  pub reservation-Keeps : (t : List Call) → Keeps S t (Reservation.work S t).1
  unfolding Reservation.work
  reservation-Keeps t =
      call-Keeps S S.new_pool Call.new_pool _ t (λ _. tt)
        λ _ _.
          call-Keeps S S.query_reservations Call.query_reservations _ _ (λ _. tt)
            λ _ _.
              call-Keeps S S.new_fluxion Call.new_fluxion _ _ (λ _. tt)
                λ _ _.
                  call-Keeps S S.collect_reservations Call.collect_reservations _ _ (λ _. tt)
                    λ rows _. clear_loop-Keeps rows _

  pub remove_gate-Keeps :
      (namespace name : Str) (t : List Call)
      → Marked S name t
      → Keeps S t (remove_gate S namespace name t).1
  unfolding remove_gate
  remove_gate-Keeps namespace name t marked =
      call-Keeps S (λ u. S.get_pod u namespace name) (Call.get_pod namespace name) _ t (λ _. tt)
        λ pod _.
          Keeps-cons S
            (Call.patch_pod namespace name (Patch.remove_gate (gate_index pod.scheduling_gates)))
            (Call.get_pod namespace name ∷ t) (λ _. marked)

  patch_job-Keeps :
      (namespace name : Str) (ls : List (Str × Str)) (t : List Call)
      → Labelled S ls t
      → Keeps S t (patch_job S namespace name (Patch.unsuspend_template ls) t).1
  unfolding patch_job
  patch_job-Keeps namespace name ls t h =
      Keeps-cons S (Call.patch_job namespace name (Patch.unsuspend_template ls)) t (λ _. h)

  reject_job-Keeps :
      (namespace name : Str) (t : List Call) → Keeps S t (reject_job S namespace name t).1
  unfolding reject_job patch_unsuspend patch_job
  reject_job-Keeps namespace name t =
      call-Keeps S S.new_clientset Call.new_clientset _ t (λ _. tt)
        λ _ _.
          call-Keeps S
            (λ u. S.patch_job u namespace name (Patch.unsuspend_template rejected_labels))
            (Call.patch_job namespace name (Patch.unsuspend_template rejected_labels)) _ _
            (λ _. inl refl)
            λ _ _. Keeps-cons S (Call.patch_job name namespace Patch.suspend_null) _ (λ _. tt)

  reject_pod-Keeps :
      (namespace name : Str) (t : List Call) → Keeps S t (reject_pod S namespace name t).1
  unfolding reject_pod
  reject_pod-Keeps namespace name t =
      call-Keeps S S.new_clientset Call.new_clientset _ t (λ _. tt)
        λ _ _.
          call-Keeps S (λ u. S.patch_pod u namespace name (Patch.labels rejected_labels))
            (Call.patch_pod namespace name (Patch.labels rejected_labels)) _ _ (λ _. inl refl)
            λ _ taken. remove_gate-Keeps namespace name _ (inl (taken, refl))

  mark_unschedulable-Keeps :
      (args : JobArgs) (t : List Call) → Keeps S t (mark_unschedulable S args t).1
  unfolding mark_unschedulable
  mark_unschedulable-Keeps args t = ground (
    arith,
    Keeps-refl S t,
    reject_job-Keeps args.namespace args.name t,
    reject_pod-Keeps args.namespace args.name t,
  )

  release_job-Keeps :
      (args : JobArgs) (id : ℤ) (nodes : List Str) (t : List Call)
      → Allocated S nodes id t
      → Keeps S t (release_job S args id nodes t).1
  unfolding release_job unsuspend_job patch_job ungate_pod
  release_job-Keeps args id nodes t given =
      let task : Args = ungate_args (record {
        name = args.name;
        type = args.type;
        namespace = args.namespace;
        nodes = nodes;
        job_id = id;
      }) in
      let text : Str = join separator nodes in
      let served : IsServed easy_config (record { args = task; insert_opts = ungate_opts }) = (
        (pos 1, unfold lookup str_eq river_config in refl),
        unfold kind in_list str_eq river_config in refl,
      ) in
      ground (
        arith,
        Keeps-refl S t,
        Keeps-cons S (Call.insert task ungate_opts) t (λ _. (given, served)),
        Keeps-cons S Call.new_clientset t (λ _. tt),
        Keeps-trans S (Keeps-cons S Call.new_clientset t (λ _. tt)) (
            Keeps-cons S
              (Call.patch_job args.namespace args.name
                (Patch.unsuspend_template (allocation_labels text id)))
              (Call.new_clientset ∷ t) (λ _. inr (nodes, id, text, given, refl, inl refl))),
      )

  reserve_if-Keeps :
      (b : Bool) (args : JobArgs) (id : ℤ) (t : List Call) → Keeps S t (reserve_if S b args id t).1
  unfolding reserve_if reserve_job
  reserve_if-Keeps true args id t = ignore-Keeps S (reserve_job S args id) t (
      call-Keeps S S.new_pool Call.new_pool _ t (λ _. tt)
        λ _ _. Keeps-cons S (Call.add_reservation args.name id) _ (λ _. tt))
  reserve_if-Keeps false args id t = Keeps-refl S t

  released-Keeps :
      (args : JobArgs) (response : MatchResponse) (t : List Call)
      → ((graph : List AllocationNode)
          → S.unmarshal response.allocation ≡ replied graph
          → Allocated S (nodes_of graph) response.job_id t)
      → Keeps S t
          ((parse_nodes S response.allocation >>= λ nodes. release_job S args response.job_id nodes)
            t).1
  unfolding parse_nodes
  released-Keeps args response t given = elim (Reply-cases (S.unmarshal response.allocation)) [
    | inl (graph, read) ↦
        rw read (release_job-Keeps args response.job_id (nodes_of graph) t (given graph read))
    | inr (_, unread) ↦ rw unread (Keeps-refl S t)
  ]

  handle_response-Keeps :
      (args : JobArgs) (response : MatchResponse) (t : List Call)
      → ((graph : List AllocationNode)
          → S.unmarshal response.allocation ≡ replied graph
          → Allocated S (nodes_of graph) response.job_id t)
      → Keeps S t (handle_response S args response t).1
  unfolding handle_response
  handle_response-Keeps args response t given = elim (Bool-cases (is_impossible args response)) [
    | inl impossible ↦ rw impossible (
        bind-Keeps S (ignore (mark_unschedulable S args)) _ t
          (ignore-Keeps S (mark_unschedulable S args) t (mark_unschedulable-Keeps args t))
          λ _ _. Keeps-refl S _)
    | inr possible ↦
        let k : Keeps S t (reserve_if S response.reserved args response.job_id t).1 =
          reserve_if-Keeps response.reserved args response.job_id t in
        rw possible (
          bind-Keeps S (reserve_if S response.reserved args response.job_id) _ t k λ _ _.
            elim (Bool-cases (str_eq response.allocation [])) [
              | inl empty ↦ rw empty (Keeps-refl S _)
              | inr filled ↦ rw filled (
                  released-Keeps args response _ λ graph read.
                    Allocated-Keeps (nodes_of graph) response.job_id k (given graph read))
            ])
  ]

  pub job-Keeps : (args : JobArgs) (t : List Call) → Keeps S t (Job.work S args t).1
  unfolding Job.work
  job-Keeps args t =
      call-Keeps S S.new_fluxion Call.new_fluxion _ t (λ _. tt)
        λ _ _.
          call-Keeps S (λ u. S.match u (match_request args)) (Call.match (match_request args)) _ _
            (λ _. tt)
            λ response answered.
              handle_response-Keeps args response _
                λ graph read. inl (response, graph, answered, read, refl, refl)
