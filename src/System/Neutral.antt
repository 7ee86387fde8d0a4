-- ===== src/System/Neutral.antt =====
-- The workers make no call on the table of pending jobs, and hand no list of tasks to river.
use fluxqueue.Base.{
  ℕ, suc, Bool, ◌||◌, true, false, Option, none, some, List, [], ◌∷◌, ltb, leb, length, get_elem?,
  inl, inr, not,
}
use fluxqueue.Base.Int.{ℤ, negsuc, ltb_ℤ}
use fluxqueue.Base.Str.{Str, str_eq, join}
use fluxqueue.Types.{
  Args, ungate_args, JobWrapped, JobArgs, CleanupArgs, UngateArgs, ReservationModel, MatchResponse,
  Pod,
}
use fluxqueue.Service.{
  Services, Error, Reply, Result, ok, err, panic, M, ◌>>=◌, perform, result, ignore, Reply-cases,
}
use fluxqueue.Service.Calls.{Call}
use fluxqueue.Service.Patches.{Patch}
use fluxqueue.Service.Stays.{Stays, bind-Stays, call-Stays, if-Stays, attempt-Stays, ignore-Stays}
use fluxqueue.Workers.Nodes.{parse_nodes}
use fluxqueue.Workers.Gate.{gate_index, remove_gate}
use fluxqueue.Workers.Release.{
  allocation_labels, rejected_labels, separator, is_type, ungate_opts, patch_job, unsuspend_job,
  patch_unsuspend, reject_job, reject_pod, ungate_pod, release_job, mark_unschedulable, reserve_job,
}
use fluxqueue.Workers.Job.{match_request, is_impossible, reserve_if, handle_response}
use fluxqueue.Workers.Job as Job
use fluxqueue.Workers.Cleanup as Cleanup
use fluxqueue.Workers.Reservation.{clear_item, clear_loop, delete_reservation}
use fluxqueue.Workers.Reservation as Reservation
use fluxqueue.Workers.Ungate.{
  has_gate, selector, label_pod, assign, visit, ungate_loop, work_single, work_group,
}
use fluxqueue.Workers.Ungate as Ungate

-- A call that is not one of those that put jobs into the table, take them out, or hand them to river.
abbrev pub IsNeutral : Call → Type 0
IsNeutral (Call.insert_pending r) = ⊥
IsNeutral (Call.delete_pending name namespace) = ⊥
IsNeutral (Call.insert_many ps) = ⊥
IsNeutral (Call.insert (ungate_args a) opts) = Unit
IsNeutral (Call.insert _ opts) = ⊥
IsNeutral _ = Unit

module _ {ℓ} (P : List Call → Type ℓ)
    (grows : (c : Call) → IsNeutral c → (t : List Call) → P t → P (c ∷ t)) (S : Services) where
  then_call {κ μ} :
      {A : Type κ} {B : Type μ} (reply : List Call → Reply A) (c : Call) (f : A → M B)
      → IsNeutral c
      → ((a : A) → Stays P (f a))
      → Stays P (perform reply c >>= f)
  then_call reply c f p rest = call-Stays P reply c f (grows c p) rest

  retold-Stays : (r : Result (Unit {0})) (t : List Call) → P t → P (Cleanup.retold r t).1
  retold-Stays (ok u) t h = h
  retold-Stays (err e) t h = h
  retold-Stays panic t h = h

  pub cleanup-Stays : (a : CleanupArgs) → Stays P (Cleanup.work S a)
  unfolding Cleanup.work Cleanup.cleanup Cleanup.delete_fluxion
  cleanup-Stays a =
      if-Stays P (ltb_ℤ (negsuc 0) a.flux_id) _ _
        (then_call S.new_fluxion Call.new_fluxion _ tt (λ _ t h.
          retold-Stays (result (S.cancel t a.flux_id)) _ (grows (Call.cancel a.flux_id) tt t h)))
        (λ t h. h)

  clear_item-Stays : (item : ReservationModel) (e : Option Error) → Stays P (clear_item S item e)
  unfolding clear_item delete_reservation
  clear_item-Stays item none = grows (Call.delete_reservation item.job_id) tt
  clear_item-Stays item (some e) = λ t h. h

  clear_loop-Stays : (items : List ReservationModel) → Stays P (clear_loop S items)
  unfolding clear_loop
  clear_loop-Stays [] = λ t h. h
  clear_loop-Stays (item ∷ items) =
      attempt-Stays P (perform (λ t. S.cancel t item.job_id) (Call.cancel item.job_id)) _
        (grows (Call.cancel item.job_id) tt)
        (λ e.
          bind-Stays P (clear_item S item e) _ (clear_item-Stays item e)
            (λ _. clear_loop-Stays items))

  pub reservation-Stays : Stays P (Reservation.work S)
  unfolding Reservation.work
  reservation-Stays = then_call S.new_pool Call.new_pool _ tt (λ _.
      then_call S.query_reservations Call.query_reservations _ tt (λ _.
        then_call S.new_fluxion Call.new_fluxion _ tt (λ _.
          then_call S.collect_reservations Call.collect_reservations _ tt
            (λ rows. clear_loop-Stays rows))))

  remove_gate-Stays : (namespace name : Str) → Stays P (remove_gate S namespace name)
  unfolding remove_gate
  remove_gate-Stays namespace name =
      then_call (λ u. S.get_pod u namespace name) (Call.get_pod namespace name) _ tt
        (λ pod.
          grows
            (Call.patch_pod namespace name (Patch.remove_gate (gate_index pod.scheduling_gates)))
            tt)

  mark_unschedulable-Stays : (args : JobArgs) → Stays P (mark_unschedulable S args)
  unfolding mark_unschedulable reject_job patch_unsuspend patch_job reject_pod
  mark_unschedulable-Stays args =
      if-Stays P (is_type JobWrapped.job args.type) _ _
        (then_call S.new_clientset Call.new_clientset _ tt (λ _.
          then_call
            (λ u. S.patch_job u args.namespace args.name (Patch.unsuspend_template rejected_labels))
            (Call.patch_job args.namespace args.name (Patch.unsuspend_template rejected_labels)) _
            tt (λ _. grows (Call.patch_job args.name args.namespace Patch.suspend_null) tt)))
        (if-Stays P (is_type JobWrapped.pod args.type) _ _
          (then_call S.new_clientset Call.new_clientset _ tt (λ _.
            then_call (λ u. S.patch_pod u args.namespace args.name (Patch.labels rejected_labels))
              (Call.patch_pod args.namespace args.name (Patch.labels rejected_labels)) _ tt
              (λ _. remove_gate-Stays args.namespace args.name)))
          (λ t h. h))

  release_job-Stays :
      (args : JobArgs) (id : ℤ) (nodes : List Str) → Stays P (release_job S args id nodes)
  unfolding release_job unsuspend_job patch_job ungate_pod
  release_job-Stays args id nodes =
      let task : Args = ungate_args (record {
        name = args.name;
        type = args.type;
        namespace = args.namespace;
        nodes = nodes;
        job_id = id;
      }) in
      if-Stays P (is_type JobWrapped.job args.type) _ _
        (then_call S.new_clientset Call.new_clientset _ tt (λ _.
          grows
            (Call.patch_job args.namespace args.name
              (Patch.unsuspend_template (allocation_labels (join separator nodes) id)))
            tt))
        (if-Stays P
          (is_type JobWrapped.deployment args.type
            || (is_type JobWrapped.pod args.type
                || (is_type JobWrapped.replica_set args.type
                    || is_type JobWrapped.stateful_set args.type)))
          _ _
          (ignore-Stays P
            (perform (λ t. S.insert t task ungate_opts) (Call.insert task ungate_opts))
            (grows (Call.insert task ungate_opts) tt))
          (λ t h. h))

  reserve_if-Stays : (b : Bool) (args : JobArgs) (id : ℤ) → Stays P (reserve_if S b args id)
  unfolding reserve_if reserve_job
  reserve_if-Stays true args id =
      ignore-Stays P (reserve_job S args id) (
        then_call S.new_pool Call.new_pool _ tt (λ _. grows (Call.add_reservation args.name id) tt))
  reserve_if-Stays false args id = λ t h. h

  parse_nodes-Stays : (allocation : Str) → Stays P (parse_nodes S allocation)
  unfolding parse_nodes
  parse_nodes-Stays allocation t h = elim (Reply-cases (S.unmarshal allocation)) [
    | inl (_, read) ↦ rw read h
    | inr (_, unread) ↦ rw unread h
  ]

  handle_response-Stays :
      (args : JobArgs) (response : MatchResponse) → Stays P (handle_response S args response)
  unfolding handle_response
  handle_response-Stays args response =
      if-Stays P (is_impossible args response) _ _
        (bind-Stays P (ignore (mark_unschedulable S args)) _
          (ignore-Stays P (mark_unschedulable S args) (mark_unschedulable-Stays args)) (λ _ t h. h))
        (bind-Stays P (reserve_if S response.reserved args response.job_id) _
          (reserve_if-Stays response.reserved args response.job_id)
          (λ _.
            if-Stays P (str_eq response.allocation []) _ _ (λ t h. h)
              (bind-Stays P (parse_nodes S response.allocation) _
                (parse_nodes-Stays response.allocation)
                (λ nodes. release_job-Stays args response.job_id nodes))))

  pub job-Stays : (args : JobArgs) → Stays P (Job.work S args)
  unfolding Job.work
  job-Stays args = then_call S.new_fluxion Call.new_fluxion _ tt (λ _.
      then_call (λ u. S.match u (match_request args)) (Call.match (match_request args)) _ tt
        (λ response. handle_response-Stays args response))

  module _ (args : UngateArgs) where
    label_pod-Stays : (namespace name text : Str) → Stays P (label_pod S args namespace name text)
    unfolding label_pod
    label_pod-Stays namespace name text =
        grows (Call.patch_pod namespace name (Patch.labels (allocation_labels text args.job_id))) tt

    assign-Stays : (pod : Pod) (node : Option Str) → Stays P (assign S args pod node)
    unfolding assign
    assign-Stays pod none = λ t h. h
    assign-Stays pod (some node) =
        bind-Stays P (label_pod S args args.namespace pod.name node) _
          (label_pod-Stays args.namespace pod.name node)
          (λ _. remove_gate-Stays pod.namespace pod.name)

    visit-Stays : (i : ℕ) (pod : Pod) → Stays P (visit S args i pod)
    unfolding visit
    visit-Stays i pod =
        if-Stays P (not (has_gate pod.scheduling_gates)) _ _ (λ t h. h)
          (assign-Stays pod (get_elem? args.nodes i))

    ungate_loop-Stays : (total i : ℕ) (pods : List Pod) → Stays P (ungate_loop S args total i pods)
    unfolding ungate_loop
    ungate_loop-Stays total i [] = λ t h. h
    ungate_loop-Stays total i (pod ∷ pods) =
        if-Stays P (leb total i) _ _ (λ t h. h)
          (bind-Stays P (visit S args i pod) _ (visit-Stays i pod)
            (λ _. ungate_loop-Stays total (suc i) pods))

    pub ungate-Stays : Stays P (Ungate.work S args)
    unfolding Ungate.work work_single work_group
    ungate-Stays = then_call S.new_clientset Call.new_clientset _ tt (λ _.
        if-Stays P (is_type JobWrapped.pod args.type) _ _
          (bind-Stays P (label_pod S args args.namespace args.name (join separator args.nodes)) _
            (label_pod-Stays args.namespace args.name (join separator args.nodes))
            (λ _. remove_gate-Stays args.namespace args.name))
          (then_call (λ u. S.list_pods u args.namespace (selector args))
            (Call.list_pods args.namespace (selector args)) _ tt
            (λ pods.
              bind-Stays P (ungate_loop S args (length pods) 0 pods) _
                (ungate_loop-Stays (length pods) 0 pods)
                (λ _.
                  if-Stays P (ltb (length pods) (length args.nodes)) _ _ (λ t h. h) (λ t h. h)))))
