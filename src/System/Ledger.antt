-- ===== src/System/Ledger.antt =====
-- What it takes for a property of the calls, which is about one job, to stand while the program runs,
-- and that it then stands after Enqueue, the handler of deleted pods and a scheduling cycle.
use fluxqueue.Base.{
  ◌≡◌, ◌≢◌, refl, ℕ, Bool, List, [], ◌∷◌, ◌++◌, arith, inl, inr, Option-cases, if◌then◌else◌,
}
use fluxqueue.Base.Int.{ℤ}
use fluxqueue.Base.Str.{Str, str, contains}
use fluxqueue.Base.Decimal.{parse_int}
use fluxqueue.Base.Assoc.{lookup}
use fluxqueue.Types.{FluxJob, InsertManyParams, JobModel, Pod}
use fluxqueue.Service.{Services, Error, replied, refused, Reply-cases, is_ok, perform}
use fluxqueue.Service.Calls.{Call, PendingRow}
use fluxqueue.Service.Patches.{flux_job_id_label}
use fluxqueue.Service.Stays.{Stays, call-Stays, if-Stays, ignore-Stays}
use fluxqueue.Strategy.{easy_backfill, cleanup_params}
use fluxqueue.Strategy.Batch.{batch_loop-map}
use fluxqueue.Queue.{pending_row, enqueue, submit_batch, cycle, cleanup, clear_reservation_job}
use fluxqueue.Queue.Cycle.{easy_queue, batch}
use fluxqueue.Controller.{
  on_delete, DeletedObject, deleted_pod, deleted_final_state_unknown, delete_func,
}
use fluxqueue.System.Neutral.{IsNeutral}
use fluxqueue.System.Counts.{jobs_in}

module _ (S : Services) where
  -- The calls of a cycle that ends early.
  cycle_unread :
      (depth : ℤ) (state : ℕ) (t : List Call) {e : Error}
      → S.query_pending t ≡ refused e
      → (cycle S (easy_queue S depth state) t).1 ≡ Call.query_pending ∷ t
  unfolding cycle easy_backfill
  cycle_unread depth state t unread = ground (arith, unread)

  cycle_lost :
      (depth : ℤ) (state : ℕ) (t : List Call) {e : Error}
      → S.query_pending t ≡ replied tt
      → S.collect_pending (Call.query_pending ∷ t) ≡ refused e
      → (cycle S (easy_queue S depth state) t).1 ≡ Call.collect_pending ∷ Call.query_pending ∷ t
  unfolding cycle easy_backfill
  cycle_lost depth state t queried lost = ground (arith, queried, lost)

  cycle_empty :
      (depth : ℤ) (state : ℕ) (t : List Call)
      → S.query_pending t ≡ replied tt
      → S.collect_pending (Call.query_pending ∷ t) ≡ replied []
      → (cycle S (easy_queue S depth state) t).1 ≡ Call.collect_pending ∷ Call.query_pending ∷ t
  unfolding cycle easy_backfill submit_batch
  cycle_empty depth state t queried collected =
      ground (arith, queried, collected, batch_loop-map depth 0 [])

  cycle_refused :
      (depth : ℤ) (state : ℕ) (t : List Call) (m : JobModel) (ms : List JobModel) {e : Error}
      → S.query_pending t ≡ replied tt
      → S.collect_pending (Call.query_pending ∷ t) ≡ replied (m ∷ ms)
      → S.insert_many
          (Call.collect_pending ∷ Call.query_pending ∷ t)
          (batch (m ∷ ms) ++ (clear_reservation_job ∷ []))
        ≡ refused e
      → (cycle S (easy_queue S depth state) t).1
        ≡ Call.insert_many (batch (m ∷ ms) ++ (clear_reservation_job ∷ []))
          ∷ Call.collect_pending
          ∷ Call.query_pending
          ∷ t
  unfolding cycle easy_backfill submit_batch
  cycle_refused depth state t m ms queried collected refused_jobs =
      rw (queried, collected, batch_loop-map) (ground (arith, refused_jobs))

  no_jobs :
      (name namespace : Str) (b : Bool) (id : ℤ)
      → (if b then jobs_in name namespace (cleanup_params id ∷ []) else 0) ≡ 0
  unfolding jobs_in cleanup_params
  no_jobs name namespace b id = ground arith

module _ (S : Services) (name namespace : Str) where
  -- The rules of such a property. A list of tasks is idle if river refuses it or it has no job of this
  -- name and namespace. In a full cycle, all the pending jobs are taken.
  pub record Ledger {ℓ} (P : List Call → Type ℓ) : Type ℓ where
    pub none_yet : P []
    pub neutral : (c : Call) → IsNeutral c → (t : List Call) → P t → P (c ∷ t)
    pub inserted : (r : PendingRow) (t : List Call) → P t → P (Call.insert_pending r ∷ t)
    pub idle :
        (ps : List InsertManyParams) (t : List Call)
        → (if is_ok (S.insert_many t ps) then jobs_in name namespace ps else 0) ≡ 0
        → P t
        → P (Call.insert_many ps ∷ t)
    pub full :
        (depth : ℤ) (state : ℕ) (t : List Call) (models : List JobModel)
        → S.query_pending t ≡ replied tt
        → S.collect_pending (Call.query_pending ∷ t) ≡ replied models
        → models ≢ []
        → S.insert_many
            (Call.collect_pending ∷ Call.query_pending ∷ t)
            (batch models ++ (clear_reservation_job ∷ []))
          ≡ replied tt
        → P t
        → P (cycle S (easy_queue S depth state) t).1

  module _ {ℓ} {P : List Call → Type ℓ} (l : Ledger P) where
    pub enqueue-Stays : (spec : FluxJob) → Stays P (enqueue S spec)
    unfolding enqueue
    enqueue-Stays spec = call-Stays P S.new_pool Call.new_pool _ (l.neutral Call.new_pool tt) (λ _.
        call-Stays P (λ t. S.is_pending t spec.name spec.namespace)
          (Call.is_pending spec.name spec.namespace) _
          (l.neutral (Call.is_pending spec.name spec.namespace) tt)
          (λ result.
            if-Stays P (contains (str "INSERT 1") result) _ _ (λ t h. h)
              (call-Stays P (λ t. S.insert_pending t (pending_row spec))
                (Call.insert_pending (pending_row spec)) _ (l.inserted (pending_row spec))
                (λ _ t h. h))))

    on_delete-Stays :
        (depth : ℤ) (state : ℕ) (pod : Pod) → Stays P (on_delete (easy_queue S depth state) pod)
    unfolding on_delete cleanup easy_backfill
    on_delete-Stays depth state pod t h =
        elim (Option-cases (lookup flux_job_id_label pod.labels)) [
          | inl unlabelled ↦ rw (on_delete, unlabelled) h
          | inr (jobid, labelled) ↦
              let ps : List InsertManyParams = cleanup_params (parse_int 64 jobid).value ∷ [] in
              rw (on_delete, labelled)
                (ignore-Stays P (perform (λ u. S.insert_many u ps) (Call.insert_many ps))
                  (λ u k.
                    l.idle ps u
                      (no_jobs S name namespace (is_ok (S.insert_many u ps))
                        (parse_int 64 jobid).value)
                      k)
                  t h)
        ]

    pub delete_func-Stays :
        (depth : ℤ) (state : ℕ) (object : DeletedObject)
        → Stays P (delete_func (easy_queue S depth state) object)
    unfolding delete_func
    delete_func-Stays depth state (deleted_pod pod) = on_delete-Stays depth state pod
    delete_func-Stays depth state (deleted_final_state_unknown key) = λ t h. h

    pub cycle-Stays : (depth : ℤ) (state : ℕ) → Stays P (cycle S (easy_queue S depth state))
    cycle-Stays depth state t h =
        let v : List Call = Call.query_pending ∷ t in
        let k : P v = l.neutral Call.query_pending tt t h in
        let g : P (Call.collect_pending ∷ v) = l.neutral Call.collect_pending tt v k in
        elim (Reply-cases (S.query_pending t)) [
          | inr (_, unread) ↦ rw (cycle_unread S depth state t unread) k
          | inl (_, queried) ↦ elim (Reply-cases (S.collect_pending v)) [
            | inr (_, lost) ↦ rw (cycle_lost S depth state t queried lost) g
            | inl ([], collected) ↦ rw (cycle_empty S depth state t queried collected) g
            | inl (m ∷ ms, collected) ↦
                let ps : List InsertManyParams = batch (m ∷ ms) ++ (clear_reservation_job ∷ []) in
                elim (Reply-cases (S.insert_many (Call.collect_pending ∷ v) ps)) [
                  | inr (_, untaken) ↦
                      rw (cycle_refused S depth state t m ms queried collected untaken)
                        (l.idle ps (Call.collect_pending ∷ v) (rw untaken refl) g)
                  | inl (_, taken) ↦
                      l.full depth state t (m ∷ ms) queried collected (λ e. cc) taken h
                ]
          ]
        ]
