-- ===== src/System/Cycle.antt =====
-- Enqueue and the scheduling cycle keep to the law.
use mathlib.Core.List.{reverse}
use mathlib.Core.Path.{subst}
use fluxqueue.Base.{
  All, All-imp, ◌≡◌, inl, inr, refl, sym, ℕ, ◌+◌, List, [], ◌∷◌, ◌++◌, map, Bool-cases,
}
use fluxqueue.Base.Int.{ℤ}
use fluxqueue.Base.Str.{str, contains}
use fluxqueue.Types.{
  FluxJob, Args, job_args, cleanup_args, reservation_args, ungate_args, InsertManyParams,
}
use fluxqueue.Service.{Services, replied, Reply-cases, pure}
use fluxqueue.Service.Calls.{Call}
use fluxqueue.Strategy.{easy_backfill}
use fluxqueue.Strategy.Batch.{batch_loop-map}
use fluxqueue.Queue.{
  is_in_schedule_loop, lock, pending_row, clear_reservation_job, enqueue, delete_from_pending,
  delete_job, delete_batch, submit_batch, cycle, schedule,
}
use fluxqueue.Queue.Pending.{table, effect, model_of_row, IsDatabase}
use fluxqueue.Queue.Cycle.{easy_queue, batch}
use fluxqueue.System.{HasArgs, Submitted}
use fluxqueue.System.Past.{Found}
use fluxqueue.System.Lawful.{
  AreLawful, Lawful, Keeps, Keeps-refl, Keeps-trans, Keeps-cons, bind-Keeps, call-Keeps,
  ignore-Keeps, Extends-keeps,
}
use fluxqueue.System.Rows.{submission_lawful}

module _ (S : Services) where
  pub Submitted-cons :
      (args : Args) (c : Call) (t : List Call) → Submitted S args t → Submitted S args (c ∷ t)
  Submitted-cons args (Call.insert_many ps) t h = inr h
  Submitted-cons args (Call.insert a opts) t h = inr h
  Submitted-cons args _ t h = h

  -- River has taken the task of each item.
  abbrev AllSubmitted : List InsertManyParams → List Call → Type 0
  AllSubmitted [] t = Unit
  AllSubmitted (p ∷ ps) t = Submitted S p.args t × AllSubmitted ps t

  AllSubmitted-cons :
      (ps : List InsertManyParams) (c : Call) (t : List Call)
      → AllSubmitted ps t
      → AllSubmitted ps (c ∷ t)
  AllSubmitted-cons [] c t h = tt
  AllSubmitted-cons (p ∷ ps) c t (h, hs) =
      (Submitted-cons p.args c t h, AllSubmitted-cons ps c t hs)

  HasArgs-append :
      (args : Args) (ps qs : List InsertManyParams) → HasArgs args ps → HasArgs args (ps ++ qs)
  HasArgs-append args [] qs h = elim h [ ]
  HasArgs-append args (p ∷ ps) qs (inl e) = inl e
  HasArgs-append args (p ∷ ps) qs (inr h) = inr (HasArgs-append args ps qs h)

  HasArgs-self : (ps : List InsertManyParams) → All (λ p. HasArgs p.args ps) ps
  HasArgs-self [] = tt
  HasArgs-self (p ∷ ps) = (
    inl refl,
    All-imp (λ q. HasArgs q.args ps) (λ q. HasArgs q.args (p ∷ ps)) ps (λ q h. inr h)
        (HasArgs-self ps),
  )

  AllSubmitted-insert_many :
      (ps all : List InsertManyParams) (t : List Call)
      → S.insert_many t all ≡ replied tt
      → All (λ p. HasArgs p.args all) ps
      → AllSubmitted ps (Call.insert_many all ∷ t)
  AllSubmitted-insert_many [] all t taken h = tt
  AllSubmitted-insert_many (p ∷ ps) all t taken (h, hs) =
      (inl (taken, h), AllSubmitted-insert_many ps all t taken hs)

  delete_job-Keeps :
      (args : Args) (t : List Call) → Submitted S args t → Keeps S t (delete_job S args t).1
  unfolding delete_job delete_from_pending
  delete_job-Keeps (job_args a) t h = ignore-Keeps S (delete_from_pending S a.namespace a.name) t (
      call-Keeps S S.new_pool Call.new_pool _ t (λ _. tt)
        λ _ _.
          Keeps-cons S (Call.delete_pending a.name a.namespace) (Call.new_pool ∷ t)
            λ _. (a, refl, refl, h))
  delete_job-Keeps (cleanup_args a) t h = Keeps-refl S t
  delete_job-Keeps reservation_args t h = Keeps-refl S t
  delete_job-Keeps (ungate_args a) t h = Keeps-refl S t

  delete_batch-Keeps :
      (ps : List InsertManyParams) (t : List Call)
      → AllSubmitted ps t
      → Keeps S t (delete_batch S ps t).1
  unfolding delete_batch
  delete_batch-Keeps [] t h = Keeps-refl S t
  delete_batch-Keeps (p ∷ ps) t (h, hs) =
      let k : Keeps S t (delete_job S p.args t).1 = delete_job-Keeps p.args t h in
      bind-Keeps S (delete_job S p.args) _ t k λ _ _.
        delete_batch-Keeps ps _
          (Extends-keeps (AllSubmitted ps) (AllSubmitted-cons ps) k.extends hs)

  submit_batch-Keeps :
      (ps : List InsertManyParams) (t : List Call)
      → (AreLawful S t → Lawful S (Call.insert_many (ps ++ (clear_reservation_job ∷ []))) t)
      → Keeps S t (submit_batch S ps t).1
  unfolding submit_batch
  submit_batch-Keeps [] t h = Keeps-refl S t
  submit_batch-Keeps (p ∷ ps) t h =
      let all : List InsertManyParams = (p ∷ ps) ++ (clear_reservation_job ∷ []) in
      call-Keeps S (λ u. S.insert_many u all) (Call.insert_many all) _ t h
        λ _ taken. delete_batch-Keeps (p ∷ ps) _ (
          AllSubmitted-insert_many (p ∷ ps) all t taken (
            All-imp (λ q. HasArgs q.args (p ∷ ps)) (λ q. HasArgs q.args all) (p ∷ ps)
              (λ q i. HasArgs-append q.args (p ∷ ps) (clear_reservation_job ∷ []) i)
              (HasArgs-self (p ∷ ps))))

  pub enqueue-Keeps :
      (spec : FluxJob) (t : List Call) → Found S spec t → Keeps S t (enqueue S spec t).1
  unfolding enqueue
  enqueue-Keeps spec t found =
      call-Keeps S S.new_pool Call.new_pool _ t (λ _. tt)
        λ _ _.
          call-Keeps S (λ u. S.is_pending u spec.name spec.namespace)
            (Call.is_pending spec.name spec.namespace) _ _ (λ _. tt)
            λ tag _. elim (Bool-cases (contains (str "INSERT 1") tag)) [
              | inl there ↦ rw there (Keeps-refl S _)
              | inr absent ↦ rw absent (
                  call-Keeps S (λ u. S.insert_pending u (pending_row spec))
                    (Call.insert_pending (pending_row spec)) _ _ (λ _. (spec, found, refl))
                    λ _ _. Keeps-refl S _)
            ]

  module _ (database : IsDatabase S []) (depth : ℤ) where
    cycle-Keeps : (state : ℕ) (t : List Call) → Keeps S t (cycle S (easy_queue S depth state) t).1
    unfolding cycle easy_backfill table effect
    cycle-Keeps state t =
        let asked : Keeps S t (Call.query_pending ∷ t) =
          Keeps-cons S Call.query_pending t (λ _. tt) in
        let u : List Call = Call.collect_pending ∷ Call.query_pending ∷ t in
        let read : Keeps S t u =
          Keeps-trans S asked
            (Keeps-cons S Call.collect_pending (Call.query_pending ∷ t) (λ _. tt)) in
        elim (Reply-cases (S.query_pending t)) [
          | inr (_, unread) ↦ rw unread asked
          | inl (_, queried) ↦ elim (Reply-cases (S.collect_pending (Call.query_pending ∷ t))) [
            | inr (_, lost) ↦ rw (queried, lost) read
            | inl (models, collected) ↦
                let rows : models ≡ map model_of_row (reverse (table S [] t)) =
                  database.newest_first (Call.query_pending ∷ t) models collected in
                rw (queried, collected, batch_loop-map)
                  (Keeps-trans S read (
                    bind-Keeps S (submit_batch S (batch models)) (λ _. pure tt) u
                      (submit_batch-Keeps (batch models) u λ h.
                        subst
                          (λ ms.
                            Lawful S (Call.insert_many (batch ms ++ (clear_reservation_job ∷ [])))
                              u)
                          (sym rows) (submission_lawful S u h))
                      λ _ _. Keeps-refl S _))
          ]
        ]

    pub schedule-Keeps :
        (state : ℕ) (t : List Call) → Keeps S t (schedule S (easy_queue S depth state) t).1
    unfolding schedule lock
    schedule-Keeps state t = elim (Bool-cases (is_in_schedule_loop (easy_queue S depth state))) [
      | inl busy ↦ rw busy (Keeps-refl S t)
      | inr free ↦ rw free (cycle-Keeps (state + 1) t)
    ]
