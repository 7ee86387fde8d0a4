-- ===== src/Webhook/Submit.antt =====
-- Which FluxJobs the webhook creates.
use fluxqueue.Base.{
  ℕ, suc, ◌+◌, ◌≤◌, ◌≡◌, refl, Option, none, some, List, [], ◌∷◌, ◌++◌, arith, inl, inr,
}
use fluxqueue.Base.Int.{ℤ, pos}
use fluxqueue.Base.Str.{Str, str}
use fluxqueue.Types.{JobWrapped, get_job_name, FluxJob}
use fluxqueue.Service.{
  Services, Error, remote, not_found, failure, job_cancel, Result, ok, err, panic, Reply, replied,
  refused, Reply-cases, M, ◌>>=◌, continue,
}
use fluxqueue.Service.Calls.{Call}
use fluxqueue.Jobspec.{Container, generate_pod_resources}
use fluxqueue.Webhook.{
  SetKind, deployment, replica_set, stateful_set, wrapped_of, MakeJobspec, NewPod, NewJob, NewSet,
  flux_job, submit_flux_job, submit_counted, enqueue_pod, enqueue_job, enqueue_set,
}
use fluxqueue.Webhook.Handle.{
  Codec, Handled, done, stop, try_next, Response, handle_as, handle_job, handle_set, handle_pod,
  or_else, last, handle,
}

-- The number of calls that create a FluxJob.
pub creates : List Call → ℕ
creates [] = 0
creates (Call.create_flux_job j ∷ t) = suc (creates t)
creates (_ ∷ t) = creates t

module _ (S : Services) where
  -- The call before asks for a FluxJob of that name, and finds none.
  abbrev pub NotFound : FluxJob → List Call → Type 0
  NotFound j [] = ⊥
  NotFound j (Call.get_flux_job namespace name ∷ t) =
      (namespace ≡ j.namespace)
      × (name ≡ j.name)
      × (S.get_flux_job t namespace name ≡ refused not_found)
  NotFound j (_ ∷ t) = ⊥

  abbrev IsNew : Call → List Call → Type 0
  IsNew (Call.create_flux_job j) t = NotFound j t
  IsNew _ t = Unit

  -- Each FluxJob is created right after a look for its name that found none.
  abbrev pub AreNew : List Call → Type 0
  AreNew [] = Unit
  AreNew (c ∷ t) = IsNew c t × AreNew t

  -- What holds of the calls after a step: at most one FluxJob is created, and a new one.
  pub record CreatesOne (t u : List Call) : Type 0 where
    pub at_most : creates u ≤ creates t + 1
    pub fresh : AreNew t → AreNew u

  CreatesOne-refl : (t : List Call) → CreatesOne t t
  CreatesOne-refl t = record { at_most = omega arith; fresh = λ h. h }

  module _ (make_jobspec : MakeJobspec) where
    submit_flux_job-CreatesOne :
        (k : JobWrapped) (name namespace : Str) (nodes : ℤ) (cs : List Container) (t : List Call)
        → CreatesOne t (submit_flux_job S make_jobspec k name namespace nodes cs t).1
    unfolding submit_flux_job creates
    submit_flux_job-CreatesOne k name namespace nodes cs t =
        elim (Reply-cases (S.get_flux_job t namespace (get_job_name k name))) [
          | inl (j, found) ↦ rw found (looked t)
          | inr (not_found, missing) ↦
              elim (Reply-cases (
                make_jobspec name (str "echo " ++ (namespace ++ (str " " ++ name))) nodes
                  (generate_pod_resources cs).cpu)) [
                    | inl (js, made) ↦
                        rw (missing, made)
                          (record {
                            at_most = omega arith;
                            fresh = λ h. ((unfold flux_job in (refl, refl, missing)), (tt, h));
                          })
                    | inr (_, failed) ↦ rw (missing, failed) (looked t)
                  ]
          | inr (remote s, lost) ↦ rw lost (looked t)
          | inr (failure s, lost) ↦ rw lost (looked t)
          | inr (job_cancel e, lost) ↦ rw lost (looked t)
        ]
      where
        looked :
            (u : List Call) → CreatesOne u (Call.get_flux_job namespace (get_job_name k name) ∷ u)
        looked u = record { at_most = omega arith; fresh = λ h. (tt, h) }

    submit_counted-CreatesOne :
        (k : JobWrapped) (name namespace : Str) (nodes : Option ℤ) (cs : List Container)
        (t : List Call)
        → CreatesOne t (submit_counted S make_jobspec k name namespace nodes cs t).1
    unfolding submit_counted
    submit_counted-CreatesOne k name namespace none cs t = CreatesOne-refl t
    submit_counted-CreatesOne k name namespace (some nodes) cs t =
        submit_flux_job-CreatesOne k name namespace nodes cs t

    enqueue_pod-CreatesOne :
        (pod : NewPod) (t : List Call) → CreatesOne t (enqueue_pod S make_jobspec pod t).1
    unfolding enqueue_pod
    enqueue_pod-CreatesOne pod t = ground (
      arith,
      CreatesOne-refl t,
      submit_flux_job-CreatesOne JobWrapped.pod pod.name pod.namespace (pos 1) pod.containers t,
    )

    enqueue_job-CreatesOne :
        (job : NewJob) (t : List Call) → CreatesOne t (enqueue_job S make_jobspec job t).1
    unfolding enqueue_job
    enqueue_job-CreatesOne job t = ground (
      arith,
      CreatesOne-refl t,
      submit_counted-CreatesOne JobWrapped.job job.name job.namespace job.parallelism
          job.template.containers t,
    )

    enqueue_set-CreatesOne :
        (kind : SetKind) (s : NewSet) (t : List Call)
        → CreatesOne t (enqueue_set S make_jobspec kind s t).1
    unfolding enqueue_set
    enqueue_set-CreatesOne kind s t = ground (
      arith,
      CreatesOne-refl t,
      submit_counted-CreatesOne (wrapped_of kind) s.name s.namespace s.replicas
          s.template.containers t,
    )

  -- A step that creates at most one FluxJob, and calls nothing where it leaves the object to others.
  abbrev Careful : M Handled → Type 0
  Careful m =
      (t : List Call)
      → CreatesOne t (m t).1 × ((e : Error) → (m t).0 ≡ ok (try_next e) → (m t).1 ≡ t)

  handle_as-Careful {ℓ} :
      {A : Type ℓ} (decoded : Reply A) (enqueue : A → M A) (marshal : A → Reply Str)
      → ((a : A) (t : List Call) → CreatesOne t (enqueue a t).1)
      → Careful (handle_as decoded enqueue marshal)
  unfolding handle_as
  handle_as-Careful (replied a) enqueue marshal one t =
      (ground (arith, one a t), λ e h. ground (arith, h))
  handle_as-Careful (refused e) enqueue marshal one t = (CreatesOne-refl t, λ e' h. refl)

  or_else-CreatesOne :
      (rest : M Response) (r : Result Handled) (t u : List Call)
      → CreatesOne t u
      → ((e : Error) → r ≡ ok (try_next e) → u ≡ t)
      → ((v : List Call) → CreatesOne v (rest v).1)
      → CreatesOne t (continue r (or_else rest) u).1
  unfolding or_else
  or_else-CreatesOne rest (ok (done s)) t u one same k = one
  or_else-CreatesOne rest (ok (stop e)) t u one same k = one
  or_else-CreatesOne rest (ok (try_next e)) t u one same k = rw (same e refl) (k t)
  or_else-CreatesOne rest (err e) t u one same k = one
  or_else-CreatesOne rest panic t u one same k = one

  or_else-Careful :
      (m : M Handled) (rest : M Response)
      → Careful m
      → ((v : List Call) → CreatesOne v (rest v).1)
      → (t : List Call) → CreatesOne t ((m >>= or_else rest) t).1
  or_else-Careful m rest careful k t =
      or_else-CreatesOne rest (m t).0 t (m t).1 (careful t).0 (careful t).1 k

  last-CreatesOne :
      (r : Result Handled) (t u : List Call) → CreatesOne t u → CreatesOne t (continue r last u).1
  unfolding last
  last-CreatesOne (ok (done s)) t u one = one
  last-CreatesOne (ok (stop e)) t u one = one
  last-CreatesOne (ok (try_next e)) t u one = one
  last-CreatesOne (err e) t u one = one
  last-CreatesOne panic t u one = one

  module _ (make_jobspec : MakeJobspec) (codec : Codec) where
    handle_set-Careful :
        (kind : SetKind) (req : Str) → Careful (handle_set S make_jobspec codec kind req)
    unfolding handle_set
    handle_set-Careful kind req =
        handle_as-Careful (codec.decode_set kind req) (enqueue_set S make_jobspec kind)
          (codec.marshal_set kind) (enqueue_set-CreatesOne make_jobspec kind)

    -- Whatever the services reply, one admission request creates at most one FluxJob; and if every
    -- FluxJob before it was created right after the API server said that there is none of its name
    -- in its namespace, then so is this one.
    pub handle_lem :
        (req : Str) (t : List Call)
        → AreNew t
        → (creates (handle S make_jobspec codec req t).1 ≤ creates t + 1)
          × AreNew (handle S make_jobspec codec req t).1
    unfolding handle handle_job handle_pod
    handle_lem req t new =
        let careful_job : Careful (handle_job S make_jobspec codec req) =
          handle_as-Careful (codec.decode_job req) (enqueue_job S make_jobspec) codec.marshal_job
            (enqueue_job-CreatesOne make_jobspec) in
        let careful_pod : Careful (handle_pod S make_jobspec codec req) =
          handle_as-Careful (codec.decode_pod req) (enqueue_pod S make_jobspec) codec.marshal_pod
            (enqueue_pod-CreatesOne make_jobspec) in
        let one : CreatesOne t (handle S make_jobspec codec req t).1 =
          or_else-Careful (handle_job S make_jobspec codec req) _ careful_job
            (or_else-Careful (handle_set S make_jobspec codec deployment req) _
              (handle_set-Careful deployment req)
              (or_else-Careful (handle_set S make_jobspec codec replica_set req) _
                (handle_set-Careful replica_set req)
                (or_else-Careful (handle_set S make_jobspec codec stateful_set req) _
                  (handle_set-Careful stateful_set req)
                  (λ v. last-CreatesOne _ v _ (careful_pod v).0))))
            t in
        (one.at_most, one.fresh new)
