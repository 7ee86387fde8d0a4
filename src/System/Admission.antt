-- ===== src/System/Admission.antt =====
-- The webhook keeps to the law.
use fluxqueue.Base.{refl, Option, none, some, List, ◌∷◌, ◌++◌, arith, inl, inr}
use fluxqueue.Base.Int.{ℤ, pos}
use fluxqueue.Base.Str.{Str, str}
use fluxqueue.Types.{JobWrapped, get_job_name}
use fluxqueue.Service.{
  Services, remote, not_found, failure, job_cancel, Reply, replied, refused, Reply-cases, M,
}
use fluxqueue.Service.Calls.{Call}
use fluxqueue.Jobspec.{Container, generate_pod_resources}
use fluxqueue.Webhook.{
  NewPod, NewJob, NewSet, SetKind, deployment, replica_set, stateful_set, wrapped_of, MakeJobspec,
  flux_job, submit_flux_job, submit_counted, enqueue_pod, enqueue_job, enqueue_set,
}
use fluxqueue.Webhook.Handle.{
  Codec, Handled, done, stop, try_next, Response, handle_as, handle_job, handle_set, handle_pod,
  or_else, last, handle,
}
use fluxqueue.System.Lawful.{Keeps, Keeps-refl, Keeps-trans, Keeps-cons, bind-Keeps}

module _ (S : Services) (make_jobspec : MakeJobspec) where
  submit_flux_job-Keeps :
      (k : JobWrapped) (name namespace : Str) (nodes : ℤ) (cs : List Container) (t : List Call)
      → Keeps S t (submit_flux_job S make_jobspec k name namespace nodes cs t).1
  unfolding submit_flux_job flux_job
  submit_flux_job-Keeps k name namespace nodes cs t =
      elim (Reply-cases (S.get_flux_job t namespace (get_job_name k name))) [
        | inl (j, found) ↦ rw found looked
        | inr (not_found, missing) ↦
            elim (Reply-cases (
              make_jobspec name (str "echo " ++ (namespace ++ (str " " ++ name))) nodes
                (generate_pod_resources cs).cpu)) [
                  | inl (js, made) ↦
                      rw (missing, made)
                        (Keeps-trans S looked (
                          Keeps-cons S (Call.create_flux_job (flux_job k name namespace nodes js)) _
                            (λ _. (refl, refl, missing))))
                  | inr (_, failed) ↦ rw (missing, failed) looked
                ]
        | inr (remote s, lost) ↦ rw lost looked
        | inr (failure s, lost) ↦ rw lost looked
        | inr (job_cancel e, lost) ↦ rw lost looked
      ]
    where
      looked : Keeps S t (Call.get_flux_job namespace (get_job_name k name) ∷ t)
      looked = Keeps-cons S (Call.get_flux_job namespace (get_job_name k name)) t (λ _. tt)

  submit_counted-Keeps :
      (k : JobWrapped) (name namespace : Str) (nodes : Option ℤ) (cs : List Container)
      (t : List Call)
      → Keeps S t (submit_counted S make_jobspec k name namespace nodes cs t).1
  unfolding submit_counted
  submit_counted-Keeps k name namespace none cs t = Keeps-refl S t
  submit_counted-Keeps k name namespace (some nodes) cs t =
      submit_flux_job-Keeps k name namespace nodes cs t

  enqueue_pod-Keeps :
      (pod : NewPod) (t : List Call) → Keeps S t (enqueue_pod S make_jobspec pod t).1
  unfolding enqueue_pod
  enqueue_pod-Keeps pod t = ground (
    arith,
    Keeps-refl S t,
    submit_flux_job-Keeps JobWrapped.pod pod.name pod.namespace (pos 1) pod.containers t,
  )

  enqueue_job-Keeps :
      (job : NewJob) (t : List Call) → Keeps S t (enqueue_job S make_jobspec job t).1
  unfolding enqueue_job
  enqueue_job-Keeps job t = ground (
    arith,
    Keeps-refl S t,
    submit_counted-Keeps JobWrapped.job job.name job.namespace job.parallelism
        job.template.containers t,
  )

  enqueue_set-Keeps :
      (kind : SetKind) (s : NewSet) (t : List Call)
      → Keeps S t (enqueue_set S make_jobspec kind s t).1
  unfolding enqueue_set
  enqueue_set-Keeps kind s t = ground (
    arith,
    Keeps-refl S t,
    submit_counted-Keeps (wrapped_of kind) s.name s.namespace s.replicas s.template.containers t,
  )

  handle_as-Keeps {ℓ} :
      {A : Type ℓ} (decoded : Reply A) (enqueue : A → M A) (marshal : A → Reply Str)
      → ((a : A) (t : List Call) → Keeps S t (enqueue a t).1)
      → (t : List Call) → Keeps S t (handle_as decoded enqueue marshal t).1
  unfolding handle_as
  handle_as-Keeps (replied a) enqueue marshal k t = ground (arith, k a t)
  handle_as-Keeps (refused e) enqueue marshal k t = Keeps-refl S t

  or_else-Keeps :
      (rest : M Response) (h : Handled) (t : List Call)
      → Keeps S t (rest t).1
      → Keeps S t (or_else rest h t).1
  unfolding or_else
  or_else-Keeps rest (done s) t k = Keeps-refl S t
  or_else-Keeps rest (stop e) t k = Keeps-refl S t
  or_else-Keeps rest (try_next e) t k = k

  last-Keeps : (h : Handled) (t : List Call) → Keeps S t (last h t).1
  unfolding last
  last-Keeps (done s) t = Keeps-refl S t
  last-Keeps (stop e) t = Keeps-refl S t
  last-Keeps (try_next e) t = Keeps-refl S t

  module _ (codec : Codec) (req : Str) where
    handle_set-Keeps :
        (kind : SetKind) (t : List Call) → Keeps S t (handle_set S make_jobspec codec kind req t).1
    unfolding handle_set
    handle_set-Keeps kind t =
        handle_as-Keeps (codec.decode_set kind req) (enqueue_set S make_jobspec kind)
          (codec.marshal_set kind) (enqueue_set-Keeps kind) t

    pub handle-Keeps : (t : List Call) → Keeps S t (handle S make_jobspec codec req t).1
    unfolding handle handle_job handle_pod
    handle-Keeps t =
        bind-Keeps S (handle_job S make_jobspec codec req) _ t
          (handle_as-Keeps (codec.decode_job req) (enqueue_job S make_jobspec) codec.marshal_job
            enqueue_job-Keeps t)
          λ h₁ _. or_else-Keeps _ h₁ _ (
            bind-Keeps S (handle_set S make_jobspec codec deployment req) _ _
              (handle_set-Keeps deployment _)
              λ h₂ _. or_else-Keeps _ h₂ _ (
                bind-Keeps S (handle_set S make_jobspec codec replica_set req) _ _
                  (handle_set-Keeps replica_set _)
                  λ h₃ _. or_else-Keeps _ h₃ _ (
                    bind-Keeps S (handle_set S make_jobspec codec stateful_set req) _ _
                      (handle_set-Keeps stateful_set _)
                      λ h₄ _. or_else-Keeps _ h₄ _ (
                        bind-Keeps S (handle_pod S make_jobspec codec req) _ _
                          (handle_as-Keeps (codec.decode_pod req) (enqueue_pod S make_jobspec)
                            codec.marshal_pod enqueue_pod-Keeps _)
                          λ h₅ _. last-Keeps h₅ _))))
