-- ===== src/System/Unlisted.antt =====
-- The webhook makes no call on the table of pending jobs, and hands no list of tasks to river.
use fluxqueue.Base.{Option, none, some, List, ◌∷◌, ◌++◌, arith, inl, inr}
use fluxqueue.Base.Int.{ℤ, pos}
use fluxqueue.Base.Str.{Str, str}
use fluxqueue.Types.{JobWrapped, get_job_name}
use fluxqueue.Service.{
  Services, remote, not_found, failure, job_cancel, Reply, replied, refused, Reply-cases, M,
}
use fluxqueue.Service.Calls.{Call}
use fluxqueue.Service.Stays.{Stays, bind-Stays}
use fluxqueue.Jobspec.{Container, generate_pod_resources}
use fluxqueue.Webhook.{
  NewPod, NewJob, NewSet, SetKind, deployment, replica_set, stateful_set, wrapped_of, MakeJobspec,
  flux_job, submit_flux_job, submit_counted, enqueue_pod, enqueue_job, enqueue_set,
}
use fluxqueue.Webhook.Handle.{
  Codec, Handled, done, stop, try_next, Response, handle_as, handle_job, handle_set, handle_pod,
  or_else, last, handle,
}
use fluxqueue.System.Neutral.{IsNeutral}

module _ {ℓ} (P : List Call → Type ℓ)
    (grows : (c : Call) → IsNeutral c → (t : List Call) → P t → P (c ∷ t)) (S : Services)
    (make_jobspec : MakeJobspec) where
  submit_flux_job-Stays :
      (k : JobWrapped) (name namespace : Str) (nodes : ℤ) (cs : List Container)
      → Stays P (submit_flux_job S make_jobspec k name namespace nodes cs)
  unfolding submit_flux_job
  submit_flux_job-Stays k name namespace nodes cs t h =
      let looked : P (Call.get_flux_job namespace (get_job_name k name) ∷ t) =
        grows (Call.get_flux_job namespace (get_job_name k name)) tt t h in
      elim (Reply-cases (S.get_flux_job t namespace (get_job_name k name))) [
        | inl (j, found) ↦ rw found looked
        | inr (not_found, missing) ↦
            elim (Reply-cases (
              make_jobspec name (str "echo " ++ (namespace ++ (str " " ++ name))) nodes
                (generate_pod_resources cs).cpu)) [
                  | inl (js, made) ↦
                      rw (missing, made)
                        (grows (Call.create_flux_job (flux_job k name namespace nodes js)) tt _
                          looked)
                  | inr (_, failed) ↦ rw (missing, failed) looked
                ]
        | inr (remote s, lost) ↦ rw lost looked
        | inr (failure s, lost) ↦ rw lost looked
        | inr (job_cancel e, lost) ↦ rw lost looked
      ]

  submit_counted-Stays :
      (k : JobWrapped) (name namespace : Str) (nodes : Option ℤ) (cs : List Container)
      → Stays P (submit_counted S make_jobspec k name namespace nodes cs)
  unfolding submit_counted
  submit_counted-Stays k name namespace none cs = λ t h. h
  submit_counted-Stays k name namespace (some nodes) cs =
      submit_flux_job-Stays k name namespace nodes cs

  enqueue_pod-Stays : (pod : NewPod) → Stays P (enqueue_pod S make_jobspec pod)
  unfolding enqueue_pod
  enqueue_pod-Stays pod t h = ground (
    arith,
    h,
    submit_flux_job-Stays JobWrapped.pod pod.name pod.namespace (pos 1) pod.containers t h,
  )

  enqueue_job-Stays : (job : NewJob) → Stays P (enqueue_job S make_jobspec job)
  unfolding enqueue_job
  enqueue_job-Stays job t h = ground (
    arith,
    h,
    submit_counted-Stays JobWrapped.job job.name job.namespace job.parallelism
        job.template.containers t h,
  )

  enqueue_set-Stays : (kind : SetKind) (s : NewSet) → Stays P (enqueue_set S make_jobspec kind s)
  unfolding enqueue_set
  enqueue_set-Stays kind s t h = ground (
    arith,
    h,
    submit_counted-Stays (wrapped_of kind) s.name s.namespace s.replicas s.template.containers t h,
  )

  handle_as-Stays {κ} :
      {A : Type κ} (decoded : Reply A) (enqueue : A → M A) (marshal : A → Reply Str)
      → ((a : A) → Stays P (enqueue a))
      → Stays P (handle_as decoded enqueue marshal)
  unfolding handle_as
  handle_as-Stays (replied a) enqueue marshal k t h = ground (arith, k a t h)
  handle_as-Stays (refused e) enqueue marshal k t h = h

  or_else-Stays : (rest : M Response) (h : Handled) → Stays P rest → Stays P (or_else rest h)
  unfolding or_else
  or_else-Stays rest (done s) k = λ t h. h
  or_else-Stays rest (stop e) k = λ t h. h
  or_else-Stays rest (try_next e) k = k

  last-Stays : (h : Handled) → Stays P (last h)
  unfolding last
  last-Stays (done s) t h = h
  last-Stays (stop e) t h = h
  last-Stays (try_next e) t h = h

  module _ (codec : Codec) (req : Str) where
    handle_set-Stays : (kind : SetKind) → Stays P (handle_set S make_jobspec codec kind req)
    unfolding handle_set
    handle_set-Stays kind =
        handle_as-Stays (codec.decode_set kind req) (enqueue_set S make_jobspec kind)
          (codec.marshal_set kind) (enqueue_set-Stays kind)

    pub handle-Stays : Stays P (handle S make_jobspec codec req)
    unfolding handle handle_job handle_pod
    handle-Stays =
        bind-Stays P (handle_job S make_jobspec codec req) _
          (handle_as-Stays (codec.decode_job req) (enqueue_job S make_jobspec) codec.marshal_job
            enqueue_job-Stays)
          λ h₁. or_else-Stays _ h₁ (
            bind-Stays P (handle_set S make_jobspec codec deployment req) _
              (handle_set-Stays deployment)
              λ h₂. or_else-Stays _ h₂ (
                bind-Stays P (handle_set S make_jobspec codec replica_set req) _
                  (handle_set-Stays replica_set)
                  λ h₃. or_else-Stays _ h₃ (
                    bind-Stays P (handle_set S make_jobspec codec stateful_set req) _
                      (handle_set-Stays stateful_set)
                      λ h₄. or_else-Stays _ h₄ (
                        bind-Stays P (handle_pod S make_jobspec codec req) _
                          (handle_as-Stays (codec.decode_pod req) (enqueue_pod S make_jobspec)
                            codec.marshal_pod enqueue_pod-Stays)
                          λ h₅. last-Stays h₅))))
