-- ===== src/Webhook/Handle.antt =====
-- api/v1alpha1/fluxjob_webhook.go: the object of an admission request is tried as each of the types.
-- The decoder, the encoder and the patch response belong to libraries; the first two are
-- parameters, and the response holds the encoded object.
use fluxqueue.Base.{List}
use fluxqueue.Base.Str.{Str}
use fluxqueue.Service.{
  Services, Error, Result, ok, err, panic, Reply, replied, refused, M, ◌>>=◌, pure, note,
}
use fluxqueue.Service.Calls.{Call}
use fluxqueue.Service.Runtime.{SetUp}
use fluxqueue.Webhook.{
  NewPod, NewJob, NewSet, SetKind, deployment, replica_set, stateful_set, MakeJobspec, enqueue_pod,
  enqueue_job, enqueue_set,
}

-- NewMutatingWebhook sets the manager by which SubmitFluxJob has its client.
abbrev pub new_mutating_webhook : M (Unit {0})
new_mutating_webhook = note SetUp.set_manager

pub record Codec : Type 0 where
  pub decode_job : Str → Reply NewJob
  pub decode_set : SetKind → Str → Reply NewSet
  pub decode_pod : Str → Reply NewPod
  pub marshal_job : NewJob → Reply Str
  pub marshal_set : SetKind → NewSet → Reply Str
  pub marshal_pod : NewPod → Reply Str

-- What a handler returns: the bytes, or an error with `tryNext` false or true.
pub data Handled : Type 0 where
  done : Str → Handled
  stop : Error → Handled
  try_next : Error → Handled

-- PatchResponseFromRaw with the new bytes, or Errored.
pub data Response : Type 0 where
  patched : Str → Response
  errored : Error → Response

abbrev encoded : Reply Str → Handled
encoded (replied s) = done s
encoded (refused e) = stop e

abbrev enqueued {ℓ} :
    {A : Type ℓ} → (A → Reply Str) → Result A → List Call → Result Handled × List Call
enqueued marshal (ok a) t = (ok (encoded (marshal a)), t)
enqueued marshal (err e) t = (ok (stop e), t)
enqueued marshal panic t = (panic, t)

-- What the five handlers share.
unfoldable pub handle_as {ℓ} : {A : Type ℓ} → Reply A → (A → M A) → (A → Reply Str) → M Handled
handle_as (replied a) enqueue marshal t = let r = enqueue a t in enqueued marshal r.0 r.1
handle_as (refused e) enqueue marshal t = (ok (try_next e), t)

-- The rest is tried only where the object is of another type.
unfoldable pub or_else : M Response → Handled → M Response
or_else rest (done s) = pure (patched s)
or_else rest (stop e) = pure (errored e)
or_else rest (try_next e) = rest

unfoldable pub last : Handled → M Response
last (done s) = pure (patched s)
last (stop e) = pure (errored e)
last (try_next e) = pure (errored e)

module _ (S : Services) (make_jobspec : MakeJobspec) (codec : Codec) where
  unfoldable pub handle_job : Str → M Handled
  unfolding handle_as
  handle_job req = handle_as (codec.decode_job req) (enqueue_job S make_jobspec) codec.marshal_job

  unfoldable pub handle_set : SetKind → Str → M Handled
  unfolding handle_as
  handle_set kind req =
      handle_as (codec.decode_set kind req) (enqueue_set S make_jobspec kind)
        (codec.marshal_set kind)

  unfoldable pub handle_pod : Str → M Handled
  unfolding handle_as
  handle_pod req = handle_as (codec.decode_pod req) (enqueue_pod S make_jobspec) codec.marshal_pod

  unfoldable pub handle : Str → M Response
  unfolding handle_job handle_set handle_pod or_else last
  handle req =
      handle_job req
      >>= or_else (
          handle_set deployment req
          >>= or_else (
              handle_set replica_set req
              >>= or_else (handle_set stateful_set req >>= or_else (handle_pod req >>= last))))
