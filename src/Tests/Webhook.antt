-- ===== src/Tests/Webhook.antt =====
-- The webhook over an API that holds no FluxJob.
use fluxqueue.Base.{◌≡◌, ◌≤◌, ◌+◌, refl, true, none, some, List, [], ◌∷◌, ◌++◌, arith}
use fluxqueue.Base.Int.{pos}
use fluxqueue.Base.Str.{Str, str}
use fluxqueue.Base.Assoc.{lookup}
use fluxqueue.Types.{JobWrapped, UngateArgs, wrapped_string}
use fluxqueue.Service.{Services, not_found, remote, ok, replied, refused}
use fluxqueue.Workers.Ungate.{has_gate, selector_label, selector}
use fluxqueue.Jobspec.{Container, generate_pod_resources}
use fluxqueue.Jobspec.Sums.{generate_pod_resources_lem}
use fluxqueue.Webhook.{
  Template, NewPod, NewJob, NewSet, deployment, MakeJobspec, marked_set, is_seen, submit_flux_job,
  enqueue_pod, enqueue_set,
}
use fluxqueue.Webhook.Handle.{Codec, handle}
use fluxqueue.Webhook.Marks.{enqueue_set-selector, enqueue_set-again}
use fluxqueue.Webhook.Submit.{creates, AreNew, handle_lem}
use fluxqueue.Tests.Database.{willing}

unfoldable empty : Services
unfolding willing
empty = record willing { get_flux_job = λ t namespace name. refused not_found }

abbrev pub make_jobspec : MakeJobspec
make_jobspec name command nodes cpu = replied (str "version: 1")

abbrev two_cpus : Container
two_cpus = record { cpu = pos 2; memory = pos 1024; storage = pos 0; gpu = none }

abbrev web_template : Template
web_template = record {
  labels = (str "app", str "web") ∷ [];
  scheduling_gates = [];
  scheduler_name = [];
  containers = two_cpus ∷ two_cpus ∷ [];
}

abbrev web : NewSet
web = record {
  name = str "web";
  namespace = str "default";
  labels = [];
  template = web_template;
  replicas = some (pos 2);
}

abbrev web_args : UngateArgs
web_args = record {
  name = str "web";
  type = wrapped_string JobWrapped.deployment;
  namespace = str "default";
  nodes = [];
  job_id = pos 12;
}

abbrev lammps : NewJob
lammps = record {
  name = str "lammps";
  namespace = str "default";
  labels = [];
  template = web_template;
  suspend = none;
  parallelism = some (pos 2);
}

abbrev pod_of : Template → NewPod
pod_of t = record {
  name = str "web-0";
  namespace = str "default";
  labels = t.labels;
  scheduling_gates = t.scheduling_gates;
  scheduler_name = t.scheduler_name;
  containers = t.containers;
}

-- Every request holds the job.
abbrev pub job_codec : Codec
job_codec = record {
  decode_job = λ req. replied lammps;
  decode_set = λ kind req. refused (remote (str "no set"));
  decode_pod = λ req. refused (remote (str "no pod"));
  marshal_job = λ j. replied j.name;
  marshal_set = λ kind s. replied s.name;
  marshal_pod = λ p. replied p.name;
}

handle_lem_example :
    (creates (handle empty make_jobspec job_codec [] []).1 ≤ creates [] + 1)
    × AreNew empty (handle empty make_jobspec job_codec [] []).1
handle_lem_example = handle_lem empty make_jobspec job_codec [] [] tt

enqueue_set-selector_example :
    (has_gate (marked_set deployment web).template.scheduling_gates ≡ true)
    × ((v : Str) × (lookup selector_label (marked_set deployment web).template.labels ≡ some v)
        × (selector web_args ≡ selector_label ++ (str "=" ++ v)))
unfolding empty willing enqueue_set submit_flux_job is_seen lookup
enqueue_set-selector_example =
    enqueue_set-selector empty make_jobspec deployment web (marked_set deployment web) [] web_args
      refl refl refl refl refl

lookup-append :
    (k v : Str) (ls ms : List (Str × Str)) → lookup k ls ≡ some v → lookup k (ls ++ ms) ≡ some v
unfolding lookup
lookup-append k v [] ms h = cc
lookup-append k v ((k', v') ∷ ls) ms h = ground (arith, h, lookup-append k v ls ms)

-- The deployment's controller adds a label to those of the template.
abbrev hashed_pod : NewPod
hashed_pod = record (pod_of (marked_set deployment web).template) {
  labels =
      (marked_set deployment web).template.labels ++ ((str "pod-template-hash", str "5d89") ∷ []);
}

enqueue_set-again_example :
    (enqueue_set empty make_jobspec deployment (marked_set deployment web) []
      ≡ (ok (marked_set deployment web), []))
    × (enqueue_pod empty make_jobspec hashed_pod [] ≡ (ok hashed_pod, []))
unfolding empty willing enqueue_set submit_flux_job is_seen lookup
enqueue_set-again_example =
    enqueue_set-again empty make_jobspec deployment web (marked_set deployment web) [] [] hashed_pod
      refl refl (λ k v. lookup-append k v (marked_set deployment web).template.labels _)

generate_pod_resources_lem_example :
    ((generate_pod_resources (two_cpus ∷ two_cpus ∷ [])).cpu ≡ pos 4)
    × ((generate_pod_resources (two_cpus ∷ two_cpus ∷ [])).memory ≡ pos 2048)
generate_pod_resources_lem_example =
    generate_pod_resources_lem (two_cpus ∷ two_cpus ∷ []) ((2, 1024) ∷ (2, 1024) ∷ [])
      (record { cpu = refl; memory = refl }, (record { cpu = refl; memory = refl }, tt))
      (omega arith) (omega arith)
