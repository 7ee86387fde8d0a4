-- ===== src/Webhook.antt =====
-- api/v1alpha1/fluxjob_enqueue.go and submit.go: a new pod, job or set of pods is marked and held
-- back, and wrapped in a FluxJob. The text of a jobspec is made by a library outside the
-- repository, and so a parameter. A nil map of labels or slice of gates is the empty list; a method
-- returns the object that it changed.
pub mod Handle
pub mod Marks
pub mod Submit
pub mod Collide
use fluxqueue.Base.{
  ℕ, ◌≡◌, Bool, true, false, Option, none, some, List, [], ◌∷◌, ◌++◌, if◌then◌else◌,
}
use fluxqueue.Base.Int.{ℤ, pos}
use fluxqueue.Base.Str.{Str, str, str_eq}
use fluxqueue.Base.Assoc.{lookup, insert}
use fluxqueue.Types.{JobWrapped, get_job_name, FluxJob, status_new}
use fluxqueue.Service.{
  Services, Error, not_found, Result, ok, err, panic, Reply, replied, refused, M, ◌>>=◌, ◌>>◌, pure,
  fail, crash, perform, result, continue,
}
use fluxqueue.Service.Calls.{Call}
use fluxqueue.Jobspec.{Container, generate_pod_resources}
use fluxqueue.Workers.Gate.{scheduling_gate_name}
use fluxqueue.Workers.Ungate.{selector_label}

abbrev pub seen_label : Str
seen_label = str "fluxqueue.seen"

abbrev pub scheduler_name : Str
scheduler_name = str "FluxionScheduler"

-- The template of the pods of an object.
pub record Template : Type 0 where
  pub labels : List (Str × Str)
  pub scheduling_gates : List Str
  pub scheduler_name : Str
  pub containers : List Container

pub record NewPod : Type 0 where
  pub name : Str
  pub namespace : Str
  pub labels : List (Str × Str)
  pub scheduling_gates : List Str
  pub scheduler_name : Str
  pub containers : List Container

pub record NewJob : Type 0 where
  pub name : Str
  pub namespace : Str
  pub labels : List (Str × Str)
  pub template : Template
  pub suspend : Option Bool
  pub parallelism : Option ℤ

-- A deployment, a replica set or a stateful set.
pub record NewSet : Type 0 where
  pub name : Str
  pub namespace : Str
  pub labels : List (Str × Str)
  pub template : Template
  pub replicas : Option ℤ

-- The three kinds of `NewSet`, by the function that takes each.
pub data SetKind : Type 0 where
  deployment replica_set stateful_set : SetKind

abbrev pub wrapped_of : SetKind → JobWrapped
wrapped_of deployment = JobWrapped.deployment
wrapped_of replica_set = JobWrapped.replica_set
wrapped_of stateful_set = JobWrapped.stateful_set

abbrev pub kind_name : SetKind → Str
kind_name deployment = str "deployment"
kind_name replica_set = str "replicaset"
kind_name stateful_set = str "statefulset"

-- fmt.Sprintf("<kind>-%s-%s", name, namespace)
unfoldable pub set_selector : SetKind → NewSet → Str
set_selector kind s = kind_name kind ++ (str "-" ++ (s.name ++ (str "-" ++ s.namespace)))

unfoldable pub flux_job : JobWrapped → Str → Str → ℤ → Str → FluxJob
flux_job job_type name namespace nodes js = record {
  name = get_job_name job_type name;
  namespace = namespace;
  spec = record {
    job_spec = js;
    type = job_type;
    name = name;
    duration = pos 0;
    reservation = false;
    nodes = nodes;
  };
  submit_status = status_new;
}

abbrev has_key : Option Str → Bool
has_key none = false
has_key (some v) = true

unfoldable pub is_seen : List (Str × Str) → Bool
is_seen labels = has_key (lookup seen_label labels)

abbrev mark : List (Str × Str) → List (Str × Str)
mark labels = insert seen_label (str "yes") labels

unfoldable pub marked_pod : NewPod → NewPod
marked_pod p = record p {
  labels = mark p.labels;
  scheduling_gates = p.scheduling_gates ++ (scheduling_gate_name ∷ []);
  scheduler_name = scheduler_name;
}

unfoldable pub marked_job : NewJob → NewJob
marked_job j = record j {
  labels = mark j.labels;
  template = record (j.template) {
    labels = mark j.template.labels;
    scheduler_name = scheduler_name;
  };
  suspend = some true;
}

unfoldable pub marked_set : SetKind → NewSet → NewSet
unfolding set_selector
marked_set kind s = record s {
  labels = mark s.labels;
  template = record (s.template) {
    labels = insert selector_label (set_selector kind s) (mark s.template.labels);
    scheduling_gates = s.template.scheduling_gates ++ (scheduling_gate_name ∷ []);
    scheduler_name = scheduler_name;
  };
}

-- NewSimpleJobspec and JobspecToYaml, of a name, a command, a number of nodes and one of CPUs.
abbrev pub MakeJobspec : Type 0
MakeJobspec = Str → Str → ℤ → ℤ → Reply Str

module _ (S : Services) (make_jobspec : MakeJobspec) where
  -- From the answer of Get on: found, not found, or another error.
  unfoldable pub submit_got :
      JobWrapped → Str → Str → ℤ → List Container → Reply FluxJob → M (Unit {0})
  unfolding flux_job
  submit_got job_type name namespace nodes containers (replied existing) = pure tt
  submit_got job_type name namespace nodes containers (refused not_found) =
      let resources = generate_pod_resources containers in
      let command = str "echo " ++ (namespace ++ (str " " ++ name)) in
      λ t.
        continue (result (make_jobspec name command nodes resources.cpu))
          (λ js.
            let fluxjob = flux_job job_type name namespace nodes js in
            perform (λ u. S.create_flux_job u fluxjob) (Call.create_flux_job fluxjob))
          t
  submit_got job_type name namespace nodes containers (refused e) = fail e

  unfoldable pub submit_flux_job : JobWrapped → Str → Str → ℤ → List Container → M (Unit {0})
  unfolding submit_got
  submit_flux_job job_type name namespace nodes containers t =
      let job_name = get_job_name job_type name in
      submit_got job_type name namespace nodes containers (S.get_flux_job t namespace job_name)
        (Call.get_flux_job namespace job_name ∷ t)

  unfoldable pub enqueue_pod : NewPod → M NewPod
  unfolding marked_pod submit_flux_job is_seen
  enqueue_pod pod =
      if str_eq pod.name []
      then pure pod
      else if is_seen pod.labels
      then pure pod
      else submit_flux_job JobWrapped.pod pod.name pod.namespace (pos 1) pod.containers
        >> pure (marked_pod pod)

  -- A number that is not set is a nil pointer, which is dereferenced.
  unfoldable pub submit_counted : JobWrapped → Str → Str → Option ℤ → List Container → M (Unit {0})
  unfolding submit_flux_job
  submit_counted job_type name namespace none containers = crash
  submit_counted job_type name namespace (some nodes) containers =
      submit_flux_job job_type name namespace nodes containers

  unfoldable pub enqueue_job : NewJob → M NewJob
  unfolding marked_job submit_counted is_seen
  enqueue_job job =
      if is_seen job.labels
      then pure job
      else submit_counted JobWrapped.job job.name job.namespace job.parallelism
          job.template.containers
        >> pure (marked_job job)

  -- EnqueueDeployment, EnqueueReplicaSet and EnqueueStatefulSet
  unfoldable pub enqueue_set : SetKind → NewSet → M NewSet
  unfolding marked_set submit_counted is_seen
  enqueue_set kind s =
      if is_seen s.labels
      then pure s
      else submit_counted (wrapped_of kind) s.name s.namespace s.replicas s.template.containers
        >> pure (marked_set kind s)
