-- ===== src/Tests/Database.antt =====
-- Services that answer every call, over a table of pending jobs that is kept in memory.
use mathlib.Core.List.{reverse}
use fluxqueue.Base.{◌≡◌, refl, Bool, true, false, List, [], ◌∷◌, ◌++◌, map, arith, if◌then◌else◌}
use fluxqueue.Base.Int.{ℤ, pos, ltb_ℤ}
use fluxqueue.Base.Str.{Str, str, str_eq}
use fluxqueue.Types.{
  JobWrapped, FluxJob, FluxJobSpec, JobArgs, ReservationModel, AllocationNode, MatchResponse, Pod,
  status_new,
}
use fluxqueue.Service.{Services, remote, not_found, Reply, replied, refused}
use fluxqueue.Service.Calls.{Call, PendingRow}
use fluxqueue.Service.Patches.{flux_job_id_label, nodes_label}
use fluxqueue.Queue.Pending.{has_row, remove_rows, model_of_row, table, effect, IsDatabase}

-- The rows after the calls, from no row.
unfoldable pub rows : List Call → List PendingRow
rows [] = []
rows (Call.insert_pending r ∷ t) =
    let kept = rows t in if has_row r.name r.namespace kept then kept else kept ++ (r ∷ [])
rows (Call.delete_pending name namespace ∷ t) = remove_rows name namespace (rows t)
rows (_ ∷ t) = rows t

unfoldable pub insert_reply : Bool → Reply (Unit {0})
insert_reply true = refused (remote (str "duplicate key"))
insert_reply false = replied tt

abbrev pub sample_spec : FluxJobSpec
sample_spec = record {
  job_spec = str "version: 1";
  type = JobWrapped.job;
  name = str "lammps";
  duration = pos 3600;
  reservation = false;
  nodes = pos 2;
}

abbrev pub sample_job : FluxJob
sample_job = record {
  name = str "lammps-job";
  namespace = str "default";
  spec = sample_spec;
  submit_status = status_new;
}

abbrev pub sample_args : JobArgs
sample_args = record {
  jobspec = str "version: 1";
  name = str "lammps";
  namespace = str "default";
  flux_job_name = str "lammps-job";
  type = str "1";
  reservation = pos 1;
  duration = pos 3600;
  size = pos 2;
  nodes = [];
}

abbrev pub sample_pod : Pod
sample_pod = record {
  name = str "lammps-0";
  namespace = str "default";
  labels =
      (nodes_label, str "kind-worker__kind-worker2")
      ∷ (flux_job_id_label, str "12")
      ∷ (str "batch.kubernetes.io/job-completion-index", str "1")
      ∷ [];
  scheduling_gates = str "other" ∷ str "fluxqueue" ∷ [];
}

abbrev pub sample_graph : List AllocationNode
sample_graph =
    record { type = str "node"; basename = str "kind-worker" }
    ∷ record { type = str "core"; basename = str "core" }
    ∷ record { type = str "node"; basename = str "kind-worker2" }
    ∷ []

abbrev pub sample_response : MatchResponse
sample_response = record { allocation = str "{}"; reserved = true; job_id = pos 12 }

abbrev pub sample_reservations : List ReservationModel
sample_reservations =
    record { job_id = pos 7; name = str "lammps" }
    ∷ record { job_id = pos 9; name = str "amg" }
    ∷ []

-- Fluxion refuses to cancel the jobs from 9 on.
unfoldable pub cancels : ℤ → Bool
cancels id = ltb_ℤ id (pos 9)

unfoldable pub cancel_reply : Bool → Reply (Unit {0})
cancel_reply true = replied tt
cancel_reply false = refused (remote (str "unknown job"))

-- What was written to a file last.
unfoldable pub contents : Str → List Call → Reply Str
contents path [] = refused not_found
contents path (Call.write_file p text ∷ t) =
    let before = contents path t in if str_eq p path then replied text else before
contents path (_ ∷ t) = contents path t

unfoldable pub willing : Services
unfolding insert_reply cancel_reply
willing = record {
  new_pool = λ t. replied tt;
  is_pending = λ t name namespace. replied (str "SELECT 0");
  insert_pending = λ t r. insert_reply (has_row r.name r.namespace (rows t));
  query_pending = λ t. replied tt;
  collect_pending = λ t. replied (map model_of_row (reverse (rows t)));
  delete_pending = λ t name namespace. replied tt;
  add_reservation = λ t name id. replied tt;
  query_reservations = λ t. replied tt;
  collect_reservations = λ t. replied sample_reservations;
  delete_reservation = λ t id. replied tt;
  new_client = λ t config. replied tt;
  start_client = λ t. replied tt;
  stop_client = λ t. replied tt;
  list_nodes = λ t. replied [];
  set_up = λ t s. replied tt;
  create_file = λ t path. replied tt;
  write_file = λ t path text. replied tt;
  read_file = λ t path. contents path t;
  init = λ t policy graph. replied (str "ok");
  insert_many = λ t ps. replied tt;
  insert = λ t args opts. replied tt;
  new_fluxion = λ t. replied tt;
  match = λ t r. replied sample_response;
  cancel = λ t id. cancel_reply (cancels id);
  unmarshal = λ s. replied sample_graph;
  new_clientset = λ t. replied tt;
  patch_job = λ t namespace name p. replied tt;
  patch_pod = λ t namespace name p. replied tt;
  patch_stateful_set = λ t namespace name p. replied tt;
  get_pod = λ t namespace name. replied sample_pod;
  list_pods = λ t namespace s. replied (sample_pod ∷ []);
  get_flux_job = λ t namespace name. replied sample_job;
  create_flux_job = λ t j. replied tt;
  delete_flux_job = λ t j. replied tt;
  update_status = λ t j. replied tt;
}

-- The table that follows from the calls is the table kept in memory.
pub table-willing : (t : List Call) → table willing [] t ≡ rows t
unfolding table rows effect willing insert_reply has_row
table-willing [] = refl
table-willing (Call.insert_pending r ∷ t) = ground (arith, table-willing t)
table-willing (Call.delete_pending name namespace ∷ t) = ground (arith, table-willing t)
table-willing (_ ∷ t) = table-willing t

pub willing-IsDatabase : IsDatabase willing []
unfolding willing insert_reply
willing-IsDatabase = record {
  unique_index = λ t r h. ground (arith, h, table-willing t);
  newest_first = λ t models e. ground (arith, e, table-willing t);
}

-- The same services, where the FluxJob that is read depends on the calls made before.
unfoldable pub reading : (List Call → FluxJob) → Services
unfolding willing
reading job = record willing { get_flux_job = λ t namespace name. replied (job t) }

pub table-reading : (job : List Call → FluxJob) (t : List Call) → table (reading job) [] t ≡ rows t
unfolding table rows effect reading insert_reply has_row
table-reading job [] = refl
table-reading job (Call.insert_pending r ∷ t) = ground (arith, table-reading job t)
table-reading job (Call.delete_pending name namespace ∷ t) = ground (arith, table-reading job t)
table-reading job (_ ∷ t) = table-reading job t

pub reading-IsDatabase : (job : List Call → FluxJob) → IsDatabase (reading job) []
unfolding reading insert_reply
reading-IsDatabase job = record {
  unique_index = λ t r h. ground (arith, h, table-reading job t);
  newest_first = λ t models e. ground (arith, e, table-reading job t);
}
