-- ===== src/Service/Calls.antt =====
-- One constructor for each call that leaves the program, with the arguments that it sends.
use fluxqueue.Base.{List}
use fluxqueue.Base.Int.{ℤ}
use fluxqueue.Base.Str.{Str}
use fluxqueue.Types.{
  FluxJob, JobWrapped, Args, InsertOpts, InsertManyParams, MatchRequest, RiverConfig,
}
use fluxqueue.Service.Patches.{Patch}
use fluxqueue.Service.Runtime.{SetUp}

-- The values of `InsertIntoPending`, by the columns that the query names.
pub record PendingRow : Type 0 where
  pub job_spec : Str
  pub flux_job_name : Str
  pub namespace : Str
  pub name : Str
  pub type : JobWrapped
  pub reservation : ℤ
  pub duration : ℤ
  pub size : ℤ

pub data Call : Type 0 where
  new_pool : Call
  is_pending : Str → Str → Call
  insert_pending : PendingRow → Call
  query_pending : Call
  collect_pending : Call
  delete_pending : Str → Str → Call
  add_reservation : Str → ℤ → Call
  query_reservations : Call
  collect_reservations : Call
  delete_reservation : ℤ → Call
  new_client : RiverConfig → Call
  start_client : Call
  stop_client : Call
  list_nodes : Call
  create_file : Str → Call
  write_file : Str → Str → Call
  read_file : Str → Call
  init : Str → Str → Call
  insert_many : List InsertManyParams → Call
  insert : Args → InsertOpts → Call
  new_fluxion : Call
  match : MatchRequest → Call
  cancel : ℤ → Call
  new_clientset : Call
  patch_job : Str → Str → Patch → Call
  patch_pod : Str → Str → Patch → Call
  patch_stateful_set : Str → Str → Patch → Call
  get_pod : Str → Str → Call
  list_pods : Str → Str → Call
  get_flux_job : Str → Str → Call
  create_flux_job : FluxJob → Call
  delete_flux_job : FluxJob → Call
  update_status : FluxJob → Call
  set_up : SetUp → Call
