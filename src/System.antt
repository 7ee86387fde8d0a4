-- ===== src/System.antt =====
-- The whole program: the webhook, the controller and the workers over the same services, in any
-- order. A state is the list of the calls made so far. Each request, event or task is handled as one
-- step; a task that river holds may be worked any number of times.
pub mod Past
pub mod Lawful
pub mod Admission
pub mod Rows
pub mod Cycle
pub mod Control
pub mod Tasks
pub mod Ungating
pub mod Invariant
pub mod Safety
pub mod Progress
pub mod Released
pub mod Served
pub mod Neutral
pub mod Unlisted
pub mod Counts
pub mod Single
pub mod Ledger
pub mod Booked
pub mod Conserved
pub mod Lossless
pub mod Gated
pub mod Scheduled
pub mod Sets
pub mod Assigned
use fluxqueue.Base.{ℕ, ◌≡◌, ◌⊎◌, All, List, [], ◌∷◌}
use fluxqueue.Base.Int.{ℤ}
use fluxqueue.Base.Str.{Str}
use fluxqueue.Types.{
  JobArgs, CleanupArgs, UngateArgs, Args, job_args, cleanup_args, reservation_args, ungate_args,
  InsertManyParams,
}
use fluxqueue.Service.{Services, replied}
use fluxqueue.Service.Calls.{Call}
use fluxqueue.Queue.Cycle.{easy_queue}
use fluxqueue.Webhook.{MakeJobspec}
use fluxqueue.Webhook.Handle.{Codec, handle}
use fluxqueue.Controller.{reconcile, DeletedObject, delete_func}
use fluxqueue.Workers.Job as Job
use fluxqueue.Workers.Cleanup as Cleanup
use fluxqueue.Workers.Reservation as Reservation
use fluxqueue.Workers.Ungate as Ungate

-- One of the items has these arguments.
abbrev pub HasArgs : Args → List InsertManyParams → Type 0
HasArgs args [] = ⊥
HasArgs args (p ∷ ps) = (p.args ≡ args) ⊎ HasArgs args ps

-- River has taken a task with these arguments.
abbrev pub Submitted : Services → Args → List Call → Type 0
Submitted S args [] = ⊥
Submitted S args (Call.insert_many ps ∷ t) =
    ((S.insert_many t ps ≡ replied tt) × HasArgs args ps) ⊎ Submitted S args t
Submitted S args (Call.insert a opts ∷ t) =
    ((S.insert t a opts ≡ replied tt) × (a ≡ args)) ⊎ Submitted S args t
Submitted S args (_ ∷ t) = Submitted S args t

-- A call that the program may make before it handles a request.
abbrev pub IsSetUpCall : Call → Type 0
IsSetUpCall Call.new_pool = Unit
IsSetUpCall (Call.new_client config) = Unit
IsSetUpCall Call.start_client = Unit
IsSetUpCall Call.new_fluxion = Unit
IsSetUpCall Call.new_clientset = Unit
IsSetUpCall Call.list_nodes = Unit
IsSetUpCall (Call.create_file path) = Unit
IsSetUpCall (Call.write_file path text) = Unit
IsSetUpCall (Call.read_file path) = Unit
IsSetUpCall (Call.init policy graph) = Unit
IsSetUpCall (Call.set_up s) = Unit
IsSetUpCall _ = ⊥

module _ (S : Services) (make_jobspec : MakeJobspec) (codec : Codec) where
  -- `depth` is the reservation depth and `state` the word of the queue's mutex.
  pub data Step (t : List Call) : List Call → Type 0 where
    admit : (req : Str) → Step t (handle S make_jobspec codec req t).1
    reconciled :
        (depth : ℤ) (state : ℕ) (namespace name : Str)
        → Step t (reconcile S (easy_queue S depth state) namespace name t).1
    deleted :
        (depth : ℤ) (state : ℕ) (object : DeletedObject)
        → Step t (delete_func (easy_queue S depth state) object t).1
    job_task : (a : JobArgs) → Submitted S (job_args a) t → Step t (Job.work S a t).1
    cleanup_task :
        (a : CleanupArgs) → Submitted S (cleanup_args a) t → Step t (Cleanup.work S a t).1
    reservation_task : Submitted S reservation_args t → Step t (Reservation.work S t).1
    ungate_task : (a : UngateArgs) → Submitted S (ungate_args a) t → Step t (Ungate.work S a t).1

  -- The program starts where it has been set up.
  pub data Reach : List Call → Type 0 where
    start : {t : List Call} → All IsSetUpCall t → Reach t
    later : {t u : List Call} → Reach t → Step t u → Reach u
