-- ===== src/Service.antt =====
-- What the program asks of others: PostgreSQL through pgx, the river queue, Fluxion and the
-- Kubernetes API. None of these is under this repository, so their replies are a parameter, and may
-- depend on every call made before. A method of the program is a function from the calls made so
-- far, the latest first, to its result and the calls made then.
pub mod Runtime
pub mod Calls
pub mod Patches
pub mod Keeps
pub mod Stays
pub mod Binds
use fluxqueue.Base.{
  ◌≡◌, ◌⊎◌, inl, inr, refl, Bool, true, false, Bool, true, false, Option, none, some, List, [], ◌∷◌,
  ◌++◌,
}
use fluxqueue.Base.Int.{ℤ}
use fluxqueue.Base.Str.{Str}
use fluxqueue.Types.{
  FluxJob, JobModel, ReservationModel, Args, InsertOpts, InsertManyParams, MatchRequest,
  MatchResponse, RiverConfig, KubeNode, AllocationNode, Pod, SubmitStatus,
}
use Patches.{Patch}
use Calls.{Call, PendingRow}
use Runtime.{SetUp}

-- A Go error: one of an outside service (`remote`), the API server's "not found", `fmt.Errorf`, and
-- `river.JobCancel`.
pub data Error : Type 0 where
  remote : Str → Error
  not_found : Error
  failure : Str → Error
  job_cancel : Error → Error

-- A result, an error or a panic, which also stands for the end of the program by log.Fatalf.
pub data Result {ℓ} (A : Type ℓ) : Type ℓ where
  ok : A → Result A
  err : Error → Result A
  panic : Result A

-- What a service answers.
pub data Reply {ℓ} (A : Type ℓ) : Type ℓ where
  replied : A → Reply A
  refused : Error → Reply A

-- The replies, each of which sees the calls made before it.
pub record Services : Type 0 where
  pub new_pool : List Call → Reply (Unit {0})
  pub is_pending : List Call → Str → Str → Reply Str
  pub insert_pending : List Call → PendingRow → Reply (Unit {0})
  pub query_pending : List Call → Reply (Unit {0})
  pub collect_pending : List Call → Reply (List JobModel)
  pub delete_pending : List Call → Str → Str → Reply (Unit {0})
  pub add_reservation : List Call → Str → ℤ → Reply (Unit {0})
  pub query_reservations : List Call → Reply (Unit {0})
  pub collect_reservations : List Call → Reply (List ReservationModel)
  pub delete_reservation : List Call → ℤ → Reply (Unit {0})
  pub new_client : List Call → RiverConfig → Reply (Unit {0})
  pub start_client : List Call → Reply (Unit {0})
  pub stop_client : List Call → Reply (Unit {0})
  pub list_nodes : List Call → Reply (List KubeNode)
  pub create_file : List Call → Str → Reply (Unit {0})
  pub write_file : List Call → Str → Str → Reply (Unit {0})
  pub read_file : List Call → Str → Reply Str
  pub init : List Call → Str → Str → Reply Str
  pub insert_many : List Call → List InsertManyParams → Reply (Unit {0})
  pub insert : List Call → Args → InsertOpts → Reply (Unit {0})
  pub new_fluxion : List Call → Reply (Unit {0})
  pub match : List Call → MatchRequest → Reply MatchResponse
  pub cancel : List Call → ℤ → Reply (Unit {0})
  pub unmarshal : Str → Reply (List AllocationNode)
  pub new_clientset : List Call → Reply (Unit {0})
  pub patch_job : List Call → Str → Str → Patch → Reply (Unit {0})
  pub patch_pod : List Call → Str → Str → Patch → Reply (Unit {0})
  pub patch_stateful_set : List Call → Str → Str → Patch → Reply (Unit {0})
  pub get_pod : List Call → Str → Str → Reply Pod
  pub list_pods : List Call → Str → Str → Reply (List Pod)
  pub get_flux_job : List Call → Str → Str → Reply FluxJob
  pub create_flux_job : List Call → FluxJob → Reply (Unit {0})
  pub delete_flux_job : List Call → FluxJob → Reply (Unit {0})
  pub update_status : List Call → FluxJob → Reply (Unit {0})
  pub set_up : List Call → SetUp → Reply (Unit {0})

abbrev pub M {ℓ} : Type ℓ → Type ℓ
M A = List Call → Result A × List Call

-- The rest of a method runs only after a result.
abbrev pub continue {ℓ κ} :
    {A : Type ℓ} {B : Type κ} → Result A → (A → M B) → List Call → Result B × List Call
continue (ok a) f t = f a t
continue (err e) f t = (err e, t)
continue panic f t = (panic, t)

infixl 5 ◌>>=◌ ◌>>◌
abbrev pub ◌>>=◌ {ℓ κ} : {A : Type ℓ} {B : Type κ} → M A → (A → M B) → M B
◌>>=◌ m f t = let r = m t in continue r.0 f r.1

abbrev pub ◌>>◌ {ℓ} : {B : Type ℓ} → M (Unit {0}) → M B → M B
m >> k = m >>= λ _. k

abbrev pub pure {ℓ} : {A : Type ℓ} → A → M A
pure a t = (ok a, t)

-- A result that needs no call.
abbrev pub returned {ℓ} : {A : Type ℓ} → Result A → M A
returned r t = (r, t)

abbrev pub fail {ℓ} : {A : Type ℓ} → Error → M A
fail e t = (err e, t)

abbrev pub crash {ℓ} : {A : Type ℓ} → M A
crash t = (panic, t)

abbrev pub result {ℓ} : {A : Type ℓ} → Reply A → Result A
result (replied a) = ok a
result (refused e) = err e

-- A call is made and its reply returned.
abbrev pub perform {ℓ} : {A : Type ℓ} → (List Call → Reply A) → Call → M A
perform reply c t = (result (reply t), c ∷ t)

-- log.Fatalf on an error, which ends the program.
abbrev pub fatal {ℓ} : {A : Type ℓ} → Result A → Result A
fatal (ok a) = ok a
fatal (err e) = panic
fatal panic = panic

-- The error as a value, for a caller that goes on after it. A panic stays one.
abbrev pub caught {ℓ} : {A : Type ℓ} → Result A → List Call → Result (Option Error) × List Call
caught (ok a) t = (ok none, t)
caught (err e) t = (ok (some e), t)
caught panic t = (panic, t)

abbrev pub attempt {ℓ} : {A : Type ℓ} → M A → M (Option Error)
attempt m t = let r = m t in caught r.0 r.1

-- What a method returns where its error is dropped.
abbrev pub ignore {ℓ} : {A : Type ℓ} → M A → M (Unit {0})
ignore m = attempt m >>= λ _. pure tt

abbrev pub is_ok {ℓ} : {A : Type ℓ} → Reply A → Bool
is_ok (replied a) = true
is_ok (refused e) = false

pub Reply-cases {ℓ} :
    {A : Type ℓ} (r : Reply A) → ((a : A) × (r ≡ replied a)) ⊎ ((e : Error) × (r ≡ refused e))
Reply-cases (replied a) = inl (a, refl)
Reply-cases (refused e) = inr (e, refl)

abbrev pub kept {ℓ} : {A : Type ℓ} → Result A → List Call → Result (Option A) × List Call
kept (ok a) t = (ok (some a), t)
kept (err e) t = (ok none, t)
kept panic t = (panic, t)

-- An error is logged, and the method goes on without a value.
abbrev pub tried {ℓ} : {A : Type ℓ} → M A → M (Option A)
tried m t = let r = m t in kept r.0 r.1

-- A step of the set-up that cannot fail.
abbrev pub note : SetUp → M (Unit {0})
note s t = (ok tt, Call.set_up s ∷ t)

-- How main goes on at its last statement: it returns, or it waits for ever.
pub data End : Type 0 where
  finished : End
  blocked : End

-- A channel that is nil, or one that is closed. A receive from the first never returns, from the
-- second at once.
pub data Channel : Type 0 where
  nil_channel : Channel
  closed_channel : Channel

unfoldable pub received : Channel → End
received nil_channel = blocked
received closed_channel = finished

-- What is deferred runs on a return and on a panic; os.Exit, which is an error here, does not run it,
-- and a wait without end does not come to it.
abbrev pub after_end : SetUp → Result End → List Call → Result End × List Call
after_end s (ok finished) t = (ok finished, Call.set_up s ∷ t)
after_end s (ok blocked) t = (ok blocked, t)
after_end s (err e) t = (err e, t)
after_end s panic t = (panic, Call.set_up s ∷ t)

abbrev pub deferring : SetUp → M End → M End
deferring s m t = let r = m t in after_end s r.0 r.1
