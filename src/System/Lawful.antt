-- ===== src/System/Lawful.antt =====
-- What must have happened before each call, and how a method is shown to keep to it.
use fluxqueue.Base.{Option, ◌≡◌, refl, true, some, All, List, [], ◌∷◌}
use fluxqueue.Base.Int.{ℤ}
use fluxqueue.Base.Str.{str, in_list}
use fluxqueue.Base.Assoc.{lookup}
use fluxqueue.Types.{
  FluxJob, JobArgs, Args, job_args, cleanup_args, reservation_args, ungate_args, InsertManyParams,
  status_submit, RiverConfig, kind,
}
use fluxqueue.Service.{
  Services, Error, Result, ok, err, panic, Reply, replied, refused, M, ◌>>=◌, continue, pure,
  perform, ignore, caught, attempt, result,
}
use fluxqueue.Service.Calls.{Call}
use fluxqueue.Service.Patches.{Patch}
use fluxqueue.Queue.{pending_row, river_config}
use fluxqueue.Webhook.Submit.{NotFound}
use fluxqueue.Workers.Reservation.Table.{AfterCancel}
use fluxqueue.System.{Submitted}
use fluxqueue.System.Past.{args_of, Allocated, Found, Marked, Labelled}

-- `u` is `t` after further calls.
pub data Extends (t : List Call) : List Call → Type 0 where
  same : Extends t t
  more : {u : List Call} (c : Call) → Extends t u → Extends t (c ∷ u)

pub Extends-trans : {t u v : List Call} → Extends t u → Extends u v → Extends t v
Extends-trans p same = p
Extends-trans p (more c q) = more c (Extends-trans p q)

pub Extends-keeps {ℓ} :
    (P : List Call → Type ℓ) {t u : List Call}
    → ((c : Call) (v : List Call) → P v → P (c ∷ v))
    → Extends t u
    → P t
    → P u
Extends-keeps P stays same h = h
Extends-keeps P stays (more c e) h = stays c _ (Extends-keeps P stays e h)

-- What NewQueue configures river with.
abbrev pub easy_config : RiverConfig
easy_config = river_config (str "job" ∷ str "cleanup" ∷ str "reservation" ∷ str "ungate" ∷ [])

-- River has a queue for the task, and a worker for its kind.
abbrev pub IsServed : RiverConfig → InsertManyParams → Type 0
IsServed config p =
    ((workers : ℤ) × (lookup p.insert_opts.queue config.queues ≡ some workers))
    × (in_list (kind p.args) config.workers ≡ true)

module _ (S : Services) where
  -- The job of a FluxJob that the API server returned.
  abbrev pub FromFluxJob : JobArgs → List Call → Type 0
  FromFluxJob a t = (spec : FluxJob) × Found S spec t × (a ≡ args_of spec)

  abbrev pub LawfulItem : Args → List Call → Type 0
  LawfulItem (job_args a) t = FromFluxJob a t
  LawfulItem (cleanup_args a) t = Unit
  LawfulItem reservation_args t = Unit
  LawfulItem (ungate_args a) t = ⊥

  abbrev pub LawfulItems : List InsertManyParams → List Call → Type 0
  LawfulItems [] t = Unit
  LawfulItems (p ∷ ps) t = LawfulItem p.args t × LawfulItems ps t

  abbrev pub LawfulTask : Args → List Call → Type 0
  LawfulTask (ungate_args a) t = Allocated S a.nodes a.job_id t
  LawfulTask _ t = ⊥

  abbrev pub LawfulPatch : Patch → List Call → Type 0
  LawfulPatch (Patch.unsuspend_template ls) t = Labelled S ls t
  LawfulPatch (Patch.template ls) t = Labelled S ls t
  LawfulPatch _ t = Unit

  abbrev pub Lawful : Call → List Call → Type 0
  Lawful (Call.create_flux_job j) t = NotFound S j t
  Lawful (Call.delete_flux_job j) t = Found S j t × (j.submit_status ≡ status_submit)
  Lawful (Call.insert_pending r) t = (spec : FluxJob) × Found S spec t × (r ≡ pending_row spec)
  Lawful (Call.insert_many ps) t = LawfulItems ps t × All (IsServed easy_config) ps
  Lawful (Call.delete_pending name namespace) t =
      (a : JobArgs) × (a.name ≡ name) × (a.namespace ≡ namespace) × Submitted S (job_args a) t
  Lawful (Call.delete_reservation id) t = AfterCancel S id t
  Lawful (Call.insert args opts) t =
      LawfulTask args t × IsServed easy_config (record { args = args; insert_opts = opts })
  Lawful (Call.patch_job namespace name p) t = LawfulPatch p t
  Lawful (Call.patch_pod namespace name (Patch.labels ls)) t = Labelled S ls t
  Lawful (Call.patch_pod namespace name (Patch.remove_gate i)) t = Marked S name t
  Lawful _ t = Unit

  -- Every call was lawful when it was made.
  abbrev pub AreLawful : List Call → Type 0
  AreLawful [] = Unit
  AreLawful (c ∷ t) = Lawful c t × AreLawful t

  pub record Keeps (t u : List Call) : Type 0 where
    pub lawful : AreLawful t → AreLawful u
    pub extends : Extends t u

  pub Keeps-refl : (t : List Call) → Keeps t t
  Keeps-refl t = record { lawful = λ h. h; extends = same }

  pub Keeps-trans : {t u v : List Call} → Keeps t u → Keeps u v → Keeps t v
  Keeps-trans p q = record {
    lawful = λ h. q.lawful (p.lawful h);
    extends = Extends-trans p.extends q.extends;
  }

  pub Keeps-cons : (c : Call) (t : List Call) → (AreLawful t → Lawful c t) → Keeps t (c ∷ t)
  Keeps-cons c t h = record { lawful = λ g. (h g, g); extends = more c same }

  Keeps-continue {ℓ κ} :
      {A : Type ℓ} {B : Type κ} (r : Result A) (f : A → M B) (t u : List Call)
      → Keeps t u
      → ((a : A) → r ≡ ok a → Keeps u (f a u).1)
      → Keeps t (continue r f u).1
  Keeps-continue (ok a) f t u k rest = Keeps-trans k (rest a refl)
  Keeps-continue (err e) f t u k rest = k
  Keeps-continue panic f t u k rest = k

  -- A method and the rest after its result.
  pub bind-Keeps {ℓ κ} :
      {A : Type ℓ} {B : Type κ} (m : M A) (f : A → M B) (t : List Call)
      → Keeps t (m t).1
      → ((a : A) → (m t).0 ≡ ok a → Keeps (m t).1 (f a (m t).1).1)
      → Keeps t ((m >>= f) t).1
  bind-Keeps m f t k rest = Keeps-continue (m t).0 f t (m t).1 k rest

  Keeps-reply {ℓ κ} :
      {A : Type ℓ} {B : Type κ} (r : Reply A) (f : A → M B) (t u : List Call)
      → Keeps t u
      → ((a : A) → r ≡ replied a → Keeps u (f a u).1)
      → Keeps t (continue (result r) f u).1
  Keeps-reply (replied a) f t u k rest = Keeps-trans k (rest a refl)
  Keeps-reply (refused e) f t u k rest = k

  -- A call, and the rest after its reply.
  pub call-Keeps {ℓ κ} :
      {A : Type ℓ} {B : Type κ} (reply : List Call → Reply A) (c : Call) (f : A → M B)
      (t : List Call)
      → (AreLawful t → Lawful c t)
      → ((a : A) → reply t ≡ replied a → Keeps (c ∷ t) (f a (c ∷ t)).1)
      → Keeps t ((perform reply c >>= f) t).1
  call-Keeps reply c f t h rest = Keeps-reply (reply t) f t (c ∷ t) (Keeps-cons c t h) rest

  Keeps-caught {ℓ} :
      {A : Type ℓ} (r : Result A) (t u : List Call) → Keeps t u → Keeps t (caught r u).1
  Keeps-caught (ok a) t u k = k
  Keeps-caught (err e) t u k = k
  Keeps-caught panic t u k = k

  -- A method whose error is caught, and the rest after it.
  pub attempt-Keeps {ℓ κ} :
      {A : Type ℓ} {B : Type κ} (m : M A) (f : Option Error → M B) (t : List Call)
      → Keeps t (m t).1
      → ((e : Option Error)
          → (attempt m t).0 ≡ ok e
          → Keeps (attempt m t).1 (f e (attempt m t).1).1)
      → Keeps t ((attempt m >>= f) t).1
  attempt-Keeps m f t k rest = bind-Keeps (attempt m) f t (Keeps-caught (m t).0 t (m t).1 k) rest

  pub ignore-Keeps {ℓ} :
      {A : Type ℓ} (m : M A) (t : List Call) → Keeps t (m t).1 → Keeps t (ignore m t).1
  ignore-Keeps m t k = attempt-Keeps m (λ _. pure tt) t k (λ e h. Keeps-refl _)
