-- ===== src/System/Invariant.antt =====
-- In every reachable state each call was lawful when it was made.
use mathlib.Core.Path.{subst}
use fluxqueue.Base.{◌≡◌, ◌⊎◌, inl, inr, All, List, [], ◌∷◌}
use fluxqueue.Types.{
  JobArgs, Args, job_args, cleanup_args, reservation_args, ungate_args, InsertManyParams,
}
use fluxqueue.Service.{Services}
use fluxqueue.Service.Calls.{Call}
use fluxqueue.Queue.Pending.{IsDatabase}
use fluxqueue.Webhook.{MakeJobspec}
use fluxqueue.Webhook.Handle.{Codec}
use fluxqueue.System.{
  HasArgs, Submitted, Step, admit, reconciled, deleted, job_task, cleanup_task, reservation_task,
  ungate_task, Reach, start, later, IsSetUpCall,
}
use fluxqueue.System.Past.{Allocated, Allocated-cons}
use fluxqueue.System.Lawful.{
  Extends, same, more, FromFluxJob, LawfulItem, LawfulItems, LawfulTask, Lawful, AreLawful, Keeps,
}
use fluxqueue.System.Admission.{handle-Keeps}
use fluxqueue.System.Rows.{Found-cons}
use fluxqueue.System.Control.{reconcile-Keeps, delete_func-Keeps}
use fluxqueue.System.Tasks.{job-Keeps, cleanup-Keeps, reservation-Keeps}
use fluxqueue.System.Ungating.{ungate-Keeps}

-- The call was made.
abbrev pub Called : Call → List Call → Type 0
Called c [] = ⊥
Called c (d ∷ t) = (d ≡ c) ⊎ Called c t

module _ (S : Services) where
  item_lawful :
      (args : Args) (ps : List InsertManyParams) (t : List Call)
      → LawfulItems S ps t
      → HasArgs args ps
      → LawfulItem S args t
  item_lawful args [] t h m = elim m [ ]
  item_lawful args (p ∷ ps) t (h, hs) (inl e) = subst (λ a. LawfulItem S a t) e h
  item_lawful args (p ∷ ps) t (h, hs) (inr m) = item_lawful args ps t hs m

  -- What is known of a task that river has taken.
  abbrev Origin : Args → List Call → Type 0
  Origin (job_args a) t = FromFluxJob S a t
  Origin (ungate_args a) t = Allocated S a.nodes a.job_id t
  Origin _ t = Unit

  Origin-cons : (args : Args) (c : Call) (t : List Call) → Origin args t → Origin args (c ∷ t)
  Origin-cons (job_args a) c t (spec, found, e) = (spec, Found-cons S spec c t found, e)
  Origin-cons (ungate_args a) c t h = Allocated-cons S a.nodes a.job_id c t h
  Origin-cons (cleanup_args a) c t h = tt
  Origin-cons reservation_args c t h = tt

  item-Origin : (args : Args) (t : List Call) → LawfulItem S args t → Origin args t
  item-Origin (job_args a) t h = h
  item-Origin (ungate_args a) t h = elim h [ ]
  item-Origin (cleanup_args a) t h = tt
  item-Origin reservation_args t h = tt

  task-Origin : (args : Args) (t : List Call) → LawfulTask S args t → Origin args t
  task-Origin (ungate_args a) t h = h
  task-Origin (job_args a) t h = elim h [ ]
  task-Origin (cleanup_args a) t h = tt
  task-Origin reservation_args t h = tt

  Submitted-Origin :
      (args : Args) (t : List Call) → AreLawful S t → Submitted S args t → Origin args t
  Submitted-Origin args [] h m = elim m [ ]
  Submitted-Origin args (Call.insert_many ps ∷ t) (h, hs) (inl (_, i)) =
      Origin-cons args _ t (item-Origin args t (item_lawful args ps t h.0 i))
  Submitted-Origin args (Call.insert_many ps ∷ t) (h, hs) (inr m) =
      Origin-cons args _ t (Submitted-Origin args t hs m)
  Submitted-Origin args (Call.insert a opts ∷ t) (h, hs) (inl (_, e)) =
      Origin-cons args _ t (task-Origin args t (subst (λ b. LawfulTask S b t) e h.0))
  Submitted-Origin args (Call.insert a opts ∷ t) (h, hs) (inr m) =
      Origin-cons args _ t (Submitted-Origin args t hs m)
  Submitted-Origin args (c ∷ t) (h, hs) m = Origin-cons args c t (Submitted-Origin args t hs m)

  -- The calls before a call were lawful, and the call was so after them.
  pub before-AreLawful :
      {c : Call} {u t : List Call}
      → Extends (c ∷ u) t
      → AreLawful S t
      → Lawful S c u × AreLawful S u
  before-AreLawful same h = h
  before-AreLawful (more d e) (_, hs) = before-AreLawful e hs

  -- A call was lawful when it was made.
  pub Called-Lawful :
      (c : Call) (t : List Call)
      → AreLawful S t
      → Called c t
      → (u : List Call) × Lawful S c u × Extends u t
  Called-Lawful c [] h m = elim m [ ]
  Called-Lawful c (d ∷ t) (h, hs) (inl e) = (t, subst (λ b. Lawful S b t) e h, more d same)
  Called-Lawful c (d ∷ t) (h, hs) (inr m) =
      let (u, lawful, e) = Called-Lawful c t hs m in (u, lawful, more d e)

  set_up-AreLawful : (t : List Call) → All IsSetUpCall t → AreLawful S t
  set_up-AreLawful [] h = tt
  set_up-AreLawful (Call.new_pool ∷ t) (h, hs) = (tt, set_up-AreLawful t hs)
  set_up-AreLawful (Call.new_client config ∷ t) (h, hs) = (tt, set_up-AreLawful t hs)
  set_up-AreLawful (Call.start_client ∷ t) (h, hs) = (tt, set_up-AreLawful t hs)
  set_up-AreLawful (Call.new_fluxion ∷ t) (h, hs) = (tt, set_up-AreLawful t hs)
  set_up-AreLawful (Call.new_clientset ∷ t) (h, hs) = (tt, set_up-AreLawful t hs)
  set_up-AreLawful (Call.list_nodes ∷ t) (h, hs) = (tt, set_up-AreLawful t hs)
  set_up-AreLawful (Call.create_file path ∷ t) (h, hs) = (tt, set_up-AreLawful t hs)
  set_up-AreLawful (Call.write_file path text ∷ t) (h, hs) = (tt, set_up-AreLawful t hs)
  set_up-AreLawful (Call.read_file path ∷ t) (h, hs) = (tt, set_up-AreLawful t hs)
  set_up-AreLawful (Call.init policy graph ∷ t) (h, hs) = (tt, set_up-AreLawful t hs)
  set_up-AreLawful (Call.set_up s ∷ t) (h, hs) = (tt, set_up-AreLawful t hs)
  set_up-AreLawful (_ ∷ t) (h, hs) = absurd h

module _ (S : Services) (make_jobspec : MakeJobspec) (codec : Codec)
    (database : IsDatabase S []) where
  Step-Keeps : {t u : List Call} → AreLawful S t → Step S make_jobspec codec t u → Keeps S t u
  Step-Keeps {t} h (admit req) = handle-Keeps S make_jobspec codec req t
  Step-Keeps {t} h (reconciled depth state namespace name) =
      reconcile-Keeps S database depth state namespace name t
  Step-Keeps {t} h (deleted depth state object) = delete_func-Keeps S depth state object t
  Step-Keeps {t} h (job_task a m) = job-Keeps S a t
  Step-Keeps {t} h (cleanup_task a m) = cleanup-Keeps S a t
  Step-Keeps {t} h (reservation_task m) = reservation-Keeps S t
  Step-Keeps {t} h (ungate_task a m) = ungate-Keeps S a t (Submitted-Origin S (ungate_args a) t h m)

  pub Reach-AreLawful : {t : List Call} → Reach S make_jobspec codec t → AreLawful S t
  Reach-AreLawful (start h) = set_up-AreLawful S _ h
  Reach-AreLawful (later r step) = let h = Reach-AreLawful r in (Step-Keeps h step).lawful h

  -- In every reachable state, if the table of pending jobs starts empty, refuses a second row of one
  -- name and namespace, and a read returns exactly the rows that this program put there, latest first, then a job
  -- that river has taken carries the fields of a FluxJob that the API server returned: its own name and its namespace, and the jobspec, the name of the wrapped object,
  -- the type, the reservation, the duration and the number of nodes of its spec.
  pub submitted_jobs_lem :
      {t : List Call} (a : JobArgs)
      → Reach S make_jobspec codec t
      → Submitted S (job_args a) t
      → FromFluxJob S a t
  submitted_jobs_lem {t} a r m = Submitted-Origin S (job_args a) t (Reach-AreLawful r) m
