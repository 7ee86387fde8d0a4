-- ===== src/System/Served.antt =====
-- What NewQueue sets up with river against the tasks that the program hands to it.
use fluxqueue.Base.{◌≡◌, ◌⊎◌, inl, inr, All, List, [], ◌∷◌, arith}
use mathlib.Core.Path.{subst}
use fluxqueue.Types.{InsertManyParams, RiverConfig}
use fluxqueue.Service.{Services, ok}
use fluxqueue.Service.Calls.{Call}
use fluxqueue.Strategy.{easy_backfill, easy_add_workers}
use fluxqueue.Queue.{Queue, new_queue}
use fluxqueue.Queue.Pending.{IsDatabase}
use fluxqueue.Webhook.{MakeJobspec}
use fluxqueue.Webhook.Handle.{Codec}
use fluxqueue.System.{Reach}
use fluxqueue.System.Lawful.{IsServed, easy_config, AreLawful}
use fluxqueue.System.Invariant.{Reach-AreLawful}

abbrev pub IsItem : InsertManyParams → List InsertManyParams → Type 0
IsItem p [] = ⊥
IsItem p (q ∷ qs) = (q ≡ p) ⊎ IsItem p qs

-- River was asked to take this task.
abbrev pub Asked : InsertManyParams → List Call → Type 0
Asked p [] = ⊥
Asked p (Call.insert_many ps ∷ t) = IsItem p ps ⊎ Asked p t
Asked p (Call.insert args opts ∷ t) = (record { args = args; insert_opts = opts } ≡ p) ⊎ Asked p t
Asked p (_ ∷ t) = Asked p t

item-IsServed :
    (p : InsertManyParams) (ps : List InsertManyParams)
    → All (IsServed easy_config) ps
    → IsItem p ps
    → IsServed easy_config p
item-IsServed p [] h m = elim m [ ]
item-IsServed p (q ∷ qs) (h, hs) (inl e) = subst (IsServed easy_config) e h
item-IsServed p (q ∷ qs) (h, hs) (inr m) = item-IsServed p qs hs m

module _ (S : Services) where
  Asked-IsServed :
      (p : InsertManyParams) (t : List Call) → AreLawful S t → Asked p t → IsServed easy_config p
  Asked-IsServed p [] h m = elim m [ ]
  Asked-IsServed p (Call.insert_many ps ∷ t) (h, hs) (inl i) = item-IsServed p ps h.1 i
  Asked-IsServed p (Call.insert_many ps ∷ t) (h, hs) (inr m) = Asked-IsServed p t hs m
  Asked-IsServed p (Call.insert args opts ∷ t) (h, hs) (inl e) = subst (IsServed easy_config) e h.1
  Asked-IsServed p (Call.insert args opts ∷ t) (h, hs) (inr m) = Asked-IsServed p t hs m
  Asked-IsServed p (c ∷ t) (h, hs) m = Asked-IsServed p t hs m

  new_queue_starts :
      (u : List Call) (q : Queue)
      → (new_queue S (easy_backfill S) u).0 ≡ ok q
      → (new_queue S (easy_backfill S) u).1
        ≡ Call.start_client ∷ Call.new_client easy_config ∷ Call.new_pool ∷ u
  unfolding new_queue easy_backfill easy_add_workers
  new_queue_starts u q e = ground (arith, e)

module _ (S : Services) (make_jobspec : MakeJobspec) (codec : Codec)
    (database : IsDatabase S []) where
  -- If the table of pending jobs starts empty, refuses a second row of one name and namespace, and a
  -- read returns exactly the rows that this program put there, latest first, and if NewQueue returns
  -- a queue, then it has started a river client whose configuration has, for every
  -- task that river is asked to take in any reachable state, a queue of the task's name and a worker
  -- of its kind.
  pub tasks-IsServed :
      {t : List Call} (u : List Call) (q : Queue) (p : InsertManyParams)
      → Reach S make_jobspec codec t
      → (new_queue S (easy_backfill S) u).0 ≡ ok q
      → Asked p t
      → (config : RiverConfig) × ((new_queue S (easy_backfill S) u).1
          ≡ Call.start_client ∷ Call.new_client config ∷ Call.new_pool ∷ u)
        × IsServed config p
  tasks-IsServed {t} u q p r e m = (
    easy_config,
    new_queue_starts S u q e,
    Asked-IsServed S p t (Reach-AreLawful S make_jobspec codec database r) m,
  )
