-- ===== src/Manager/Pool.antt =====
-- The connections that main defers to close.
use mathlib.Core.Path.{subst}
use fluxqueue.Base.{
  ◌≢◌, inl, inr, Bool, true, false, Bool-cases, Option, none, some, List, [], ◌∷◌, if◌then◌else◌,
}
use fluxqueue.Base.Str.{Str, str, str_eq}
use fluxqueue.Service.{
  Services, Result, ok, err, panic, Reply, replied, refused, M, ◌>>=◌, tried, deferring, End,
  finished, blocked, after_end, crash, kept, continue, result,
}
use fluxqueue.Service.Calls.{Call}
use fluxqueue.Service.Runtime.{SetUp}
use fluxqueue.Service.Stays.{Stays, bind-Stays, tried-Stays, call-Stays}
use fluxqueue.Queue.{Queue, stop}
use fluxqueue.Jgf.{FluxJgf}
use fluxqueue.Cluster.{Requests}
use fluxqueue.Controller.SetUp.{FluxJobReconciler, setup_with_manager, setup_events}
use fluxqueue.System.Invariant.{Called}
use fluxqueue.Manager.{
  Flags, webhook_path, ask, start, start_queued, register, serve, serve_closing, new_reconciler,
  init_reconciler, main,
}
use fluxqueue.Manager.Prefix.{
  IsPreparing, setup_events-Stays, new_reconciler-Stays, init_reconciler-Stays,
}

abbrev pub close_pool_call : Call
close_pool_call = Call.set_up SetUp.close_pool

-- The pool has not been closed.
abbrev pub IsOpen : List Call → Type 0
IsOpen t = ¬ Called close_pool_call t

IsOpen-cons : (c : Call) (t : List Call) → c ≢ close_pool_call → IsOpen t → IsOpen (c ∷ t)
IsOpen-cons c t other h (inl e) = other e
IsOpen-cons c t other h (inr k) = h k

IsOpen-preparing : (c : Call) → IsPreparing c → (t : List Call) → IsOpen t → IsOpen (c ∷ t)
IsOpen-preparing c p t h = IsOpen-cons c t (λ e. subst IsPreparing e p) h

deferring-IsOpen :
    (s : SetUp) (r : Result End) (t : List Call)
    → s ≢ SetUp.close_pool
    → IsOpen t
    → IsOpen (after_end s r t).1
deferring-IsOpen s (ok finished) t other h = IsOpen-cons (Call.set_up s) t (λ e. other (cc)) h
deferring-IsOpen s (ok blocked) t other h = h
deferring-IsOpen s (err e) t other h = h
deferring-IsOpen s panic t other h = IsOpen-cons (Call.set_up s) t (λ e. other (cc)) h

-- No panic, and if there is a result, this holds of it.
abbrev IsLeft {ℓ} : {A : Type ℓ} → (A → Type 0) → Result A → Type 0
IsLeft P (ok a) = P a
IsLeft P (err e) = Unit
IsLeft P panic = ⊥

IsBlocked : End → Type 0
IsBlocked finished = ⊥
IsBlocked blocked = Unit

waiting-IsOpen :
    (s : SetUp) (r : Result End) (t : List Call)
    → IsLeft IsBlocked r
    → IsOpen t
    → IsOpen (after_end s r t).1
unfolding IsBlocked
waiting-IsOpen s (ok finished) t waits h = absurd waits
waiting-IsOpen s (ok blocked) t waits h = h
waiting-IsOpen s (err e) t waits h = h
waiting-IsOpen s panic t waits h = absurd waits

reply-IsLeft : {A : Type 0} (r : Reply A) → IsLeft (λ a. Unit) (result r)
reply-IsLeft (replied a) = tt
reply-IsLeft (refused x) = tt

kept-IsLeft :
    {A : Type 0} (r : Result A) (t : List Call)
    → IsLeft (λ a. Unit) r
    → IsLeft (λ a. Unit) (kept r t).0
kept-IsLeft (ok a) t h = tt
kept-IsLeft (err x) t h = tt
kept-IsLeft panic t h = absurd h

continue-IsLeft :
    {A B : Type 0} (Q : B → Type 0) (r : Result A) (f : A → M B) (t : List Call)
    → IsLeft (λ a. Unit) r
    → ((a : A) (u : List Call) → IsLeft Q (f a u).0)
    → IsLeft Q (continue r f t).0
continue-IsLeft Q (ok a) f t h rest = rest a t
continue-IsLeft Q (err x) f t h rest = tt
continue-IsLeft Q panic f t h rest = absurd h

closing-IsOpen :
    (b : Bool) (m : M End)
    → Stays IsOpen m
    → Stays IsOpen (if b then deferring SetUp.close_fluxion m else crash)
closing-IsOpen true m stays t h =
    deferring-IsOpen SetUp.close_fluxion (m t).0 (m t).1 (λ e. cc) (stays t h)
closing-IsOpen false m stays t h = h

module _ (S : Services) where
  stop-IsOpen : (q : Queue) → Stays IsOpen (stop S q)
  unfolding stop
  stop-IsOpen q t h = elim (Bool-cases q.has_client) [
    | inl client ↦ rw client (IsOpen-cons Call.stop_client t (λ e. cc) h)
    | inr absent ↦ rw absent h
  ]

  start-IsOpen : (q : Queue) → Stays IsOpen (start S q)
  unfolding start
  start-IsOpen q =
      call-Stays IsOpen (λ u. S.set_up u SetUp.start_manager) (Call.set_up SetUp.start_manager) _
        (λ t h. IsOpen-cons _ t (λ e. cc) h)
        (λ _.
          bind-Stays IsOpen (tried (stop S q)) _ (tried-Stays IsOpen (stop S q) (stop-IsOpen q))
            (λ _ t h. h))

  stop-IsLeft : (q : Queue) (t : List Call) → IsLeft (λ a. Unit) (stop S q t).0
  unfolding stop
  stop-IsLeft q t = elim (Bool-cases q.has_client) [
    | inl client ↦ rw client (reply-IsLeft (S.stop_client t))
    | inr absent ↦ rw absent tt
  ]

  -- main does not return from its last statement, and does not panic before it.
  start-IsLeft : (q : Queue) (t : List Call) → IsLeft IsBlocked (start S q t).0
  unfolding start IsBlocked
  start-IsLeft q t =
      continue-IsLeft IsBlocked (result (S.set_up t SetUp.start_manager)) _
        (Call.set_up SetUp.start_manager ∷ t) (reply-IsLeft (S.set_up t SetUp.start_manager))
        (λ _ u.
          continue-IsLeft IsBlocked (tried (stop S q) u).0 _ (tried (stop S q) u).1
            (kept-IsLeft (stop S q u).0 (stop S q u).1 (stop-IsLeft q u)) (λ _ v. tt))

  start_queued-IsOpen : (queue : Option Queue) → Stays IsOpen (start_queued S queue)
  unfolding start_queued
  start_queued-IsOpen none t h = h
  start_queued-IsOpen (some q) t h =
      waiting-IsOpen SetUp.close_pool (start S q t).0 (start S q t).1 (start-IsLeft q t)
        (start-IsOpen q t h)

  register-IsOpen : (flags : Flags) → Stays IsOpen (register flags)
  unfolding register
  register-IsOpen flags t h = elim (Bool-cases (str_eq flags.enable_webhooks (str "false"))) [
    | inl off ↦ rw off h
    | inr on ↦ rw on (
        IsOpen-cons (Call.set_up (SetUp.register_webhook webhook_path))
          (Call.set_up SetUp.set_manager ∷ t) (λ e. cc)
          (IsOpen-cons (Call.set_up SetUp.set_manager) t (λ e. cc) h))
  ]

  asking :
      {B : Type 0} (s : SetUp) (f : Unit {0} → M B)
      → s ≢ SetUp.close_pool
      → ((a : Unit {0}) → Stays IsOpen (f a))
      → Stays IsOpen (ask S s >>= f)
  asking s f other rest =
      call-Stays IsOpen (λ t. S.set_up t s) (Call.set_up s) f
        (λ t h. IsOpen-cons (Call.set_up s) t (λ e. other (cc)) h) rest

  serve-IsOpen : (flags : Flags) (r : FluxJobReconciler) → Stays IsOpen (serve S flags r)
  unfolding serve setup_with_manager
  serve-IsOpen flags r =
      asking SetUp.build_controller _ (λ e. cc)
        (λ _. bind-Stays IsOpen (register flags) _ (register-IsOpen flags) (λ _.
          bind-Stays IsOpen (tried (setup_events S)) _
            (tried-Stays IsOpen (setup_events S) (setup_events-Stays IsOpen IsOpen-preparing S))
            (λ _.
              asking (SetUp.add_check (str "healthz")) _ (λ e. cc)
                (λ _.
                  asking (SetUp.add_check (str "readyz")) _ (λ e. cc)
                    (λ _. start_queued-IsOpen r.queue)))))

module _ (S : Services) (encode : FluxJgf → Reply Str) (list_running : Str → Reply (List Requests))
    (client_beside_error : Bool) (flags : Flags) where
  -- Whatever the services reply, no run of main closes the queue's pool, although it defers the Close
  -- and that would run on a return and on a panic.
  pub main-IsOpen : IsOpen (main S encode list_running client_beside_error flags []).1
  unfolding main serve_closing
  main-IsOpen =
      let init = λ (r : FluxJobReconciler). init_reconciler S encode list_running flags.policy r in
      bind-Stays IsOpen (new_reconciler S client_beside_error flags) _
        (new_reconciler-Stays IsOpen IsOpen-preparing S client_beside_error flags)
        (λ r.
          bind-Stays IsOpen (tried (init r)) _
            (tried-Stays IsOpen (init r)
              (init_reconciler-Stays IsOpen IsOpen-preparing S encode list_running flags.policy r))
            (λ _. closing-IsOpen r.has_fluxion (serve S flags r) (serve-IsOpen S flags r)))
        [] (λ h. h)
