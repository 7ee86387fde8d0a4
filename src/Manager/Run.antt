-- ===== src/Manager/Run.antt =====
-- The whole program, from the registration of the types on.
use mathlib.Core.Path.{subst}
use fluxqueue.Base.{◌≡◌, refl, sym, ap, Bool, ◌∙◌, All, List, [], ◌∷◌}
use fluxqueue.Base.Str.{Str}
use fluxqueue.Service.{Services, Result, ok, err, panic, Reply, returned}
use fluxqueue.Service.Calls.{Call}
use fluxqueue.Service.Runtime.{SetUp}
use fluxqueue.Service.Stays.{bind-Stays}
use fluxqueue.Service.Binds.{bind-ok, bind_reached}
use fluxqueue.Queue.{Queue}
use fluxqueue.Jgf.{FluxJgf}
use fluxqueue.Cluster.{Requests}
use fluxqueue.Webhook.{MakeJobspec}
use fluxqueue.Webhook.Handle.{Codec}
use fluxqueue.System.{Reach}
use fluxqueue.System.Lawful.{Extends, same, more, Extends-keeps, Extends-trans}
use fluxqueue.System.Invariant.{Called}
use fluxqueue.Manager.{Flags, ask, insisted, must, init, run, client_go_types, flux_job_types}
use fluxqueue.Manager.Prefix.{IsPreparing}
use fluxqueue.Manager.Started.{
  start_call, unstarted, HasQueue, IsReady, Accepted, Accepted-cons, asked-ok,
}
use fluxqueue.Manager.Order.{main_started}

insisted-ok : (r : Result (Unit {0})) (t : List Call) → (insisted r t).0 ≡ ok tt → r ≡ ok tt
insisted-ok (ok tt) t h = refl
insisted-ok (err e) t h = cc
insisted-ok panic t h = cc

insisted_calls : (r : Result (Unit {0})) (t : List Call) → (insisted r t).1 ≡ t
insisted_calls (ok tt) t = refl
insisted_calls (err e) t = refl
insisted_calls panic t = refl

Extends-nil : (t : List Call) → Extends [] t
Extends-nil [] = same
Extends-nil (c ∷ t) = more c (Extends-nil t)

module _ (S : Services) where
  -- The types of this group have been registered.
  abbrev pub Registered : Str → List Call → Type 0
  Registered types t = Accepted S (SetUp.add_to_scheme types) t

  must_calls :
      (types : Str) (t : List Call)
      → (must (ask S (SetUp.add_to_scheme types)) t).1 ≡ Call.set_up (SetUp.add_to_scheme types) ∷ t
  must_calls types t = insisted_calls (ask S (SetUp.add_to_scheme types) t).0 _

  must-Registered :
      (types : Str) (t : List Call)
      → (must (ask S (SetUp.add_to_scheme types)) t).0 ≡ ok tt
      → Registered types (Call.set_up (SetUp.add_to_scheme types) ∷ t)
  must-Registered types t h =
      asked-ok S (SetUp.add_to_scheme types) t
        (insisted-ok (ask S (SetUp.add_to_scheme types) t).0 _ h)

  abbrev types_calls : List Call
  types_calls =
      Call.set_up (SetUp.add_to_scheme flux_job_types)
      ∷ Call.set_up (SetUp.add_to_scheme client_go_types)
      ∷ []

  init-Registered :
      (init S []).0 ≡ ok tt
      → ((init S []).1 ≡ types_calls)
        × Registered client_go_types types_calls
        × Registered flux_job_types types_calls
  unfolding init
  init-Registered h =
      let m = must (ask S (SetUp.add_to_scheme client_go_types)) in
      let n = must (ask S (SetUp.add_to_scheme flux_job_types)) in
      let (_, first, second, e) = bind-ok m (λ _. n) [] h in
      let calls : (m []).1 ≡ Call.set_up (SetUp.add_to_scheme client_go_types) ∷ [] =
        must_calls client_go_types [] in
      let f : Registered client_go_types (Call.set_up (SetUp.add_to_scheme client_go_types) ∷ []) =
        must-Registered client_go_types [] first in
      let second' : (n (Call.set_up (SetUp.add_to_scheme client_go_types) ∷ [])).0 ≡ ok tt =
        subst (λ t. (n t).0 ≡ ok tt) calls second in
      (
        e
            ∙ must_calls flux_job_types (m []).1
            ∙ ap (λ t. Call.set_up (SetUp.add_to_scheme flux_job_types) ∷ t) calls,
        Accepted-cons S (SetUp.add_to_scheme client_go_types)
            (Call.set_up (SetUp.add_to_scheme flux_job_types)) _ f,
        must-Registered flux_job_types _ second',
      )

  IsPreparing-init : All IsPreparing (init S []).1
  unfolding init
  IsPreparing-init =
      bind-Stays (All IsPreparing) (must (ask S (SetUp.add_to_scheme client_go_types)))
        (λ _. must (ask S (SetUp.add_to_scheme flux_job_types)))
        (λ t h. subst (All IsPreparing) (sym (must_calls client_go_types t)) (tt, h))
        (λ _ t h. subst (All IsPreparing) (sym (must_calls flux_job_types t)) (tt, h)) [] tt

module _ (S : Services) (encode : FluxJgf → Reply Str) (list_running : Str → Reply (List Requests))
    (make_jobspec : MakeJobspec) (codec : Codec) (client_beside_error : Bool) where
  -- If the program asks for the start of the manager, then the types of Kubernetes and of a FluxJob had
  -- been registered and the command line been read, NewQueue had returned a queue, the controller was set
  -- up, both health checks were added, the webhook was registered unless it is switched off, and the
  -- state is one from which System starts.
  pub run_started :
      (parsed : Result Flags)
      → Called start_call (run S encode list_running client_beside_error parsed []).1
      → (flags : Flags) × (parsed ≡ ok flags)
        × (q : Queue) × (u : List Call) × Registered S client_go_types u
        × Registered S flux_job_types u
        × HasQueue S q u
        × IsReady S flags [] u
        × Reach S make_jobspec codec (start_call ∷ u)
        × Extends (start_call ∷ u) (run S encode list_running client_beside_error parsed []).1
  unfolding run
  run_started parsed c =
      let P : List Call → Type 0 = Called start_call in
      let t : List Call = (init S []).1 in
      let h : All IsPreparing t = IsPreparing-init S in
      let (_, done, c1, e1) = bind_reached P (init S) _ [] (unstarted t h) c in
      let (calls, client_go, flux_job) = init-Registered S done in
      let (flags, read, c2, e2) = bind_reached P (returned parsed) _ t (unstarted t h) c1 in
      let b : List Call = Call.set_up SetUp.set_logger ∷ t in
      let (q, u, queue, ready, reach, x) =
        main_started S encode list_running make_jobspec codec client_beside_error flags b (tt, h)
          c2 in
      let kept : Extends t u =
        Extends-trans (more (Call.set_up SetUp.set_logger) same) ready.before in
      (
        flags,
        read,
        q,
        u,
        Extends-keeps (Registered S client_go_types)
            (Accepted-cons S (SetUp.add_to_scheme client_go_types)) kept
            (subst (Registered S client_go_types) (sym calls) client_go),
        Extends-keeps (Registered S flux_job_types)
            (Accepted-cons S (SetUp.add_to_scheme flux_job_types)) kept
            (subst (Registered S flux_job_types) (sym calls) flux_job),
        queue,
        record {
          before = Extends-nil u;
          only_set_up = ready.only_set_up;
          controlled = ready.controlled;
          healthy = ready.healthy;
          ready = ready.ready;
          registered = ready.registered;
        },
        reach,
        subst (Extends (start_call ∷ u)) (sym (e1 ∙ e2)) x,
      )
