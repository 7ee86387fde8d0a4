-- ===== src/Manager/Started.antt =====
-- What is so where main asks for the start of the manager.
use mathlib.Core.Path.{subst}
use fluxqueue.Base.{
  ◌≡◌, refl, ◌⊎◌, inl, inr, false, Bool-cases, All, Option, none, some, List, [], ◌∷◌, arith,
}
use fluxqueue.Base.Str.{str, str_eq}
use fluxqueue.Service.{
  Services, Result, ok, err, panic, replied, Reply-cases, ◌>>◌, perform, tried, End, finished,
  blocked, after_end,
}
use fluxqueue.Service.Calls.{Call}
use fluxqueue.Service.Runtime.{SetUp}
use fluxqueue.Service.Keeps.{perform_keeps}
use fluxqueue.Service.Stays.{Stays, bind-Stays, tried-Stays}
use fluxqueue.Service.Binds.{bind_reached}
use fluxqueue.Strategy.{easy_backfill}
use fluxqueue.Queue.{Queue, new_queue, stop}
use fluxqueue.Controller.SetUp.{FluxJobReconciler, setup_with_manager, setup_events}
use fluxqueue.System.Lawful.{Extends, same, more, Extends-trans, Extends-keeps}
use fluxqueue.System.Invariant.{Called}
use fluxqueue.Manager.{Flags, webhook_path, ask, start, start_queued, register, serve}
use fluxqueue.Manager.Prefix.{IsPreparing, setup_events-Stays}

abbrev pub start_call : Call
start_call = Call.set_up SetUp.start_manager

pub unstarted : (t : List Call) → All IsPreparing t → ¬ Called start_call t
unstarted [] h c = c
unstarted (d ∷ t) (h, hs) (inl e) = subst IsPreparing e h
unstarted (d ∷ t) (h, hs) (inr c) = unstarted t hs c

register_lem :
    (flags : Flags) (t : List Call)
    → All IsPreparing t
    → All IsPreparing (register flags t).1
      × Extends t (register flags t).1
      × (str_eq flags.enable_webhooks (str "false") ≡ false
          → Called (Call.set_up (SetUp.register_webhook webhook_path)) (register flags t).1)
unfolding register
register_lem flags t h = elim (Bool-cases (str_eq flags.enable_webhooks (str "false"))) [
  | inl off ↦ rw off (h, same, λ on. cc)
  | inr on ↦ rw on ((tt, (tt, h)), more _ (more _ same), λ _. inl refl)
]

module _ (S : Services) where
  -- The step of the set-up was asked for and succeeded.
  abbrev pub Accepted : SetUp → List Call → Type 0
  Accepted s [] = ⊥
  Accepted s (Call.set_up r ∷ t) = ((r ≡ s) × (S.set_up t r ≡ replied tt)) ⊎ Accepted s t
  Accepted s (_ ∷ t) = Accepted s t

  pub Accepted-cons : (s : SetUp) (c : Call) (t : List Call) → Accepted s t → Accepted s (c ∷ t)
  Accepted-cons s (Call.set_up r) t h = inr h
  Accepted-cons s _ t h = h

  -- NewQueue has returned a queue.
  abbrev pub HasQueue : Queue → List Call → Type 0
  HasQueue q t =
      (v : List Call) × ((new_queue S (easy_backfill S) v).0 ≡ ok q)
      × Extends (new_queue S (easy_backfill S) v).1 t

  -- What is known of a moment at which main asks for the start: `q` is the queue.
  pub record IsReady (flags : Flags) (t u : List Call) : Type 0 where
    pub before : Extends t u
    pub only_set_up : All IsPreparing u
    pub controlled : Accepted SetUp.build_controller u
    pub healthy : Accepted (SetUp.add_check (str "healthz")) u
    pub ready : Accepted (SetUp.add_check (str "readyz")) u
    pub registered :
        str_eq flags.enable_webhooks (str "false") ≡ false
        → Called (Call.set_up (SetUp.register_webhook webhook_path)) u

  pub asked-ok :
      (s : SetUp) (t : List Call)
      → (perform (λ u. S.set_up u s) (Call.set_up s) t).0 ≡ ok tt
      → Accepted s (Call.set_up s ∷ t)
  asked-ok s t h = elim (Reply-cases (S.set_up t s)) [
    | inl (tt, e) ↦ inl (refl, e)
    | inr (_, e) ↦ absurd (ground (arith, h, e))
  ]

  stop-Stays :
      (P : List Call → Type 0)
      → ((c : Call) (t : List Call) → P t → P (c ∷ t))
      → (q : Queue) → Stays P (stop S q)
  unfolding stop
  stop-Stays P grows q t h = elim (Bool-cases q.has_client) [
    | inl client ↦ rw client (grows Call.stop_client t h)
    | inr absent ↦ rw absent h
  ]

  start-Extends : (q : Queue) (t : List Call) → Extends (start_call ∷ t) (start S q t).1
  unfolding start
  start-Extends q t =
      let P : List Call → Type 0 = Extends (start_call ∷ t) in
      perform_keeps P (λ u. S.set_up u SetUp.start_manager) start_call _ t same
        (λ _ h.
          bind-Stays P (tried (stop S q)) _
            (tried-Stays P (stop S q) (stop-Stays P (λ c u k. more c k) q)) (λ _ u k. k)
            (start_call ∷ t) h)

  pub deferring-Extends :
      (s : SetUp) (r : Result End) (t v : List Call) → Extends v t → Extends v (after_end s r t).1
  deferring-Extends s (ok finished) t v h = more (Call.set_up s) h
  deferring-Extends s (ok blocked) t v h = h
  deferring-Extends s (err e) t v h = h
  deferring-Extends s panic t v h = more (Call.set_up s) h

  events-Stays :
      (P : List Call → Type 0)
      → ((c : Call) → IsPreparing c → (t : List Call) → P t → P (c ∷ t))
      → Stays P (tried (setup_events S))
  events-Stays P grows = tried-Stays P (setup_events S) (setup_events-Stays P grows S)

  start_queued_lem :
      (queue : Option Queue) (t : List Call)
      → All IsPreparing t
      → Called start_call (start_queued S queue t).1
      → (q : Queue) × (queue ≡ some q) × Extends (start_call ∷ t) (start_queued S queue t).1
  unfolding start_queued
  start_queued_lem none t h c = absurd (unstarted t h c)
  start_queued_lem (some q) t h c = (
    q,
    refl,
    deferring-Extends SetUp.close_pool (start S q t).0 (start S q t).1 _ (start-Extends q t),
  )

  abbrev healthz : SetUp
  healthz = SetUp.add_check (str "healthz")

  abbrev readyz : SetUp
  readyz = SetUp.add_check (str "readyz")

  checks_started :
      (queue : Option Queue) (t : List Call)
      → All IsPreparing t
      → Called start_call ((ask S healthz >> (ask S readyz >> start_queued S queue)) t).1
      → (q : Queue) × (queue ≡ some q)
        × Accepted healthz (Call.set_up healthz ∷ t)
        × Accepted readyz (Call.set_up readyz ∷ Call.set_up healthz ∷ t)
        × Extends
            (start_call ∷ Call.set_up readyz ∷ Call.set_up healthz ∷ t)
            ((ask S healthz >> (ask S readyz >> start_queued S queue)) t).1
  checks_started queue t h c =
      let P : List Call → Type 0 = Called start_call in
      let u : List Call = Call.set_up healthz ∷ t in
      let (_, healthy, c1, e1) =
        bind_reached P (ask S healthz) (λ _. ask S readyz >> start_queued S queue) t
          (unstarted u (tt, h)) c in
      let (_, ready, c2, e2) =
        bind_reached P (ask S readyz) (λ _. start_queued S queue) u
          (unstarted (Call.set_up readyz ∷ u) (tt, (tt, h))) c1 in
      let (q, queued, x) = start_queued_lem queue (Call.set_up readyz ∷ u) (tt, (tt, h)) c2 in
      (q, queued, asked-ok healthz t healthy, asked-ok readyz u ready, rw (e1, e2) x)

  -- The calls that are made before the start are known, and those that follow are more.
  pub serve_started :
      (flags : Flags) (r : FluxJobReconciler) (t : List Call)
      → All IsPreparing t
      → Called start_call (serve S flags r t).1
      → (q : Queue) × (r.queue ≡ some q)
        × (u : List Call) × IsReady flags t u
        × Extends (start_call ∷ u) (serve S flags r t).1
  unfolding serve setup_with_manager
  serve_started flags r t h c =
      let P : List Call → Type 0 = Called start_call in
      let b : List Call = Call.set_up SetUp.build_controller ∷ t in
      let (_, built, c1, e1) = bind_reached P (setup_with_manager S) _ t (unstarted b (tt, h)) c in
      let (g, x, registered) = register_lem flags b (tt, h) in
      let v : List Call = (register flags b).1 in
      let (_, _, c2, e2) = bind_reached P (register flags) _ b (unstarted v g) c1 in
      let w : List Call = (tried (setup_events S) v).1 in
      let k : All IsPreparing w = events-Stays (All IsPreparing) (λ c' p u m. (p, m)) v g in
      let (_, _, c3, e3) = bind_reached P (tried (setup_events S)) _ v (unstarted w k) c2 in
      let (q, queued, healthy, ready, more_calls) = checks_started r.queue w k c3 in
      let y : Extends v w = events-Stays (Extends v) (λ c' p u m. more c' m) v same in
      (
        q,
        queued,
        Call.set_up readyz ∷ Call.set_up healthz ∷ w,
        record {
          before = more _ (more _ (Extends-trans (more _ same) (Extends-trans x y)));
          only_set_up = (tt, (tt, k));
          controlled = inr (
              inr (
                Extends-keeps (Accepted SetUp.build_controller)
                  (Accepted-cons SetUp.build_controller) (Extends-trans x y)
                  (asked-ok SetUp.build_controller t built)));
          healthy = inr healthy;
          ready = ready;
          registered = λ on. inr (
              inr (
                Extends-keeps (Called (Call.set_up (SetUp.register_webhook webhook_path)))
                  (λ c' u m. inr m) y (registered on)));
        },
        rw (e1, e2, e3) more_calls,
      )
