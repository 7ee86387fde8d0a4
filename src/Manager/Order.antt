-- ===== src/Manager/Order.antt =====
-- What main has done when it asks for the start of the manager.
use mathlib.Core.Path.{subst}
use fluxqueue.Base.{
  ◌≢◌, Bool, arith, ◌≡◌, sym, ap, ◌∙◌, true, false, inl, inr, All, some, List, [], ◌∷◌,
  if◌then◌else◌,
}
use fluxqueue.Base.Str.{Str}
use fluxqueue.Service.{
  Services, Result, ok, err, panic, End, finished, blocked, after_end, deferring, crash, Reply, M,
  perform, tried,
}
use fluxqueue.Service.Calls.{Call}
use fluxqueue.Service.Runtime.{SetUp}
use fluxqueue.Service.Stays.{tried-Stays}
use fluxqueue.Service.Binds.{bind-ok, bind_reached, tried_calls, tried-some}
use fluxqueue.Strategy.{easy_backfill}
use fluxqueue.Queue.{Queue, new_queue}
use fluxqueue.Jgf.{FluxJgf}
use fluxqueue.Cluster.{Requests}
use fluxqueue.Controller.SetUp.{FluxJobReconciler, new_flux_job_reconciler, set_duration}
use fluxqueue.Webhook.{MakeJobspec}
use fluxqueue.Webhook.Handle.{Codec}
use fluxqueue.System.{Reach, start, IsSetUpCall}
use fluxqueue.System.Lawful.{Extends, same, more, Extends-trans}
use fluxqueue.System.Invariant.{Called}
use fluxqueue.Manager.{
  Flags, manager_options, ask, new_reconciler, init_reconciler, serve, serve_closing, main,
}
use fluxqueue.Manager.Prefix.{IsPreparing, init_reconciler-Stays, new_reconciler-Stays}
use fluxqueue.Manager.Started.{
  start_call, unstarted, HasQueue, IsReady, deferring-Extends, serve_started,
}

IsPreparing-IsSetUpCall : (c : Call) → IsPreparing c → IsSetUpCall c
IsPreparing-IsSetUpCall (Call.set_up s) h = tt
IsPreparing-IsSetUpCall Call.new_pool h = tt
IsPreparing-IsSetUpCall c h = ground arith

set_up_calls : (t : List Call) → All IsPreparing t → All IsSetUpCall t
set_up_calls [] h = tt
set_up_calls (c ∷ t) (h, hs) = (IsPreparing-IsSetUpCall c h, set_up_calls t hs)

module _ (S : Services) (client_beside_error : Bool) (flags : Flags) where
  -- The rest of NewReconciler from the queue on.
  new_reconciler_queue :
      (t : List Call) (r : FluxJobReconciler) (q : Queue)
      → (new_reconciler S client_beside_error flags t).0 ≡ ok r
      → r.queue ≡ some q
      → HasQueue S q (new_reconciler S client_beside_error flags t).1
  unfolding new_reconciler new_flux_job_reconciler set_duration
  new_reconciler_queue t r q h e =
      let c : List Call = Call.set_up SetUp.get_config ∷ t in
      let options = manager_options flags in
      let d : List Call = Call.set_up (SetUp.new_manager options) ∷ c in
      let (_, _, h1, e1) = bind-ok (ask S SetUp.get_config) _ t h in
      let (_, _, h2, e2) = bind-ok (ask S (SetUp.new_manager options)) _ c h1 in
      let (_, _, h3, e3) = bind-ok (tried (ask S SetUp.http_client)) _ d h2 in
      let f : List Call = (tried (ask S SetUp.http_client) d).1 in
      let (_, _, h4, e4) = bind-ok (tried (ask S SetUp.rest_client)) _ f h3 in
      let v : List Call = (tried (ask S SetUp.rest_client) f).1 in
      let (queue, made, h5, e5) = bind-ok (tried (new_queue S (easy_backfill S))) _ v h4 in
      let w : List Call = (tried (new_queue S (easy_backfill S)) v).1 in
      let (client, _, h6, e6) = bind-ok (tried (perform S.new_fluxion Call.new_fluxion)) _ w h5 in
      let filled : queue ≡ some q = cc in
      let z : List Call = (tried (perform S.new_fluxion Call.new_fluxion) w).1 in
      let x : Extends w z =
        tried-Stays (Extends w) (perform S.new_fluxion Call.new_fluxion)
          (λ u k. more Call.new_fluxion k) w same in
      (
        v,
        tried-some (new_queue S (easy_backfill S)) v (made ∙ ap ok filled),
        subst (Extends (new_queue S (easy_backfill S) v).1) (sym (e1 ∙ e2 ∙ e3 ∙ e4 ∙ e5 ∙ e6))
            (subst (λ y. Extends y z) (tried_calls (new_queue S (easy_backfill S)) v) x),
      )

deferring-Called :
    (s : SetUp) (r : Result End) (t : List Call)
    → s ≢ SetUp.start_manager
    → Called start_call (after_end s r t).1
    → Called start_call t
deferring-Called s (ok finished) t other (inl e) = absurd (other (cc))
deferring-Called s (ok finished) t other (inr h) = h
deferring-Called s (ok blocked) t other h = h
deferring-Called s (err e) t other h = h
deferring-Called s panic t other (inl e) = absurd (other (cc))
deferring-Called s panic t other (inr h) = h

closing_started :
    (S : Services) (b : Bool) (m : M End) (t : List Call)
    → All IsPreparing t
    → Called start_call ((if b then deferring SetUp.close_fluxion m else crash) t).1
    → Called start_call (m t).1
      × ((v : List Call)
          → Extends v (m t).1
          → Extends v ((if b then deferring SetUp.close_fluxion m else crash) t).1)
closing_started S true m t h c = (
  deferring-Called SetUp.close_fluxion (m t).0 (m t).1 (λ e. cc) c,
  λ v x. deferring-Extends S SetUp.close_fluxion (m t).0 (m t).1 v x,
)
closing_started S false m t h c = absurd (unstarted t h c)

module _ (S : Services) (encode : FluxJgf → Reply Str) (list_running : Str → Reply (List Requests))
    (make_jobspec : MakeJobspec) (codec : Codec) (client_beside_error : Bool) (flags : Flags) where
  serve_closing_started :
      (r : FluxJobReconciler) (t : List Call)
      → All IsPreparing t
      → Called start_call (serve_closing S flags r t).1
      → (q : Queue) × (r.queue ≡ some q)
        × (u : List Call) × IsReady S flags t u
        × Extends (start_call ∷ u) (serve_closing S flags r t).1
  unfolding serve_closing
  serve_closing_started r t h c =
      let (d, keep) = closing_started S r.has_fluxion (serve S flags r) t h c in
      let (q, queued, u, ready, x) = serve_started S flags r t h d in
      (q, queued, u, ready, keep _ x)

  -- If a run of main, from a state of set-up calls, asks for the start of the manager, then NewQueue
  -- had returned a queue, the controller was set up, both health checks were added, the webhook was
  -- registered unless it is switched off, and the state is one from which System starts.
  pub main_started :
      (b : List Call)
      → All IsPreparing b
      → Called start_call (main S encode list_running client_beside_error flags b).1
      → (q : Queue) × (u : List Call) × HasQueue S q u
        × IsReady S flags b u
        × Reach S make_jobspec codec (start_call ∷ u)
        × Extends (start_call ∷ u) (main S encode list_running client_beside_error flags b).1
  unfolding main
  main_started b prepared c =
      let P : List Call → Type 0 = Called start_call in
      let m = new_reconciler S client_beside_error flags in
      let t : List Call = (m b).1 in
      let h : All IsPreparing t =
        new_reconciler-Stays (All IsPreparing) (λ c' p u k. (p, k)) S client_beside_error flags b
          prepared in
      let (r, made, c1, e1) = bind_reached P m _ b (unstarted t h) c in
      let n = tried (init_reconciler S encode list_running flags.policy r) in
      let v : List Call = (n t).1 in
      let init = init_reconciler S encode list_running flags.policy r in
      let g : All IsPreparing v =
        tried-Stays (All IsPreparing) init
          (init_reconciler-Stays (All IsPreparing) (λ c' p u k. (p, k)) S encode list_running
            flags.policy r)
          t h in
      let (_, _, c2, e2) = bind_reached P n _ t (unstarted v g) c1 in
      let (q, queued, u, ready, x) = serve_closing_started r v g c2 in
      let y : Extends t v =
        tried-Stays (Extends t) init
          (init_reconciler-Stays (Extends t) (λ c' p u' k. more c' k) S encode list_running
            flags.policy r)
          t same in
      let (w, queue_made, z) = new_reconciler_queue S client_beside_error flags b r q made queued in
      let x0 : Extends b t =
        new_reconciler-Stays (Extends b) (λ c' p u' k. more c' k) S client_beside_error flags b
          same in
      (
        q,
        u,
        (w, queue_made, Extends-trans z (Extends-trans y ready.before)),
        record {
          before = Extends-trans x0 (Extends-trans y ready.before);
          only_set_up = ready.only_set_up;
          controlled = ready.controlled;
          healthy = ready.healthy;
          ready = ready.ready;
          registered = ready.registered;
        },
        start (tt, set_up_calls u ready.only_set_up),
        subst (Extends (start_call ∷ u)) (sym (e1 ∙ e2)) x,
      )
