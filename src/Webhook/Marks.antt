-- ===== src/Webhook/Marks.antt =====
-- The marks that the webhook leaves on an object, and those who read them: the webhook itself, when
-- it sees the object's pods, and the ungate worker.
use fluxqueue.Base.{
  inl, inr, Option-cases, ◌≡◌, refl, true, false, some, List, [], ◌∷◌, ◌++◌, arith,
}
use fluxqueue.Base.Str.{Str, str, str_eq, str_eq_refl}
use fluxqueue.Base.Decimal.{format_int, format_nat}
use fluxqueue.Base.Assoc.{lookup, insert, lookup-insert}
use fluxqueue.Types.{UngateArgs, wrapped_string}
use fluxqueue.Service.{Services, ok}
use fluxqueue.Service.Calls.{Call}
use fluxqueue.Workers.Gate.{scheduling_gate_name}
use fluxqueue.Workers.Ungate.{has_gate, selector_label, selector, selector_of}
use fluxqueue.Webhook.{
  seen_label, is_seen, set_selector, NewPod, NewJob, NewSet, SetKind, deployment, replica_set,
  stateful_set, wrapped_of, MakeJobspec, marked_job, marked_set, enqueue_pod, enqueue_job,
  enqueue_set,
}

is_seen-mark : (labels : List (Str × Str)) → is_seen (insert seen_label (str "yes") labels) ≡ true
unfolding is_seen str_eq
is_seen-mark labels = ground (arith, lookup-insert seen_label seen_label (str "yes") labels)

is_seen-selector :
    (v : Str) (labels : List (Str × Str))
    → is_seen (insert selector_label v (insert seen_label (str "yes") labels)) ≡ true
unfolding is_seen str_eq
is_seen-selector v labels = ground (
  arith,
  lookup-insert selector_label seen_label v (insert seen_label (str "yes") labels),
  lookup-insert seen_label seen_label (str "yes") labels,
)

-- Each of the first labels is one of the second, which may be more.
abbrev pub HasLabels : List (Str × Str) → List (Str × Str) → Type 0
HasLabels ls ms = (k v : Str) → lookup k ls ≡ some v → lookup k ms ≡ some v

is_seen-HasLabels :
    (ls ms : List (Str × Str)) → HasLabels ls ms → is_seen ls ≡ true → is_seen ms ≡ true
unfolding is_seen
is_seen-HasLabels ls ms h seen = elim (Option-cases (lookup seen_label ls)) [
  | inl missing ↦ absurd (ground (arith, seen, missing))
  | inr (v, found) ↦ ground (arith, h seen_label v found)
]

has_gate-append : (gates : List Str) → has_gate (gates ++ (scheduling_gate_name ∷ [])) ≡ true
unfolding has_gate str_eq
has_gate-append [] = refl
has_gate-append (g ∷ gates) = ground (arith, has_gate-append gates)

selector-set :
    (kind : SetKind) (s : NewSet) (args : UngateArgs)
    → args.name ≡ s.name
    → args.namespace ≡ s.namespace
    → args.type ≡ wrapped_string (wrapped_of kind)
    → selector args ≡ selector_label ++ (str "=" ++ set_selector kind s)
unfolding selector selector_of set_selector wrapped_string format_int format_nat str_eq
selector-set deployment s args n m k = ground (arith, n, m, k)
selector-set replica_set s args n m k = ground (arith, n, m, k)
selector-set stateful_set s args n m k = ground (arith, n, m, k)

module _ (S : Services) (make_jobspec : MakeJobspec) where
  enqueue_set_ok :
      (kind : SetKind) (s s' : NewSet) (t : List Call)
      → is_seen s.labels ≡ false
      → (enqueue_set S make_jobspec kind s t).0 ≡ ok s'
      → marked_set kind s ≡ s'
  unfolding enqueue_set
  enqueue_set_ok kind s s' t unseen h = ground (arith, unseen, h)

  -- A set of pods that was not seen before and is enqueued gives its pods the gate, and the label by
  -- which the ungate worker looks for the pods of a set of that kind, name and namespace.
  pub enqueue_set-selector :
      (kind : SetKind) (s s' : NewSet) (t : List Call) (args : UngateArgs)
      → is_seen s.labels ≡ false
      → (enqueue_set S make_jobspec kind s t).0 ≡ ok s'
      → args.name ≡ s.name
      → args.namespace ≡ s.namespace
      → args.type ≡ wrapped_string (wrapped_of kind)
      → (has_gate s'.template.scheduling_gates ≡ true)
        × ((v : Str) × (lookup selector_label s'.template.labels ≡ some v)
            × (selector args ≡ selector_label ++ (str "=" ++ v)))
  unfolding marked_set
  enqueue_set-selector kind s s' t args unseen h n m k =
      rw (← enqueue_set_ok kind s s' t unseen h) (
        has_gate-append s.template.scheduling_gates,
        (
          set_selector kind s,
          ground (
            arith,
            str_eq_refl selector_label,
            lookup-insert selector_label selector_label (set_selector kind s)
                (insert seen_label (str "yes") s.template.labels),
          ),
          selector-set kind s args n m k,
        ),
      )

  -- A set that was not seen before and is enqueued is left alone when it comes again, and so is every
  -- pod that has the labels of its template, whatever labels it has beside them.
  pub enqueue_set-again :
      (kind : SetKind) (s s' : NewSet) (t u : List Call) (pod : NewPod)
      → is_seen s.labels ≡ false
      → (enqueue_set S make_jobspec kind s t).0 ≡ ok s'
      → HasLabels s'.template.labels pod.labels
      → (enqueue_set S make_jobspec kind s' u ≡ (ok s', u))
        × (enqueue_pod S make_jobspec pod u ≡ (ok pod, u))
  unfolding enqueue_set enqueue_pod marked_set
  enqueue_set-again kind s s' t u pod unseen h labels =
      let marked : marked_set kind s ≡ s' = enqueue_set_ok kind s s' t unseen h in
      (
        ground (arith, marked, is_seen-mark s.labels),
        ground (
          arith,
          is_seen-HasLabels s'.template.labels pod.labels labels
              (rw (← marked) (is_seen-selector (set_selector kind s) s.template.labels)),
        ),
      )

  -- A job that was not seen before and is enqueued is suspended, is left alone when it comes again,
  -- and so is every pod that has the labels of its template, whatever labels it has beside them.
  pub enqueue_job-again :
      (j j' : NewJob) (t u : List Call) (pod : NewPod)
      → is_seen j.labels ≡ false
      → (enqueue_job S make_jobspec j t).0 ≡ ok j'
      → HasLabels j'.template.labels pod.labels
      → (j'.suspend ≡ some true)
        × (enqueue_job S make_jobspec j' u ≡ (ok j', u))
        × (enqueue_pod S make_jobspec pod u ≡ (ok pod, u))
  unfolding enqueue_job enqueue_pod marked_job
  enqueue_job-again j j' t u pod unseen h labels =
      let marked : marked_job j ≡ j' = ground (arith, unseen, h) in
      (
        ground (arith, marked),
        ground (arith, marked, is_seen-mark j.labels),
        ground (
          arith,
          is_seen-HasLabels j'.template.labels pod.labels labels
              (rw (← marked) (is_seen-mark j.template.labels)),
        ),
      )
