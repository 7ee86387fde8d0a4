-- ===== src/Service/Stays.antt =====
-- Rules for what holds of the calls made and is kept by a method, whatever the services reply.
use fluxqueue.Base.{Bool, true, false, if◌then◌else◌, Option, List, ◌∷◌}
use fluxqueue.Service.{
  Error, caught, attempt, ignore, Result, ok, err, panic, Reply, M, ◌>>=◌, continue, pure, perform,
  kept, tried, returned,
}
use fluxqueue.Service.Calls.{Call}

module _ {ℓ} (P : List Call → Type ℓ) where
  abbrev pub Stays {κ} : {A : Type κ} → M A → Type ℓ
  Stays m = (t : List Call) → P t → P (m t).1

  continue-Stays {κ μ} :
      {A : Type κ} {B : Type μ} (r : Result A) (f : A → M B) (t : List Call)
      → P t
      → ((a : A) → Stays (f a))
      → P (continue r f t).1
  continue-Stays (ok a) f t h rest = rest a t h
  continue-Stays (err e) f t h rest = h
  continue-Stays panic f t h rest = h

  pub bind-Stays {κ μ} :
      {A : Type κ} {B : Type μ} (m : M A) (f : A → M B)
      → Stays m
      → ((a : A) → Stays (f a))
      → Stays (m >>= f)
  bind-Stays m f stays rest t h = continue-Stays (m t).0 f (m t).1 (stays t h) rest

  pub perform-Stays {κ} :
      {A : Type κ} (reply : List Call → Reply A) (c : Call)
      → ((t : List Call) → P t → P (c ∷ t))
      → Stays (perform reply c)
  perform-Stays reply c keep t h = keep t h

  kept-Stays {κ} : {A : Type κ} (r : Result A) (t : List Call) → P t → P (kept r t).1
  kept-Stays (ok a) t h = h
  kept-Stays (err e) t h = h
  kept-Stays panic t h = h

  pub tried-Stays {κ} : {A : Type κ} (m : M A) → Stays m → Stays (tried m)
  tried-Stays m stays t h = kept-Stays (m t).0 (m t).1 (stays t h)

  -- A call, and the rest after its reply.
  pub call-Stays {κ μ} :
      {A : Type κ} {B : Type μ} (reply : List Call → Reply A) (c : Call) (f : A → M B)
      → ((t : List Call) → P t → P (c ∷ t))
      → ((a : A) → Stays (f a))
      → Stays (perform reply c >>= f)
  call-Stays reply c f keep rest = bind-Stays (perform reply c) f (perform-Stays reply c keep) rest

  -- A result that needs no call, and the rest after it.
  pub returned-Stays {κ μ} :
      {A : Type κ} {B : Type μ} (r : Result A) (f : A → M B)
      → ((a : A) → Stays (f a))
      → Stays (returned r >>= f)
  returned-Stays r f rest = bind-Stays (returned r) f (λ t h. h) rest

  pub if-Stays {κ} :
      {A : Type κ} (b : Bool) (m n : M A) → Stays m → Stays n → Stays (if b then m else n)
  if-Stays true m n yes_stays no_stays = yes_stays
  if-Stays false m n yes_stays no_stays = no_stays

  caught-Stays {κ} : {A : Type κ} (r : Result A) (t : List Call) → P t → P (caught r t).1
  caught-Stays (ok a) t h = h
  caught-Stays (err e) t h = h
  caught-Stays panic t h = h

  -- A method whose error is caught, and the rest after it.
  pub attempt-Stays {κ μ} :
      {A : Type κ} {B : Type μ} (m : M A) (f : Option Error → M B)
      → Stays m
      → ((e : Option Error) → Stays (f e))
      → Stays (attempt m >>= f)
  attempt-Stays m f stays rest =
      bind-Stays (attempt m) f (λ t h. caught-Stays (m t).0 (m t).1 (stays t h)) rest

  pub ignore-Stays {κ} : {A : Type κ} (m : M A) → Stays m → Stays (ignore m)
  ignore-Stays m stays = attempt-Stays m (λ _. pure tt) stays (λ _ t h. h)
