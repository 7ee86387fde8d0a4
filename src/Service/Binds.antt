-- ===== src/Service/Binds.antt =====
-- What follows of the parts of a method from its result, or from a call that is among those made.
use fluxqueue.Base.{◌≡◌, refl, some, List}
use fluxqueue.Service.{Result, ok, err, panic, M, ◌>>=◌, continue, kept, tried}
use fluxqueue.Service.Calls.{Call}

continue-ok {ℓ κ} :
    {A : Type ℓ} {B : Type κ} (r : Result A) (f : A → M B) (t : List Call) {b : B}
    → (continue r f t).0 ≡ ok b
    → (a : A) × (r ≡ ok a) × ((f a t).0 ≡ ok b) × ((continue r f t).1 ≡ (f a t).1)
continue-ok (ok a) f t h = (a, refl, h, refl)
continue-ok (err e) f t h = cc
continue-ok panic f t h = cc

-- A method with a result has one of its first part.
pub bind-ok {ℓ κ} :
    {A : Type ℓ} {B : Type κ} (m : M A) (f : A → M B) (t : List Call) {b : B}
    → ((m >>= f) t).0 ≡ ok b
    → (a : A) × ((m t).0 ≡ ok a) × ((f a (m t).1).0 ≡ ok b) × (((m >>= f) t).1 ≡ (f a (m t).1).1)
bind-ok m f t h = continue-ok (m t).0 f (m t).1 h

continue_reached {ℓ κ μ} :
    {A : Type ℓ} {B : Type κ} (P : List Call → Type μ) (r : Result A) (f : A → M B) (t : List Call)
    → ¬ P t
    → P (continue r f t).1
    → (a : A) × (r ≡ ok a) × P (f a t).1 × ((continue r f t).1 ≡ (f a t).1)
continue_reached P (ok a) f t new h = (a, refl, h, refl)
continue_reached P (err e) f t new h = absurd (new h)
continue_reached P panic f t new h = absurd (new h)

-- What does not hold after the first part and holds at the end was reached by the rest.
pub bind_reached {ℓ κ μ} :
    {A : Type ℓ} {B : Type κ} (P : List Call → Type μ) (m : M A) (f : A → M B) (t : List Call)
    → ¬ P (m t).1
    → P ((m >>= f) t).1
    → (a : A) × ((m t).0 ≡ ok a) × P (f a (m t).1).1 × (((m >>= f) t).1 ≡ (f a (m t).1).1)
bind_reached P m f t new h = continue_reached P (m t).0 f (m t).1 new h

kept_calls {ℓ} : {A : Type ℓ} (r : Result A) (t : List Call) → (kept r t).1 ≡ t
kept_calls (ok a) t = refl
kept_calls (err e) t = refl
kept_calls panic t = refl

pub tried_calls {ℓ} : {A : Type ℓ} (m : M A) (t : List Call) → (tried m t).1 ≡ (m t).1
tried_calls m t = kept_calls (m t).0 (m t).1

kept-some {ℓ} :
    {A : Type ℓ} (r : Result A) (t : List Call) {a : A} → (kept r t).0 ≡ ok (some a) → r ≡ ok a
kept-some (ok a) t h = cc
kept-some (err e) t h = cc
kept-some panic t h = cc

pub tried-some {ℓ} :
    {A : Type ℓ} (m : M A) (t : List Call) {a : A} → (tried m t).0 ≡ ok (some a) → (m t).0 ≡ ok a
tried-some m t h = kept-some (m t).0 (m t).1 h
