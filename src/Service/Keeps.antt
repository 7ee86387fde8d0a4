-- ===== src/Service/Keeps.antt =====
-- A rule for what holds of the calls made: through one call, and whatever it replies.
use fluxqueue.Base.{List, ◌∷◌, inl, inr}
use fluxqueue.Service.{Reply, Reply-cases, M, ◌>>=◌, perform}
use fluxqueue.Service.Calls.{Call}

-- `P` holds after the call and the rest of the method, if it holds after the call and the rest
-- keeps it.
pub perform_keeps {ℓ κ μ} :
    {A : Type ℓ} {B : Type κ} (P : List Call → Type μ) (reply : List Call → Reply A) (c : Call)
    (f : A → M B) (t : List Call)
    → P (c ∷ t)
    → ((a : A) → P (c ∷ t) → P (f a (c ∷ t)).1)
    → P ((perform reply c >>= f) t).1
perform_keeps P reply c f t h keep = elim (Reply-cases (reply t)) [
  | inl (a, e) ↦ rw e (keep a h)
  | inr (_, e) ↦ rw e h
]
