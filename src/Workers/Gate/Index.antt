-- ===== src/Workers/Gate/Index.antt =====
-- Which gate `removeGate` takes off.
use fluxqueue.Base.{
  ◌≢◌, ap, ℕ, zero, suc, ◌+◌, ◌<◌, ◌≡◌, refl, true, false, some, List, [], ◌∷◌, arith, get_elem?,
  Bool-cases, inl, inr,
}
use fluxqueue.Base.Str.{Str, str_eq, str_eq_iff}
use fluxqueue.Workers.Gate.{scheduling_gate_name, find_gate, gate_index}
use fluxqueue.Workers.Ungate.{has_gate}

find_gate_lem :
    (i : ℕ) (gs : List Str)
    → has_gate gs ≡ true
    → (k : ℕ) × (find_gate i gs ≡ i + k)
      × (get_elem? gs k ≡ some scheduling_gate_name)
      × ((j : ℕ) → j < k → get_elem? gs j ≢ some scheduling_gate_name)
unfolding has_gate find_gate
find_gate_lem i [] h = cc
find_gate_lem i (g ∷ gs) h = elim (Bool-cases (str_eq g scheduling_gate_name)) [
  | inl same ↦ (
    0,
    ground (arith, same),
    ap some ((str_eq_iff g scheduling_gate_name).0 same),
    λ j below. absurd (omega arith),
  )
  | inr other ↦
      let (k, found, at, first) = find_gate_lem (suc i) gs (ground (arith, other)) in
      (suc k, ground (arith, other, found), at, before g gs k other first)
]
  where
    before :
        (g : Str) (gs : List Str) (k : ℕ)
        → str_eq g scheduling_gate_name ≡ false
        → ((j : ℕ) → j < k → get_elem? gs j ≢ some scheduling_gate_name)
        → (j : ℕ) → j < suc k
        → get_elem? (g ∷ gs) j ≢ some scheduling_gate_name
    before g gs k other first zero below e =
        ground (arith, other, e, str_eq_iff g scheduling_gate_name)
    before g gs k other first (suc j) below e = first j (omega arith) e

-- On a pod that has this program's gate, the gate that is taken off is the first of that name.
pub gate_index_lem :
    (gates : List Str)
    → has_gate gates ≡ true
    → (get_elem? gates (gate_index gates) ≡ some scheduling_gate_name)
      × ((j : ℕ) → j < gate_index gates → get_elem? gates j ≢ some scheduling_gate_name)
unfolding gate_index
gate_index_lem gates h =
    let (k, found, at, first) = find_gate_lem 0 gates h in
    let here : gate_index gates ≡ k = ground (arith, found) in rw here (at, first)

find_gate_absent : (i : ℕ) (gs : List Str) → has_gate gs ≡ false → find_gate i gs ≡ 0
unfolding has_gate find_gate
find_gate_absent i [] h = refl
find_gate_absent i (g ∷ gs) h = ground (arith, find_gate_absent (suc i) gs)

-- On a pod that lacks this program's gate and has others, the gate that is taken off is the pod's
-- first gate, which is not this program's.
pub gate_index_absent :
    (g : Str) (gs : List Str)
    → has_gate (g ∷ gs) ≡ false
    → (get_elem? (g ∷ gs) (gate_index (g ∷ gs)) ≡ some g) × (g ≢ scheduling_gate_name)
unfolding gate_index
gate_index_absent g gs h = (
  rw (find_gate_absent 0 (g ∷ gs) h),
  λ e. unfold has_gate in ground (arith, h, e, str_eq_iff g scheduling_gate_name),
)
