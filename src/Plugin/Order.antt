-- ===== src/Plugin/Order.antt =====
-- `Less` orders the scheduling queue.
use mathlib.Core.Path.{subst}
use fluxqueue.Base.{
  ◌≡◌, ◌≢◌, ◌↔◌, ◌<◌, ℕ, refl, sym, ◌⊎◌, inl, inr, true, false, [], ◌∷◌, arith, ltb, Bool-cases,
}
use fluxqueue.Base.Int.{ℤ, pos, negsuc, ltb_ℤ}
use fluxqueue.Base.Str.{Str}
use fluxqueue.Types.{Pod}
use fluxqueue.Plugin.{str_lt, differ, get_namespaced_name, less}

str_lt_irrefl : (s : Str) → str_lt s s ≡ false
unfolding str_lt
str_lt_irrefl [] = refl
str_lt_irrefl (c ∷ s) = ground (arith, str_lt_irrefl s)

str_lt_trans : (s t u : Str) → str_lt s t ≡ true → str_lt t u ≡ true → str_lt s u ≡ true
unfolding str_lt
str_lt_trans s t [] p q = cc
str_lt_trans s [] (e ∷ u) p q = cc
str_lt_trans [] (d ∷ t) (e ∷ u) p q = refl
str_lt_trans (c ∷ s) (d ∷ t) (e ∷ u) p q = ground (arith, str_lt_trans s t u)

str_lt_total : (s t : Str) → (str_lt s t ≡ true) ⊎ ((s ≡ t) ⊎ (str_lt t s ≡ true))
unfolding str_lt
str_lt_total [] [] = inr (inl refl)
str_lt_total [] (d ∷ t) = inl refl
str_lt_total (c ∷ s) [] = inr (inr refl)
str_lt_total (c ∷ s) (d ∷ t) = ground (arith, str_lt_total s t)

-- The order of a dictionary: a text comes before those that go on after it, and before those that
-- have a larger byte where the two first differ.
pub data Precedes : Str → Str → Type 0 where
  shorter : {d : ℕ} {t : Str} → Precedes [] (d ∷ t)
  smaller : {c d : ℕ} {s t : Str} → c < d → Precedes (c ∷ s) (d ∷ t)
  later : {c : ℕ} {s t : Str} → Precedes s t → Precedes (c ∷ s) (c ∷ t)

str_lt-Precedes : (s t : Str) → str_lt s t ≡ true → Precedes s t
unfolding str_lt
str_lt-Precedes s [] h = cc
str_lt-Precedes [] (d ∷ t) h = shorter
str_lt-Precedes (c ∷ s) (d ∷ t) h = elim (Bool-cases (ltb c d)) [
  | inl less ↦ smaller (ground (arith, less))
  | inr not_less ↦
      let equal : c ≡ d = ground (arith, h, not_less) in
      subst (λ e. Precedes (c ∷ s) (e ∷ t)) equal
        (later (str_lt-Precedes s t (ground (arith, h, not_less))))
]

Precedes-str_lt : {s t : Str} → Precedes s t → str_lt s t ≡ true
unfolding str_lt
Precedes-str_lt shorter = refl
Precedes-str_lt (smaller h) = ground (arith, h)
Precedes-str_lt (later {c} h) = ground (arith, Precedes-str_lt h)

module _ (priority : Pod → ℤ) where
  -- A pod of a higher priority comes first, and of two with the same the one whose namespace and
  -- name, joined by a slash, come first in a dictionary.
  abbrev pub Before : Pod → Pod → Type 0
  Before p q =
      (ltb_ℤ (priority q) (priority p) ≡ true)
      ⊎ ((priority p ≡ priority q) × Precedes (get_namespaced_name p) (get_namespaced_name q))

  differ_iff : (a b : ℤ) → (differ a b ≡ false) ↔ (a ≡ b)
  differ_iff (pos a) (pos b) = ground arith
  differ_iff (pos a) (negsuc b) = ground arith
  differ_iff (negsuc a) (pos b) = ground arith
  differ_iff (negsuc a) (negsuc b) = ground arith

  -- `Less` is transitive, and of two pods that it orders it does not order them the other way too.
  pub less_strict :
      (p q r : Pod)
      → less priority p q ≡ true
      → less priority q r ≡ true
      → (less priority p r ≡ true) × (less priority r p ≡ false)
  unfolding less
  less_strict p q r h k =
      let a : Str = get_namespaced_name p in
      let b : Str = get_namespaced_name q in
      let c : Str = get_namespaced_name r in
      ground (
        arith,
        h,
        k,
        str_lt_trans a b c,
        str_lt_trans c a c,
        str_lt_trans a c a,
        str_lt_irrefl a,
        str_lt_irrefl c,
      )

  -- Two pods of different namespaced names are always ordered, one way or the other.
  pub less_total :
      (p q : Pod)
      → get_namespaced_name p ≢ get_namespaced_name q
      → (less priority p q ≡ true) ⊎ (less priority q p ≡ true)
  unfolding less
  less_total p q h = ground (arith, h, str_lt_total (get_namespaced_name p) (get_namespaced_name q))

  less-Before : (p q : Pod) → less priority p q ≡ true → Before p q
  unfolding less
  less-Before p q h = elim (Bool-cases (differ (priority p) (priority q))) [
    | inl apart ↦ inl (ground (arith, h, apart))
    | inr together ↦ inr (
      (differ_iff (priority p) (priority q)).0 together,
      str_lt-Precedes _ _ (ground (arith, h, together)),
    )
  ]

  ltb_ℤ-differ : (a b : ℤ) → ltb_ℤ b a ≡ true → differ a b ≡ true
  ltb_ℤ-differ (pos a) (pos b) h = ground (arith, h)
  ltb_ℤ-differ (pos a) (negsuc b) h = ground (arith, h)
  ltb_ℤ-differ (negsuc a) (pos b) h = ground (arith, h)
  ltb_ℤ-differ (negsuc a) (negsuc b) h = ground (arith, h)

  ltb_ℤ-total : (a b : ℤ) → differ a b ≡ true → (ltb_ℤ b a ≡ true) ⊎ (ltb_ℤ a b ≡ true)
  ltb_ℤ-total (pos a) (pos b) h = ground (arith, h)
  ltb_ℤ-total (pos a) (negsuc b) h = ground (arith, h)
  ltb_ℤ-total (negsuc a) (pos b) h = ground (arith, h)
  ltb_ℤ-total (negsuc a) (negsuc b) h = ground (arith, h)

  Before-less : (p q : Pod) → Before p q → less priority p q ≡ true
  unfolding less
  Before-less p q (inl h) = ground (arith, h, ltb_ℤ-differ (priority p) (priority q) h)
  Before-less p q (inr (e, h)) =
      ground (arith, (differ_iff (priority p) (priority q)).1 e, Precedes-str_lt h)

  ranked :
      (p q : Pod)
      → Before p q
        ⊎ (((priority p ≡ priority q) × (get_namespaced_name p ≡ get_namespaced_name q))
            ⊎ Before q p)
  ranked p q = elim (Bool-cases (differ (priority p) (priority q))) [
    | inl apart ↦ elim (ltb_ℤ-total (priority p) (priority q) apart) [
      | inl higher ↦ inl (inl higher)
      | inr lower ↦ inr (inr (inl lower))
    ]
    | inr together ↦
        let same : priority p ≡ priority q = (differ_iff (priority p) (priority q)).0 together in
        elim (str_lt_total (get_namespaced_name p) (get_namespaced_name q)) [
          | inl first ↦ inl (inr (same, str_lt-Precedes _ _ first))
          | inr (inl equal) ↦ inr (inl (same, equal))
          | inr (inr second) ↦ inr (inr (inr (sym same, str_lt-Precedes _ _ second)))
        ]
  ]

  -- `Less` holds of two pods exactly when the first has the higher priority, or has the same and its
  -- namespace and name, joined by a slash, come first in the order of a dictionary; and any two pods
  -- that differ in their priorities or in these names are ordered so, one way or the other.
  pub less_iff :
      (p q : Pod)
      → ((less priority p q ≡ true) ↔ Before p q)
        × (Before p q
            ⊎ (((priority p ≡ priority q) × (get_namespaced_name p ≡ get_namespaced_name q))
                ⊎ Before q p))
  less_iff p q = ((less-Before p q, Before-less p q), ranked p q)
