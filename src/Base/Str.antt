-- ===== src/Base/Str.antt =====
-- Go strings as lists of bytes, with what the program uses of `strings` and `==`.
use Prim.Native.Char.{code}
use fluxqueue.Base.{
  ℕ, String, ◌≡◌, refl, ◌≢◌, ◌↔◌, Bool, true, false, ◌&&◌, ◌||◌, List, [], ◌∷◌, ◌++◌, arith, ◌==◌,
  All,
}

abbrev pub Str : Type 0
Str = List ℕ

-- The bytes of a literal (all of the program's are ASCII).
abbrev pub str : String → Str
str String.[] = []
str (String.◌∷◌ c s) = code c ∷ str s

-- s == t
unfoldable pub str_eq : Str → Str → Bool
str_eq [] [] = true
str_eq [] (d ∷ t) = false
str_eq (c ∷ s) [] = false
str_eq (c ∷ s) (d ∷ t) = c == d && str_eq s t

pub str_eq_iff : (s t : Str) → (str_eq s t ≡ true) ↔ (s ≡ t)
unfolding str_eq
str_eq_iff [] [] = ground arith
str_eq_iff [] (d ∷ t) = ground arith
str_eq_iff (c ∷ s) [] = ground arith
str_eq_iff (c ∷ s) (d ∷ t) = ground (arith, str_eq_iff s t)

pub str_eq_refl : (s : Str) → str_eq s s ≡ true
str_eq_refl s = (str_eq_iff s s).1 refl

-- strings.Join(xs, sep)
unfoldable pub join : Str → List Str → Str
join sep [] = []
join sep (x ∷ []) = x
join sep (x ∷ y ∷ xs) = x ++ (sep ++ join sep (y ∷ xs))

abbrev cons_head : ℕ → List Str → List Str
cons_head c [] = (c ∷ []) ∷ []
cons_head c (x ∷ xs) = (c ∷ x) ∷ xs

-- strings.Split(s, sep) for a separator of the two bytes `a` and `b`: at the leftmost occurrences
-- that do not overlap, and one empty field for an empty text.
unfoldable pub split : ℕ → ℕ → Str → List Str
split a b [] = [] ∷ []
split a b (c ∷ []) = (c ∷ []) ∷ []
split a b (c ∷ d ∷ s) = elim (c == a && d == b) [
  | true ↦ [] ∷ split a b s
  | false ↦ cons_head c (split a b (d ∷ s))
]

abbrev pub Lacks : ℕ → Str → Type 0
Lacks a = All (λ c. c ≢ a)

pub split_plain : (a b : ℕ) (x : Str) → Lacks a x → split a b x ≡ x ∷ []
unfolding split
split_plain a b [] h = refl
split_plain a b (c ∷ []) h = refl
split_plain a b (c ∷ d ∷ x) (h, k) = ground (arith, split_plain a b (d ∷ x) k)

split-append :
    (a b : ℕ) (x rest : Str) → Lacks a x → split a b (x ++ (a ∷ b ∷ rest)) ≡ x ∷ split a b rest
unfolding split
split-append a b [] rest h = ground arith
split-append a b (c ∷ []) rest h = ground (arith, split-append a b [] rest tt)
split-append a b (c ∷ d ∷ x) rest (h, k) = ground (arith, split-append a b (d ∷ x) rest k)

-- Fields that lack the separator's first byte are read back from their join.
pub split-join :
    (a b : ℕ) (x : Str) (xs : List Str)
    → Lacks a x
    → All (Lacks a) xs
    → split a b (join (a ∷ b ∷ []) (x ∷ xs)) ≡ x ∷ xs
unfolding join
split-join a b x [] h hs = split_plain a b x h
split-join a b x (y ∷ xs) h (k, ks) =
    ground (arith, split-append a b x (join (a ∷ b ∷ []) (y ∷ xs)) h, split-join a b y xs k ks)

pub split-ne-nil : (a b : ℕ) (s : Str) → split a b s ≢ []
unfolding split
split-ne-nil a b [] = ground arith
split-ne-nil a b (c ∷ []) = ground arith
split-ne-nil a b (c ∷ d ∷ s) = ground (arith, split-ne-nil a b (d ∷ s))

starts_with : Str → Str → Bool
starts_with [] s = true
starts_with (c ∷ p) [] = false
starts_with (c ∷ p) (d ∷ s) = c == d && starts_with p s

-- strings.Contains(s, p)
unfoldable pub contains : Str → Str → Bool
unfolding starts_with
contains p [] = starts_with p []
contains p (c ∷ s) = starts_with p (c ∷ s) || contains p s

pub contains_of_Lacks : (c : ℕ) (p s : Str) → Lacks c s → contains (c ∷ p) s ≡ false
unfolding contains
contains_of_Lacks c p [] h = refl
contains_of_Lacks c p (d ∷ s) (h, hs) = ground (arith, contains_of_Lacks c p s hs)

unfoldable pub in_list : Str → List Str → Bool
in_list x [] = false
in_list x (y ∷ ys) = str_eq y x || in_list x ys
