-- ===== src/Jgf/Clean.antt =====
-- `path.Clean` of Go's standard library, for the rooted paths that `getNodePath` makes.
use fluxqueue.Base.{
  ◌≡◌, ◌≢◌, refl, ap, arith, All, append-nil, append_assoc, List, [], ◌∷◌, ◌++◌, ◌==◌,
  if◌then◌else◌,
}
use fluxqueue.Base.Str.{Str, str, str_eq, str_eq_iff, join, Lacks}
use mathlib.Core.List.{reverse, reverse-cons, reverse-reverse}
use fluxqueue.Base.{ℕ}

abbrev onto_head : ℕ → List Str → List Str
onto_head c [] = (c ∷ []) ∷ []
onto_head c (x ∷ xs) = (c ∷ x) ∷ xs

-- The elements between slashes.
pub elements : Str → List Str
elements [] = [] ∷ []
elements (c ∷ s) = let rest = elements s in if c == b'/' then [] ∷ rest else onto_head c rest

abbrev pop : List Str → List Str
pop [] = []
pop (x ∷ xs) = xs

-- One element against those kept so far, the last one first.
keep : Str → List Str → List Str
keep x kept =
    if str_eq x []
    then kept
    else if str_eq x (str ".")
    then kept
    else if str_eq x (str "..")
    then pop kept
    else x ∷ kept

resolve : List Str → List Str → List Str
resolve kept [] = kept
resolve kept (x ∷ xs) = resolve (keep x kept) xs

-- Clean(s) for an `s` that begins with a slash: no empty element, no "." and no "..".
unfoldable pub clean : Str → Str
unfolding elements resolve keep
clean s = str "/" ++ join (str "/") (reverse (resolve [] (elements s)))

-- An element that `Clean` keeps as it is.
pub record IsPlain (x : Str) : Type 0 where
  pub filled : x ≢ []
  pub no_slash : Lacks b'/' x
  pub not_dot : x ≢ str "."
  pub not_dots : x ≢ str ".."

-- /x₁/x₂/…
abbrev pub rooted : List Str → Str
rooted [] = []
rooted (x ∷ xs) = b'/' ∷ (x ++ rooted xs)

elements-rooted :
    (xs : List Str) (x : Str) → Lacks b'/' x → All IsPlain xs → elements (x ++ rooted xs) ≡ x ∷ xs
unfolding elements
elements-rooted [] [] h p = refl
elements-rooted (y ∷ ys) [] h (p, ps) = ground (arith, elements-rooted ys y p.no_slash ps)
elements-rooted [] (c ∷ x) (h, hs) p = ground (arith, elements-rooted [] x hs p)
elements-rooted (y ∷ ys) (c ∷ x) (h, hs) p = ground (arith, elements-rooted (y ∷ ys) x hs p)

keep-plain : (x : Str) (kept : List Str) → IsPlain x → keep x kept ≡ x ∷ kept
unfolding keep
keep-plain x kept p = ground (
  arith,
  p.filled,
  p.not_dot,
  p.not_dots,
  str_eq_iff x [],
  str_eq_iff x (str "."),
  str_eq_iff x (str ".."),
)

resolve-plain : (kept xs : List Str) → All IsPlain xs → resolve kept xs ≡ reverse xs ++ kept
unfolding resolve
resolve-plain kept [] p = refl
resolve-plain kept (x ∷ xs) (p, ps) =
    rw (keep-plain x kept p, resolve-plain (x ∷ kept) xs ps, reverse-cons, append_assoc)

pub join-rooted : (x : Str) (xs : List Str) → str "/" ++ join (str "/") (x ∷ xs) ≡ rooted (x ∷ xs)
unfolding join
join-rooted x [] = ground (arith, append-nil x)
join-rooted x (y ∷ xs) = ap (λ (s : Str). b'/' ∷ (x ++ s)) (join-rooted y xs)

-- Clean changes nothing in a path of plain elements.
pub clean-rooted :
    (x : Str) (xs : List Str) → All IsPlain (x ∷ xs) → clean (rooted (x ∷ xs)) ≡ rooted (x ∷ xs)
unfolding clean keep str_eq
clean-rooted x xs p = rw (
  elements-rooted xs x p.0.no_slash p.1,
  resolve-plain [] (x ∷ xs) p,
  append-nil,
  reverse-reverse,
  join-rooted,
)
