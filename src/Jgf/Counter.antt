-- ===== src/Jgf/Counter.antt =====
-- The counters of pkg/jgf/types.go, in int64 arithmetic.
use fluxqueue.Base.{
  ℕ, zero, suc, ◌+◌, ◌-◌, ◌^◌, ◌<◌, ◌≡◌, Option, none, some, List, ◌++◌, arith, ◌==◌, if◌then◌else◌,
}
use fluxqueue.Base.Int.{ℤ, pos, negsuc}
use fluxqueue.Base.Str.{Str}
use fluxqueue.Base.Decimal.{format_int}
use fluxqueue.Base.Assoc.{lookup, insert}

pub record ResourceCounter : Type 0 where
  pub counts : List (Str × ℤ)
  pub elements : ℤ
  pub root_name : Str

pub record ResourceCount : Type 0 where
  pub name : Str
  pub type : Str
  pub element_id : ℤ
  pub index : ℤ

unfoldable pub name_with_index : ResourceCount → Str
name_with_index r = r.name ++ format_int r.index

unfoldable pub string_element_id : ResourceCount → Str
string_element_id r = format_int r.element_id

unfoldable pub string_resource_index : ResourceCount → Str
string_resource_index r = format_int r.index

-- n + 1 in an int64, where the largest value goes round to the smallest.
unfoldable pub succ_int64 : ℤ → ℤ
succ_int64 (pos n) = if n + 1 == 2 ^ 63 then negsuc (2 ^ 63 - 1) else pos (n + 1)
succ_int64 (negsuc zero) = pos 0
succ_int64 (negsuc (suc n)) = negsuc n

unfoldable pub next_index : ResourceCounter → ℤ × ResourceCounter
next_index r = (r.elements, record r { elements = succ_int64 r.elements })

unfoldable pub or_zero : Option ℤ → ℤ
or_zero none = pos 0
or_zero (some n) = n

unfoldable pub next_resource_index : ResourceCounter → Str → ℤ × ResourceCounter
unfolding or_zero
next_resource_index r type =
    let next : ℤ = or_zero (lookup type r.counts) in
    (next, record r { counts = insert type (succ_int64 next) r.counts })

-- The index is counted by the resource's name, although the parameter of the callee is its type.
unfoldable pub get_counter : ResourceCounter → Str → Str → ResourceCount × ResourceCounter
unfolding next_index next_resource_index
get_counter r name type =
    let (index, r') = next_resource_index r name in
    let (element_id, r'') = next_index r' in
    (record { name = name; type = type; element_id = element_id; index = index }, r'')

pub succ_int64-pos : (n : ℕ) → n + 1 < 2 ^ 63 → succ_int64 (pos n) ≡ pos (n + 1)
unfolding succ_int64
succ_int64-pos n h = ground arith
