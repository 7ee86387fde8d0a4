-- ===== src/Base/Decimal.antt =====
-- fmt.Sprintf("%d", n) and strconv.ParseInt(s, 10, bits).
use fluxqueue.Base.{
  ℕ, zero, suc, ◌+◌, ◌-◌, ◌*◌, ◌/◌, ◌%◌, ◌^◌, ◌≤◌, ◌<◌, ◌≡◌, ◌≢◌, refl, Option, none, some, Bool,
  true, false, ◌||◌, [], ◌∷◌, arith, ltb, leb, ◌==◌, if◌then◌else◌, Bool-cases, inl, inr, ◌∙◌, sym,
  ap,
}
use fluxqueue.Base.Int.{ℤ, pos, negsuc}
use fluxqueue.Base.Str.{Str, Lacks}

-- The digits of `n` before `out`. Each round divides `n` by ten, so `n + 1` rounds are enough.
digits : ℕ → ℕ → Str → Str
digits zero n out = out
digits (suc fuel) n out = elim (ltb n 10) [
  | true ↦ (b'0' + n) ∷ out
  | false ↦ digits fuel (n / 10) ((b'0' + n % 10) ∷ out)
]

unfoldable pub format_nat : ℕ → Str
unfolding digits
format_nat n = digits (suc n) n []

unfoldable pub format_int : ℤ → Str
unfolding format_nat
format_int (pos n) = format_nat n
format_int (negsuc n) = b'-' ∷ format_nat (suc n)

pub data NumError : Type 0 where
  syntax range : NumError

-- The loop of ParseUint, which stops where the value passes the largest one.
pub data Scan : Type 0 where
  scanned : ℕ → Scan
  failed : NumError → Scan

scan : ℕ → Str → ℕ → Scan
scan top [] n = scanned n
scan top (c ∷ s) n =
    let rest = scan top s (n * 10 + (c - b'0')) in
    if ltb c b'0' || ltb b'9' c
    then failed syntax
    else if ltb top (n * 10 + (c - b'0'))
    then failed range
    else rest

parse_uint : ℕ → Str → Scan
unfolding scan
parse_uint top [] = failed syntax
parse_uint top (c ∷ s) = scan top (c ∷ s) 0

-- strconv returns a value beside its error.
pub record Parsed : Type 0 where
  pub value : ℤ
  pub error : Option NumError

-- The signed value of a scan: out of range is the bound with an error.
signed : ℕ → Bool → Scan → Parsed
signed half negative (failed syntax) = record { value = pos 0; error = some syntax }
signed half false (failed range) = record { value = pos (half - 1); error = some range }
signed half true (failed range) = record { value = negsuc (half - 1); error = some range }
signed half false (scanned n) =
    if leb half n
    then record { value = pos (half - 1); error = some range }
    else record { value = pos n; error = none }
signed half true (scanned n) =
    if ltb half n
    then record { value = negsuc (half - 1); error = some range }
    else record { value = (if n == 0 then pos 0 else negsuc (n - 1)); error = none }

unfoldable pub parse_int : ℕ → Str → Parsed
unfolding parse_uint signed
parse_int bits [] = record { value = pos 0; error = some syntax }
parse_int bits (c ∷ s) =
    if c == b'-'
    then signed (2 ^ (bits - 1)) true (parse_uint (2 ^ bits - 1) s)
    else if c == b'+'
    then signed (2 ^ (bits - 1)) false (parse_uint (2 ^ bits - 1) s)
    else signed (2 ^ (bits - 1)) false (parse_uint (2 ^ bits - 1) (c ∷ s))

-- What a signed integer holds whose least value is -half.
abbrev pub IsWithin : ℕ → ℤ → Type 0
IsWithin half (pos n) = n < half
IsWithin half (negsuc n) = n < half

abbrev pub IsInt64 : ℤ → Type 0
IsInt64 z = IsWithin (2 ^ 63) z

abbrev pub IsInt32 : ℤ → Type 0
IsInt32 z = IsWithin (2 ^ 31) z

scan-digits :
    (top fuel n : ℕ) (out : Str)
    → n < fuel
    → n ≤ top
    → scan top (digits fuel n out) 0 ≡ scan top out n
unfolding digits scan
scan-digits top zero n out h b = elim h [ ]
scan-digits top (suc fuel) n out h b =
    ground (arith, scan-digits top fuel (n / 10) ((b'0' + n % 10) ∷ out))

-- The digits begin with a byte that is no sign.
digits_head :
    (fuel n d : ℕ) (out : Str)
    → b'0' ≤ d
    → (c : ℕ) × (s : Str) × (digits fuel n (d ∷ out) ≡ c ∷ s) × (b'0' ≤ c)
unfolding digits
digits_head zero n d out h = (d, out, refl, h)
digits_head (suc fuel) n d out h = elim (Bool-cases (ltb n 10)) [
  | inl small ↦ (b'0' + n, d ∷ out, ground arith, omega arith)
  | inr large ↦
      rw (large, digits) (digits_head fuel (n / 10) (b'0' + n % 10) (d ∷ out) (omega arith))
]

format_nat_head : (n : ℕ) → (c : ℕ) × (s : Str) × (format_nat n ≡ c ∷ s) × (b'0' ≤ c)
unfolding format_nat
format_nat_head n = elim (Bool-cases (ltb n 10)) [
  | inl small ↦ (b'0' + n, [], ground arith, omega arith)
  | inr large ↦ rw (large, digits) (digits_head n (n / 10) (b'0' + n % 10) [] (omega arith))
]

parse_uint-scan :
    (top : ℕ) (s : Str) {c : ℕ} {t : Str} → s ≡ c ∷ t → parse_uint top s ≡ scan top s 0
unfolding parse_uint
parse_uint-scan top [] e = cc
parse_uint-scan top (c ∷ s) e = refl

scan-format_nat : (top n : ℕ) → n ≤ top → scan top (format_nat n) 0 ≡ scanned n
unfolding format_nat scan
scan-format_nat top n h = scan-digits top (suc n) n [] (omega arith) h

parse_uint-format_nat : (top n : ℕ) → n ≤ top → parse_uint top (format_nat n) ≡ scanned n
parse_uint-format_nat top n h =
    let (c, s, e, _) = format_nat_head n in
    parse_uint-scan top (format_nat n) e ∙ scan-format_nat top n h

-- A number within the bits is read back from its decimal print.
parse_int-format_int_of :
    (bits : ℕ) (z : ℤ)
    → 2 ^ (bits - 1) ≤ 2 ^ bits - 1
    → IsWithin (2 ^ (bits - 1)) z
    → parse_int bits (format_int z) ≡ record { value = z; error = none }
unfolding parse_int format_int signed
parse_int-format_int_of bits (pos n) top h =
    let (c, s, e, digit) = format_nat_head n in
    rw e (ground (arith, parse_uint-format_nat (2 ^ bits - 1) n (omega arith), e))
parse_int-format_int_of bits (negsuc n) top h =
    ground (arith, parse_uint-format_nat (2 ^ bits - 1) (suc n) (omega arith))

pub parse_int-format_int :
    (z : ℤ) → IsInt64 z → parse_int 64 (format_int z) ≡ record { value = z; error = none }
parse_int-format_int z h = parse_int-format_int_of 64 z (omega arith) h

pub parse_int32-format_int :
    (z : ℤ) → IsInt32 z → parse_int 32 (format_int z) ≡ record { value = z; error = none }
parse_int32-format_int z h = parse_int-format_int_of 32 z (omega arith) h

signed-IsWithin :
    (half : ℕ) (negative : Bool) (s : Scan)
    → 0 < half
    → IsWithin half (signed half negative s).value
unfolding signed
signed-IsWithin half negative (failed syntax) h = h
signed-IsWithin half false (failed range) h = omega arith
signed-IsWithin half true (failed range) h = omega arith
signed-IsWithin half false (scanned n) h = ground arith
signed-IsWithin half true (scanned n) h = ground arith

-- Whatever is parsed, the value fits in the bits.
pub parse_int-IsInt32 : (s : Str) → IsInt32 (parse_int 32 s).value
unfolding parse_int
parse_int-IsInt32 [] = omega arith
parse_int-IsInt32 (c ∷ s) = ground (
  arith,
  signed-IsWithin (2 ^ 31) true (parse_uint (2 ^ 32 - 1) s) (omega arith),
  signed-IsWithin (2 ^ 31) false (parse_uint (2 ^ 32 - 1) s) (omega arith),
  signed-IsWithin (2 ^ 31) false (parse_uint (2 ^ 32 - 1) (c ∷ s)) (omega arith),
)

format_nat-injective : (a b : ℕ) → format_nat a ≡ format_nat b → a ≡ b
format_nat-injective a b e =
    let read : scanned a ≡ scanned b =
      sym (scan-format_nat (a + b) a (omega arith))
      ∙ ap (λ s. scan (a + b) s 0) e
      ∙ scan-format_nat (a + b) b (omega arith) in
    cc

format_nat-unsigned : (n : ℕ) (s : Str) → format_nat n ≢ b'-' ∷ s
format_nat-unsigned n s e = let (c, t, h, digit) = format_nat_head n in ground (arith, e, h, digit)

-- Two numbers with the same print are the same.
pub format_int-injective : (a b : ℤ) → format_int a ≡ format_int b → a ≡ b
unfolding format_int
format_int-injective (pos a) (pos b) e = ap pos (format_nat-injective a b e)
format_int-injective (pos a) (negsuc b) e = elim (format_nat-unsigned a _ e) [ ]
format_int-injective (negsuc a) (pos b) e = elim (format_nat-unsigned b _ (sym e)) [ ]
format_int-injective (negsuc a) (negsuc b) e =
    let same : suc a ≡ suc b = format_nat-injective (suc a) (suc b) (ground (arith, e)) in
    ap negsuc (omega (arith, same))

digits-Lacks : (c fuel n : ℕ) (out : Str) → b'9' < c → Lacks c out → Lacks c (digits fuel n out)
unfolding digits
digits-Lacks c zero n out h k = k
digits-Lacks c (suc fuel) n out h k = elim (Bool-cases (ltb n 10)) [
  | inl small ↦ rw (small, digits) ((λ e. ground arith), k)
  | inr large ↦
      rw (large, digits)
        (digits-Lacks c fuel (n / 10) ((b'0' + n % 10) ∷ out) h ((λ e. omega arith), k))
]

-- No byte above the digits occurs in a printed number.
pub format_nat-Lacks : (c n : ℕ) → b'9' < c → Lacks c (format_nat n)
unfolding format_nat
format_nat-Lacks c n h = digits-Lacks c (suc n) n [] h tt

-- A text that is no number has the value 0.
pub parse_int_syntax :
    (bits : ℕ) (s : Str) → (parse_int bits s).error ≡ some syntax → (parse_int bits s).value ≡ pos 0
unfolding parse_int
parse_int_syntax bits [] h = refl
parse_int_syntax bits (c ∷ s) h = ground arith
