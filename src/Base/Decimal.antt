-- ===== src/Base/Decimal.antt =====
-- strconv: `Itoa` of a number that is not negative, and `Atoi` with its error dropped, which is 0 for
-- a text that is no number and the nearest int64 for one out of range.
use front_basicrum_go.Base.Text.{Bytes, count}
use front_basicrum_go.Base.Tests.{ltb, ◌==◌, if◌then◌else◌, Bool-cases}
use Prim.Native.Nat.{ℕ, zero, suc, ◌+◌, ◌-◌, ◌*◌, ◌/◌, ◌%◌, ◌^◌, ◌≤◌, ◌<◌}
use mathlib.Core.Path.{◌≡◌, refl, ◌∙◌, subst}
use mathlib.Core.Logic.{◌≢◌, inl, inr}
use mathlib.Core.Bool.{Bool, true, false, ◌||◌}
use mathlib.Core.Option.{Option, none, some}
use mathlib.Core.List.{[], ◌∷◌}
use native.Mathlib.Omega.{arith}

-- `negsuc n` is -(n + 1).
pub data ℤ : Type 0 where
  pos : ℕ → ℤ
  negsuc : ℕ → ℤ

abbrev pub max_uint64 : ℕ
max_uint64 = 2 ^ 64 - 1

abbrev pub max_int64 : ℕ
max_int64 = 2 ^ 63 - 1

-- strconv.ParseUint: an overflow ends the scan at once; `none` is a syntax error.
unfoldable pub parse_digits : ℕ → Bytes → Option ℕ
parse_digits n [] = some n
parse_digits n (c ∷ s) =
    let m = n * 10 + (c - b'0') in
    let rest = parse_digits m s in
    if ltb c b'0' || ltb b'9' c then none else if ltb max_uint64 m then some max_uint64 else rest

unfoldable pub parse_uint : Bytes → Option ℕ
parse_uint [] = none
parse_uint (c ∷ s) = parse_digits 0 (c ∷ s)

positive : Option ℕ → ℤ
positive none = pos 0
positive (some n) = if ltb max_int64 n then pos max_int64 else pos n

negative : Option ℕ → ℤ
negative none = pos 0
negative (some zero) = pos 0
negative (some (suc n)) = if ltb max_int64 n then negsuc max_int64 else negsuc n

unfoldable pub atoi : Bytes → ℤ
unfolding positive negative parse_uint
atoi [] = pos 0
atoi (c ∷ s) =
    if c == b'-'
    then negative (parse_uint s)
    else if c == b'+'
    then positive (parse_uint s)
    else positive (parse_uint (c ∷ s))

-- The conversion to uint64: the same bits.
unfoldable pub to_uint64 : ℤ → ℕ
to_uint64 (pos n) = n % 2 ^ 64
to_uint64 (negsuc n) = (2 ^ 64 - 1 - n) % 2 ^ 64

-- The int64 of a bit pattern.
unfoldable pub of_uint64 : ℕ → ℤ
of_uint64 u = if ltb max_int64 u then negsuc (max_uint64 - u) else pos u

-- `a - b` on int64
unfoldable pub sub_int64 : ℤ → ℤ → ℤ
unfolding to_uint64 of_uint64
sub_int64 a b = of_uint64 ((to_uint64 a + 2 ^ 64 - to_uint64 b) % 2 ^ 64)

-- `a * b` on int64
unfoldable pub mul_int64 : ℤ → ℤ → ℤ
unfolding to_uint64 of_uint64
mul_int64 a b = of_uint64 (to_uint64 a * to_uint64 b % 2 ^ 64)

-- A number above zero.
unfoldable pub is_positive : ℤ → Bool
is_positive (pos n) = if ltb 0 n then true else false
is_positive (negsuc n) = false

-- `<` on ints
unfoldable pub lt_int : ℤ → ℤ → Bool
lt_int (pos a) (pos b) = ltb a b
lt_int (pos a) (negsuc b) = false
lt_int (negsuc a) (pos b) = true
lt_int (negsuc a) (negsuc b) = ltb b a

-- The digits of `n` before `out`, the last digit first; a digit for each unit of fuel.
unfoldable pub write_digits : ℕ → ℕ → Bytes → Bytes
write_digits zero n out = out
write_digits (suc fuel) n out =
    let more = write_digits fuel (n / 10) ((b'0' + n % 10) ∷ out) in
    if ltb n 10 then (b'0' + n) ∷ out else more

unfoldable pub itoa : ℕ → Bytes
unfolding write_digits
itoa n = write_digits (suc n) n []

-- `Itoa` of any int
unfoldable pub itoa_int : ℤ → Bytes
itoa_int (pos n) = itoa n
itoa_int (negsuc n) = b'-' ∷ itoa (n + 1)

-- A decimal print is not empty, and starts with a digit.
write_digits-parse :
    (fuel n : ℕ) (out : Bytes)
    → n < fuel
    → n ≤ max_uint64
    → parse_digits 0 (write_digits fuel n out) ≡ parse_digits n out
unfolding write_digits parse_digits
write_digits-parse zero n out h b = absurd (omega arith)
write_digits-parse (suc fuel) n out h b =
    ground (arith, write_digits-parse fuel (n / 10) ((b'0' + n % 10) ∷ out))

abbrev StartsDigit : Bytes → Type 0
StartsDigit [] = ⊥
StartsDigit (c ∷ s) = (b'0' ≤ c) × (c ≤ b'9')

write_digits-StartsDigit :
    (fuel n : ℕ) (out : Bytes) → StartsDigit out → StartsDigit (write_digits fuel n out)
unfolding write_digits
write_digits-StartsDigit zero n out h = h
write_digits-StartsDigit (suc fuel) n out h = elim (Bool-cases (ltb n 10)) [
  | inl e ↦ rw e (ground arith)
  | inr e ↦ rw e (write_digits-StartsDigit fuel (n / 10) ((b'0' + n % 10) ∷ out) (omega arith))
]

itoa-StartsDigit : (n : ℕ) → StartsDigit (itoa n)
unfolding itoa
itoa-StartsDigit n = elim (Bool-cases (ltb n 10)) [
  | inl e ↦ rw e (ground arith)
  | inr e ↦ rw e (write_digits-StartsDigit n (n / 10) ((b'0' + n % 10) ∷ []) (omega arith))
]

atoi_unsigned : (s : Bytes) → StartsDigit s → atoi s ≡ positive (parse_digits 0 s)
unfolding atoi
atoi_unsigned [] h = absurd h
atoi_unsigned (c ∷ s) h = ground arith

-- `Atoi` reads back the print of every int64 that is not negative.
pub atoi-itoa : (n : ℕ) → n ≤ max_int64 → atoi (itoa n) ≡ pos n
unfolding positive itoa parse_digits
atoi-itoa n h =
    atoi_unsigned (itoa n) (itoa-StartsDigit n) ∙ ground (arith, write_digits-parse (suc n) n [])

pub itoa-ne-nil : (n : ℕ) → itoa n ≢ []
itoa-ne-nil n e = subst StartsDigit e (itoa-StartsDigit n)

count-write_digits :
    (c fuel n : ℕ) (out : Bytes) → b'9' < c → count c (write_digits fuel n out) ≡ count c out
unfolding write_digits
count-write_digits c zero n out h = refl
count-write_digits c (suc fuel) n out h =
    ground (arith, count-write_digits c fuel (n / 10) ((b'0' + n % 10) ∷ out))

-- The print of an int holds no byte above the digits.
pub count-itoa_int : (c : ℕ) (z : ℤ) → b'9' < c → count c (itoa_int z) ≡ 0
unfolding itoa_int itoa
count-itoa_int c (pos n) h = count-write_digits c (suc n) n [] h
count-itoa_int c (negsuc n) h = ground (arith, count-write_digits c (suc (n + 1)) (n + 1) [] h)
