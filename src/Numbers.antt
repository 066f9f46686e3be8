-- ===== src/Numbers.antt =====
-- What the program uses of Go's package strconv: decimal integers read and written.
pub mod Decimal
use srouter.Base.{
  ℕ, zero, suc, ◌+◌, ◌-◌, ◌*◌, ◌/◌, ◌%◌, ◌^◌, Bool, true, false, ◌||◌, List, [], ◌∷◌, ◌++◌, ltb,
  leb, ◌==◌, if◌then◌else◌, Text,
}

-- `negsuc n` is -(n + 1).
pub data ℤ : Type 0 where
  pos : ℕ → ℤ
  negsuc : ℕ → ℤ

-- A value, or the error of a failed call: `ErrSyntax` or `ErrRange`.
pub data Parsed {ℓ} (A : Type ℓ) : Type ℓ where
  parsed : A → Parsed A
  bad_syntax out_of_range : Parsed A

abbrev pub max_u64 : ℕ
max_u64 = 2 ^ 64 - 1

-- the loop of `strconv.ParseUint` at base 10 and 64 bits
unfoldable pub parse_digits : ℕ → Text → Parsed ℕ
parse_digits n [] = parsed n
parse_digits n (c ∷ s) =
    let rest = parse_digits (n * 10 + (c - b'0')) s in
    if ltb c b'0' || ltb b'9' c
    then bad_syntax
    else if ltb max_u64 (n * 10 + (c - b'0'))
    then out_of_range
    else rest

-- `strconv.ParseUint(s, 10, 64)`
unfoldable pub parse_uint : Text → Parsed ℕ
unfolding parse_digits
parse_uint [] = bad_syntax
parse_uint (c ∷ s) = parse_digits 0 (c ∷ s)

-- what `ParseUint` returns beside its error
unfoldable pub uint_value : Parsed ℕ → ℕ
uint_value (parsed n) = n
uint_value bad_syntax = 0
uint_value out_of_range = max_u64

unfoldable pub negated : ℕ → ℤ
negated zero = pos 0
negated (suc n) = negsuc n

-- the signed value of the digits, with the bound of an `int64`
unfoldable pub signed : Bool → Parsed ℕ → Parsed ℤ
unfolding negated
signed neg bad_syntax = bad_syntax
signed neg out_of_range = out_of_range
signed true (parsed n) = if ltb (2 ^ 63) n then out_of_range else parsed (negated n)
signed false (parsed n) = if leb (2 ^ 63) n then out_of_range else parsed (pos n)

-- `strconv.ParseInt(s, 10, 64)`; `strconv.Atoi` has the same values and the same errors.
unfoldable pub parse_int : Text → Parsed ℤ
unfolding signed parse_uint
parse_int [] = bad_syntax
parse_int (c ∷ s) =
    if c == b'-'
    then signed true (parse_uint s)
    else if c == b'+'
    then signed false (parse_uint s)
    else signed false (parse_uint (c ∷ s))

-- what `ParseInt` returns beside its error: on overflow the bound on the side of the sign
unfoldable pub int_value : Text → Parsed ℤ → ℤ
int_value s (parsed n) = n
int_value s bad_syntax = pos 0
int_value [] out_of_range = pos (2 ^ 63 - 1)
int_value (c ∷ s) out_of_range = if c == b'-' then negsuc (2 ^ 63 - 1) else pos (2 ^ 63 - 1)

-- The digits of a number, as `%d` prints them; the fuel falls with the number.
unfoldable pub digits : ℕ → ℕ → Text
digits zero n = []
digits (suc f) n =
    let rest = digits f (n / 10) in
    if ltb n 10 then (b'0' + n) ∷ [] else rest ++ (b'0' + n % 10) ∷ []

unfoldable pub decimal : ℕ → Text
unfolding digits
decimal n = digits (suc n) n
