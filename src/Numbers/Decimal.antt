-- ===== src/Numbers/Decimal.antt =====
-- Numbers that are printed are read back, and what is read is in range.
use mathlib.Core.List.{cons-ne-nil, concat-ne-nil}
use srouter.Base.{
  false, ◌==◌, inl, inr, Bool-cases, ap, ℕ, zero, suc, ◌+◌, ◌-◌, ◌*◌, ◌/◌, ◌%◌, ◌^◌, ◌≤◌, ◌<◌, [],
  ◌∷◌, ◌++◌, ltb, Text, ◌≡◌, refl, ◌∙◌, ◌≢◌, arith,
}
use srouter.Numbers.{
  parse_int, signed, pos, parsed, max_u64, parse_digits, parse_uint, digits, decimal,
}

-- the value that digits spell behind `n`
abbrev pub value : ℕ → Text → ℕ
value n [] = n
value n (c ∷ s) = value (n * 10 + (c - b'0')) s

parse_digits_last :
    (n m d : ℕ) (s : Text)
    → d < 10
    → m * 10 + d ≤ max_u64
    → parse_digits n s ≡ parsed m
    → parse_digits n (s ++ (b'0' + d) ∷ []) ≡ parsed (m * 10 + d)
unfolding parse_digits
parse_digits_last n m d [] hd fits h = ground arith
parse_digits_last n m d (c ∷ s) hd fits h =
    ground (arith, parse_digits_last (n * 10 + (c - b'0')) m d s hd fits)

digits_round :
    (f n : ℕ)
    → n ≤ max_u64
    → (n / 10 < f → n / 10 ≤ max_u64 → parse_digits 0 (digits f (n / 10)) ≡ parsed (n / 10))
    → n < suc f
    → parse_digits 0 (digits (suc f) n) ≡ parsed n
unfolding digits parse_digits
digits_round f n fits ih h = elim (Bool-cases (ltb n 10)) [
  | inl small ↦ ground arith
  | inr big ↦ rw big (
      parse_digits_last 0 (n / 10) (n % 10) (digits f (n / 10)) (omega arith) (omega arith)
        (ih (ground arith) (omega arith))
      ∙ ap parsed (omega arith))
]

digits-ne-nil : (f n : ℕ) → digits (suc f) n ≢ []
unfolding digits
digits-ne-nil f n = elim (Bool-cases (ltb n 10)) [
  | inl small ↦ rw small (cons-ne-nil _ _)
  | inr big ↦ rw big (concat-ne-nil _ _)
]

parse_uint_digits : (s : Text) → s ≢ [] → parse_uint s ≡ parse_digits 0 s
unfolding parse_uint
parse_uint_digits [] h = absurd (h refl)
parse_uint_digits (c ∷ s) h = refl

-- With more fuel than the number, all its digits are printed, and are read back.
parse_digits-digits : (f n : ℕ) → n < f → n ≤ max_u64 → parse_digits 0 (digits f n) ≡ parsed n
unfolding digits
parse_digits-digits zero n h fits = absurd (omega arith)
parse_digits-digits (suc f) n h fits = digits_round f n fits (parse_digits-digits f (n / 10)) h

-- Every `uint64` is read back from its print.
pub parse_uint-decimal : (n : ℕ) → n ≤ max_u64 → parse_uint (decimal n) ≡ parsed n
unfolding decimal
parse_uint-decimal n h =
    parse_uint_digits (digits (suc n) n) (digits-ne-nil n n)
    ∙ parse_digits-digits (suc n) n (omega arith) h

digit_first :
    (c : ℕ) (s : Text) (n : ℕ)
    → parse_uint (c ∷ s) ≡ parsed n
    → ((c == b'-') ≡ false) × ((c == b'+') ≡ false)
unfolding parse_uint parse_digits
digit_first c s n h = ground arith

-- What reads as an unsigned number reads as the same signed one, if it fits an `int64`.
parse_int-parse_uint :
    (s : Text) (n : ℕ) → n < 2 ^ 63 → parse_uint s ≡ parsed n → parse_int s ≡ parsed (pos n)
parse_int-parse_uint [] n small h = absurd (unfold parse_uint in cc h)
parse_int-parse_uint (c ∷ s) n small h =
    let (minus, plus) = digit_first c s n h in
    unfold parse_int in rw (minus, plus, h) (fits n small)
  where
    fits : (n : ℕ) → n < 2 ^ 63 → signed false (parsed n) ≡ parsed (pos n)
    fits n small = unfold signed in ground arith

-- Every number below 2 ^ 63 is read back from its print by `Atoi`.
pub parse_int-decimal : (n : ℕ) → n < 2 ^ 63 → parse_int (decimal n) ≡ parsed (pos n)
parse_int-decimal n h =
    parse_int-parse_uint (decimal n) n h (parse_uint-decimal n (omega (arith, h)))
