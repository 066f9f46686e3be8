-- ===== src/Logs/History.antt =====
-- What the history of a category holds.
use srouter.Base.{
  ℕ, zero, suc, ◌+◌, ◌-◌, ◌≤◌, ◌<◌, true, List, [], ◌∷◌, ◌++◌, ◌≡◌, refl, sym, ap, ◌∙◌, arith,
  if◌then◌else◌, Text, text_eq, text_eq_iff, ltb, length, length-append, keep, Bool-cases, inl, inr,
  append_assoc, append-nil,
}
use srouter.Maps.{lookup, lookup-insert}
use srouter.Logs.{LogLine, drop, last, lines_or_none, lines_of, remember, history_per_category}

module _ {ℓ} {A : Type ℓ} where
  length-drop : (n : ℕ) (xs : List A) → length (drop n xs) ≡ length xs - n
  unfolding drop
  length-drop zero xs = omega arith
  length-drop (suc n) [] = omega arith
  length-drop (suc n) (x ∷ xs) = omega (arith, length-drop n xs)

  pub length-last : (n : ℕ) (xs : List A) → length (last n xs) ≤ n
  unfolding last
  length-last n xs = ground (arith, length-drop (length xs - n) xs)

  drop-append : (n : ℕ) (xs ys : List A) → n ≤ length xs → drop n (xs ++ ys) ≡ drop n xs ++ ys
  unfolding drop
  drop-append zero xs ys h = refl
  drop-append (suc n) [] ys h = absurd (omega (arith, h))
  drop-append (suc n) (x ∷ xs) ys h = drop-append n xs ys (omega (arith, h))

  drop-nil : (n : ℕ) → drop {A = A} n [] ≡ []
  unfolding drop
  drop-nil zero = refl
  drop-nil (suc n) = refl

  drop-drop : (m n : ℕ) (xs : List A) → drop m (drop n xs) ≡ drop (n + m) xs
  unfolding drop
  drop-drop m zero xs = ap (λ k. drop k xs) (omega arith)
  drop-drop m (suc n) [] = drop-nil m ∙ sym (drop-nil (suc n + m))
  drop-drop m (suc n) (x ∷ xs) =
      drop-drop m n xs ∙ ap (λ k. drop k (x ∷ xs)) {x = suc (n + m)} {y = suc n + m} (omega arith)

  last_cut : (n : ℕ) (xs : List A) → n ≤ length xs → last n xs ≡ drop (length xs - n) xs
  unfolding last
  last_cut n xs h = elim (Bool-cases (ltb n (length xs))) [
    | inl more ↦ rw more refl
    | inr no_more ↦ rw no_more (ap (λ k. drop k xs) (zero_left (length xs) h (ground arith)))
  ]
    where
      zero_left : (l : ℕ) → n ≤ l → l ≤ n → 0 ≡ l - n
      zero_left l a b = omega arith

  last_short : (n : ℕ) (xs : List A) → length xs ≤ n → last n xs ≡ xs
  unfolding last
  last_short n xs h = ground arith

  last-drop : (n k : ℕ) (zs : List A) → k + n ≤ length zs → last n (drop k zs) ≡ last n zs
  last-drop n k zs h =
      last_cut n (drop k zs) (omega (arith, length-drop k zs))
      ∙ drop-drop (length (drop k zs) - n) k zs
      ∙ ap (λ j. drop j zs) (omega (arith, length-drop k zs))
      ∙ sym (last_cut n zs (omega arith))

  -- Cutting twice cuts once.
  pub last-last : (n : ℕ) (xs ys : List A) → last n (last n xs ++ ys) ≡ last n (xs ++ ys)
  last-last n xs ys = elim (Bool-cases (ltb n (length xs))) [
    | inr no_more ↦ ap (λ zs. last n (zs ++ ys)) (last_short n xs (ground arith))
    | inl more ↦
        let k = length xs - n in
        ap (λ zs. last n (zs ++ ys)) (last_cut n xs (ground arith))
        ∙ ap (last n) (sym (drop-append k xs ys (omega arith)))
        ∙ last-drop n k (xs ++ ys) (omega (arith, length-append xs ys, more_than more))
  ]
    where
      more_than : ltb n (length xs) ≡ true → n < length xs
      more_than h = ground arith

pub lines_of-remember :
    (category : Text) (l : LogLine) (h : List (Text × List LogLine))
    → lines_of category (remember l h) ≡ (
        if text_eq l.category category
        then last history_per_category (lines_of category h ++ l ∷ [])
        else lines_of category h)
unfolding remember
lines_of-remember category l h = elim (Bool-cases (text_eq l.category category)) [
  | inl same ↦
      let here = (text_eq_iff l.category category).0 same in
      ap lines_or_none (lookup-insert l.category category (kept l.category) h)
      ∙ rw same (unfold lines_or_none in ap kept here)
  | inr other ↦
      ap lines_or_none (lookup-insert l.category category (kept l.category) h) ∙ rw other refl
]
  where
    kept : Text → List LogLine
    kept c = last history_per_category (lines_of c h ++ l ∷ [])

-- the history after the lines, one after the other
unfoldable pub remember_all : List LogLine → List (Text × List LogLine) → List (Text × List LogLine)
remember_all [] h = h
remember_all (l ∷ lines) h = remember_all lines (remember l h)

abbrev pub of_category : Text → List LogLine → List LogLine
of_category category lines = keep (λ l. text_eq l.category category) lines

remembered_behind :
    (category : Text) (lines : List LogLine) (h : List (Text × List LogLine))
    → length (lines_of category h) ≤ history_per_category
    → lines_of category (remember_all lines h)
      ≡ last history_per_category (lines_of category h ++ of_category category lines)
unfolding remember_all keep
remembered_behind category [] h short = sym (
    ap (last history_per_category) (append-nil (lines_of category h))
    ∙ last_short history_per_category (lines_of category h) short)
remembered_behind category (l ∷ lines) h short = elim (Bool-cases (text_eq l.category category)) [
  | inl same ↦
      let now = lines_of-remember category l h ∙ rw same refl in
      remembered_behind category lines (remember l h)
        (rw now (length-last history_per_category (lines_of category h ++ l ∷ [])))
      ∙ ap (λ xs. last history_per_category (xs ++ of_category category lines)) now
      ∙ last-last history_per_category (lines_of category h ++ l ∷ []) (of_category category lines)
      ∙ rw same (
          ap (last history_per_category)
            (append_assoc (lines_of category h) (l ∷ []) (of_category category lines)))
  | inr other ↦
      let now = lines_of-remember category l h ∙ rw other refl in
      remembered_behind category lines (remember l h) (rw now short) ∙ rw (now, other) refl
]

-- The history of a category holds the last 150 lines of that category, in their order, whatever the
-- lines of other categories between them.
pub lines_of-remember_all :
    (category : Text) (lines : List LogLine)
    → lines_of category (remember_all lines [])
      ≡ last history_per_category (of_category category lines)
lines_of-remember_all category lines =
    remembered_behind category lines [] (unfold lines_of lines_or_none lookup in omega arith)
    ∙ none_before
  where
    none_before :
        last history_per_category (lines_of category [] ++ of_category category lines)
        ≡ last history_per_category (of_category category lines)
    none_before = unfold lines_of lines_or_none lookup in refl
