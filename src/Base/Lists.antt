-- ===== src/Base/Lists.antt =====
-- Lists over the native numbers, and predicates on their items.
use Prim.Native.Nat.{ℕ, zero, suc, ◌+◌, ◌≤◌}
use mathlib.Core.Bool.{Bool, true, false}
use mathlib.Core.List.{List, [], ◌∷◌, ◌++◌, map}
use mathlib.Core.Logic.{◌≢◌, ◌⊎◌, inl, inr}
use mathlib.Core.Path.{◌≡◌, refl}
use mathlib.Core.Option.{Option, none, some}
use native.Mathlib.Omega.{arith}
use srouter.Base.Tests.{if◌then◌else◌, Text}

pub Option-cases {ℓ} : {A : Type ℓ} (o : Option A) → (o ≡ none) ⊎ ((x : A) × (o ≡ some x))
Option-cases none = inl refl
Option-cases (some x) = inr (x, refl)

module _ {ℓ} {A : Type ℓ} where
  abbrev pub length : List A → ℕ
  length [] = 0
  length (x ∷ xs) = suc (length xs)

  abbrev pub get_elem? : List A → ℕ → Option A
  get_elem? [] i = none
  get_elem? (x ∷ xs) zero = some x
  get_elem? (x ∷ xs) (suc i) = get_elem? xs i

  -- The items that a Boolean test keeps.
  unfoldable pub keep : (A → Bool) → List A → List A
  keep p [] = []
  keep p (x ∷ xs) = let rest = keep p xs in if p x then x ∷ rest else rest

  pub keep-append : (p : A → Bool) (xs ys : List A) → keep p (xs ++ ys) ≡ keep p xs ++ keep p ys
  unfolding keep
  keep-append p [] ys = refl
  keep-append p (x ∷ xs) ys = ground (arith, keep-append p xs ys)

  pub keep-keep : (p : A → Bool) (xs : List A) → keep p (keep p xs) ≡ keep p xs
  unfolding keep
  keep-keep p [] = refl
  keep-keep p (x ∷ xs) = ground (arith, keep-keep p xs)

  pub length-append : (xs ys : List A) → length (xs ++ ys) ≡ length xs + length ys
  length-append [] ys = omega arith
  length-append (x ∷ xs) ys = omega (arith, length-append xs ys)

  pub length-keep : (p : A → Bool) (xs : List A) → length (keep p xs) ≤ length xs
  unfolding keep
  length-keep p [] = omega arith
  length-keep p (x ∷ xs) = ground (arith, length-keep p xs)

module _ {ℓ κ} {A : Type ℓ} {B : Type κ} where
  -- The results of a loop that appends for some items and skips the others.
  unfoldable pub collect : (A → Option B) → List A → List B
  collect f [] = []
  collect f (x ∷ xs) = elim (f x) [ none ↦ collect f xs | some y ↦ y ∷ collect f xs ]

  pub collect-append :
      (f : A → Option B) (xs ys : List A) → collect f (xs ++ ys) ≡ collect f xs ++ collect f ys
  unfolding collect
  collect-append f [] ys = refl
  collect-append f (x ∷ xs) ys = ground (arith, collect-append f xs ys)

  pub collect-nil : (f : A → Option B) → collect f [] ≡ []
  unfolding collect
  collect-nil f = refl

  pub collect-one : (f : A → Option B) (x : A) {y : B} → f x ≡ some y → collect f (x ∷ []) ≡ y ∷ []
  unfolding collect
  collect-one f x h = ground arith

  pub collect-one_none : (f : A → Option B) (x : A) → f x ≡ none → collect f (x ∷ []) ≡ []
  unfolding collect
  collect-one_none f x h = ground arith

  pub collect-cons :
      (f : A → Option B) (x : A) (xs : List A) {y : B}
      → f x ≡ some y
      → collect f (x ∷ xs) ≡ y ∷ collect f xs
  unfolding collect
  collect-cons f x xs h = ground arith

  pub collect-cons_none :
      (f : A → Option B) (x : A) (xs : List A) → f x ≡ none → collect f (x ∷ xs) ≡ collect f xs
  unfolding collect
  collect-cons_none f x xs h = ground arith

  -- What a test drops does not matter where it gives nothing.
  pub collect-keep :
      (f : A → Option B) (p : A → Bool)
      → ((x : A) → p x ≡ false → f x ≡ none)
      → (xs : List A) → collect f (keep p xs) ≡ collect f xs
  unfolding collect keep
  collect-keep f p h [] = refl
  collect-keep f p h (x ∷ xs) = ground (arith, h x, collect-keep f p h xs)

  -- Nothing is left where all that gives something is dropped.
  pub collect-keep-none :
      (f : A → Option B) (p : A → Bool)
      → ((x : A) → p x ≡ true → f x ≡ none)
      → (xs : List A) → collect f (keep p xs) ≡ []
  unfolding collect keep
  collect-keep-none f p h [] = refl
  collect-keep-none f p h (x ∷ xs) = ground (arith, h x, collect-keep-none f p h xs)

  -- A test on the items is a test on the results.
  pub collect-keep_on :
      (f : A → Option B) (p : A → Bool) (q : B → Bool)
      → ((x : A) (y : B) → f x ≡ some y → p x ≡ q y)
      → (xs : List A) → collect f (keep p xs) ≡ keep q (collect f xs)
  unfolding collect keep
  collect-keep_on f p q h [] = refl
  collect-keep_on f p q h (x ∷ xs) = elim (Option-cases (f x)) [
    | inl e ↦ ground (arith, e, collect-keep_on f p q h xs)
    | inr (y, e) ↦ ground (arith, e, h x y e, collect-keep_on f p q h xs)
  ]

  pub collect-map :
      (f : A → Option B) (g : A → A)
      → ((x : A) → f (g x) ≡ f x)
      → (xs : List A) → collect f (map g xs) ≡ collect f xs
  unfolding collect
  collect-map f g h [] = refl
  collect-map f g h (x ∷ xs) = ground (arith, h x, collect-map f g h xs)

module _ {ℓ κ} {A : Type ℓ} where
  abbrev pub All : (A → Type κ) → List A → Type κ
  All P [] = Unit
  All P (x ∷ xs) = P x × All P xs

  pub All-append : (P : A → Type κ) (xs ys : List A) → All P xs → All P ys → All P (xs ++ ys)
  All-append P [] ys _ hy = hy
  All-append P (x ∷ xs) ys (px, hx) hy = (px, All-append P xs ys hx hy)

  pub All-keep : (P : A → Type κ) (p : A → Bool) (xs : List A) → All P xs → All P (keep p xs)
  unfolding keep
  All-keep P p [] _ = tt
  All-keep P p (x ∷ xs) (px, hx) = ground (arith, All-keep P p xs hx)

-- No item of the text is the code point `b`.
abbrev pub Lacks : ℕ → Text → Type 0
Lacks b = All (λ c. c ≢ b)
