-- ===== src/Logs/Offers.antt =====
-- What a subscriber finds in its channel when the histories are offered to it, and that it fits.
use srouter.Base.{
  ℕ, suc, ◌≤◌, false, List, [], ◌∷◌, ◌++◌, ◌≡◌, refl, sym, ap, ◌∙◌, arith, Text, ltb, length,
  length-append, keep, Bool-cases, inl, inr, append_assoc, append-nil, zero, keep-append,
}
use srouter.Logs.{
  LogLine, LogFilter, LogSubscriber, matches_filter, offer, offer_all, offer_histories,
  channel_size,
}

-- the first items, at most so many
unfoldable pub first {ℓ} : {A : Type ℓ} → ℕ → List A → List A
first n [] = []
first zero (x ∷ xs) = []
first (suc n) (x ∷ xs) = x ∷ first n xs

first-append {ℓ} : {A : Type ℓ} (n : ℕ) (xs ys : List A) → length xs ≡ n → first n (xs ++ ys) ≡ xs
unfolding first
first-append zero [] [] h = refl
first-append zero [] (y ∷ ys) h = refl
first-append zero (x ∷ xs) ys h = absurd (omega (arith, h))
first-append (suc n) [] ys h = absurd (omega (arith, h))
first-append (suc n) (x ∷ xs) ys h = ap (λ zs. x ∷ zs) (first-append n xs ys (omega (arith, h)))

first-short {ℓ} : {A : Type ℓ} (n : ℕ) (xs : List A) → length xs ≤ n → first n xs ≡ xs
unfolding first
first-short n [] h = refl
first-short zero (x ∷ xs) h = absurd (omega (arith, h))
first-short (suc n) (x ∷ xs) h = ap (λ zs. x ∷ zs) (first-short n xs (omega (arith, h)))

module _ (wide : ℕ → ℕ) where
  abbrev pub Fits : ℕ × LogSubscriber → Type 0
  Fits s = length s.1.ch ≤ channel_size

  pub offer-Fits :
      (l : LogLine) (ch : List LogLine)
      → length ch ≤ channel_size
      → length (offer l ch) ≤ channel_size
  unfolding offer
  offer-Fits l ch h = ground (arith, length-append ch (l ∷ []))

  offer_all-Fits :
      (f : LogFilter) (ch lines : List LogLine)
      → length ch ≤ channel_size
      → length (offer_all wide f ch lines) ≤ channel_size
  unfolding offer_all
  offer_all-Fits f ch [] h = h
  offer_all-Fits f ch (l ∷ lines) h = elim (Bool-cases (matches_filter wide l f)) [
    | inl wanted ↦ rw wanted (offer_all-Fits f (offer l ch) lines (offer-Fits l ch h))
    | inr other ↦ rw other (offer_all-Fits f ch lines h)
  ]

  pub offer_histories-Fits :
      (f : LogFilter) (ch : List LogLine) (history : List (Text × List LogLine))
      → length ch ≤ channel_size
      → length (offer_histories wide f ch history) ≤ channel_size
  unfolding offer_histories
  offer_histories-Fits f ch [] h = h
  offer_histories-Fits f ch ((c, lines) ∷ history) h =
      offer_histories-Fits f (offer_all wide f ch lines) history (offer_all-Fits f ch lines h)

  offer-first :
      (l : LogLine) (ch more : List LogLine)
      → length ch ≤ channel_size
      → first channel_size (offer l ch ++ more) ≡ first channel_size (ch ++ (l ∷ more))
  unfolding offer
  offer-first l ch more h = elim (Bool-cases (ltb (length ch) channel_size)) [
    | inl room ↦ rw room (ap (first channel_size) (append_assoc ch (l ∷ []) more))
    | inr no_room ↦
        let full = filled (length ch) no_room h in
        rw no_room (
          first-append channel_size ch more full
          ∙ sym (first-append channel_size ch (l ∷ more) full))
  ]
    where
      filled : (n : ℕ) → ltb n channel_size ≡ false → n ≤ channel_size → n ≡ channel_size
      filled n h k = ground arith

  offer_all-first :
      (f : LogFilter) (ch lines more : List LogLine)
      → length ch ≤ channel_size
      → first channel_size (offer_all wide f ch lines ++ more)
        ≡ first channel_size (ch ++ (keep (λ l. matches_filter wide l f) lines ++ more))
  unfolding offer_all keep
  offer_all-first f ch [] more h = refl
  offer_all-first f ch (l ∷ lines) more h = elim (Bool-cases (matches_filter wide l f)) [
    | inl wanted ↦ rw wanted (
        offer_all-first f (offer l ch) lines more (offer-Fits l ch h)
        ∙ offer-first l ch (keep (λ l. matches_filter wide l f) lines ++ more) h)
    | inr other ↦ rw other (offer_all-first f ch lines more h)
  ]

  -- the lines of all histories, in the order in which Go ranges over them
  abbrev pub all_lines : List (Text × List LogLine) → List LogLine
  all_lines [] = []
  all_lines ((category, lines) ∷ history) = lines ++ all_lines history

  pub offer_histories-first :
      (f : LogFilter) (ch : List LogLine) (history : List (Text × List LogLine))
      → length ch ≤ channel_size
      → offer_histories wide f ch history
        ≡ first channel_size (ch ++ keep (λ l. matches_filter wide l f) (all_lines history))
  unfolding offer_histories keep
  offer_histories-first f ch [] h = sym (rw (append-nil ch) (first-short channel_size ch h))
  offer_histories-first f ch ((c, lines) ∷ history) h =
      offer_histories-first f (offer_all wide f ch lines) history (offer_all-Fits f ch lines h)
      ∙ offer_all-first f ch lines (keep (λ l. matches_filter wide l f) (all_lines history)) h
      ∙ ap (λ ls. first channel_size (ch ++ ls))
          (sym (keep-append (λ l. matches_filter wide l f) lines (all_lines history)))
