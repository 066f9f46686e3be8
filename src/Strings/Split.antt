-- ===== src/Strings/Split.antt =====
-- Laws of `Split` and `SplitN`.
use srouter.Base.{
  length, zero, suc, ◌≤◌, ℕ, suc, zero, true, false, List, [], ◌∷◌, ◌++◌, ◌≡◌, ◌≢◌, refl, arith,
  Text, text_eq, Lacks, ◌==◌, Bool-cases, inl, inr, ap, sym, All, ◌∙◌,
}
use srouter.Strings.{has_prefix, push, split, split_n, join}

pub has_prefix-append_both : (p s t : Text) → has_prefix (p ++ s) (p ++ t) ≡ has_prefix s t
unfolding has_prefix
has_prefix-append_both [] s t = refl
has_prefix-append_both (c ∷ p) s t = ground (arith, has_prefix-append_both p s t)

-- Behind a separator that neither word holds, a prefix decides equality of the words.
pub has_prefix_sep :
    (sep : ℕ) (a b r : Text)
    → Lacks sep a
    → Lacks sep b
    → has_prefix (a ++ (sep ∷ r)) (b ++ sep ∷ []) ≡ text_eq a b
unfolding has_prefix text_eq
has_prefix_sep sep [] [] [] _ _ = ground arith
has_prefix_sep sep [] [] (d ∷ r) _ _ = ground arith
has_prefix_sep sep [] (d ∷ b) r _ (h, _) = ground arith
has_prefix_sep sep (c ∷ a) [] r (h, _) _ = ground arith
has_prefix_sep sep (c ∷ a) (d ∷ b) r (hc, ha) (hd, hb) =
    ground (arith, has_prefix_sep sep a b r ha hb)

pub split_n-zero : (sep : ℕ) (s : Text) → split_n sep 0 s ≡ s ∷ []
unfolding split_n
split_n-zero sep [] = refl
split_n-zero sep (c ∷ s) = refl

pub split_n_at_sep :
    (sep n : ℕ) (a b : Text)
    → Lacks sep a
    → split_n sep (suc n) (a ++ (sep ∷ b)) ≡ a ∷ split_n sep n b
unfolding split_n push
split_n_at_sep sep n [] b _ = ground arith
split_n_at_sep sep n (c ∷ a) b (hc, ha) = ground (arith, split_n_at_sep sep n a b ha)

-- a text without the separator is one part
pub split_n_whole : (sep n : ℕ) (s : Text) → Lacks sep s → split_n sep n s ≡ s ∷ []
unfolding split_n push
split_n_whole sep n [] _ = refl
split_n_whole sep zero (c ∷ s) _ = refl
split_n_whole sep (suc n) (c ∷ s) (hc, hs) = ground (arith, split_n_whole sep (suc n) s hs)

push-pair :
    (c : ℕ) (ls : List Text) (a b : Text)
    → push c ls ≡ a ∷ b ∷ []
    → (a' : Text) × (ls ≡ a' ∷ b ∷ []) × (a ≡ c ∷ a')
unfolding push
push-pair c [] a b h = cc
push-pair c (l ∷ ls) a b h = (l, cc, cc)

pub split_n_here :
    (sep n c : ℕ) (s : Text)
    → (c == sep) ≡ true
    → split_n sep (suc n) (c ∷ s) ≡ [] ∷ split_n sep n s
unfolding split_n
split_n_here sep n c s e = rw (e, split_n)

pub split_n_later :
    (sep n c : ℕ) (s : Text)
    → (c == sep) ≡ false
    → split_n sep (suc n) (c ∷ s) ≡ push c (split_n sep (suc n) s)
unfolding split_n
split_n_later sep n c s e = rw (e, split_n)

split_n_nil : (sep n : ℕ) → split_n sep n [] ≡ [] ∷ []
unfolding split_n
split_n_nil sep n = refl

pair_here :
    (sep c : ℕ) (s a b : Text)
    → (c == sep) ≡ true
    → [] ∷ split_n sep 0 s ≡ a ∷ b ∷ []
    → (c ∷ s ≡ a ++ (sep ∷ b)) × Lacks sep a
pair_here sep c s [] b e h = (ground (arith, split_n-zero sep s), tt)
pair_here sep c s (d ∷ a) b e h = cc

pair_later :
    (sep c : ℕ) (s a' a b : Text)
    → (c == sep) ≡ false
    → a ≡ c ∷ a'
    → (s ≡ a' ++ (sep ∷ b)) × Lacks sep a'
    → (c ∷ s ≡ a ++ (sep ∷ b)) × Lacks sep a
pair_later sep c s a' a b e eq h = rw eq (ap (λ t. c ∷ t) h.0, (ground arith, h.1))

-- Two parts of `SplitN` with at most two are the text before the first separator and what follows.
pub split_n_pair :
    (sep : ℕ) (s a b : Text) → split_n sep 1 s ≡ a ∷ b ∷ [] → (s ≡ a ++ (sep ∷ b)) × Lacks sep a
split_n_pair sep [] a b h = cc (split_n_nil sep 1)
split_n_pair sep (c ∷ s) a b h = elim (Bool-cases (c == sep)) [
  | inl e ↦ pair_here sep c s a b e (sym (split_n_here sep 0 c s e) ∙ h)
  | inr e ↦
      let (a', rest, eq) =
        push-pair c (split_n sep 1 s) a b (sym (split_n_later sep 0 c s e) ∙ h) in
      pair_later sep c s a' a b e eq (split_n_pair sep s a' b rest)
]

-- Parts that do not hold the separator come back from their join.
pub split_at_sep :
    (sep : ℕ) (a b : Text) → Lacks sep a → split sep (a ++ (sep ∷ b)) ≡ a ∷ split sep b
unfolding split push
split_at_sep sep [] b _ = ground arith
split_at_sep sep (c ∷ a) b (hc, ha) = ground (arith, split_at_sep sep a b ha)

pub split_whole : (sep : ℕ) (s : Text) → Lacks sep s → split sep s ≡ s ∷ []
unfolding split push
split_whole sep [] _ = refl
split_whole sep (c ∷ s) (hc, hs) = ground (arith, split_whole sep s hs)

join_cons :
    (sep : ℕ) (l m : Text) (ls : List Text)
    → join (sep ∷ []) (l ∷ m ∷ ls) ≡ l ++ (sep ∷ join (sep ∷ []) (m ∷ ls))
unfolding join
join_cons sep l m ls = refl

join_one : (sep l : Text) → join sep (l ∷ []) ≡ l
unfolding join
join_one sep l = refl

pub split-join :
    (sep : ℕ) (l : Text) (ls : List Text)
    → All (Lacks sep) (l ∷ ls)
    → split sep (join (sep ∷ []) (l ∷ ls)) ≡ l ∷ ls
split-join sep l [] (h, _) = rw (join_one (sep ∷ []) l) (split_whole sep l h)
split-join sep l (m ∷ ls) (h, hs) =
    rw (
      join_cons sep l m ls,
      split_at_sep sep l (join (sep ∷ []) (m ∷ ls)) h,
      split-join sep m ls hs,
    )

split_here : (sep c : ℕ) (s : Text) → (c == sep) ≡ true → split sep (c ∷ s) ≡ [] ∷ split sep s
unfolding split
split_here sep c s e = rw e

split_later : (sep c : ℕ) (s : Text) → (c == sep) ≡ false → split sep (c ∷ s) ≡ push c (split sep s)
unfolding split
split_later sep c s e = rw e

split_nil : (sep : ℕ) → split sep [] ≡ [] ∷ []
unfolding split
split_nil sep = refl

push-many :
    (c : ℕ) (ls : List Text) (a b : Text) (bs : List Text)
    → push c ls ≡ a ∷ b ∷ bs
    → (a' : Text) × (ls ≡ a' ∷ b ∷ bs) × (a ≡ c ∷ a')
unfolding push
push-many c [] a b bs h = cc
push-many c (l ∷ ls) a b bs h = (l, cc, cc)

abbrev pub StartsWith : ℕ → Text → Text → Type 0
StartsWith sep s a = (v : Text) × (s ≡ a ++ (sep ∷ v)) × Lacks sep a

first_here :
    (sep c : ℕ) (s a b : Text) (bs : List Text)
    → (c == sep) ≡ true
    → [] ∷ split sep s ≡ a ∷ b ∷ bs
    → StartsWith sep (c ∷ s) a
first_here sep c s [] b bs e h = (s, ground arith, tt)
first_here sep c s (d ∷ a) b bs e h = cc

first_later :
    (sep c : ℕ) (s a' a : Text)
    → (c == sep) ≡ false
    → a ≡ c ∷ a'
    → StartsWith sep s a'
    → StartsWith sep (c ∷ s) a
first_later sep c s a' a e eq (v, k, free) = rw eq (v, ap (λ t. c ∷ t) k, (ground arith, free))

-- The first of several parts is the text before the first separator.
pub split_first :
    (sep : ℕ) (s a b : Text) (bs : List Text) → split sep s ≡ a ∷ b ∷ bs → StartsWith sep s a
split_first sep [] a b bs h = cc (split_nil sep)
split_first sep (c ∷ s) a b bs h = elim (Bool-cases (c == sep)) [
  | inl e ↦ first_here sep c s a b bs e (sym (split_here sep c s e) ∙ h)
  | inr e ↦
      let (a', rest, eq) = push-many c (split sep s) a b bs (sym (split_later sep c s e) ∙ h) in
      first_later sep c s a' a e eq (split_first sep s a' b bs rest)
]

push-Lacks :
    (sep c : ℕ) (ls : List Text) → c ≢ sep → All (Lacks sep) ls → All (Lacks sep) (push c ls)
unfolding push
push-Lacks sep c [] h _ = ((h, tt), tt)
push-Lacks sep c (l ∷ ls) h (hl, hls) = ((h, hl), hls)

-- No part of a split holds the separator.
pub split-Lacks : (sep : ℕ) (s : Text) → All (Lacks sep) (split sep s)
unfolding split
split-Lacks sep [] = (tt, tt)
split-Lacks sep (c ∷ s) = ground (arith, split-Lacks sep s, push-Lacks sep c (split sep s))

length-push : (n c : ℕ) (ls : List Text) → length ls ≤ suc n → length (push c ls) ≤ suc n
unfolding push
length-push n c [] h = omega arith
length-push n c (l ∷ ls) h = h

-- A split into at most so many parts.
pub length-split_n : (sep n : ℕ) (s : Text) → length (split_n sep n s) ≤ suc n
unfolding split_n
length-split_n sep n [] = omega arith
length-split_n sep zero (c ∷ s) = omega arith
length-split_n sep (suc n) (c ∷ s) = ground (
  arith,
  length-split_n sep n s,
  length-push (suc n) c (split_n sep (suc n) s) (length-split_n sep (suc n) s),
)
