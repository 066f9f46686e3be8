-- ===== src/Strings/Parts.antt =====
-- Parts of a text: what trimming and splitting leave stands in the text, and `Contains` sees it.
use srouter.Base.{
  ℕ, zero, suc, true, List, [], ◌∷◌, ◌++◌, ◌≡◌, refl, ap, ◌∙◌, arith, Text, ◌==◌, Bool-cases, inl,
  inr, append_assoc, append-nil, ◌⊎◌, map, map-append,
}
use srouter.Strings.{
  is_space, trim_left, put_trimmed, trim_right, trim_space, has_prefix, trim_prefix, push, split_n,
  contains, lower_rune, to_lower,
}
use srouter.Strings.Prefix.{has_prefix_sound}

-- The text stands somewhere in the other.
abbrev pub Infix : Text → Text → Type 0
Infix t s = (a : Text) × (b : Text) × (s ≡ a ++ (t ++ b))

pub Infix-trans : (t u s : Text) → Infix t u → Infix u s → Infix t s
Infix-trans t u s (a, b, e) (a', b', e') =
    (a' ++ a, b ++ b', e' ∙ ap (λ x. a' ++ (x ++ b')) e ∙ simp append_assoc)

put_trimmed_part : (c : ℕ) (t b : Text) → (d : Text) × (c ∷ (t ++ b) ≡ put_trimmed c t ++ d)
unfolding put_trimmed
put_trimmed_part c [] b = elim (Bool-cases (is_space c)) [
  | inl e ↦ (c ∷ b, rw e)
  | inr e ↦ (b, rw e)
]
put_trimmed_part c (x ∷ t) b = (b, refl)

trim_right_part : (s : Text) → (b : Text) × (s ≡ trim_right s ++ b)
unfolding trim_right
trim_right_part [] = ([], refl)
trim_right_part (c ∷ s) =
    let (b, e) = trim_right_part s in
    let (d, k) = put_trimmed_part c (trim_right s) b in (d, ap (λ t. c ∷ t) e ∙ k)

trim_left_part : (s : Text) → (a : Text) × (s ≡ a ++ trim_left s)
unfolding trim_left
trim_left_part [] = ([], refl)
trim_left_part (c ∷ s) =
    let (a, e) = trim_left_part s in
    elim (Bool-cases (is_space c)) [
      | inl p ↦ (c ∷ a, rw p (ap (λ t. c ∷ t) e))
      | inr p ↦ ([], rw p)
    ]

pub Infix-trim_space : (s : Text) → Infix (trim_space s) s
Infix-trim_space s =
    let (b, e) = trim_right_part s in
    let (a, k) = trim_left_part (trim_right s) in
    (
      a,
      b,
      unfold trim_space in e ∙ ap (λ t. t ++ b) k ∙ append_assoc a (trim_left (trim_right s)) b,
    )

pub Infix-trim_prefix : (s p : Text) → Infix (trim_prefix s p) s
Infix-trim_prefix s p = elim (Bool-cases (has_prefix s p)) [
  | inl h ↦ (p, [], unfold trim_prefix in rw (h, append-nil) (has_prefix_sound s p h))
  | inr h ↦ ([], [], unfold trim_prefix in rw (h, append-nil))
]

push_head :
    (c : ℕ) (ls : List Text) (h : Text) (rest : List Text)
    → push c ls ≡ h ∷ rest
    → (h ≡ c ∷ []) ⊎ ((h' : Text) × (rest' : List Text) × (ls ≡ h' ∷ rest') × (h ≡ c ∷ h'))
unfolding push
push_head c [] h rest e = inl (cc)
push_head c (l ∷ ls) h rest e = inr (l, ls, refl, cc)

split_n_first :
    (sep n : ℕ) (s h : Text) (rest : List Text)
    → split_n sep n s ≡ h ∷ rest
    → (b : Text) × (s ≡ h ++ b)
unfolding split_n
split_n_first sep n [] h rest e = ([], cc)
split_n_first sep zero (c ∷ s) h rest e = ([], ground (arith, append-nil h))
split_n_first sep (suc n) (c ∷ s) h rest e =
    first_step sep n c s h rest e (split_n_first sep (suc n) s)
  where
    first_step :
        (sep n c : ℕ) (s h : Text) (rest : List Text)
        → split_n sep (suc n) (c ∷ s) ≡ h ∷ rest
        → ((h' : Text) (rest' : List Text)
            → split_n sep (suc n) s ≡ h' ∷ rest'
            → (b : Text) × (s ≡ h' ++ b))
        → (b : Text) × (c ∷ s ≡ h ++ b)
    first_step sep n c s h rest e ih = elim (Bool-cases (c == sep)) [
      | inl k ↦ (c ∷ s, ground arith)
      | inr k ↦ elim (push_head c (split_n sep (suc n) s) h rest (ground arith)) [
        | inl one ↦ (s, cc one)
        | inr (h', rest', e', k') ↦ let (b, eq) = ih h' rest' e' in (b, ground arith)
      ]
    ]

-- The first part of a split stands in the text.
pub Infix-split_n :
    (sep n : ℕ) (s h : Text) (rest : List Text) → split_n sep n s ≡ h ∷ rest → Infix h s
Infix-split_n sep n s h rest e = let (b, k) = split_n_first sep n s h rest e in ([], b, k)

has_prefix_more : (t b p : Text) → has_prefix t p ≡ true → has_prefix (t ++ b) p ≡ true
unfolding has_prefix
has_prefix_more [] [] [] h = refl
has_prefix_more [] (c ∷ b) [] h = refl
has_prefix_more [] b (d ∷ p) h = cc
has_prefix_more (c ∷ t) b [] h = refl
has_prefix_more (c ∷ t) b (d ∷ p) h = ground (arith, has_prefix_more t b p)

contains_right : (t b p : Text) → contains t p ≡ true → contains (t ++ b) p ≡ true
unfolding contains
contains_right [] [] p h = h
contains_right [] (c ∷ b) p h = rw (has_prefix_more [] (c ∷ b) p h)
contains_right (c ∷ t) b p h = ground (arith, has_prefix_more (c ∷ t) b p, contains_right t b p)

contains_left : (a t p : Text) → contains t p ≡ true → contains (a ++ t) p ≡ true
unfolding contains
contains_left [] t p h = h
contains_left (c ∷ a) t p h = ground (arith, contains_left a t p h)

-- What a part of a text contains, the text contains, in lower case too.
pub contains_lower-Infix :
    (wide : ℕ → ℕ) (t s p : Text)
    → Infix t s
    → contains (to_lower wide t) p ≡ true
    → contains (to_lower wide s) p ≡ true
unfolding to_lower
contains_lower-Infix wide t s p (a, b, e) h =
    rw (e, map-append, map-append)
      (contains_left (map (lower_rune wide) a) _ p
        (contains_right (map (lower_rune wide) t) (map (lower_rune wide) b) p h))

has_prefix_refl : (s : Text) → has_prefix s s ≡ true
unfolding has_prefix
has_prefix_refl [] = refl
has_prefix_refl (c ∷ s) = ground (arith, has_prefix_refl s)

pub contains_refl : (s : Text) → contains s s ≡ true
unfolding contains
contains_refl [] = has_prefix_refl []
contains_refl (c ∷ s) = rw (has_prefix_refl (c ∷ s))
