-- ===== src/Strings/Trim.antt =====
-- Laws of `TrimSpace`.
use srouter.Base.{
  append-nil, ◌≢◌, Bool-cases, inl, inr, sym, ◌∙◌, not, ◌&&◌, ℕ, Bool, true, false, [], ◌∷◌, ◌++◌,
  ◌≡◌, refl, arith, Text, All,
}
use srouter.Strings.{is_space, trim_left, put_trimmed, trim_right, trim_space, drop_cr}

-- The code point is no white space.
abbrev pub Solid : ℕ → Type 0
Solid c = is_space c ≡ false

-- A test for words that are written out.
unfoldable pub is_solid : Text → Bool
unfolding is_space
is_solid [] = true
is_solid (c ∷ s) = not (is_space c) && is_solid s

pub is_solid_sound : (s : Text) → is_solid s ≡ true → All Solid s
unfolding is_solid
is_solid_sound [] _ = tt
is_solid_sound (c ∷ s) h = ground (arith, is_solid_sound s)

put_trimmed-cons : (c : ℕ) (t : Text) → Solid c → put_trimmed c t ≡ c ∷ t
unfolding put_trimmed
put_trimmed-cons c [] h = rw h
put_trimmed-cons c (d ∷ t) h = refl

trim_right-cons : (c : ℕ) (s : Text) → trim_right (c ∷ s) ≡ put_trimmed c (trim_right s)
unfolding trim_right
trim_right-cons c s = refl

pub trim_right-append : (p s : Text) → All Solid p → trim_right (p ++ s) ≡ p ++ trim_right s
trim_right-append [] s _ = refl
trim_right-append (c ∷ p) s (hc, hp) =
    rw (trim_right-cons c (p ++ s), trim_right-append p s hp)
      (put_trimmed-cons c (p ++ trim_right s) hc)

pub trim_left-cons : (c : ℕ) (s : Text) → Solid c → trim_left (c ∷ s) ≡ c ∷ s
trim_left-cons c s h = unfold trim_left in rw h

-- Behind a solid word only the right end of a text is trimmed.
pub trim_space-append :
    (c : ℕ) (p s : Text) → All Solid (c ∷ p) → trim_space ((c ∷ p) ++ s) ≡ (c ∷ p) ++ trim_right s
trim_space-append c p s h =
    unfold trim_space in
    rw (trim_right-append (c ∷ p) s h) (trim_left-cons c (p ++ trim_right s) h.0)

put_trimmed_more :
    (d : ℕ) (a : Text) (c : ℕ) (t : Text) → put_trimmed d (a ++ (c ∷ t)) ≡ d ∷ (a ++ (c ∷ t))
unfolding put_trimmed
put_trimmed_more d [] c t = refl
put_trimmed_more d (e ∷ a) c t = refl

put_trimmed_idem :
    (c : ℕ) (t : Text) → trim_right t ≡ t → trim_right (put_trimmed c t) ≡ put_trimmed c t
unfolding trim_right put_trimmed
put_trimmed_idem c [] h = ground arith
put_trimmed_idem c (d ∷ t) h = rw h

pub trim_right_idem : (s : Text) → trim_right (trim_right s) ≡ trim_right s
unfolding trim_right
trim_right_idem [] = refl
trim_right_idem (c ∷ s) = put_trimmed_idem c (trim_right s) (trim_right_idem s)

-- A carriage return at the end of a line is trimmed anyway.
pub trim_right-drop_cr : (s : Text) → trim_right (drop_cr s) ≡ trim_right s
unfolding trim_right drop_cr put_trimmed is_space
trim_right-drop_cr [] = refl
trim_right-drop_cr (c ∷ []) = ground arith
trim_right-drop_cr (c ∷ d ∷ s) = rw (trim_right-drop_cr (d ∷ s))

pub trim_space-drop_cr : (s : Text) → trim_space (drop_cr s) ≡ trim_space s
unfolding trim_space
trim_space-drop_cr s = rw trim_right-drop_cr

-- What stands up to a solid code point stays when the right end is trimmed.
pub trim_right-Solid :
    (a : Text) (c : ℕ) (s : Text) → Solid c → trim_right (a ++ (c ∷ s)) ≡ a ++ (c ∷ trim_right s)
trim_right-Solid [] c s h = trim_right-append (c ∷ []) s (h, tt)
trim_right-Solid (d ∷ a) c s h =
    rw (trim_right-cons d (a ++ (c ∷ s)), trim_right-Solid a c s h)
      (put_trimmed_more d a c (trim_right s))

put_trimmed_whole : (c : ℕ) (t s : Text) → put_trimmed c t ≡ c ∷ s → t ≡ s
unfolding put_trimmed
put_trimmed_whole c [] s h = ground arith
put_trimmed_whole c (d ∷ t) s h = cc h

trim_right-trim_left : (s : Text) → trim_right s ≡ s → trim_right (trim_left s) ≡ trim_left s
unfolding trim_left
trim_right-trim_left [] h = h
trim_right-trim_left (c ∷ s) h = elim (Bool-cases (is_space c)) [
  | inl e ↦ rw e (
      trim_right-trim_left s (put_trimmed_whole c (trim_right s) s (sym (trim_right-cons c s) ∙ h)))
  | inr e ↦ rw e h
]

-- A trimmed text has nothing to trim at its right end.
pub trim_right-trim_space : (s : Text) → trim_right (trim_space s) ≡ trim_space s
unfolding trim_space
trim_right-trim_space s = trim_right-trim_left (trim_right s) (trim_right_idem s)

-- A text that is not empty and has no white space at its end.
abbrev pub Ends : Text → Type 0
Ends s = (trim_right s ≡ s) × (s ≢ [])

put_trimmed-ne-nil : (c : ℕ) (s : Text) → s ≢ [] → put_trimmed c s ≡ c ∷ s
unfolding put_trimmed
put_trimmed-ne-nil c [] h = absurd (h refl)
put_trimmed-ne-nil c (d ∷ s) h = refl

pub append-Ends : (p s : Text) → Ends s → Ends (p ++ s)
append-Ends [] s h = h
append-Ends (c ∷ p) s h = let (e, ne) = append-Ends p s h in (trimmed c (p ++ s) e ne, λ k. cc k)
  where
    trimmed : (c : ℕ) (t : Text) → trim_right t ≡ t → t ≢ [] → trim_right (c ∷ t) ≡ c ∷ t
    trimmed c t e ne = unfold trim_right in rw e (put_trimmed-ne-nil c t ne)

pub Solid-Ends : (s : Text) → All Solid s → s ≢ [] → Ends s
unfolding trim_right
Solid-Ends s h ne = (rw append-nil at (trim_right-append s [] h), ne)
