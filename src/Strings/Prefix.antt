-- ===== src/Strings/Prefix.antt =====
-- Laws of `HasPrefix` and `TrimPrefix`.
use srouter.Base.{true, [], ◌∷◌, ◌++◌, ◌≡◌, refl, arith, Text}
use srouter.Strings.{has_prefix, drop_prefix, trim_prefix}

pub has_prefix-append : (p s : Text) → has_prefix (p ++ s) p ≡ true
unfolding has_prefix
has_prefix-append [] [] = refl
has_prefix-append [] (c ∷ s) = refl
has_prefix-append (c ∷ p) s = ground (arith, has_prefix-append p s)

pub drop_prefix-append : (p s : Text) → drop_prefix (p ++ s) p ≡ s
unfolding drop_prefix
drop_prefix-append [] [] = refl
drop_prefix-append [] (c ∷ s) = refl
drop_prefix-append (c ∷ p) s = drop_prefix-append p s

pub trim_prefix-append : (p s : Text) → trim_prefix (p ++ s) p ≡ s
trim_prefix-append p s = unfold trim_prefix in rw (has_prefix-append p s) (drop_prefix-append p s)

-- A text with a prefix is the prefix and what is left.
pub has_prefix_sound : (s p : Text) → has_prefix s p ≡ true → s ≡ p ++ drop_prefix s p
unfolding has_prefix drop_prefix
has_prefix_sound [] [] h = refl
has_prefix_sound (c ∷ s) [] h = refl
has_prefix_sound [] (d ∷ p) h = ground arith
has_prefix_sound (c ∷ s) (d ∷ p) h = ground (arith, has_prefix_sound s p)
