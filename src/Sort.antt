-- ===== src/Sort.antt =====
-- What the program uses of Go's package sort: `sort.Strings`. Texts in valid UTF-8 compare by their
-- bytes as by their code points; equal texts cannot be told apart, so the algorithm does not show.
pub mod Order
use srouter.Base.{ℕ, Bool, true, false, List, [], ◌∷◌, if◌then◌else◌, Text, ltb}

-- not greater in the lexical order
unfoldable pub text_leb : Text → Text → Bool
text_leb [] t = true
text_leb (c ∷ s) [] = false
text_leb (c ∷ s) (d ∷ t) = if ltb c d then true else if ltb d c then false else text_leb s t

unfoldable pub insert_sorted : Text → List Text → List Text
insert_sorted x [] = x ∷ []
insert_sorted x (y ∷ ys) =
    let rest = insert_sorted x ys in if text_leb x y then x ∷ y ∷ ys else y ∷ rest

unfoldable pub sort_strings : List Text → List Text
unfolding insert_sorted
sort_strings [] = []
sort_strings (x ∷ xs) = insert_sorted x (sort_strings xs)
