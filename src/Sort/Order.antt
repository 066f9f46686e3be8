-- ===== src/Sort/Order.antt =====
-- The sorted order of texts does not depend on the order in which they come.
use mathlib.Core.List.{Permᴰ}
use srouter.Base.{
  true, false, List, [], ◌∷◌, ◌≡◌, refl, ◌∙◌, arith, Text, All, Bool-cases, inl, inr,
}
use srouter.Sort.{text_leb, insert_sorted, sort_strings}

text_leb_total : (s t : Text) → text_leb s t ≡ false → text_leb t s ≡ true
unfolding text_leb
text_leb_total [] t h = ground arith
text_leb_total (c ∷ s) [] h = refl
text_leb_total (c ∷ s) (d ∷ t) h = ground (arith, text_leb_total s t)

text_leb_antisym : (s t : Text) → text_leb s t ≡ true → text_leb t s ≡ true → s ≡ t
unfolding text_leb
text_leb_antisym [] [] h k = refl
text_leb_antisym [] (d ∷ t) h k = ground arith
text_leb_antisym (c ∷ s) [] h k = ground arith
text_leb_antisym (c ∷ s) (d ∷ t) h k = ground (arith, text_leb_antisym s t)

text_leb_trans : (s t u : Text) → text_leb s t ≡ true → text_leb t u ≡ true → text_leb s u ≡ true
unfolding text_leb
text_leb_trans [] t u h k = refl
text_leb_trans (c ∷ s) [] u h k = ground arith
text_leb_trans (c ∷ s) (d ∷ t) [] h k = ground arith
text_leb_trans (c ∷ s) (d ∷ t) (e ∷ u) h k = ground (arith, text_leb_trans s t u)

insert_sorted_comm :
    (x y : Text) (zs : List Text)
    → insert_sorted x (insert_sorted y zs) ≡ insert_sorted y (insert_sorted x zs)
unfolding insert_sorted
insert_sorted_comm x y [] =
    ground (arith, text_leb_total x y, text_leb_total y x, text_leb_antisym x y)
insert_sorted_comm x y (z ∷ zs) = ground (
  arith,
  insert_sorted_comm x y zs,
  text_leb_total x y,
  text_leb_total y x,
  text_leb_antisym x y,
  text_leb_trans x y z,
  text_leb_trans y x z,
  text_leb_total x z,
  text_leb_total y z,
)

-- A text that comes before all items stays in front.
pub insert_sorted-least :
    (x : Text) (ys : List Text) → All (λ y. text_leb x y ≡ true) ys → insert_sorted x ys ≡ x ∷ ys
unfolding insert_sorted
insert_sorted-least x [] h = refl
insert_sorted-least x (y ∷ ys) (h, hs) = rw h

insert_sorted-All :
    (P : Text → Type 0) (x : Text) (ys : List Text) → P x → All P ys → All P (insert_sorted x ys)
unfolding insert_sorted
insert_sorted-All P x [] p ps = (p, tt)
insert_sorted-All P x (y ∷ ys) p (q, qs) = elim (Bool-cases (text_leb x y)) [
  | inl h ↦ rw h (p, (q, qs))
  | inr h ↦ rw h (q, insert_sorted-All P x ys p qs)
]

pub sort_strings-All : (P : Text → Type 0) (xs : List Text) → All P xs → All P (sort_strings xs)
unfolding sort_strings
sort_strings-All P [] _ = tt
sort_strings-All P (x ∷ xs) (p, ps) =
    insert_sorted-All P x (sort_strings xs) p (sort_strings-All P xs ps)

-- Sorting gives the same list for each order of the same texts.
pub sort_strings-Perm : {xs ys : List Text} → Permᴰ xs ys → sort_strings xs ≡ sort_strings ys
unfolding sort_strings
sort_strings-Perm Permᴰ.nil = refl
sort_strings-Perm (Permᴰ.cons e d) = cc (e, sort_strings-Perm d)
sort_strings-Perm (Permᴰ.swap {a = a} {b = b} {l = l} e f) =
    cc (insert_sorted_comm a b (sort_strings l), e, f)
sort_strings-Perm (Permᴰ.trans d e) = sort_strings-Perm d ∙ sort_strings-Perm e
