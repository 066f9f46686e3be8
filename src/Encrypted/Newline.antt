-- ===== src/Encrypted/Newline.antt =====
-- Lines joined and closed with a line end only where there is none, as `setStrictOrder` writes them.
use srouter.Base.{
  ℕ, List, [], ◌∷◌, ◌++◌, ◌≡◌, refl, ap, ◌∙◌, arith, Option, none, if◌then◌else◌, Text, codes,
  text_eq, collect, All, Lacks, ◌==◌,
}
use srouter.Strings.{join, has_suffix, byte_len}
use srouter.Strings.Lines.{IsLine, unlines}
use srouter.Encrypted.{end_with_newline}

-- the text with a line end behind it, if it has none
unfoldable pub closed : Text → Text
closed [] = b'\n' ∷ []
closed (c ∷ []) = if c == b'\n' then c ∷ [] else c ∷ b'\n' ∷ []
closed (c ∷ d ∷ s) = c ∷ closed (d ∷ s)

has_suffix-cons :
    (c d : ℕ) (s : Text) → has_suffix (c ∷ d ∷ s) (codes "\n") ≡ has_suffix (d ∷ s) (codes "\n")
unfolding has_suffix text_eq
has_suffix-cons c d s = ground arith

pub end_with_newline-closed : (s : Text) → end_with_newline s ≡ closed s
unfolding end_with_newline closed has_suffix text_eq
end_with_newline-closed [] = refl
end_with_newline-closed (c ∷ []) = ground arith
end_with_newline-closed (c ∷ d ∷ s) =
    rw (has_suffix-cons c d s) (ground (arith, end_with_newline-closed (d ∷ s)))

closed_behind :
    (l : Text) (d : ℕ) (s : Text) → closed (l ++ (b'\n' ∷ d ∷ s)) ≡ l ++ (b'\n' ∷ closed (d ∷ s))
unfolding closed
closed_behind [] d s = refl
closed_behind (c ∷ []) d s = refl
closed_behind (c ∷ e ∷ l) d s = ap (λ t. c ∷ t) (closed_behind (e ∷ l) d s)

closed_open : (l : Text) → Lacks b'\n' l → closed l ≡ l ++ b'\n' ∷ []
unfolding closed
closed_open [] _ = refl
closed_open (c ∷ []) (h, _) = ground arith
closed_open (c ∷ d ∷ l) (_, h) = ap (λ t. c ∷ t) (closed_open (d ∷ l) h)

closed_terminated : (l : Text) → closed (l ++ b'\n' ∷ []) ≡ l ++ b'\n' ∷ []
unfolding closed
closed_terminated [] = refl
closed_terminated (c ∷ []) = refl
closed_terminated (c ∷ d ∷ l) = ap (λ t. c ∷ t) (closed_terminated (d ∷ l))

-- The lines that the joined text has: an empty last line does not show.
unfoldable pub shown : List Text → List Text
shown [] = [] ∷ []
shown (l ∷ []) = l ∷ []
shown (l ∷ [] ∷ []) = l ∷ []
shown (l ∷ [] ∷ m ∷ ls) = l ∷ shown ([] ∷ m ∷ ls)
shown (l ∷ (c ∷ k) ∷ ls) = l ∷ shown ((c ∷ k) ∷ ls)

pub closed-join :
    (ls : List Text) → All IsLine ls → closed (join (codes "\n") ls) ≡ unlines (shown ls)
unfolding join shown unlines
closed-join [] _ = unfold closed in refl
closed-join (l ∷ []) (h, _) = closed_open l h.0
closed-join (l ∷ [] ∷ []) _ = closed_terminated l
closed-join (l ∷ [] ∷ m ∷ ls) (_, h) =
    closed_behind l b'\n' (join (codes "\n") (m ∷ ls))
    ∙ ap (λ t. l ++ (b'\n' ∷ t)) (closed-join ([] ∷ m ∷ ls) h)
closed-join (l ∷ (c ∷ k) ∷ []) (_, h) =
    closed_behind l c k ∙ ap (λ t. l ++ (b'\n' ∷ t)) (closed-join ((c ∷ k) ∷ []) h)
closed-join (l ∷ (c ∷ k) ∷ m ∷ ls) (_, h) =
    closed_behind l c (k ++ (codes "\n" ++ join (codes "\n") (m ∷ ls)))
    ∙ ap (λ t. l ++ (b'\n' ∷ t)) (closed-join ((c ∷ k) ∷ m ∷ ls) h)

pub shown-All : (ls : List Text) → All IsLine ls → All IsLine (shown ls)
unfolding shown
shown-All [] _ = ((tt, unfold byte_len in omega arith), tt)
shown-All (l ∷ []) h = h
shown-All (l ∷ [] ∷ []) (h, _) = (h, tt)
shown-All (l ∷ [] ∷ m ∷ ls) (h, hs) = (h, shown-All ([] ∷ m ∷ ls) hs)
shown-All (l ∷ (c ∷ k) ∷ ls) (h, hs) = (h, shown-All ((c ∷ k) ∷ ls) hs)

pub collect-shown {κ} :
    {B : Type κ} (f : Text → Option B) (ls : List Text)
    → f [] ≡ none
    → collect f (shown ls) ≡ collect f ls
unfolding shown collect
collect-shown f [] empty = rw empty
collect-shown f (l ∷ []) empty = refl
collect-shown f (l ∷ [] ∷ []) empty = ground arith
collect-shown f (l ∷ [] ∷ m ∷ ls) empty = ground (arith, collect-shown f ([] ∷ m ∷ ls) empty)
collect-shown f (l ∷ (c ∷ k) ∷ ls) empty = ground (arith, collect-shown f ((c ∷ k) ∷ ls) empty)
