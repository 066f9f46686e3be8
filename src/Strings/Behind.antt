-- ===== src/Strings/Behind.antt =====
-- The lines of a text with lines appended behind a line end, and the lines that a split finds.
use srouter.Base.{
  collect-nil, collect-one_none, Bool-cases, inl, inr, ℕ, Bool, true, false, List, [], ◌∷◌, ◌++◌,
  ◌≡◌, ◌≢◌, refl, arith, Text, ◌==◌, if◌then◌else◌, All, All-append, Lacks, collect, collect-append,
  collect-map, Option, none, append_assoc, append-nil, ap, sym, ◌∙◌,
}
use srouter.Strings.Split.{split_at_sep}
use srouter.Strings.{split, push, raw_lines, drop_cr, scan_lines, byte_len, join}
use srouter.Strings.Lines.{
  IsLine, unlines, write_lines, write_lines-unlines, raw_lines-All, raw_lines_cons,
  scan_lines-raw_lines,
}

raw_lines-ne-nil : (d : ℕ) (s : Text) → raw_lines (d ∷ s) ≢ []
raw_lines-ne-nil d s h = raw_step d (raw_lines s) (d == b'\n') (sym (raw_lines_cons d s) ∙ h)
  where
    raw_step : (d : ℕ) (ls : List Text) (b : Bool) → (if b then [] ∷ ls else push d ls) ≡ [] → ⊥
    raw_step d ls true h = cc
    raw_step d [] false h = unfold push in cc
    raw_step d (l ∷ ls) false h = unfold push in cc

raw_lines_more :
    (c : ℕ) (s u : Text) (rest : List Text)
    → raw_lines s ≢ []
    → raw_lines u ≡ raw_lines s ++ rest
    → raw_lines (c ∷ u) ≡ raw_lines (c ∷ s) ++ rest
raw_lines_more c s u rest ne e =
    rw (raw_lines_cons c s, raw_lines_cons c u, e) (grown (raw_lines s) rest ne (c == b'\n'))
  where
    grown :
        (ls rest : List Text)
        → ls ≢ []
        → (b : Bool)
        → (if b then [] ∷ (ls ++ rest) else push c (ls ++ rest))
          ≡ (if b then [] ∷ ls else push c ls) ++ rest
    grown [] rest ne b = absurd (ne refl)
    grown (l ∷ ls) rest ne true = refl
    grown (l ∷ ls) rest ne false = unfold push in refl

scan_collect {κ} :
    {B : Type κ} (f : Text → Option B) (s : Text)
    → ((l : Text) → f (drop_cr l) ≡ f l)
    → All IsLine (raw_lines s)
    → collect f (scan_lines s) ≡ collect f (raw_lines s)
scan_collect f s cr h =
    ap (collect f) (scan_lines-raw_lines s h) ∙ collect-map f drop_cr cr (raw_lines s)

blank-IsLine : (gap : List Text) → All (λ l. l ≡ []) gap → All IsLine gap
blank-IsLine [] _ = tt
blank-IsLine (l ∷ gap) (e, h) = (rw e (tt, unfold byte_len in omega arith), blank-IsLine gap h)

collect_blank {κ} :
    {B : Type κ} (f : Text → Option B) (gap : List Text)
    → f [] ≡ none
    → All (λ l. l ≡ []) gap
    → collect f gap ≡ []
unfolding collect
collect_blank f [] empty _ = refl
collect_blank f (l ∷ gap) empty (e, h) =
    rw (e, collect) (rw (empty, collect) (collect_blank f gap empty h))

-- Lines behind a line end that is written first: the rows of a text are still there, whether or not
-- its last line was complete.
raw_lines_gap :
    (s t : Text)
    → (gap : List Text) × All (λ l. l ≡ []) gap
      × (raw_lines (s ++ (b'\n' ∷ t)) ≡ raw_lines s ++ (gap ++ raw_lines t))
unfolding raw_lines
raw_lines_gap [] t = ([] ∷ [], (refl, tt), ground arith)
raw_lines_gap (c ∷ []) t = elim (Bool-cases (c == b'\n')) [
  | inl e ↦ ([] ∷ [], (refl, tt), rw e)
  | inr e ↦ ([], tt, rw (e, push))
]
raw_lines_gap (c ∷ d ∷ s) t =
    let (gap, blank, e) = raw_lines_gap (d ∷ s) t in
    (
      gap,
      blank,
      raw_lines_more c (d ∷ s) (d ∷ (s ++ (b'\n' ∷ t))) (gap ++ raw_lines t) (raw_lines-ne-nil d s)
          e,
    )

-- The rows of a text and of the lines appended to it behind a line end.
pub collect_behind {κ} :
    {B : Type κ} (f : Text → Option B) (s : Text) (more : List Text)
    → f [] ≡ none
    → ((l : Text) → f (drop_cr l) ≡ f l)
    → All IsLine (raw_lines s)
    → All IsLine more
    → collect f (scan_lines (s ++ (b'\n' ∷ unlines more)))
      ≡ collect f (scan_lines s) ++ collect f more
collect_behind f s more empty cr h k =
    let (gap, blank, e) = raw_lines_gap s (unlines more) in
    scan_collect f (s ++ (b'\n' ∷ unlines more)) cr (
      rw (e, raw_lines-All more k)
        (All-append IsLine (raw_lines s) (gap ++ more) h
          (All-append IsLine gap more (blank-IsLine gap blank) k)))
    ∙ rw
        (
          e,
          raw_lines-All more k,
          collect-append f (raw_lines s) (gap ++ more),
          collect-append f gap more,
          collect_blank f gap empty blank,
        )
        (ap (λ xs. xs ++ collect f more) (sym (scan_collect f s cr h)))

split_lines :
    (ls : List Text) (rest : Text)
    → All (Lacks b'\n') ls
    → split b'\n' (unlines ls ++ rest) ≡ ls ++ split b'\n' rest
unfolding unlines
split_lines [] rest _ = refl
split_lines (l ∷ ls) rest (h, hs) =
    rw (append_assoc, split_at_sep b'\n' l (unlines ls ++ rest) h, split_lines ls rest hs)

split_nil_lines : split b'\n' [] ≡ [] ∷ []
unfolding split
split_nil_lines = refl

-- The rows that a reader of split lines finds in complete lines, if an empty line is no row.
pub collect-split-unlines {κ} :
    {B : Type κ} (f : Text → Option B) (ls : List Text)
    → f [] ≡ none
    → All (Lacks b'\n') ls
    → collect f (split b'\n' (unlines ls)) ≡ collect f ls
collect-split-unlines f ls empty h =
    ap (collect f) (rw (append-nil (unlines ls), split_nil_lines) at (split_lines ls [] h))
    ∙ rw (collect-append f ls ([] ∷ []), collect-one_none f [] empty, append-nil)

pub collect-split-write_lines {κ} :
    {B : Type κ} (f : Text → Option B) (ls : List Text)
    → f [] ≡ none
    → All (Lacks b'\n') ls
    → collect f (split b'\n' (write_lines ls)) ≡ collect f ls
collect-split-write_lines f [] empty _ =
    two_blank
    ∙ collect-append f ([] ∷ []) ([] ∷ [])
    ∙ rw (collect-one_none f [] empty, collect-nil f)
  where
    two_blank : collect f (split b'\n' (write_lines [])) ≡ collect f ([] ∷ [] ∷ [])
    two_blank = unfold write_lines join split in refl
collect-split-write_lines f (l ∷ ls) empty h =
    rw (write_lines-unlines l ls) (collect-split-unlines f (l ∷ ls) empty h)
