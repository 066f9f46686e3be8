-- ===== src/Strings/Lines.antt =====
-- Laws of the line scanner: what comes out of it, and what it reads back from written lines.
use srouter.Base.{
  ℕ, ◌<◌, ◌≤◌, Bool, List, [], ◌∷◌, ◌++◌, ◌≡◌, ◌≢◌, refl, arith, Text, ◌==◌, map, if◌then◌else◌,
  All, All-append, Lacks, collect, collect-append, collect-map, Option, none, append_assoc,
  append-nil, keep, All-keep, ap, sym, ◌∙◌,
}
use srouter.Strings.{
  push, raw_lines, drop_cr, before_too_long, scan_lines, byte_len, max_token, join,
}

-- A line that the scanner can hand out: no line end inside, and short enough for its buffer.
abbrev pub IsLine : Text → Type 0
IsLine l = Lacks b'\n' l × (byte_len l < max_token)

-- Each line with a line end behind it.
unfoldable pub unlines : List Text → Text
unlines [] = []
unlines (l ∷ ls) = l ++ (b'\n' ∷ unlines ls)

pub unlines-append : (ls ms : List Text) → unlines (ls ++ ms) ≡ unlines ls ++ unlines ms
unfolding unlines
unlines-append [] ms = refl
unlines-append (l ∷ ls) ms = rw (unlines-append ls ms, append_assoc)

-- what the program writes for its lines: `strings.Join(lines, "\n") + "\n"`
unfoldable pub write_lines : List Text → Text
unfolding join
write_lines ls = join (b'\n' ∷ []) ls ++ b'\n' ∷ []

pub write_lines-unlines : (l : Text) (ls : List Text) → write_lines (l ∷ ls) ≡ unlines (l ∷ ls)
unfolding write_lines unlines
write_lines-unlines l [] = refl
write_lines-unlines l (m ∷ ls) = rw (append_assoc, append_assoc, write_lines-unlines m ls)

raw_lines-line :
    (l rest : Text) → Lacks b'\n' l → raw_lines (l ++ (b'\n' ∷ rest)) ≡ l ∷ raw_lines rest
unfolding raw_lines push
raw_lines-line [] rest _ = refl
raw_lines-line (c ∷ l) rest (hc, hl) = ground (arith, raw_lines-line l rest hl)

-- Complete lines are read back, whatever follows them.
pub raw_lines-unlines :
    (ls : List Text) (rest : Text)
    → All (Lacks b'\n') ls
    → raw_lines (unlines ls ++ rest) ≡ ls ++ raw_lines rest
unfolding unlines
raw_lines-unlines [] rest _ = refl
raw_lines-unlines (l ∷ ls) rest (hl, hls) =
    rw (append_assoc, raw_lines-line l (unlines ls ++ rest) hl, raw_lines-unlines ls rest hls)

push-All :
    (c : ℕ) (ls : List Text) → c ≢ b'\n' → All (Lacks b'\n') ls → All (Lacks b'\n') (push c ls)
unfolding push
push-All c [] h _ = ((h, tt), tt)
push-All c (l ∷ ls) h (hl, hls) = ((h, hl), hls)

raw_lines-Lacks : (s : Text) → All (Lacks b'\n') (raw_lines s)
unfolding raw_lines
raw_lines-Lacks [] = tt
raw_lines-Lacks (c ∷ s) = ground (arith, raw_lines-Lacks s, push-All c (raw_lines s))

before_too_long-IsLine : (ls : List Text) → All (Lacks b'\n') ls → All IsLine (before_too_long ls)
unfolding before_too_long
before_too_long-IsLine [] _ = tt
before_too_long-IsLine (l ∷ ls) (hl, hls) = ground (arith, before_too_long-IsLine ls hls)

pub before_too_long-All : (ls : List Text) → All IsLine ls → before_too_long ls ≡ ls
unfolding before_too_long
before_too_long-All [] _ = refl
before_too_long-All (l ∷ ls) (hl, hls) = ground (arith, before_too_long-All ls hls)

drop_cr-Lacks : (l : Text) → Lacks b'\n' l → Lacks b'\n' (drop_cr l)
unfolding drop_cr
drop_cr-Lacks [] _ = tt
drop_cr-Lacks (c ∷ []) h = ground arith
drop_cr-Lacks (c ∷ d ∷ s) h = (h.0, drop_cr-Lacks (d ∷ s) h.1)

byte_len-drop_cr : (l : Text) → byte_len (drop_cr l) ≤ byte_len l
unfolding drop_cr byte_len
byte_len-drop_cr [] = omega arith
byte_len-drop_cr (c ∷ []) = ground arith
byte_len-drop_cr (c ∷ d ∷ s) = omega (arith, byte_len-drop_cr (d ∷ s))

drop_cr-IsLine : (l : Text) → IsLine l → IsLine (drop_cr l)
drop_cr-IsLine l (h, short) = (drop_cr-Lacks l h, omega (arith, byte_len-drop_cr l))

map-IsLine : (ls : List Text) → All IsLine ls → All IsLine (map drop_cr ls)
map-IsLine [] _ = tt
map-IsLine (l ∷ ls) (hl, hls) = (drop_cr-IsLine l hl, map-IsLine ls hls)

-- Whatever the input, each line that is handed out is one.
pub scan_lines-IsLine : (s : Text) → All IsLine (scan_lines s)
scan_lines-IsLine s =
    unfold scan_lines in map-IsLine _ (before_too_long-IsLine (raw_lines s) (raw_lines-Lacks s))

All-Lacks : (ls : List Text) → All IsLine ls → All (Lacks b'\n') ls
All-Lacks [] _ = tt
All-Lacks (l ∷ ls) (hl, hls) = (hl.0, All-Lacks ls hls)

pub raw_lines_cons :
    (c : ℕ) (s : Text)
    → raw_lines (c ∷ s) ≡ (if c == b'\n' then [] ∷ raw_lines s else push c (raw_lines s))
unfolding raw_lines
raw_lines_cons c s = refl

pub scan_lines-raw_lines :
    (s : Text) → All IsLine (raw_lines s) → scan_lines s ≡ map drop_cr (raw_lines s)
unfolding scan_lines
scan_lines-raw_lines s h = rw (before_too_long-All (raw_lines s) h)

raw_lines_nil : raw_lines [] ≡ []
unfolding raw_lines
raw_lines_nil = refl

pub raw_lines-All : (ls : List Text) → All IsLine ls → raw_lines (unlines ls) ≡ ls
raw_lines-All ls h =
    rw (append-nil, raw_lines_nil, append-nil) at (raw_lines-unlines ls [] (All-Lacks ls h))

-- What was written as lines is scanned as those lines, but for carriage returns at their ends.
pub scan_lines-unlines : (ls : List Text) → All IsLine ls → scan_lines (unlines ls) ≡ map drop_cr ls
unfolding scan_lines
scan_lines-unlines ls h = rw (raw_lines-All ls h, before_too_long-All ls h)

-- The rows that a reader finds in rewritten lines, if it reads no row from an empty line and does
-- not see a carriage return at a line's end.
pub collect-write_lines {κ} :
    {B : Type κ} (f : Text → Option B)
    → f [] ≡ none
    → ((l : Text) → f (drop_cr l) ≡ f l)
    → (ls : List Text) → All IsLine ls
    → collect f (scan_lines (write_lines ls)) ≡ collect f ls
collect-write_lines f empty cr [] _ =
    unfold collect write_lines join scan_lines raw_lines before_too_long byte_len drop_cr in
    rw empty
collect-write_lines f empty cr (l ∷ ls) h =
    rw (write_lines-unlines l ls, scan_lines-unlines (l ∷ ls) h) (collect-map f drop_cr cr (l ∷ ls))

-- What the editing operations of a configuration file write: the lines that pass, and more lines.
unfoldable pub edit : (Text → Bool) → List Text → Text → Text
edit passes more s = write_lines (keep passes (scan_lines s) ++ more)

-- The rows in an edited file are those of the lines kept, and those of the lines added.
pub collect-edit {κ} :
    {B : Type κ} (f : Text → Option B) (passes : Text → Bool) (more : List Text) (s : Text)
    → f [] ≡ none
    → ((l : Text) → f (drop_cr l) ≡ f l)
    → All IsLine more
    → collect f (scan_lines (edit passes more s))
      ≡ collect f (keep passes (scan_lines s)) ++ collect f more
unfolding edit
collect-edit f passes more s empty cr h =
    collect-write_lines f empty cr _ (
      All-append IsLine (keep passes (scan_lines s)) more
        (All-keep IsLine passes (scan_lines s) (scan_lines-IsLine s)) h)
    ∙ collect-append f (keep passes (scan_lines s)) more

-- Lines appended to a file whose last line is complete.
pub collect_appended {κ} :
    {B : Type κ} (f : Text → Option B) (ls more : List Text)
    → ((l : Text) → f (drop_cr l) ≡ f l)
    → All IsLine ls
    → All IsLine more
    → collect f (scan_lines (unlines ls ++ unlines more))
      ≡ collect f (scan_lines (unlines ls)) ++ collect f more
collect_appended f ls more cr h k =
    rw
      (
        ← unlines-append ls more,
        scan_lines-unlines (ls ++ more) (All-append IsLine ls more h k),
        scan_lines-unlines ls h,
      )
      (collect-map f drop_cr cr (ls ++ more)
        ∙ collect-append f ls more
        ∙ ap (λ xs. xs ++ collect f more) (sym (collect-map f drop_cr cr ls)))

write_lines-append :
    (xs : List Text) (m : Text) (ms : List Text)
    → write_lines (xs ++ (m ∷ ms)) ≡ unlines (xs ++ (m ∷ ms))
write_lines-append [] m ms = write_lines-unlines m ms
write_lines-append (x ∷ xs) m ms = write_lines-unlines x (xs ++ (m ∷ ms))

-- The lines of an edited file, if a line was added.
pub scan_lines-edit :
    (passes : Text → Bool) (m : Text) (ms : List Text) (s : Text)
    → All IsLine (m ∷ ms)
    → scan_lines (edit passes (m ∷ ms) s) ≡ map drop_cr (keep passes (scan_lines s) ++ (m ∷ ms))
unfolding edit
scan_lines-edit passes m ms s h = rw (write_lines-append (keep passes (scan_lines s)) m ms) (
    scan_lines-unlines _ (
      All-append IsLine (keep passes (scan_lines s)) (m ∷ ms)
        (All-keep IsLine passes (scan_lines s) (scan_lines-IsLine s)) h))
