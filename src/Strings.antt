-- ===== src/Strings.antt =====
-- What the program uses of Go's package strings, over texts as lists of code points: the texts are
-- taken to be valid UTF-8, and a length in bytes is `byte_len`.
pub mod Prefix
pub mod Trim
pub mod Split
pub mod Lines
pub mod Behind
pub mod Fields
pub mod Parts
use srouter.Base.{
  ℕ, zero, suc, ◌+◌, Bool, true, false, not, ◌&&◌, ◌||◌, List, [], ◌∷◌, ◌++◌, Option, none, some,
  ltb, leb, ◌==◌, if◌then◌else◌, Text, text_eq, map,
}

-- `unicode.IsSpace`
unfoldable pub is_space : ℕ → Bool
is_space c =
    (leb 9 c && leb c 13)
    || c == 32
    || c == 0x85
    || c == 0xa0
    || c == 0x1680
    || (leb 0x2000 c && leb c 0x200a)
    || c == 0x2028
    || c == 0x2029
    || c == 0x202f
    || c == 0x205f
    || c == 0x3000

-- the bytes of a code point in UTF-8
unfoldable pub rune_len : ℕ → ℕ
rune_len c = if ltb c 0x80 then 1 else if ltb c 0x800 then 2 else if ltb c 0x10000 then 3 else 4

-- `len` of a Go string
unfoldable pub byte_len : Text → ℕ
unfolding rune_len
byte_len [] = 0
byte_len (c ∷ s) = rune_len c + byte_len s

-- `strings.HasPrefix`
unfoldable pub has_prefix : Text → Text → Bool
has_prefix s [] = true
has_prefix [] (p ∷ ps) = false
has_prefix (c ∷ s) (p ∷ ps) = c == p && has_prefix s ps

-- `strings.HasSuffix`
unfoldable pub has_suffix : Text → Text → Bool
unfolding text_eq
has_suffix [] suffix = text_eq [] suffix
has_suffix (c ∷ s) suffix = text_eq (c ∷ s) suffix || has_suffix s suffix

-- what is left behind a prefix of the text
unfoldable pub drop_prefix : Text → Text → Text
drop_prefix s [] = s
drop_prefix [] (p ∷ ps) = []
drop_prefix (c ∷ s) (p ∷ ps) = drop_prefix s ps

-- `strings.TrimPrefix`
unfoldable pub trim_prefix : Text → Text → Text
unfolding has_prefix drop_prefix
trim_prefix s p = if has_prefix s p then drop_prefix s p else s

unfoldable pub trim_left : Text → Text
unfolding is_space
trim_left [] = []
trim_left (c ∷ s) = let rest = trim_left s in if is_space c then rest else c ∷ s

-- `c` in front of a text whose right end is trimmed
unfoldable pub put_trimmed : ℕ → Text → Text
unfolding is_space
put_trimmed c [] = if is_space c then [] else c ∷ []
put_trimmed c (d ∷ s) = c ∷ d ∷ s

unfoldable pub trim_right : Text → Text
unfolding put_trimmed
trim_right [] = []
trim_right (c ∷ s) = put_trimmed c (trim_right s)

-- `strings.TrimSpace`
unfoldable pub trim_space : Text → Text
unfolding trim_left trim_right
trim_space s = trim_left (trim_right s)

-- `strings.Contains`
unfoldable pub contains : Text → Text → Bool
unfolding has_prefix
contains [] p = has_prefix [] p
contains (c ∷ s) p = has_prefix (c ∷ s) p || contains s p

-- whether a code point stands in a text, as `strings.ContainsAny` tests it
unfoldable pub has_rune : ℕ → Text → Bool
has_rune b [] = false
has_rune b (c ∷ s) = c == b || has_rune b s

-- one more code point at the front of the first part
unfoldable pub push : ℕ → List Text → List Text
push c [] = (c ∷ []) ∷ []
push c (l ∷ ls) = (c ∷ l) ∷ ls

-- `strings.Split` at one ASCII separator
unfoldable pub split : ℕ → Text → List Text
unfolding push
split sep [] = [] ∷ []
split sep (c ∷ s) = let rest = split sep s in if c == sep then [] ∷ rest else push c rest

-- `strings.SplitN` with the most parts that may still be made, `n + 1` of them
unfoldable pub split_n : ℕ → ℕ → Text → List Text
unfolding push
split_n sep n [] = [] ∷ []
split_n sep zero (c ∷ s) = (c ∷ s) ∷ []
split_n sep (suc n) (c ∷ s) = elim (c == sep) [
  | true ↦ [] ∷ split_n sep n s
  | false ↦ push c (split_n sep (suc n) s)
]

-- `strings.Join`
unfoldable pub join : Text → List Text → Text
join sep [] = []
join sep (l ∷ []) = l
join sep (l ∷ m ∷ ls) = l ++ (sep ++ join sep (m ∷ ls))

-- the token under way, if it has begun, in front of the others
unfoldable pub close_token : Text → List Text → List Text
close_token [] rest = rest
close_token (c ∷ cur) rest = (c ∷ cur) ∷ rest

-- `strings.Fields`: the first argument is the token under way
unfoldable pub fields_from : Text → Text → List Text
unfolding is_space close_token
fields_from cur [] = close_token cur []
fields_from cur (c ∷ s) = elim (is_space c) [
  | true ↦ close_token cur (fields_from [] s)
  | false ↦ fields_from (cur ++ c ∷ []) s
]

unfoldable pub fields : Text → List Text
unfolding fields_from
fields s = fields_from [] s

-- `bufio.Scanner` with `ScanLines`: the lines of the input, the last one with or without an end.
unfoldable pub raw_lines : Text → List Text
unfolding push
raw_lines [] = []
raw_lines (c ∷ s) = let rest = raw_lines s in if c == b'\n' then [] ∷ rest else push c rest

-- a line loses one carriage return at its end
unfoldable pub drop_cr : Text → Text
drop_cr [] = []
drop_cr (c ∷ []) = if c == b'\r' then [] else c ∷ []
drop_cr (c ∷ d ∷ s) = c ∷ drop_cr (d ∷ s)

-- `bufio.MaxScanTokenSize`
abbrev pub max_token : ℕ
max_token = 65536

-- The scanner stops for good before a line that its buffer cannot hold.
unfoldable pub before_too_long : List Text → List Text
unfolding byte_len
before_too_long [] = []
before_too_long (l ∷ ls) =
    let rest = before_too_long ls in if ltb (byte_len l) max_token then l ∷ rest else []

unfoldable pub scan_lines : Text → List Text
unfolding raw_lines before_too_long drop_cr
scan_lines s = map drop_cr (before_too_long (raw_lines s))

-- ASCII letters in the other case; `wide` is the table of `unicode.ToLower` or `unicode.ToUpper`
-- beyond ASCII.
unfoldable pub lower_rune : (ℕ → ℕ) → ℕ → ℕ
lower_rune wide c = if ltb c 128 then (if leb b'A' c && leb c b'Z' then c + 32 else c) else wide c

unfoldable pub to_lower : (ℕ → ℕ) → Text → Text
unfolding lower_rune
to_lower wide = map (lower_rune wide)

-- `strings.EqualFold`; `wide` is the table of the simple folding beyond ASCII.
unfoldable pub equal_fold : (ℕ → ℕ) → Text → Text → Bool
unfolding to_lower text_eq
equal_fold wide s t = text_eq (to_lower wide s) (to_lower wide t)
