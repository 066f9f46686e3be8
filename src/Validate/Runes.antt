-- ===== src/Validate/Runes.antt =====
-- Which code points the tests let through: the values hold no white space, no bar and no line end.
use srouter.Base.{
  ℕ, ◌≤◌, ◌+◌, ◌-◌, ◌*◌, Bool, true, [], ◌∷◌, ◌≡◌, ◌≢◌, refl, arith, Text, length, All,
}
use srouter.Strings.{is_space, byte_len, rune_len}
use srouter.Strings.Trim.{Solid}
use srouter.Numbers.{parsed, parse_digits, parse_uint}
use srouter.Validate.{every, is_alnum, is_iface_rune, is_name_rune, is_digit, is_lower, is_upper}

-- Printable ASCII but for the space and the bar.
abbrev pub Token : ℕ → Type 0
Token c = (33 ≤ c) × (c ≤ 126) × (c ≢ b'|')

pub Token-Solid : (c : ℕ) → Token c → Solid c
unfolding is_space
Token-Solid c h = ground arith

pub All-imp {κ} : {P Q : ℕ → Type κ} → ((c : ℕ) → P c → Q c) → (s : Text) → All P s → All Q s
All-imp f [] _ = tt
All-imp f (c ∷ s) (h, hs) = (f c h, All-imp f s hs)

pub All-every {κ} :
    {P : ℕ → Type κ} (p : ℕ → Bool)
    → ((c : ℕ) → p c ≡ true → P c)
    → (s : Text) → every p s ≡ true
    → All P s
unfolding every
All-every p f [] _ = tt
All-every p f (c ∷ s) h = ground (arith, f c, All-every p f s)

pub byte_len-Token : (s : Text) → All Token s → byte_len s ≡ length s
unfolding byte_len rune_len
byte_len-Token [] _ = refl
byte_len-Token (c ∷ s) (h, hs) = ground (arith, byte_len-Token s hs)

pub is_name_rune-Token : (c : ℕ) → is_name_rune c ≡ true → Token c
unfolding is_name_rune is_alnum is_digit is_lower is_upper
is_name_rune-Token c h = ground arith

pub is_iface_rune-Token : (c : ℕ) → is_iface_rune c ≡ true → Token c
unfolding is_iface_rune is_digit is_lower
is_iface_rune-Token c h = ground arith

-- What a number or a range of ports is written with.
abbrev pub PortRune : ℕ → Type 0
PortRune c = (b'+' ≤ c) × (c ≤ b':')

pub PortRune-Token : (c : ℕ) → PortRune c → Token c
PortRune-Token c h = omega (arith, h)

parse_digits-PortRune : (n m : ℕ) (s : Text) → parse_digits n s ≡ parsed m → All PortRune s
unfolding parse_digits
parse_digits-PortRune n m [] h = tt
parse_digits-PortRune n m (c ∷ s) h =
    ground (arith, parse_digits-PortRune (n * 10 + (c - b'0')) m s)

pub parse_uint-PortRune : (m : ℕ) (s : Text) → parse_uint s ≡ parsed m → All PortRune s
unfolding parse_uint
parse_uint-PortRune m [] h = tt
parse_uint-PortRune m (c ∷ s) h = parse_digits-PortRune 0 m (c ∷ s) h
