-- ===== src/Validate/Values.antt =====
-- What an accepted value is: what its text holds, and that it is no flag of iptables.
use mathlib.Core.Path.{subst}
use srouter.Base.{
  ℕ, zero, suc, Bool, true, false, List, [], ◌∷◌, ◌≡◌, refl, arith, ◌==◌, Text, All, Bool-cases,
  inl, inr,
}
use srouter.Strings.{split_n, push}
use srouter.Strings.Split.{split_n_here, split_n_later}
use srouter.Numbers.{Parsed, parsed, bad_syntax, out_of_range, parse_uint, parse_int, ℤ, signed}
use srouter.Validate.{is_port_number, all_ports, validate_port}
use srouter.Validate.Runes.{PortRune, parse_uint-PortRune}

push-All {κ} :
    (P : ℕ → Type κ) (c : ℕ) (ls : List Text) → All (All P) (push c ls) → P c × All (All P) ls
unfolding push
push-All P c [] h = (h.0.0, tt)
push-All P c (l ∷ ls) h = (h.0.0, (h.0.1, h.1))

split_zero {κ} :
    (P : ℕ → Type κ) (sep c : ℕ) (s : Text) → All (All P) (split_n sep zero (c ∷ s)) → All P (c ∷ s)
unfolding split_n
split_zero P sep c s h = h.0

-- What holds of the parts and of the separator holds of the whole.
pub split_n-All {κ} :
    (P : ℕ → Type κ) (sep n : ℕ) (s : Text) → P sep → All (All P) (split_n sep n s) → All P s
split_n-All P sep n [] hp h = tt
split_n-All P sep zero (c ∷ s) hp h = split_zero P sep c s h
split_n-All P sep (suc n) (c ∷ s) hp h = elim (Bool-cases (c == sep)) [
  | inl e ↦ (here e, split_n-All P sep n s hp (rw (split_n_here sep n c s e) at h).1)
  | inr e ↦
      let (k, ks) = push-All P c _ (rw (split_n_later sep n c s e) at h) in
      (k, split_n-All P sep (suc n) s hp ks)
]
  where
    here : (c == sep) ≡ true → P c
    here e = subst P (same e) hp
      where
        same : (c == sep) ≡ true → sep ≡ c
        same e = ground arith

signed-parsed : (b : Bool) (p : Parsed ℕ) (z : ℤ) → signed b p ≡ parsed z → (m : ℕ) × (p ≡ parsed m)
unfolding signed
signed-parsed b (parsed m) z h = (m, refl)
signed-parsed true bad_syntax z h = cc
signed-parsed false bad_syntax z h = cc
signed-parsed true out_of_range z h = cc
signed-parsed false out_of_range z h = cc

parse_int-PortRune : (s : Text) (z : ℤ) → parse_int s ≡ parsed z → All PortRune s
parse_int-PortRune [] z h = tt
parse_int-PortRune (c ∷ s) z h = elim (Bool-cases (c == b'-')) [
  | inl e ↦ minus e
  | inr e ↦ elim (Bool-cases (c == b'+')) [ inl k ↦ plus e k | inr k ↦ bare e k ]
]
  where
    digits_of : (b : Bool) (t : Text) → signed b (parse_uint t) ≡ parsed z → All PortRune t
    digits_of b t h = let (m, e) = signed-parsed b (parse_uint t) z h in parse_uint-PortRune m t e

    minus : (c == b'-') ≡ true → All PortRune (c ∷ s)
    minus e = (ground arith, digits_of true s (unfold parse_int in rw e at h))

    plus : (c == b'-') ≡ false → (c == b'+') ≡ true → All PortRune (c ∷ s)
    plus e k = (ground arith, digits_of false s (unfold parse_int in rw (e, k) at h))

    bare : (c == b'-') ≡ false → (c == b'+') ≡ false → All PortRune (c ∷ s)
    bare e k = digits_of false (c ∷ s) (unfold parse_int in rw (e, k) at h)

pub port-PortRune : (s : Text) → is_port_number (parse_int s) ≡ true → All PortRune s
port-PortRune s h = read (parse_int s) refl h
  where
    read : (p : Parsed ℤ) → parse_int s ≡ p → is_port_number p ≡ true → All PortRune s
    read (parsed z) e h = parse_int-PortRune s z e
    read bad_syntax e h = unfold is_port_number in cc h
    read out_of_range e h = unfold is_port_number in cc h

all_ports-PortRune : (ps : List Text) → all_ports ps ≡ true → All (All PortRune) ps
unfolding all_ports
all_ports-PortRune [] h = tt
all_ports-PortRune (p ∷ ps) h = ground (arith, port-PortRune p, all_ports-PortRune ps)

-- A port or a range that the test accepts is written with digits, signs and a colon.
pub validate_port-PortRune : (s : Text) → validate_port s ≡ true → All PortRune s
validate_port-PortRune s h =
    split_n-All PortRune b':' 1 s (omega arith)
      (all_ports-PortRune (split_n b':' 1 s) (unfold validate_port in h))
