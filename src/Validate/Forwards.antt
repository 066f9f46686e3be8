-- ===== src/Validate/Forwards.antt =====
-- An accepted port forward can be written and read back: its lines are short and printable.
use srouter.Base.{
  ℕ, suc, ◌<◌, ◌≤◌, ◌+◌, true, ◌&&◌, [], ◌∷◌, ◌++◌, ◌≡◌, ap, refl, arith, leb, Text, codes, length,
  length-append, All, All-append, Lacks, append-nil,
}
use srouter.Strings.{byte_len, rune_len, drop_cr, trim_right}
use srouter.Strings.Trim.{trim_right-append}
use srouter.Firewall.{PortForwardRule}
use srouter.Firewall.PortForward.{
  block_lines, pf_line, pf_key, dnat_line, log_line, accept_line, forward_line, iptables, to_upper,
}
use srouter.Firewall.PortForward.Rows.{Barless, read_back}
use srouter.Firewall.PortForward.Restore.{IsPlain}
use srouter.Validate.{Net, every, one_of, valid_pf_protos, pf_name_re, is_name_rune, validate_port}
use srouter.Validate.Runes.{
  Token, Token-Solid, PortRune-Token, All-imp, All-every, is_name_rune-Token,
}
use srouter.Validate.Values.{validate_port-PortRune}
use srouter.Validate.Rules.{Documented, Forward, one_of-All, is_address_rune-Address}

-- A text of printable ASCII, of a bounded length.
pub record Short (n : ℕ) (s : Text) : Type 0 where
  pub text : All (λ c. (32 ≤ c) × (c ≤ 126)) s
  pub bound : length s ≤ n

infixr 5 ◌&◌
pub ◌&◌ : {m n : ℕ} {s t : Text} → Short m s → Short n t → Short (m + n) (s ++ t)
◌&◌ {s = s} {t = t} h k = record {
  text = All-append (λ c. (32 ≤ c) × (c ≤ 126)) s t h.text k.text;
  bound = omega (arith, h.bound, k.bound, length-append s t);
}

to_upper-printable :
    (wide : ℕ → ℕ) (s : Text)
    → All (λ c. (32 ≤ c) × (c ≤ 126)) s
    → All (λ c. (32 ≤ c) × (c ≤ 126)) (to_upper wide s)
unfolding to_upper
to_upper-printable wide [] _ = tt
to_upper-printable wide (c ∷ s) (h, hs) = (ground arith, to_upper-printable wide s hs)

length-to_upper : (wide : ℕ → ℕ) (s : Text) → length (to_upper wide s) ≡ length s
unfolding to_upper
length-to_upper wide [] = refl
length-to_upper wide (c ∷ s) = ap suc (length-to_upper wide s)

drop_cr-printable : (s : Text) → All (λ c. (32 ≤ c) × (c ≤ 126)) s → drop_cr s ≡ s
unfolding drop_cr
drop_cr-printable [] _ = refl
drop_cr-printable (c ∷ []) h = ground arith
drop_cr-printable (c ∷ d ∷ s) (_, h) = ap (λ t. c ∷ t) (drop_cr-printable (d ∷ s) h)

byte_len-printable : (s : Text) → All (λ c. (32 ≤ c) × (c ≤ 126)) s → byte_len s ≡ length s
unfolding byte_len rune_len
byte_len-printable [] _ = refl
byte_len-printable (c ∷ s) (h, hs) = ground (arith, byte_len-printable s hs)

Lacks-printable : (s : Text) → All (λ c. (32 ≤ c) × (c ≤ 126)) s → Lacks b'\n' s
Lacks-printable [] _ = tt
Lacks-printable (c ∷ s) (h, hs) = (omega (arith, h), Lacks-printable s hs)

pub Short-IsPlain : (n : ℕ) (s : Text) → n < 65536 → Short n s → IsPlain s
Short-IsPlain n s less h = (
  (Lacks-printable s h.text, omega (arith, h.bound, less, byte_len-printable s h.text)),
  drop_cr-printable s h.text,
)

pub lit : (s : Text) → every (λ c. leb 32 c && leb c 126) s ≡ true → Short (length s) s
lit s h = record {
  text = All-every (λ c. leb 32 c && leb c 126) (λ c k. ground arith) s h;
  bound = omega arith;
}

bar : Short 1 (b'|' ∷ [])
bar = record { text = omega arith; bound = omega arith }

-- The fields of an accepted port forward, with the most that its ports take.
pub record Fields (n : ℕ) (r : PortForwardRule) : Type 0 where
  pub name : Short 50 r.name
  pub protocol : Short 3 r.protocol
  pub ext_port : Short n r.ext_port
  pub int_ip : Short 45 r.int_ip
  pub int_port : Short n r.int_port

module _ (wide : ℕ → ℕ) (n : ℕ) (r : PortForwardRule) (small : n < 30000) (h : Fields n r) where
  pf_line-IsPlain : IsPlain (pf_line r)
  unfolding pf_line every
  pf_line-IsPlain = Short-IsPlain _ _ (omega (arith, small)) (
      lit pf_key refl
      & h.name
      & bar
      & h.protocol
      & bar
      & h.ext_port
      & bar
      & h.int_ip
      & bar
      & h.int_port)

  dnat_line-IsPlain : IsPlain (dnat_line r)
  unfolding dnat_line every
  dnat_line-IsPlain = Short-IsPlain _ _ (omega (arith, small)) (
      lit iptables refl
      & lit (codes " -t nat -A PREROUTING -i ppp0 -p ") refl
      & h.protocol
      & lit (codes " --dport ") refl
      & h.ext_port
      & lit (codes " -j DNAT --to-destination ") refl
      & h.int_ip
      & lit (codes ":") refl
      & h.int_port)

  forward_line-IsPlain :
      (m : ℕ) (end : Text) → m ≤ 1000 → Short m end → IsPlain (forward_line r end)
  unfolding forward_line every
  forward_line-IsPlain m end k e = Short-IsPlain _ _ (omega (arith, small, k)) (
      lit iptables refl
      & lit (codes " -A FORWARD -i ppp0 -o lan -p ") refl
      & h.protocol
      & lit (codes " -d ") refl
      & h.int_ip
      & lit (codes " --dport ") refl
      & h.int_port
      & lit (codes " -m state --state NEW -j ") refl
      & e)

  upper_name : Short 50 (to_upper wide r.name)
  upper_name = record {
    text = to_upper-printable wide r.name h.name.text;
    bound = omega (arith, h.name.bound, length-to_upper wide r.name);
  }

  pub block_lines-IsPlain : All IsPlain (block_lines wide r)
  unfolding block_lines log_line accept_line every
  block_lines-IsPlain = (
    pf_line-IsPlain,
    (
      dnat_line-IsPlain,
      (
        forward_line-IsPlain _ _ (omega arith)
            (lit (codes "LOG --log-prefix \"") refl & upper_name & lit (codes ": \"") refl),
        (forward_line-IsPlain _ _ (omega arith) (lit (codes "ACCEPT") refl), tt),
      ),
    ),
  )

pub tokens : (n : ℕ) (s : Text) → All Token s → length s ≤ n → Short n s
tokens n s h k = record { text = All-imp (λ c p. omega (arith, p)) s h; bound = k }

protocol-Token : (s : Text) → one_of s valid_pf_protos ≡ true → All Token s × (length s ≤ 3)
protocol-Token s h =
    one_of-All (λ p. All Token p × (length p ≤ 3)) s valid_pf_protos (omega arith) h

pub name-Token : (s : Text) → pf_name_re s ≡ true → All Token s × (length s ≤ 50)
unfolding pf_name_re
name-Token s h = let (a, b) = parts s h in (All-every is_name_rune is_name_rune-Token s a, b)
  where
    parts : (s : Text) → pf_name_re s ≡ true → (every is_name_rune s ≡ true) × (length s ≤ 50)
    parts s h = ground arith

pub Token-Lacks : (s : Text) → All Token s → Lacks b'|' s
Token-Lacks = All-imp (λ c h. h.2)

trim_right-Token : (s : Text) → All Token s → trim_right s ≡ s
unfolding trim_right
trim_right-Token s h = rw append-nil at (trim_right-append s [] (All-imp Token-Solid s h))

port-Token : (s : Text) → validate_port s ≡ true → All Token s
port-Token s h = All-imp PortRune-Token s (validate_port-PortRune s h)

module _ (net : Net) (doc : Documented net) (r : PortForwardRule) (h : Forward net r) where
  int_ip-Token : All Token r.int_ip × (length r.int_ip ≤ 45)
  int_ip-Token =
      let (a, b) = doc.ip r.int_ip (doc.ipv4 r.int_ip h.int_ip) in
      (All-imp (λ c p. p.0) r.int_ip (is_address_rune-Address r.int_ip a), b)

  pub Forward-Fields : (n : ℕ) → length r.ext_port ≤ n → length r.int_port ≤ n → Fields n r
  Forward-Fields n e i = record {
    name = let (a, b) = name-Token r.name h.name in tokens 50 r.name a b;
    protocol = let (a, b) = protocol-Token r.protocol h.protocol in tokens 3 r.protocol a b;
    ext_port = tokens n r.ext_port (port-Token r.ext_port h.ext_port) e;
    int_ip = tokens 45 r.int_ip int_ip-Token.0 int_ip-Token.1;
    int_port = tokens n r.int_port (port-Token r.int_port h.int_port) i;
  }

  pub Forward-Barless : Barless r
  Forward-Barless = record {
    name = Token-Lacks r.name (name-Token r.name h.name).0;
    protocol = Token-Lacks r.protocol (protocol-Token r.protocol h.protocol).0;
    ext_port = Token-Lacks r.ext_port (port-Token r.ext_port h.ext_port);
    int_ip = Token-Lacks r.int_ip int_ip-Token.0;
    int_port =
        rw (trim_right-Token r.int_port (port-Token r.int_port h.int_port))
          (Token-Lacks r.int_port (port-Token r.int_port h.int_port));
  }

  pub read_back-Forward : read_back r ≡ r
  read_back-Forward = rw (trim_right-Token r.int_port (port-Token r.int_port h.int_port))
