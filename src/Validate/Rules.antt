-- ===== src/Validate/Rules.antt =====
-- What the two validations of firewall rules let through.
use mathlib.Core.Path.{subst}
use srouter.Base.{
  ℕ, ◌≤◌, Bool, true, false, not, ◌||◌, List, [], ◌∷◌, ◌≡◌, ◌≢◌, refl, sym, arith, ◌==◌, Text,
  text_eq, text_eq_iff, length, All, Bool-cases, inl, inr, Option, none,
}
use srouter.Strings.{has_rune, is_space}
use srouter.Strings.Trim.{Solid}
use srouter.Firewall.{FirewallRule, PortForwardRule}
use srouter.Firewall.Custom.{unless_all}
use srouter.Firewall.Custom.Words.{is_flag, Writable}
use srouter.Validate.{
  Net, Invalid, every, is_hex, is_iface_rune, iface_re, pf_name_re, one_of, demand, validate_port,
  empty_or, validate_ip_or_cidr, is_lower, is_digit, validate_port_forward_rule, valid_pf_protos,
  validate_firewall_rule, valid_chains, valid_actions, valid_protocols,
}
use srouter.Validate.Runes.{
  Token, Token-Solid, PortRune, PortRune-Token, All-imp, All-every, is_iface_rune-Token,
}
use srouter.Validate.Values.{validate_port-PortRune}

-- What an address or a CIDR is written with.
unfoldable pub is_address_rune : ℕ → Bool
is_address_rune c = is_hex c || c == b'.' || c == b':' || c == b'/'

-- What the documentation of net says of the texts that it accepts: dotted decimal or the forms of
-- IPv6, without a zone, and those with a prefix length.
pub record Documented (net : Net) : Type 0 where
  pub ip : (s : Text) → net.is_ip s ≡ true → (every is_address_rune s ≡ true) × (length s ≤ 45)
  pub ipv4 : (s : Text) → net.is_ipv4 s ≡ true → net.is_ip s ≡ true
  pub cidr : (s : Text) → net.is_cidr s ≡ true → every is_address_rune s ≡ true

pub is_address_rune-Token : (c : ℕ) → is_address_rune c ≡ true → Token c × (c ≢ b'-')
unfolding is_address_rune is_hex is_digit
is_address_rune-Token c h = ground arith

pub demand-none :
    (b : Bool) (e : Invalid) (rest : Option Invalid)
    → demand b e rest ≡ none
    → (b ≡ true) × (rest ≡ none)
unfolding demand
demand-none true e rest h = (refl, h)
demand-none false e rest h = cc

-- What an accepted port forward meets.
pub record Forward (net : Net) (r : PortForwardRule) : Type 0 where
  pub name : pf_name_re r.name ≡ true
  pub protocol : one_of r.protocol valid_pf_protos ≡ true
  pub ext_port : validate_port r.ext_port ≡ true
  pub int_port : validate_port r.int_port ≡ true
  pub int_ip : net.is_ipv4 r.int_ip ≡ true

pub validate_port_forward_rule-none :
    (net : Net) (r : PortForwardRule) → validate_port_forward_rule net r ≡ none → Forward net r
unfolding validate_port_forward_rule
validate_port_forward_rule-none net r h =
    let (a, h1) = demand-none (pf_name_re r.name) _ _ h in
    let (b, h2) = demand-none (one_of r.protocol valid_pf_protos) _ _ h1 in
    let (c, h3) = demand-none (validate_port r.ext_port) _ _ h2 in
    let (d, h4) = demand-none (validate_port r.int_port) _ _ h3 in
    let (e, _) = demand-none (net.is_ipv4 r.int_ip) _ _ h4 in
    record { name = a; protocol = b; ext_port = c; int_port = d; int_ip = e }

-- What an accepted custom rule meets.
pub record Custom (net : Net) (r : FirewallRule) : Type 0 where
  pub chain : one_of r.chain valid_chains ≡ true
  pub action : one_of r.action valid_actions ≡ true
  pub protocol : empty_or (λ p. one_of p valid_protocols) r.protocol ≡ true
  pub src_ip : empty_or (validate_ip_or_cidr net) r.src_ip ≡ true
  pub dst_ip : empty_or (validate_ip_or_cidr net) r.dst_ip ≡ true
  pub src_port : empty_or validate_port r.src_port ≡ true
  pub dst_port : empty_or validate_port r.dst_port ≡ true
  pub in_iface : empty_or iface_re r.in_iface ≡ true
  pub out_iface : empty_or iface_re r.out_iface ≡ true
  pub comment : not (has_rune b'\n' r.comment || has_rune b'\r' r.comment) ≡ true

pub validate_firewall_rule-none :
    (net : Net) (r : FirewallRule) → validate_firewall_rule net r ≡ none → Custom net r
unfolding validate_firewall_rule
validate_firewall_rule-none net r h =
    let (a, h1) = demand-none (one_of r.chain valid_chains) _ _ h in
    let (b, h2) = demand-none (one_of r.action valid_actions) _ _ h1 in
    let (c, h3) = demand-none (empty_or (λ p. one_of p valid_protocols) r.protocol) _ _ h2 in
    let (d, h4) = demand-none (empty_or (validate_ip_or_cidr net) r.src_ip) _ _ h3 in
    let (e, h5) = demand-none (empty_or (validate_ip_or_cidr net) r.dst_ip) _ _ h4 in
    let (f, h6) = demand-none (empty_or validate_port r.src_port) _ _ h5 in
    let (g, h7) = demand-none (empty_or validate_port r.dst_port) _ _ h6 in
    let (i, h8) = demand-none (empty_or iface_re r.in_iface) _ _ h7 in
    let (j, h9) = demand-none (empty_or iface_re r.out_iface) _ _ h8 in
    let (k, _) = demand-none _ _ _ h9 in
    record {
      chain = a;
      action = b;
      protocol = c;
      src_ip = d;
      dst_ip = e;
      src_port = f;
      dst_port = g;
      in_iface = i;
      out_iface = j;
      comment = k;
    }

-- A value is no flag where its head is no dash, or where it holds no letter.
is_flag-head : (c : ℕ) (s : Text) → c ≢ b'-' → is_flag (c ∷ s) ≡ false
unfolding is_flag text_eq
is_flag-head c s h = ground arith

is_flag-bare : (s : Text) → All PortRune s → is_flag s ≡ false
unfolding is_flag text_eq
is_flag-bare [] _ = refl
is_flag-bare (c ∷ []) _ = ground arith
is_flag-bare (c ∷ d ∷ []) h = ground arith
is_flag-bare (c ∷ d ∷ e ∷ s) h = ground arith

pub one_of-All {κ} :
    (P : Text → Type κ) (s : Text) (ts : List Text) → All P ts → one_of s ts ≡ true → P s
unfolding one_of
one_of-All P s [] _ h = absurd (cc h)
one_of-All P s (t ∷ ts) (k, ks) h = elim (Bool-cases (text_eq s t)) [
  | inl e ↦ subst P (sym ((text_eq_iff s t).0 e)) k
  | inr e ↦ one_of-All P s ts ks (rw e at h)
]

abbrev IsValue : Text → Type 0
IsValue v = All Solid v × (is_flag v ≡ false)

Token-Solid_all : (s : Text) → All Token s → All Solid s
Token-Solid_all = All-imp Token-Solid

port-IsValue : (s : Text) → validate_port s ≡ true → IsValue s
port-IsValue s h =
    let k = validate_port-PortRune s h in
    (Token-Solid_all s (All-imp PortRune-Token s k), is_flag-bare s k)

abbrev pub Address : Text → Type 0
Address = All (λ c. Token c × (c ≢ b'-'))

pub is_address_rune-Address : (s : Text) → every is_address_rune s ≡ true → Address s
is_address_rune-Address = All-every is_address_rune is_address_rune-Token

address-IsValue : (s : Text) → every is_address_rune s ≡ true → IsValue s
address-IsValue [] h = (tt, unfold is_flag text_eq in refl)
address-IsValue (c ∷ s) h =
    let k = is_address_rune-Address (c ∷ s) h in
    (All-imp (λ d p. Token-Solid d p.0) (c ∷ s) k, is_flag-head c s k.0.1)

lower_head :
    (c : ℕ) (s : Text)
    → iface_re (c ∷ s) ≡ true
    → (Token c × (c ≢ b'-')) × (every is_iface_rune s ≡ true)
unfolding iface_re is_lower
lower_head c s h = ground arith

iface-IsValue : (s : Text) → iface_re s ≡ true → IsValue s
iface-IsValue [] h = (tt, unfold is_flag text_eq in refl)
iface-IsValue (c ∷ s) h =
    let (a, k) = lower_head c s h in
    (
      (Token-Solid c a.0, Token-Solid_all s (All-every is_iface_rune is_iface_rune-Token s k)),
      is_flag-head c s a.1,
    )

empty_or-IsValue :
    (p : Text → Bool)
    → ((s : Text) → p s ≡ true → IsValue s)
    → (s : Text) → empty_or p s ≡ true
    → IsValue s
unfolding empty_or
empty_or-IsValue p f [] h = (tt, unfold is_flag text_eq in refl)
empty_or-IsValue p f (c ∷ s) h = f (c ∷ s) h

ip_or_cidr-IsValue :
    (net : Net) → Documented net → (s : Text) → validate_ip_or_cidr net s ≡ true → IsValue s
unfolding validate_ip_or_cidr
ip_or_cidr-IsValue net doc s h = elim (Bool-cases (net.is_ip s)) [
  | inl e ↦ address-IsValue s (doc.ip s e).0
  | inr e ↦ address-IsValue s (doc.cidr s (rw e at h))
]

abbrev IsName : Text → Type 0
IsName v = IsValue v × (v ≢ [])

chain-IsName : (s : Text) → one_of s valid_chains ≡ true → IsName s
unfolding is_space is_flag text_eq
chain-IsName s h = one_of-All IsName s valid_chains (ground arith) h

action-IsName : (s : Text) → one_of s valid_actions ≡ true → IsName s
unfolding is_space is_flag text_eq
action-IsName s h = one_of-All IsName s valid_actions (ground arith) h

protocol-IsValue :
    (s : Text) → empty_or (λ p. one_of p valid_protocols) s ≡ true → IsValue (unless_all s)
unfolding is_space is_flag text_eq unless_all empty_or
protocol-IsValue [] h = (tt, refl)
protocol-IsValue (c ∷ s) h =
    one_of-All (λ p. IsValue (unless_all p)) (c ∷ s) valid_protocols (ground arith) h

-- An accepted custom rule can be written and read back.
pub Custom-Writable : (net : Net) → Documented net → (r : FirewallRule) → Custom net r → Writable r
Custom-Writable net doc r h =
    let chain = chain-IsName r.chain h.chain in
    let action = action-IsName r.action h.action in
    record {
      chain_ne_nil = chain.1;
      action_ne_nil = action.1;
      chain = chain.0;
      protocol = protocol-IsValue r.protocol h.protocol;
      in_iface = empty_or-IsValue iface_re iface-IsValue r.in_iface h.in_iface;
      out_iface = empty_or-IsValue iface_re iface-IsValue r.out_iface h.out_iface;
      src_ip =
          empty_or-IsValue (validate_ip_or_cidr net) (ip_or_cidr-IsValue net doc) r.src_ip h.src_ip;
      dst_ip =
          empty_or-IsValue (validate_ip_or_cidr net) (ip_or_cidr-IsValue net doc) r.dst_ip h.dst_ip;
      src_port = empty_or-IsValue validate_port port-IsValue r.src_port h.src_port;
      dst_port = empty_or-IsValue validate_port port-IsValue r.dst_port h.dst_port;
      action = action.0;
    }
