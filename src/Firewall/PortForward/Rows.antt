-- ===== src/Firewall/PortForward/Rows.antt =====
-- What the reader of port forwards sees of a line.
use srouter.Base.{
  true, false, List, [], ◌∷◌, ◌++◌, ◌≡◌, refl, ap, sym, ◌∙◌, arith, none, some, Text, codes, All,
  Lacks, text_eq, Bool-cases, inl, inr,
}
use srouter.Strings.{
  trim_right, trim_space, has_prefix, trim_prefix, drop_prefix, split, drop_cr, is_space,
}
use srouter.Strings.Prefix.{has_prefix-append, trim_prefix-append, has_prefix_sound}
use srouter.Strings.Trim.{
  trim_left-cons, trim_right-Solid, trim_space-drop_cr, is_solid, is_solid_sound, Solid,
  trim_space-append,
}
use srouter.Strings.Split.{
  split_at_sep, split_whole, has_prefix-append_both, has_prefix_sep, split_first,
}
use srouter.Firewall.{PortForwardRule}
use srouter.Firewall.PortForward.{
  pf_key, rule_of_parts, rule_of_line, pf_row, pf_line, iptables, is_iptables, is_marked, is_blank,
}

pub pf_row-drop_cr : (l : Text) → pf_row (drop_cr l) ≡ pf_row l
pf_row-drop_cr l = ap rule_of_line (trim_space-drop_cr l)

pub pf_row-nil : pf_row [] ≡ none
unfolding rule_of_line has_prefix trim_space
pf_row-nil = refl

-- The rule as it is read back: its last field is trimmed at the right end.
abbrev pub read_back : PortForwardRule → PortForwardRule
read_back r = record r { int_port = trim_right r.int_port }

-- No field but the last may hold a bar, nor may the last one.
pub record Barless (r : PortForwardRule) : Type 0 where
  pub name : Lacks b'|' r.name
  pub protocol : Lacks b'|' r.protocol
  pub ext_port : Lacks b'|' r.ext_port
  pub int_ip : Lacks b'|' r.int_ip
  pub int_port : Lacks b'|' (trim_right r.int_port)

bar_Solid : Solid b'|'
unfolding is_space
bar_Solid = refl

hash_Solid : Solid b'#'
unfolding is_space
hash_Solid = refl

pub trim_space-pf_line : (r : PortForwardRule) → trim_space (pf_line r) ≡ pf_line (read_back r)
trim_space-pf_line r =
    unfold pf_line trim_space in
    rw
      (
        trim_right-Solid (pf_key ++ r.name) b'|'
            (r.protocol ++ (b'|' ∷ (r.ext_port ++ (b'|' ∷ (r.int_ip ++ (b'|' ∷ r.int_port))))))
            bar_Solid,
        trim_right-Solid r.protocol b'|' (r.ext_port ++ (b'|' ∷ (r.int_ip ++ (b'|' ∷ r.int_port))))
            bar_Solid,
        trim_right-Solid r.ext_port b'|' (r.int_ip ++ (b'|' ∷ r.int_port)) bar_Solid,
        trim_right-Solid r.int_ip b'|' r.int_port bar_Solid,
      )
      (trim_left-cons b'#' _ hash_Solid)

rule_of_line-pf_line :
    (r : PortForwardRule) → Barless (r) → rule_of_line (pf_line (read_back r)) ≡ some (read_back r)
rule_of_line-pf_line r b =
    unfold rule_of_line pf_line in
    rw (
      has_prefix-append pf_key,
      trim_prefix-append pf_key,
      split_at_sep b'|' r.name
          (r.protocol
            ++ (b'|' ∷ (r.ext_port ++ (b'|' ∷ (r.int_ip ++ (b'|' ∷ trim_right r.int_port))))))
          b.name,
      split_at_sep b'|' r.protocol
          (r.ext_port ++ (b'|' ∷ (r.int_ip ++ (b'|' ∷ trim_right r.int_port)))) b.protocol,
      split_at_sep b'|' r.ext_port (r.int_ip ++ (b'|' ∷ trim_right r.int_port)) b.ext_port,
      split_at_sep b'|' r.int_ip (trim_right r.int_port) b.int_ip,
      split_whole b'|' (trim_right r.int_port) b.int_port,
    )

pub pf_row-pf_line : (r : PortForwardRule) → Barless r → pf_row (pf_line r) ≡ some (read_back r)
pf_row-pf_line r b = rw (trim_space-pf_line r) (rule_of_line-pf_line r b)

iptables-Solid : All Solid iptables
unfolding is_solid
iptables-Solid = is_solid_sound iptables refl

pub trim_space-iptables : (t : Text) → trim_space (iptables ++ t) ≡ iptables ++ trim_right t
trim_space-iptables t = trim_space-append b'i' (codes "ptables") t iptables-Solid

pub pf_row-iptables : (t : Text) → pf_row (iptables ++ t) ≡ none
pf_row-iptables t = rw (trim_space-iptables t) (unfold rule_of_line has_prefix in refl)

pub is_iptables-iptables : (t : Text) → is_iptables (iptables ++ t) ≡ true
is_iptables-iptables t =
    unfold is_iptables in rw (trim_space-iptables t) (has_prefix-append iptables (trim_right t))

pub is_marked-iptables : (name t : Text) → is_marked name (iptables ++ t) ≡ false
is_marked-iptables name t =
    unfold is_marked in rw (trim_space-iptables t) (unfold has_prefix in refl)

-- A blank line gives no rule.
pub pf_row_blank : (l : Text) → is_blank l ≡ true → pf_row l ≡ none
pf_row_blank l h = blank (trim_space l) (unfold is_blank in h)
  where
    blank : (t : Text) → text_eq t [] ≡ true → rule_of_line t ≡ none
    blank [] h = unfold rule_of_line has_prefix in refl
    blank (c ∷ t) h = unfold text_eq in cc

parts_name :
    (ps : List Text) (r : PortForwardRule)
    → rule_of_parts ps ≡ some r
    → (b : Text) × (bs : List Text) × (ps ≡ r.name ∷ b ∷ bs)
unfolding rule_of_parts
parts_name [] r h = cc
parts_name (n ∷ []) r h = cc
parts_name (n ∷ p ∷ []) r h = cc
parts_name (n ∷ p ∷ e ∷ []) r h = cc
parts_name (n ∷ p ∷ e ∷ i ∷ []) r h = cc
parts_name (n ∷ p ∷ e ∷ i ∷ j ∷ ps) r h = (p, e ∷ i ∷ j ∷ ps, ground arith)

-- A line that gives a rule begins with the key and the rule's name.
rule_of_line-some :
    (t : Text) (r : PortForwardRule)
    → rule_of_line t ≡ some r
    → (v : Text) × (t ≡ pf_key ++ (r.name ++ (b'|' ∷ v))) × Lacks b'|' r.name
rule_of_line-some t r h =
    let (p, e) = read t r h in
    let (b, bs, k) = parts_name (split b'|' (trim_prefix t pf_key)) r e in
    let (v, s, free) = split_first b'|' (trim_prefix t pf_key) r.name b bs k in
    (v, has_prefix_sound t pf_key p ∙ ap (λ x. pf_key ++ x) (sym (dropped t p) ∙ s), free)
  where
    read :
        (t : Text) (r : PortForwardRule)
        → rule_of_line t ≡ some r
        → (has_prefix t pf_key ≡ true)
          × (rule_of_parts (split b'|' (trim_prefix t pf_key)) ≡ some r)
    read t r h = elim (Bool-cases (has_prefix t pf_key)) [
      | inl p ↦ (p, unfold rule_of_line in rw p at h)
      | inr p ↦ absurd (cc (none_then t p))
    ]
      where
        none_then : (t : Text) → has_prefix t pf_key ≡ false → rule_of_line t ≡ none
        none_then t p = unfold rule_of_line in rw p

    dropped : (t : Text) → has_prefix t pf_key ≡ true → trim_prefix t pf_key ≡ drop_prefix t pf_key
    dropped t p = unfold trim_prefix in rw p

-- The marker of a name marks just the lines that give a rule of that name, among those that give one.
pub is_marked-pf_row :
    (name : Text)
    → Lacks b'|' name
    → (l : Text) (r : PortForwardRule) → pf_row l ≡ some r
    → is_marked name l ≡ text_eq r.name name
is_marked-pf_row name free l r h =
    let (v, e, free') = rule_of_line-some (trim_space l) r h in
    unfold is_marked in
    rw (e, has_prefix-append_both pf_key) (has_prefix_sep b'|' r.name name v free' free)
