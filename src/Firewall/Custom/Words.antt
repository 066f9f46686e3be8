-- ===== src/Firewall/Custom/Words.antt =====
-- The words of the command of a custom rule, as `parseIPTablesLine` meets them.
use mathlib.Core.List.{cons-ne-nil}
use srouter.Base.{
  ℕ, Bool, true, false, ◌||◌, List, [], ◌∷◌, ◌++◌, ◌≡◌, ◌≢◌, refl, ap, arith, Text, codes, All,
  All-append, text_eq, append-nil,
}
use srouter.Strings.Fields.{IsWord, spaced, spaced-append}
use srouter.Strings.Trim.{Solid, is_solid, is_solid_sound}
use srouter.Firewall.{FirewallRule}
use srouter.Firewall.Custom.{
  apply_flag, first_or_empty, parse_fields, option, unless_all, build_iptables_command,
}

-- one of the words that `parseIPTablesLine` looks for
unfoldable pub is_flag : Text → Bool
is_flag f =
    text_eq f (codes "-A")
    || text_eq f (codes "-I")
    || text_eq f (codes "-p")
    || text_eq f (codes "-i")
    || text_eq f (codes "-o")
    || text_eq f (codes "-s")
    || text_eq f (codes "-d")
    || text_eq f (codes "--sport")
    || text_eq f (codes "--dport")
    || text_eq f (codes "-j")

-- A value that can stand behind a flag: no white space inside, and no flag itself.
abbrev IsValue : Text → Type 0
IsValue v = All Solid v × (is_flag v ≡ false)

apply_flag_value : (v next : Text) (r : FirewallRule) → is_flag v ≡ false → apply_flag v next r ≡ r
unfolding apply_flag is_flag
apply_flag_value v next r h = ground arith

-- Behind a flag and its value the parser has applied the flag.
pub parse_option :
    (flag v : Text) (rest : List Text) (r : FirewallRule)
    → is_flag v ≡ false
    → parse_fields r (flag ∷ v ∷ rest) ≡ parse_fields (apply_flag flag v r) rest
unfolding parse_fields
parse_option flag v rest r h =
    ap (λ q. parse_fields q rest) (apply_flag_value v (first_or_empty rest) (apply_flag flag v r) h)

-- the words of an option
pub words : Text → Text → List Text
words flag [] = []
words flag (c ∷ v) = flag ∷ (c ∷ v) ∷ []

option-spaced : (flag v : Text) → option flag v ≡ spaced (words flag v)
unfolding option spaced words
option-spaced flag [] = refl
option-spaced flag (c ∷ v) = rw append-nil

pub IsWord-flag : (c : ℕ) (flag : Text) → is_solid (c ∷ flag) ≡ true → IsWord (c ∷ flag)
IsWord-flag c flag h = (is_solid_sound (c ∷ flag) h, cons-ne-nil c flag)

words-IsWord : (flag v : Text) → IsWord flag → All Solid v → All IsWord (words flag v)
unfolding words
words-IsWord flag [] h k = tt
words-IsWord flag (c ∷ v) h k = (h, ((k, cons-ne-nil c v), tt))

-- The effect of an option on the rule that is parsed: none, if the value is empty.
unfoldable pub given : (Text → FirewallRule → FirewallRule) → Text → FirewallRule → FirewallRule
given set [] r = r
given set (c ∷ v) r = set (c ∷ v) r

pub parse_words :
    (flag v : Text) (rest : List Text) (r : FirewallRule)
    → is_flag v ≡ false
    → parse_fields r (words flag v ++ rest) ≡ parse_fields (given (apply_flag flag) v r) rest
unfolding words given
parse_words flag [] rest r h = refl
parse_words flag (c ∷ v) rest r h = parse_option flag (c ∷ v) rest r h

-- What the proofs need of a rule: a chain and an action, and values without white space that are no
-- flags of the parser.
pub record Writable (r : FirewallRule) : Type 0 where
  pub chain_ne_nil : r.chain ≢ []
  pub action_ne_nil : r.action ≢ []
  pub chain : IsValue r.chain
  pub protocol : IsValue (unless_all r.protocol)
  pub in_iface : IsValue r.in_iface
  pub out_iface : IsValue r.out_iface
  pub src_ip : IsValue r.src_ip
  pub dst_ip : IsValue r.dst_ip
  pub src_port : IsValue r.src_port
  pub dst_port : IsValue r.dst_port
  pub action : IsValue r.action

-- The rule as it is read back: the protocol `all` is left out, and the comment stands elsewhere.
abbrev pub as_parsed : FirewallRule → FirewallRule
as_parsed r = record r { protocol = unless_all r.protocol; comment = [] }

-- the words of the command behind `iptables`
unfoldable pub command_words : FirewallRule → List Text
command_words r =
    codes "-A"
    ∷ r.chain
    ∷ (words (codes "-p") (unless_all r.protocol)
        ++ (words (codes "-i") r.in_iface
            ++ (words (codes "-o") r.out_iface
                ++ (words (codes "-s") r.src_ip
                    ++ (words (codes "-d") r.dst_ip
                        ++ (words (codes "--sport") r.src_port
                            ++ (words (codes "--dport") r.dst_port
                                ++ (codes "-j" ∷ r.action ∷ []))))))))

pub text_eq-ne-nil : (s : Text) → s ≢ [] → text_eq s [] ≡ false
unfolding text_eq
text_eq-ne-nil [] h = absurd (h refl)
text_eq-ne-nil (c ∷ s) h = refl

spaced_action : (a : Text) → codes " -j " ++ a ≡ spaced (codes "-j" ∷ a ∷ [])
unfolding spaced
spaced_action a = rw append-nil

pub build-command_words :
    (r : FirewallRule)
    → Writable r
    → build_iptables_command r ≡ codes "iptables" ++ spaced (command_words r)
build-command_words r h =
    unfold build_iptables_command command_words in
    rw
      (
        text_eq-ne-nil r.chain h.chain_ne_nil,
        text_eq-ne-nil r.action h.action_ne_nil,
        spaced_action,
      )
      (simp option-spaced (unfold spaced in simp spaced-append))

options-IsWord :
    (c : ℕ) (flag v : Text) (rest : List Text)
    → is_solid (c ∷ flag) ≡ true
    → All Solid v
    → All IsWord rest
    → All IsWord (words (c ∷ flag) v ++ rest)
options-IsWord c flag v rest h k =
    All-append IsWord (words (c ∷ flag) v) rest (words-IsWord (c ∷ flag) v (IsWord-flag c flag h) k)

pub command_words-IsWord : (r : FirewallRule) → Writable r → All IsWord (command_words r)
unfolding command_words is_solid
command_words-IsWord r h = (
  IsWord-flag b'-' (codes "A") refl,
  (
    (h.chain.0, h.chain_ne_nil),
    (options-IsWord b'-' (codes "p") (unless_all r.protocol) _ refl h.protocol.0 (
        options-IsWord b'-' (codes "i") r.in_iface _ refl h.in_iface.0 (
          options-IsWord b'-' (codes "o") r.out_iface _ refl h.out_iface.0 (
            options-IsWord b'-' (codes "s") r.src_ip _ refl h.src_ip.0 (
              options-IsWord b'-' (codes "d") r.dst_ip _ refl h.dst_ip.0 (
                options-IsWord b'-' (codes "-sport") r.src_port _ refl h.src_port.0 (
                  options-IsWord b'-' (codes "-dport") r.dst_port _ refl h.dst_port.0
                    (IsWord-flag b'-' (codes "j") refl, ((h.action.0, h.action_ne_nil), tt))))))))),
  ),
)
