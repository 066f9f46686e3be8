-- ===== src/Firewall/Custom/RoundTrip.antt =====
-- `parseIPTablesLine` reads back what `buildIPTablesCommand` writes.

use srouter.Base.{false, List, [], ◌∷◌, ◌≡◌, refl, ◌∙◌, arith, Text, codes, text_eq}
use srouter.Strings.Fields.{IsWord, fields-spaced}
use srouter.Strings.Trim.{is_solid}
use srouter.Firewall.{FirewallRule, no_rule}
use srouter.Firewall.Custom.{
  apply_flag, parse_fields, parse_iptables_line, unless_all, build_iptables_command,
}
use srouter.Firewall.Custom.Words.{
  is_flag, parse_option, IsWord-flag, given, parse_words, Writable, as_parsed, command_words,
  build-command_words, command_words-IsWord,
}

set_protocol :
    (v : Text) (q : FirewallRule)
    → q.protocol ≡ []
    → given (apply_flag (codes "-p")) v q ≡ record q { protocol = v }
unfolding given apply_flag text_eq
set_protocol [] q h = ground arith
set_protocol (c ∷ v) q h = refl

set_in_iface :
    (v : Text) (q : FirewallRule)
    → q.in_iface ≡ []
    → given (apply_flag (codes "-i")) v q ≡ record q { in_iface = v }
unfolding given apply_flag text_eq
set_in_iface [] q h = ground arith
set_in_iface (c ∷ v) q h = refl

set_out_iface :
    (v : Text) (q : FirewallRule)
    → q.out_iface ≡ []
    → given (apply_flag (codes "-o")) v q ≡ record q { out_iface = v }
unfolding given apply_flag text_eq
set_out_iface [] q h = ground arith
set_out_iface (c ∷ v) q h = refl

set_src_ip :
    (v : Text) (q : FirewallRule)
    → q.src_ip ≡ []
    → given (apply_flag (codes "-s")) v q ≡ record q { src_ip = v }
unfolding given apply_flag text_eq
set_src_ip [] q h = ground arith
set_src_ip (c ∷ v) q h = refl

set_dst_ip :
    (v : Text) (q : FirewallRule)
    → q.dst_ip ≡ []
    → given (apply_flag (codes "-d")) v q ≡ record q { dst_ip = v }
unfolding given apply_flag text_eq
set_dst_ip [] q h = ground arith
set_dst_ip (c ∷ v) q h = refl

set_src_port :
    (v : Text) (q : FirewallRule)
    → q.src_port ≡ []
    → given (apply_flag (codes "--sport")) v q ≡ record q { src_port = v }
unfolding given apply_flag text_eq
set_src_port [] q h = ground arith
set_src_port (c ∷ v) q h = refl

set_dst_port :
    (v : Text) (q : FirewallRule)
    → q.dst_port ≡ []
    → given (apply_flag (codes "--dport")) v q ≡ record q { dst_port = v }
unfolding given apply_flag text_eq
set_dst_port [] q h = ground arith
set_dst_port (c ∷ v) q h = refl

parse_chain :
    (c : Text) (rest : List Text)
    → is_flag c ≡ false
    → parse_fields no_rule (codes "iptables" ∷ codes "-A" ∷ c ∷ rest)
      ≡ parse_fields (record no_rule { chain = c }) rest
parse_chain c rest h = skip_word ∙ parse_option (codes "-A") c rest no_rule h ∙ first_flag
  where
    skip_word :
        parse_fields no_rule (codes "iptables" ∷ codes "-A" ∷ c ∷ rest)
        ≡ parse_fields no_rule (codes "-A" ∷ c ∷ rest)
    skip_word = unfold parse_fields apply_flag text_eq in refl

    first_flag :
        parse_fields (apply_flag (codes "-A") c no_rule) rest
        ≡ parse_fields (record no_rule { chain = c }) rest
    first_flag = unfold apply_flag text_eq in refl

parse_action :
    (a : Text) (q : FirewallRule)
    → is_flag a ≡ false
    → parse_fields q (codes "-j" ∷ a ∷ []) ≡ record q { action = a }
parse_action a q h = parse_option (codes "-j") a [] q h ∙ last_flag
  where
    last_flag : parse_fields (apply_flag (codes "-j") a q) [] ≡ record q { action = a }
    last_flag = unfold parse_fields apply_flag text_eq in refl

parse-command_words :
    (r : FirewallRule)
    → Writable r
    → parse_fields no_rule (codes "iptables" ∷ command_words r) ≡ as_parsed r
parse-command_words r h =
    unfold command_words in
    parse_chain r.chain _ h.chain.1
    ∙ simp
        (
          parse_words (codes "-p") (unless_all r.protocol) _ _ h.protocol.1,
          set_protocol,
          parse_words (codes "-i") r.in_iface _ _ h.in_iface.1,
          set_in_iface,
          parse_words (codes "-o") r.out_iface _ _ h.out_iface.1,
          set_out_iface,
          parse_words (codes "-s") r.src_ip _ _ h.src_ip.1,
          set_src_ip,
          parse_words (codes "-d") r.dst_ip _ _ h.dst_ip.1,
          set_dst_ip,
          parse_words (codes "--sport") r.src_port _ _ h.src_port.1,
          set_src_port,
          parse_words (codes "--dport") r.dst_port _ _ h.dst_port.1,
          set_dst_port,
        )
        (parse_action r.action (record (as_parsed r) { action = [] }) h.action.1)

-- Parsing the command of a rule gives the rule back, but for its comment and for the protocol `all`,
-- which the command leaves out: no value may hold white space or be a flag of the parser, and the
-- rule must have a chain and an action.
pub parse_iptables_line-build_iptables_command :
    (r : FirewallRule) → Writable r → parse_iptables_line (build_iptables_command r) ≡ as_parsed r
parse_iptables_line-build_iptables_command r h =
    unfold parse_iptables_line in
    rw
      (
        build-command_words r h,
        fields-spaced (codes "iptables") (command_words r) iptables_word (command_words-IsWord r h),
      )
      (parse-command_words r h)
  where
    iptables_word : IsWord (codes "iptables")
    iptables_word = unfold is_solid in IsWord-flag b'i' (codes "ptables") refl
