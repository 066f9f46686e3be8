-- ===== src/Tests/Handlers.antt =====
-- The handlers of the forms, on small files and forms.
use mathlib.Core.Path.{subst}
use srouter.Base.{
  ◌≤◌, true, false, not, List, [], ◌∷◌, ◌++◌, ◌≡◌, refl, sym, arith, some, Text, codes, text_eq,
  text_eq_iff, if◌then◌else◌, keep, collect, length,
}
use srouter.Strings.{
  byte_len, trim_space, trim_prefix, scan_lines, split, raw_lines, drop_cr, has_prefix, fields,
  has_rune,
}
use srouter.Strings.Lines.{unlines}
use srouter.Numbers.{decimal}
use srouter.World.{open_file, opened_or, append_file}
use srouter.Firewall.{PortForwardRule, FirewallRule, no_rule, port_forward_file, custom_rules_file}
use srouter.Firewall.PortForward.{
  get_port_forward_rules, add_port_forward_rule, rule_of_line, is_marked,
}
use srouter.Firewall.Custom.{
  get_custom_rules, custom_row, is_iptables_line, parse_iptables_line, apply_flag,
}
use srouter.Firewall.Custom.Words.{as_parsed}
use srouter.Firewall.Custom.Delete.{remove_nth}
use srouter.Validate.{
  Net, every, is_hex, validate_port_forward_rule, validate_firewall_rule, pf_name_re,
}
use srouter.Validate.Rules.{Documented, is_address_rune}
use srouter.Handlers.{Form, page, items, attempt}
use srouter.Handlers.FirewallRules
use srouter.Handlers.PortForwards.{show, add, delete, with_defaults, rule_of_form, lacks_field}
use srouter.Handlers.PortForwards.Shown.{show-add, delete-add, show-delete}
use srouter.Handlers.FirewallRules.{show_rules, add_custom, delete_custom}
use srouter.Handlers.FirewallRules.Shown.{show_rules-add_custom, show_rules-delete_custom}
use srouter.Tests.Worlds.{world_with, world_with-Editable}

abbrev printer : Text
printer = codes "10.0.0.3"

-- One address that the parser accepts.
abbrev one_address : Net
one_address = record {
  is_ip = λ s. text_eq s printer;
  is_ipv4 = λ s. text_eq s printer;
  is_cidr = λ s. false;
}

one_address-Documented : Documented one_address
unfolding is_hex
one_address-Documented = record { ip = λ s h. accepted s h; ipv4 = λ s h. h; cidr = λ s h. cc h }
  where
    accepted :
        (s : Text) → text_eq s printer ≡ true → (every is_address_rune s ≡ true) × (length s ≤ 45)
    accepted s h =
        subst (λ t. (every is_address_rune t ≡ true) × (length t ≤ 45))
          (sym ((text_eq_iff s printer).0 h)) (unfold every is_address_rune in (refl, omega arith))

abbrev ssh_form : Form
ssh_form key =
    if text_eq key (codes "name")
    then codes "ssh"
    else if text_eq key (codes "ext_port")
    then codes "22"
    else if text_eq key (codes "int_ip")
    then printer
    else []

abbrev pf_text : Text
pf_text = codes "#!/bin/sh\n# PF: web|tcp|80|10.0.0.2|8080\niptables -A FORWARD -j ACCEPT\n"

abbrev web : PortForwardRule
web = record {
  name = codes "web";
  protocol = codes "tcp";
  ext_port = codes "80";
  int_ip = codes "10.0.0.2";
  int_port = codes "8080";
}

web_shown : (show (world_with port_forward_file pf_text)).1 ≡ page (web ∷ [])
unfolding show items collect get_port_forward_rules open_file opened_or text_eq scan_lines
    rule_of_line trim_space trim_prefix split
web_shown = refl

show-add_example :
    ((add one_address (λ c. c) ssh_form (world_with port_forward_file pf_text)).1
      ≡ page (with_defaults (rule_of_form ssh_form)))
    × ((show (add one_address (λ c. c) ssh_form (world_with port_forward_file pf_text)).0).1
        ≡ page ((web ∷ []) ++ with_defaults (rule_of_form ssh_form) ∷ []))
unfolding byte_len raw_lines lacks_field rule_of_form text_eq with_defaults
    validate_port_forward_rule
show-add_example =
    show-add one_address (λ c. c) ssh_form (web ∷ []) one_address-Documented
      (world_with-Editable port_forward_file pf_text) (omega arith) refl refl (omega arith)
      (omega arith) web_shown

abbrev pf_lines : List Text
pf_lines = codes "# PF: web|tcp|80|10.0.0.2|8080" ∷ codes "iptables -A FORWARD -j ACCEPT" ∷ []

ssh_shown :
    (add one_address
      (λ c. c)
      ssh_form
      (world_with port_forward_file (unlines (codes "#!/bin/sh" ∷ pf_lines)))).1
    ≡ page (with_defaults (rule_of_form ssh_form))
unfolding add text_eq rule_of_form add_port_forward_rule attempt validate_port_forward_rule unlines
    append_file
ssh_shown = refl

delete-add_example :
    (delete
        (codes "ssh")
        (add one_address
          (λ c. c)
          ssh_form
          (world_with port_forward_file (unlines (codes "#!/bin/sh" ∷ pf_lines)))).0).0.files
      port_forward_file
    ≡ some (unlines (codes "#!/bin/sh" ∷ pf_lines))
unfolding byte_len drop_cr is_marked trim_space has_prefix rule_of_form text_eq with_defaults
delete-add_example =
    delete-add one_address (λ c. c) ssh_form (with_defaults (rule_of_form ssh_form))
      (codes "#!/bin/sh") pf_lines one_address-Documented
      (world_with-Editable port_forward_file (unlines (codes "#!/bin/sh" ∷ pf_lines)))
      (ground arith) (ground arith) (omega arith) (omega arith) ssh_shown

show-delete_example :
    (show (delete (codes "web") (world_with port_forward_file pf_text)).0).1
    ≡ page (keep (λ r. not (text_eq r.name (codes "web"))) (web ∷ []))
unfolding pf_name_re
show-delete_example =
    show-delete (codes "web") (web ∷ []) (world_with-Editable port_forward_file pf_text) refl
      web_shown

abbrev rules : List Text
rules = codes "#!/bin/sh" ∷ codes "iptables -A INPUT -j DROP" ∷ []

abbrev drop_input : FirewallRule
drop_input = record no_rule { chain = codes "INPUT"; action = codes "DROP" }

drop_shown : (show_rules (world_with custom_rules_file (unlines rules))).1 ≡ page (drop_input ∷ [])
unfolding show_rules items collect get_custom_rules open_file opened_or text_eq split custom_row
    trim_space parse_iptables_line fields has_prefix apply_flag unlines
drop_shown = refl

abbrev log_form : Form
log_form key =
    if text_eq key (codes "chain")
    then codes "FORWARD"
    else if text_eq key (codes "action")
    then codes "LOG"
    else if text_eq key (codes "dst_ip")
    then printer
    else []

show_rules-add_custom_example :
    (add_custom one_address log_form (world_with custom_rules_file (unlines rules))).1
    ≡ page ((drop_input ∷ []) ++ as_parsed (FirewallRules.rule_of_form log_form) ∷ [])
unfolding validate_firewall_rule text_eq FirewallRules.rule_of_form has_rune
show_rules-add_custom_example =
    show_rules-add_custom one_address log_form rules (drop_input ∷ []) one_address-Documented
      (world_with-Editable custom_rules_file (unlines rules)) (omega arith) drop_shown refl

show_rules-delete_custom_example :
    (delete_custom (decimal 0) (world_with custom_rules_file (unlines rules))).1
    ≡ page (remove_nth 0 (drop_input ∷ []))
unfolding split is_iptables_line has_prefix trim_space custom_row text_eq parse_iptables_line fields
    apply_flag unlines
show_rules-delete_custom_example =
    show_rules-delete_custom 0 (drop_input ∷ []) (omega arith)
      (world_with-Editable custom_rules_file (unlines rules))
      ((λ h. cc), ((λ h. (drop_input, refl)), ((λ h. cc), tt))) drop_shown
