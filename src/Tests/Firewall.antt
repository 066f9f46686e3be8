-- ===== src/Tests/Firewall.antt =====
-- internal/system/firewall.go, on small files.
use srouter.Base.{List, [], ◌∷◌, ◌++◌, ◌≡◌, ◌↔◌, refl, arith, Text, codes, text_eq, collect}
use srouter.Strings.{
  trim_right, trim_space, trim_prefix, scan_lines, split, has_prefix, has_suffix, fields, is_space,
}
use srouter.Numbers.{pos, decimal, parse_uint, parsed}
use srouter.Numbers.Decimal.{parse_uint-decimal}
use srouter.World.{ok, open_file, opened_or}
use srouter.Firewall.{
  FirewallRule, PortForwardRule, port_forward_file, custom_rules_file, firewall_d_dir, no_rule,
  path_join, validate_firewall_file_name, save_firewall_script,
}
use srouter.Firewall.Files.{
  IsFileName, validate_firewall_file_name_iff, save_firewall_script_confined,
}
use srouter.Firewall.PortForward.{get_port_forward_rules, rule_of_line}
use srouter.Firewall.PortForward.Rows.{Barless}
use srouter.Firewall.Custom.{
  build_iptables_command, parse_iptables_line, get_custom_rules, delete_custom_rule, custom_row,
  is_iptables_line, unless_all, apply_flag,
}
use srouter.Firewall.Custom.RoundTrip.{parse_iptables_line-build_iptables_command}
use srouter.Firewall.Custom.Words.{Writable, as_parsed, is_flag}
use srouter.Firewall.Custom.Delete.{delete_custom_rule_misses}
use srouter.Tests.Worlds.{world_with, world_with-Editable}

parse_uint-decimal_example : parse_uint (decimal 65535) ≡ parsed 65535
parse_uint-decimal_example = parse_uint-decimal 65535 (omega arith)

script_name : IsFileName (codes "10-base.sh")
unfolding has_suffix
script_name = record { no_slash = omega arith; no_backslash = omega arith; suffix = refl }

validate_firewall_file_name_iff_example :
    (validate_firewall_file_name (codes "10-base.sh") ≡ ok tt) ↔ (
      IsFileName (codes "10-base.sh")
      × (path_join firewall_d_dir (codes "10-base.sh") ≡ firewall_d_dir ++ codes "/10-base.sh"))
validate_firewall_file_name_iff_example = validate_firewall_file_name_iff (codes "10-base.sh")

save_firewall_script_confined_example :
    (save_firewall_script
        (codes "../dnsmasq.sh")
        (codes "x")
        (world_with (codes "/etc/dnsmasq.sh") (codes "y"))).0.files
      (codes "/etc/dnsmasq.sh")
    ≡ (world_with (codes "/etc/dnsmasq.sh") (codes "y")).files (codes "/etc/dnsmasq.sh")
unfolding has_prefix
save_firewall_script_confined_example =
    save_firewall_script_confined (world_with (codes "/etc/dnsmasq.sh") (codes "y"))
      (codes "../dnsmasq.sh") (codes "x") (codes "/etc/dnsmasq.sh") refl

abbrev web : PortForwardRule
web = record {
  name = codes "web";
  protocol = codes "tcp";
  ext_port = codes "80";
  int_ip = codes "10.0.0.2";
  int_port = codes "8080";
}

abbrev ssh : PortForwardRule
ssh = record {
  name = codes "ssh";
  protocol = codes "tcp";
  ext_port = codes "22";
  int_ip = codes "10.0.0.3";
  int_port = codes "22";
}

abbrev pf_lines : List Text
pf_lines =
    codes "#!/bin/sh"
    ∷ codes "# PF: web|tcp|80|10.0.0.2|8080"
    ∷ codes "iptables -A FORWARD -j ACCEPT"
    ∷ []

abbrev pf_text : Text
pf_text = codes "#!/bin/sh\n# PF: web|tcp|80|10.0.0.2|8080\niptables -A FORWARD -j ACCEPT\n"

ssh-Barless : Barless ssh
unfolding trim_right
ssh-Barless = omega arith

pf_read : (get_port_forward_rules (world_with port_forward_file pf_text)).1 ≡ ok (web ∷ [])
unfolding collect get_port_forward_rules open_file opened_or text_eq scan_lines rule_of_line
    trim_space trim_prefix split
pf_read = refl

abbrev drop_telnet : FirewallRule
drop_telnet = record no_rule {
  chain = codes "INPUT";
  protocol = codes "tcp";
  dst_port = codes "23";
  action = codes "DROP";
}

drop_telnet-Writable : Writable drop_telnet
unfolding is_space is_flag text_eq unless_all
drop_telnet-Writable = ground arith

parse_iptables_line-build_iptables_command_example :
    parse_iptables_line (build_iptables_command drop_telnet) ≡ as_parsed drop_telnet
parse_iptables_line-build_iptables_command_example =
    parse_iptables_line-build_iptables_command drop_telnet drop_telnet-Writable

abbrev rules_text : Text
rules_text = codes "#!/bin/sh\niptables -A INPUT -j DROP\niptables -A OUTPUT -j ACCEPT\n"

abbrev drop_input : FirewallRule
drop_input = record no_rule { chain = codes "INPUT"; action = codes "DROP" }

abbrev accept_output : FirewallRule
accept_output = record no_rule { chain = codes "OUTPUT"; action = codes "ACCEPT" }

rules_read :
    (get_custom_rules (world_with custom_rules_file rules_text)).1
    ≡ ok (drop_input ∷ accept_output ∷ [])
unfolding collect get_custom_rules open_file opened_or text_eq split custom_row trim_space
    parse_iptables_line fields has_prefix apply_flag
rules_read = refl

abbrev flush_text : Text
flush_text = codes "#!/bin/sh\niptables -t nat -F\niptables -A INPUT -j DROP\n"

delete_custom_rule_misses_example :
    (get_custom_rules (delete_custom_rule (pos 0) (world_with custom_rules_file flush_text)).0).1
    ≡ (get_custom_rules (world_with custom_rules_file flush_text)).1
unfolding split is_iptables_line has_prefix trim_space custom_row text_eq parse_iptables_line fields
    apply_flag
delete_custom_rule_misses_example =
    delete_custom_rule_misses (codes "#!/bin/sh" ∷ []) (codes "iptables -t nat -F")
      (codes "iptables -A INPUT -j DROP" ∷ [] ∷ [])
      (world_with-Editable custom_rules_file flush_text) refl (refl, tt) refl refl
