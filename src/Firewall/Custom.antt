-- ===== src/Firewall/Custom.antt =====
-- internal/system/firewall.go: the custom rules of 99-custom.sh, iptables commands that are built
-- from rules and parsed back.
pub mod RoundTrip
pub mod Words
pub mod Delete
pub mod Command
pub mod Add
use srouter.Base.{
  ℕ, zero, suc, ◌+◌, Bool, true, false, not, ◌||◌, ◌&&◌, List, [], ◌∷◌, ◌++◌, Option, none, some,
  if◌then◌else◌, Text, codes, text_eq, collect, ◌==◌,
}
use srouter.Numbers.{ℤ, pos, negsuc}
use srouter.Strings.{has_prefix, trim_space, split, fields}
use srouter.Strings.Lines.{write_lines}
use srouter.World.{
  M, Result, ok, err, pure, fail, open_failed, invalid_rule, ◌>>=◌, ◌>>◌, Reading, absent, denied,
  content, open_file, opened, opened_or, write_file, append_file, reading, World,
}
use srouter.Firewall.{FirewallRule, no_rule, custom_rules_file}

-- one round of the loop of `parseIPTablesLine`; `next` is the field behind `f`
unfoldable pub apply_flag : Text → Text → FirewallRule → FirewallRule
apply_flag f next r =
    if text_eq f (codes "-A") || text_eq f (codes "-I")
    then record r { chain = next }
    else if text_eq f (codes "-p")
    then record r { protocol = next }
    else if text_eq f (codes "-i")
    then record r { in_iface = next }
    else if text_eq f (codes "-o")
    then record r { out_iface = next }
    else if text_eq f (codes "-s")
    then record r { src_ip = next }
    else if text_eq f (codes "-d")
    then record r { dst_ip = next }
    else if text_eq f (codes "--sport")
    then record r { src_port = next }
    else if text_eq f (codes "--dport")
    then record r { dst_port = next }
    else if text_eq f (codes "-j")
    then record r { action = next }
    else r

unfoldable pub first_or_empty : List Text → Text
first_or_empty [] = []
first_or_empty (f ∷ fs) = f

unfoldable pub parse_fields : FirewallRule → List Text → FirewallRule
unfolding first_or_empty
parse_fields r [] = r
parse_fields r (f ∷ fs) = parse_fields (apply_flag f (first_or_empty fs) r) fs

unfoldable pub parse_iptables_line : Text → FirewallRule
unfolding parse_fields
parse_iptables_line line = parse_fields no_rule (fields line)

-- ` flag value`, if the value is not empty
unfoldable pub option : Text → Text → Text
option flag [] = []
option flag (c ∷ value) = b' ' ∷ (flag ++ (b' ' ∷ (c ∷ value)))

unfoldable pub unless_all : Text → Text
unless_all p = if text_eq p (codes "all") then [] else p

unfoldable pub build_iptables_command : FirewallRule → Text
unfolding option unless_all
build_iptables_command r =
    if text_eq r.chain [] || text_eq r.action []
    then []
    else codes "iptables -A "
      ++ (r.chain
          ++ (option (codes "-p") (unless_all r.protocol)
              ++ (option (codes "-i") r.in_iface
                  ++ (option (codes "-o") r.out_iface
                      ++ (option (codes "-s") r.src_ip
                          ++ (option (codes "-d") r.dst_ip
                              ++ (option (codes "--sport") r.src_port
                                  ++ (option (codes "--dport") r.dst_port
                                      ++ (codes " -j " ++ r.action)))))))))

unfoldable pub build_iptables_command_with_comment : FirewallRule → Text
build_iptables_command_with_comment r =
    if text_eq (build_iptables_command r) []
    then []
    else if not (text_eq r.comment [])
    then codes "# " ++ (r.comment ++ (b'\n' ∷ build_iptables_command r))
    else build_iptables_command r

abbrev pub iptables : Text
iptables = codes "iptables"

unfoldable pub is_iptables_line : Text → Bool
is_iptables_line line = has_prefix (trim_space line) iptables

unfoldable pub with_chain : FirewallRule → Option FirewallRule
with_chain r = if text_eq r.chain [] then none else some r

-- what one line adds to the result of `GetCustomRules`
unfoldable pub custom_row : Text → Option FirewallRule
unfolding is_iptables_line with_chain
custom_row raw =
    if is_iptables_line raw then with_chain (parse_iptables_line (trim_space raw)) else none

unfoldable pub get_custom_rules : M (List FirewallRule)
get_custom_rules = do
  f ← open_file custom_rules_file
  opened_or [] (λ s. collect custom_row (split b'\n' s)) f

abbrev pub shebang : Text
shebang = codes "#!/bin/sh\n"

-- creates the file, if there is none
unfoldable pub ensure_file : Option Text → M (Unit {0})
ensure_file none = write_file custom_rules_file shebang
ensure_file (some s) = pure tt

unfoldable pub ensure_custom_rules_file : M (Unit {0})
unfolding ensure_file
ensure_custom_rules_file w = ensure_file (w.files custom_rules_file) w

unfoldable pub add_custom_rule : FirewallRule → M (Unit {0})
unfolding ensure_custom_rules_file
add_custom_rule r w =
    if text_eq (build_iptables_command r) []
    then (w, err invalid_rule)
    else (ensure_custom_rules_file
          >> append_file false custom_rules_file
              (build_iptables_command_with_comment r ++ b'\n' ∷ []))
        w

-- whether the index, a Go `int`, is that of the rule at hand
unfoldable pub is_index : ℤ → ℕ → Bool
is_index (pos i) n = i == n
is_index (negsuc i) n = false

-- the loop of `DeleteCustomRule`: `n` counts the iptables lines before
unfoldable pub drop_rule : ℤ → ℕ → List Text → List Text
unfolding is_index
drop_rule index n [] = []
drop_rule index n (l ∷ ls) =
    let rest = drop_rule index (if is_iptables_line l then n + 1 else n) ls in
    if is_iptables_line l && is_index index n then rest else l ∷ rest

unfoldable pub delete_custom_rule : ℤ → M (Unit {0})
unfolding drop_rule
delete_custom_rule index = do
  f ← open_file custom_rules_file
  s ← opened f
  write_file custom_rules_file (write_lines (drop_rule index 0 (split b'\n' s)))
