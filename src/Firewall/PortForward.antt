-- ===== src/Firewall/PortForward.antt =====
-- internal/system/firewall.go: the port forwards of 50-portforward.sh, each a comment line
-- `# PF: name|proto|extport|intip|intport` with three iptables lines behind it.
pub mod Rows
pub mod Add
pub mod Delete
pub mod Restore
use srouter.Base.{
  ℕ, zero, suc, ◌-◌, Bool, true, false, not, ◌||◌, ◌&&◌, List, [], ◌∷◌, ◌++◌, Option, none, some,
  if◌then◌else◌, Text, codes, text_eq, collect, map, ltb, leb,
}
use srouter.Strings.{has_prefix, trim_prefix, trim_space, split, scan_lines, lower_rune}
use srouter.Strings.Lines.{write_lines, unlines}
use srouter.World.{
  M, pure, fail, open_failed, ◌>>=◌, Reading, absent, denied, content, open_file, opened_or,
  write_file, append_file,
}
use srouter.Firewall.{PortForwardRule, port_forward_file}

abbrev pub pf_key : Text
pf_key = codes "# PF: "

unfoldable pub rule_of_parts : List Text → Option PortForwardRule
rule_of_parts (n ∷ p ∷ e ∷ i ∷ j ∷ _) =
    some (record { name = n; protocol = p; ext_port = e; int_ip = i; int_port = j })
rule_of_parts _ = none

-- what one trimmed line adds to the result of `GetPortForwardRules`
unfoldable pub rule_of_line : Text → Option PortForwardRule
unfolding rule_of_parts
rule_of_line line =
    if has_prefix line pf_key then rule_of_parts (split b'|' (trim_prefix line pf_key)) else none

abbrev pub pf_row : Text → Option PortForwardRule
pf_row raw = rule_of_line (trim_space raw)

unfoldable pub get_port_forward_rules : M (List PortForwardRule)
get_port_forward_rules = do
  f ← open_file port_forward_file
  opened_or [] (λ s. collect pf_row (scan_lines s)) f

unfoldable pub pf_line : PortForwardRule → Text
pf_line r =
    pf_key
    ++ (r.name
        ++ (b'|'
            ∷ (r.protocol ++ (b'|' ∷ (r.ext_port ++ (b'|' ∷ (r.int_ip ++ (b'|' ∷ r.int_port))))))))

-- `strings.ToUpper`; `wide` is the table of `unicode.ToUpper` beyond ASCII.
unfoldable pub to_upper : (ℕ → ℕ) → Text → Text
to_upper wide =
    map (λ c. if ltb c 128 then (if leb b'a' c && leb c b'z' then c - 32 else c) else wide c)

abbrev pub iptables : Text
iptables = codes "iptables"

unfoldable pub dnat_line : PortForwardRule → Text
dnat_line r =
    iptables
    ++ (codes " -t nat -A PREROUTING -i ppp0 -p "
        ++ (r.protocol
            ++ (codes " --dport "
                ++ (r.ext_port
                    ++ (codes " -j DNAT --to-destination "
                        ++ (r.int_ip ++ (codes ":" ++ r.int_port)))))))

unfoldable pub forward_line : PortForwardRule → Text → Text
forward_line r end =
    iptables
    ++ (codes " -A FORWARD -i ppp0 -o lan -p "
        ++ (r.protocol
            ++ (codes " -d "
                ++ (r.int_ip
                    ++ (codes " --dport "
                        ++ (r.int_port ++ (codes " -m state --state NEW -j " ++ end)))))))

unfoldable pub log_line : (ℕ → ℕ) → PortForwardRule → Text
unfolding forward_line to_upper
log_line wide r =
    forward_line r (codes "LOG --log-prefix \"" ++ (to_upper wide r.name ++ codes ": \""))

unfoldable pub accept_line : PortForwardRule → Text
unfolding forward_line
accept_line r = forward_line r (codes "ACCEPT")

-- the four lines that `AddPortForwardRule` writes behind a line end
unfoldable pub block_lines : (ℕ → ℕ) → PortForwardRule → List Text
block_lines wide r = pf_line r ∷ dnat_line r ∷ log_line wide r ∷ accept_line r ∷ []

unfoldable pub add_port_forward_rule : (ℕ → ℕ) → PortForwardRule → M (Unit {0})
add_port_forward_rule wide r =
    append_file true port_forward_file (b'\n' ∷ unlines (block_lines wide r))

-- the two variables of the loop of `DeletePortForwardRule`
pub record Pruning : Type 0 where
  pub lines : List Text
  pub skip_left : ℕ

unfoldable pub is_blank : Text → Bool
is_blank l = text_eq (trim_space l) []

-- without the last line, if it is blank
unfoldable pub drop_blank_last : List Text → List Text
unfolding is_blank
drop_blank_last [] = []
drop_blank_last (l ∷ []) = if is_blank l then [] else l ∷ []
drop_blank_last (l ∷ m ∷ ls) = l ∷ drop_blank_last (m ∷ ls)

unfoldable pub marker : Text → Text
marker name = pf_key ++ (name ++ b'|' ∷ [])

unfoldable pub is_marked : Text → Text → Bool
unfolding marker
is_marked name l = has_prefix (trim_space l) (marker name)

unfoldable pub is_iptables : Text → Bool
is_iptables l = has_prefix (trim_space l) iptables

-- one round of the loop
unfoldable pub prune : Text → Pruning → Text → Pruning
unfolding drop_blank_last
prune name p l =
    if is_marked name l
    then record { lines = drop_blank_last p.lines; skip_left = 3 }
    else if ltb 0 p.skip_left && is_iptables l
    then record p { skip_left = p.skip_left - 1 }
    else record p { lines = p.lines ++ l ∷ [] }

unfoldable pub prune_all : Text → Pruning → List Text → Pruning
prune_all name p [] = p
prune_all name p (l ∷ ls) = prune_all name (prune name p l) ls

-- the lines that are left without the block of the name
unfoldable pub pruned : Text → List Text → List Text
unfolding prune_all prune
pruned name ls = (prune_all name (record { lines = []; skip_left = 0 }) ls).lines

unfoldable pub without_rule : Text → Reading → M (Unit {0})
without_rule name absent = pure tt
without_rule name denied = fail open_failed
without_rule name (content s) =
    write_file port_forward_file (write_lines (pruned name (scan_lines s)))

unfoldable pub delete_port_forward_rule : Text → M (Unit {0})
unfolding without_rule
delete_port_forward_rule name = do f ← open_file port_forward_file; without_rule name f
