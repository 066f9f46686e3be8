-- ===== src/Firewall/PortForward/Add.antt =====
-- What `AddPortForwardRule` leaves for `GetPortForwardRules`.
use srouter.Base.{ℕ, true, List, [], ◌∷◌, ◌++◌, ◌≡◌, Text, All, collect}
use srouter.Strings.{scan_lines, raw_lines}
use srouter.Strings.Lines.{IsLine, unlines}
use srouter.Strings.Behind.{collect_behind}
use srouter.World.{World, ok, opened_or, Editable}
use srouter.World.Laws.{open_file-Editable, written, written-Editable, append_file-Editable}
use srouter.Firewall.{PortForwardRule, port_forward_file}
use srouter.Firewall.PortForward.{
  pf_row, block_lines, dnat_line, log_line, accept_line, get_port_forward_rules,
  add_port_forward_rule,
}
use srouter.Firewall.PortForward.Rows.{
  read_back, Barless, pf_row-pf_line, pf_row-iptables, pf_row-nil, pf_row-drop_cr,
}

pub get_port_forward_rules-Editable :
    {w : World} {s : Text}
    → Editable w port_forward_file s
    → get_port_forward_rules w ≡ (w, ok (collect pf_row (scan_lines s)))
get_port_forward_rules-Editable e =
    unfold get_port_forward_rules opened_or in rw (open_file-Editable e)

pub add_port_forward_rule-Editable :
    {w : World} {s : Text} (wide : ℕ → ℕ) (r : PortForwardRule)
    → Editable w port_forward_file s
    → add_port_forward_rule wide r w
      ≡ (written w port_forward_file (s ++ (b'\n' ∷ unlines (block_lines wide r))), ok tt)
add_port_forward_rule-Editable wide r e =
    unfold add_port_forward_rule in
    append_file-Editable true (b'\n' ∷ unlines (block_lines wide r)) e

collect-block_lines :
    (wide : ℕ → ℕ) (r : PortForwardRule)
    → Barless r
    → collect pf_row (block_lines wide r) ≡ read_back r ∷ []
unfolding collect block_lines dnat_line log_line accept_line
collect-block_lines wide r b = rw (
  pf_row-pf_line r b,
  collect,
  pf_row-iptables,
  collect,
  pf_row-iptables,
  collect,
  pf_row-iptables,
)

-- An added port forward is read behind those that were there, whether or not the last line of the
-- file was complete, with the internal port trimmed at its right end; no field may hold a bar, and
-- the four lines written no line end.
pub get_port_forward_rules-add_port_forward_rule :
    {w : World} {s : Text} (wide : ℕ → ℕ) (r : PortForwardRule) (rs : List PortForwardRule)
    → Editable w port_forward_file s
    → All IsLine (raw_lines s)
    → All IsLine (block_lines wide r)
    → Barless r
    → (get_port_forward_rules w).1 ≡ ok rs
    → (get_port_forward_rules (add_port_forward_rule wide r w).0).1 ≡ ok (rs ++ read_back r ∷ [])
get_port_forward_rules-add_port_forward_rule {s = s} wide r rs e h short b before =
    rw
      (
        add_port_forward_rule-Editable wide r e,
        get_port_forward_rules-Editable
            (written-Editable (s ++ (b'\n' ∷ unlines (block_lines wide r))) e),
        collect_behind pf_row s (block_lines wide r) pf_row-nil pf_row-drop_cr h short,
        collect-block_lines wide r b,
      )
      (grown s (rw (get_port_forward_rules-Editable e) at before))
  where
    grown :
        (s : Text)
        → ok (collect pf_row (scan_lines s)) ≡ ok rs
        → ok (collect pf_row (scan_lines s) ++ read_back r ∷ []) ≡ ok (rs ++ read_back r ∷ [])
    grown s h = cc h
