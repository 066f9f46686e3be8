-- ===== src/Handlers/FirewallRules/Shown.antt =====
-- What the forms of the firewall page leave on it.
use srouter.Base.{
  ap, ℕ, ◌<◌, ◌^◌, true, not, ◌||◌, List, [], ◌∷◌, ◌++◌, ◌≡◌, ◌∙◌, arith, none, Text, All, Lacks,
  collect,
}
use srouter.Strings.{split, has_rune}
use srouter.Strings.Lines.{unlines}
use srouter.Numbers.{pos, decimal}
use srouter.Numbers.Decimal.{parse_int-decimal}
use srouter.World.Laws.{written}
use srouter.World.{World, ok, Editable}
use srouter.Firewall.{FirewallRule, custom_rules_file}
use srouter.Firewall.Files.{has_rune-Lacks}
use srouter.Firewall.Custom.{get_custom_rules, add_custom_rule, delete_custom_rule, custom_row}
use srouter.Firewall.Custom.Words.{Writable, as_parsed, text_eq-ne-nil}
use srouter.Firewall.Custom.Add.{
  more_lines, get_custom_rules-add_custom_rule, add_custom_rule-Editable,
}
use srouter.Firewall.Custom.Delete.{
  get_custom_rules-Editable, get_custom_rules-delete_custom_rule, EachHasChain, remove_nth,
  delete_custom_rule-Editable,
}
use srouter.Validate.{Net, validate_firewall_rule}
use srouter.Validate.Rules.{Documented, validate_firewall_rule-none, Custom-Writable}
use srouter.Handlers.{http_error, page, Form, items, attempt-ok, failed}
use srouter.Handlers.FirewallRules.{
  show_rules, add_checked, add_rule, add_custom, rule_of_form, delete_at, delete_custom,
}

show_rules-Editable :
    {w : World} {s : Text} (rs : List FirewallRule)
    → Editable w custom_rules_file s
    → (show_rules w).1 ≡ page rs
    → (get_custom_rules w).1 ≡ ok rs
unfolding show_rules items
show_rules-Editable {s = s} rs e h =
    rw (get_custom_rules-Editable e)
      (read (collect custom_row (split b'\n' s)) (rw (get_custom_rules-Editable e) at h))
  where
    read : (xs : List FirewallRule) → page xs ≡ page rs → ok xs ≡ ok rs
    read xs k = cc k

show_rules-ok :
    (w : World) (rs : List FirewallRule)
    → (get_custom_rules w).1 ≡ ok rs
    → (show_rules w).1 ≡ page rs
unfolding show_rules items
show_rules-ok w rs h = rw h

comment-Lacks : (c : Text) → not (has_rune b'\n' c || has_rune b'\r' c) ≡ true → Lacks b'\n' c
comment-Lacks c h = has_rune-Lacks b'\n' c (ground arith)

-- A custom rule that passes the validation is answered with the list of the rules, itself behind
-- those that were there, but for its comment and for the protocol `all`: the lines of the file must
-- be complete, and net.ParseIP and net.ParseCIDR as documented.
pub show_rules-add_custom :
    {w : World} (net : Net) (form : Form) (ls : List Text) (rs : List FirewallRule)
    → Documented net
    → Editable w custom_rules_file (unlines ls)
    → All (Lacks b'\n') ls
    → (show_rules w).1 ≡ page rs
    → validate_firewall_rule net (rule_of_form form) ≡ none
    → (add_custom net form w).1 ≡ page (rs ++ as_parsed (rule_of_form form) ∷ [])
show_rules-add_custom {w = w} net form ls rs doc e lacks before valid =
    let r = rule_of_form form in
    let good = validate_firewall_rule-none net r valid in
    let writable = Custom-Writable net doc r good in
    ap (λ x. x.1) (accepted writable)
    ∙ show_rules-ok _ (rs ++ as_parsed r ∷ []) (
        rw (add_custom_rule-Editable r e writable) at (
          get_custom_rules-add_custom_rule ls r rs e lacks writable
            (comment-Lacks r.comment good.comment) (show_rules-Editable rs e before)))
  where
    accepted :
        Writable (rule_of_form form)
        → add_custom net form w
          ≡ show_rules
              (written w custom_rules_file (unlines ls ++ unlines (more_lines (rule_of_form form))))
    accepted k =
        unfold add_custom add_rule add_checked in
        rw
          (
            text_eq-ne-nil (rule_of_form form).chain k.chain_ne_nil,
            text_eq-ne-nil (rule_of_form form).action k.action_ne_nil,
            valid,
          )
          (attempt-ok (add_custom_rule (rule_of_form form)) _ (λ _. show_rules)
            (add_custom_rule-Editable (rule_of_form form) e k))

-- The button at the index i removes just the rule that the page shows there, and is answered with
-- the others in their order, if each iptables line of the file gives a rule; an index past the end
-- removes none.
pub show_rules-delete_custom :
    {w : World} {s : Text} (i : ℕ) (rs : List FirewallRule)
    → i < 2 ^ 63
    → Editable w custom_rules_file s
    → EachHasChain (split b'\n' s)
    → (show_rules w).1 ≡ page rs
    → (delete_custom (decimal i) w).1 ≡ page (remove_nth i rs)
show_rules-delete_custom {s = s} i rs small e h before =
    unfold delete_custom delete_at in
    rw
      (
        parse_int-decimal i small,
        attempt-ok (delete_custom_rule (pos i)) (http_error 500 failed) (λ _. show_rules)
            (delete_custom_rule-Editable (pos i) e),
      )
      (show_rules-ok _ (remove_nth i rs) (
        rw (delete_custom_rule-Editable (pos i) e) at
          (get_custom_rules-delete_custom_rule i rs e h (show_rules-Editable rs e before))))
