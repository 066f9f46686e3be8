-- ===== src/Firewall/Custom/Add.antt =====
-- What `AddCustomRule` leaves for `GetCustomRules`.
use srouter.Base.{
  ap, sym, ◌∙◌, false, List, [], ◌∷◌, ◌++◌, ◌≡◌, refl, arith, some, Text, codes, All, All-append,
  Lacks, text_eq, collect, collect-append, collect-one, collect-one_none, append_assoc,
  if◌then◌else◌, not,
}
use srouter.Strings.Lines.{unlines, unlines-append}
use srouter.Strings.Behind.{collect-split-unlines}
use srouter.World.{World, ok, Editable}
use srouter.World.Laws.{written, written-Editable, append_file-Editable}
use srouter.Firewall.{FirewallRule, custom_rules_file}
use srouter.Firewall.Custom.{
  custom_row, get_custom_rules, build_iptables_command, build_iptables_command_with_comment,
  ensure_custom_rules_file, add_custom_rule,
}
use srouter.Firewall.Custom.Words.{Writable, as_parsed}
use srouter.Firewall.Custom.Delete.{get_custom_rules-Editable, custom_row-nil}
use srouter.Firewall.Custom.Command.{
  custom_row-build, custom_row-comment, build-Lacks, build-ne-nil,
}

-- the lines that `AddCustomRule` writes
pub comment_lines : Text → Text → List Text
comment_lines [] command = command ∷ []
comment_lines (c ∷ comment) command = (codes "# " ++ (c ∷ comment)) ∷ command ∷ []

with_comment-unlines :
    (r : FirewallRule)
    → Writable r
    → build_iptables_command_with_comment r ++ b'\n' ∷ []
      ≡ unlines (comment_lines r.comment (build_iptables_command r))
with_comment-unlines r h =
    unfold build_iptables_command_with_comment in
    rw (build-ne-nil r h) (two_lines r.comment (build_iptables_command r))
  where
    two_lines :
        (c command : Text)
        → (if not (text_eq c []) then codes "# " ++ (c ++ b'\n' ∷ command) else command)
            ++ b'\n' ∷ []
          ≡ unlines (comment_lines c command)
    two_lines [] command = unfold text_eq comment_lines unlines in refl
    two_lines (d ∷ c) command =
        unfold text_eq comment_lines unlines in
        ap (λ t. codes "# " ++ t) (append_assoc (d ∷ c) (b'\n' ∷ command) (b'\n' ∷ []))

comment_lines-Lacks :
    (c command : Text)
    → Lacks b'\n' c
    → Lacks b'\n' command
    → All (Lacks b'\n') (comment_lines c command)
unfolding comment_lines
comment_lines-Lacks [] command h k = (k, tt)
comment_lines-Lacks (d ∷ c) command h k = ((omega arith, (omega arith, h)), (k, tt))

collect-comment_lines :
    (c command : Text) (q : FirewallRule)
    → custom_row command ≡ some q
    → collect custom_row (comment_lines c command) ≡ q ∷ []
unfolding comment_lines
collect-comment_lines [] command q h = collect-one custom_row command h
collect-comment_lines (d ∷ c) command q h =
    collect-append custom_row ((codes "# " ++ (d ∷ c)) ∷ []) (command ∷ [])
    ∙ rw (
      collect-one_none custom_row (codes "# " ++ (d ∷ c)) (custom_row-comment (d ∷ c)),
      collect-one custom_row command h,
    )

abbrev pub more_lines : FirewallRule → List Text
more_lines r = comment_lines r.comment (build_iptables_command r)

pub add_custom_rule-Editable :
    {w : World} {s : Text} (r : FirewallRule)
    → Editable w custom_rules_file s
    → Writable r
    → add_custom_rule r w ≡ (written w custom_rules_file (s ++ unlines (more_lines r)), ok tt)
add_custom_rule-Editable r e h =
    unfold add_custom_rule ensure_custom_rules_file in
    rw (build-ne-nil r h, e.present, with_comment-unlines r h)
      (append_file-Editable false (unlines (more_lines r)) e)

-- A custom rule that is added is listed behind those that were there, but for its comment and for
-- the protocol `all`, which the command leaves out: the lines of the file must be complete, the
-- comment hold no line end, and the rule have a chain, an action and values without white space
-- that are no flags of the parser.
pub get_custom_rules-add_custom_rule :
    {w : World} (ls : List Text) (r : FirewallRule) (rs : List FirewallRule)
    → Editable w custom_rules_file (unlines ls)
    → All (Lacks b'\n') ls
    → Writable r
    → Lacks b'\n' r.comment
    → (get_custom_rules w).1 ≡ ok rs
    → (get_custom_rules (add_custom_rule r w).0).1 ≡ ok (rs ++ as_parsed r ∷ [])
get_custom_rules-add_custom_rule {w = w} ls r rs e lacks h k before =
    rw
      (
        add_custom_rule-Editable r e h,
        sym (unlines-append ls (more_lines r)),
        get_custom_rules-Editable (written-Editable (unlines (ls ++ more_lines r)) e),
        collect-split-unlines custom_row (ls ++ more_lines r) custom_row-nil (
            All-append (Lacks b'\n') ls (more_lines r) lacks
              (comment_lines-Lacks r.comment _ k (build-Lacks r h))),
        collect-append custom_row ls (more_lines r),
        collect-comment_lines r.comment (build_iptables_command r) (as_parsed r)
            (custom_row-build r h),
      )
      (grown (collect custom_row ls) (
        rw (get_custom_rules-Editable e, collect-split-unlines custom_row ls custom_row-nil lacks)
          at before))
  where
    grown :
        (xs : List FirewallRule)
        → ok xs ≡ ok rs
        → ok (xs ++ as_parsed r ∷ []) ≡ ok (rs ++ as_parsed r ∷ [])
    grown xs h = cc h
