-- ===== src/Firewall/Custom/Delete.antt =====
-- Which rule `DeleteCustomRule` removes, by the index that `GetCustomRules` shows.
use srouter.Base.{
  ℕ, zero, suc, ◌+◌, ◌<◌, true, false, List, [], ◌∷◌, ◌++◌, ◌≡◌, refl, arith, none, some, Text, All,
  Lacks, if◌then◌else◌, Bool-cases, inl, inr, collect,
}
use srouter.Numbers.{ℤ, pos, negsuc}
use srouter.Strings.{split, has_prefix, trim_space}
use srouter.Strings.Split.{split-Lacks}
use srouter.Strings.Lines.{write_lines}
use srouter.Strings.Behind.{collect-split-write_lines}
use srouter.World.{World, ok, opened, opened_or, Editable}
use srouter.World.Laws.{open_file-Editable, written, written-Editable, write_file-Editable}
use srouter.Firewall.{FirewallRule, custom_rules_file}
use srouter.Firewall.Custom.{
  is_iptables_line, custom_row, get_custom_rules, drop_rule, delete_custom_rule,
}

-- the list without its item at an index
abbrev pub remove_nth {ℓ} : {A : Type ℓ} → ℕ → List A → List A
remove_nth i [] = []
remove_nth zero (x ∷ xs) = xs
remove_nth (suc i) (x ∷ xs) = x ∷ remove_nth i xs

custom_row_other : (l : Text) → is_iptables_line l ≡ false → custom_row l ≡ none
custom_row_other l h = unfold custom_row in rw h

pub custom_row-nil : custom_row [] ≡ none
unfolding custom_row trim_space has_prefix
custom_row-nil = refl

pub get_custom_rules-Editable :
    {w : World} {s : Text}
    → Editable w custom_rules_file s
    → get_custom_rules w ≡ (w, ok (collect custom_row (split b'\n' s)))
get_custom_rules-Editable e = unfold get_custom_rules opened_or in rw (open_file-Editable e)

drop_rule-Lacks :
    (index : ℤ) (n : ℕ) (ls : List Text)
    → All (Lacks b'\n') ls
    → All (Lacks b'\n') (drop_rule index n ls)
unfolding drop_rule
drop_rule-Lacks index n [] _ = tt
drop_rule-Lacks index n (l ∷ ls) (h, hs) =
    ground (arith, drop_rule-Lacks index (if is_iptables_line l then n + 1 else n) ls hs)

pub delete_custom_rule-Editable :
    {w : World} {s : Text} (index : ℤ)
    → Editable w custom_rules_file s
    → delete_custom_rule index w
      ≡ (written w custom_rules_file (write_lines (drop_rule index 0 (split b'\n' s))), ok tt)
delete_custom_rule-Editable {s = s} index e =
    unfold delete_custom_rule opened in
    rw (
      open_file-Editable e,
      write_file-Editable (write_lines (drop_rule index 0 (split b'\n' s))) e,
    )

-- What is read behind a deletion: the rules in the lines that it leaves.
get_custom_rules-delete :
    {w : World} {s : Text} (index : ℤ)
    → Editable w custom_rules_file s
    → (get_custom_rules (delete_custom_rule index w).0).1
      ≡ ok (collect custom_row (drop_rule index 0 (split b'\n' s)))
get_custom_rules-delete {s = s} index e = rw (
  delete_custom_rule-Editable index e,
  get_custom_rules-Editable (written-Editable (write_lines (drop_rule index 0 (split b'\n' s))) e),
  collect-split-write_lines custom_row (drop_rule index 0 (split b'\n' s)) custom_row-nil
      (drop_rule-Lacks index 0 (split b'\n' s) (split-Lacks b'\n' s)),
)

drop_rule_past : (i n : ℕ) (ls : List Text) → i < n → drop_rule (pos i) n ls ≡ ls
unfolding drop_rule
drop_rule_past i n [] h = refl
drop_rule_past i n (l ∷ ls) h =
    ground (arith, drop_rule_past i (if is_iptables_line l then n + 1 else n) ls)

-- Every line that counts as a rule when one is deleted is a rule of the list.
abbrev pub EachHasChain : List Text → Type 0
EachHasChain = All (λ l. is_iptables_line l ≡ true → (r : FirewallRule) × (custom_row l ≡ some r))

drop_rule_nth :
    (k n i : ℕ) (ls : List Text)
    → i ≡ n + k
    → EachHasChain ls
    → collect custom_row (drop_rule (pos i) n ls) ≡ remove_nth k (collect custom_row ls)
unfolding drop_rule collect
drop_rule_nth k n i [] eq _ = refl
drop_rule_nth zero n i (l ∷ ls) eq (h, hs) = elim (Bool-cases (is_iptables_line l)) [
  | inr e ↦ ground (arith, e, custom_row_other l e, drop_rule_nth zero n i ls eq hs)
  | inl e ↦ let (r, row) = h e in ground (arith, e, row, eq, drop_rule_past i (n + 1) ls)
]
drop_rule_nth (suc k) n i (l ∷ ls) eq (h, hs) = elim (Bool-cases (is_iptables_line l)) [
  | inr e ↦ ground (arith, e, custom_row_other l e, drop_rule_nth (suc k) n i ls eq hs)
  | inl e ↦
      let (r, row) = h e in
      ground (arith, e, row, eq, drop_rule_nth k (n + 1) i ls (omega (arith, eq)) hs)
]

drop_rule_negative : (i n : ℕ) (ls : List Text) → drop_rule (negsuc i) n ls ≡ ls
unfolding drop_rule
drop_rule_negative i n [] = refl
drop_rule_negative i n (l ∷ ls) =
    ground (arith, drop_rule_negative i (if is_iptables_line l then n + 1 else n) ls)

-- If each iptables line of the file gives a rule, deleting an index removes just the rule that the
-- list shows there: the rules before and behind it are read as they were, and an index past the end
-- removes nothing.
pub get_custom_rules-delete_custom_rule :
    {w : World} {s : Text} (i : ℕ) (rs : List FirewallRule)
    → Editable w custom_rules_file s
    → EachHasChain (split b'\n' s)
    → (get_custom_rules w).1 ≡ ok rs
    → (get_custom_rules (delete_custom_rule (pos i) w).0).1 ≡ ok (remove_nth i rs)
get_custom_rules-delete_custom_rule {s = s} i rs e h before =
    rw (get_custom_rules-delete (pos i) e, drop_rule_nth i 0 i (split b'\n' s) (omega arith) h)
      (removed s (rw (get_custom_rules-Editable e) at before))
  where
    removed :
        (s : Text)
        → ok (collect custom_row (split b'\n' s)) ≡ ok rs
        → ok (remove_nth i (collect custom_row (split b'\n' s))) ≡ ok (remove_nth i rs)
    removed s h = cc h

drop_rule_first :
    (before : List Text) (l : Text) (behind : List Text)
    → All (λ m. is_iptables_line m ≡ false) before
    → is_iptables_line l ≡ true
    → custom_row l ≡ none
    → collect custom_row (drop_rule (pos 0) 0 (before ++ (l ∷ behind)))
      ≡ collect custom_row (before ++ (l ∷ behind))
unfolding drop_rule collect
drop_rule_first [] l behind _ e none_row = ground (arith, e, none_row, drop_rule_past 0 1 behind)
drop_rule_first (m ∷ before) l behind (h, hs) e none_row =
    ground (arith, h, custom_row_other m h, drop_rule_first before l behind hs e none_row)

-- Where the first iptables line of the file gives no rule, as `iptables -t nat -F` gives none,
-- deleting index 0 removes no rule of the list: what the list shows at 0 is still there.
pub delete_custom_rule_misses :
    {w : World} {s : Text} (before : List Text) (l : Text) (behind : List Text)
    → Editable w custom_rules_file s
    → split b'\n' s ≡ before ++ (l ∷ behind)
    → All (λ m. is_iptables_line m ≡ false) before
    → is_iptables_line l ≡ true
    → custom_row l ≡ none
    → (get_custom_rules (delete_custom_rule (pos 0) w).0).1 ≡ (get_custom_rules w).1
delete_custom_rule_misses before l behind e cut h line none_row = rw (
  get_custom_rules-delete (pos 0) e,
  get_custom_rules-Editable e,
  cut,
  drop_rule_first before l behind h line none_row,
)
