-- ===== src/Firewall/PortForward/Restore.antt =====
-- `DeletePortForwardRule` behind `AddPortForwardRule`: the file is what it was.
use srouter.Base.{
  ℕ, true, false, List, [], ◌∷◌, ◌++◌, ◌≡◌, refl, ap, sym, ◌∙◌, arith, some, Text, All, All-append,
  text_eq, text_eq_refl, append_assoc, append-nil, map,
}
use srouter.Strings.{scan_lines, drop_cr, has_prefix, trim_space, byte_len}
use srouter.Strings.Lines.{IsLine, unlines, write_lines-unlines, scan_lines-unlines, unlines-append}
use srouter.Strings.Prefix.{has_prefix-append}
use srouter.World.{World, Editable}
use srouter.World.Laws.{written-Editable}
use srouter.Firewall.{PortForwardRule, port_forward_file}
use srouter.Firewall.PortForward.{
  pf_line, block_lines, dnat_line, log_line, accept_line, iptables, add_port_forward_rule, is_blank,
  drop_blank_last, is_marked, marker, prune, prune_all, pruned, delete_port_forward_rule,
}
use srouter.Firewall.PortForward.Rows.{
  read_back, trim_space-pf_line, is_iptables-iptables, is_marked-iptables,
}
use srouter.Firewall.PortForward.Add.{add_port_forward_rule-Editable}
use srouter.Firewall.PortForward.Delete.{delete-Editable}

-- A line that the scanner hands out as it stands.
abbrev pub IsPlain : Text → Type 0
IsPlain l = IsLine l × (drop_cr l ≡ l)

pub All-IsLine : (ls : List Text) → All IsPlain ls → All IsLine ls
All-IsLine [] _ = tt
All-IsLine (l ∷ ls) (h, hs) = (h.0, All-IsLine ls hs)

map-drop_cr : (ls : List Text) → All IsPlain ls → map drop_cr ls ≡ ls
map-drop_cr [] _ = refl
map-drop_cr (l ∷ ls) (h, hs) = cc (h.1, map-drop_cr ls hs)

scan_plain : (ls : List Text) → All IsPlain ls → scan_lines (unlines ls) ≡ ls
scan_plain ls h = scan_lines-unlines ls (All-IsLine ls h) ∙ map-drop_cr ls h

module _ (name : Text) where
  -- No line is marked by the name.
  abbrev pub Unmarked : List Text → Type 0
  Unmarked = All (λ l. is_marked name l ≡ false)

  prune_unmarked :
      (before : List Text) (l : Text)
      → is_marked name l ≡ false
      → prune name (record { lines = before; skip_left = 0 }) l
        ≡ record { lines = before ++ l ∷ []; skip_left = 0 }
  unfolding prune
  prune_unmarked before l h = rw h

  prune_all-Unmarked :
      (before ls more : List Text)
      → Unmarked ls
      → prune_all name (record { lines = before; skip_left = 0 }) (ls ++ more)
        ≡ prune_all name (record { lines = before ++ ls; skip_left = 0 }) more
  unfolding prune_all
  prune_all-Unmarked before [] more _ = rw append-nil
  prune_all-Unmarked before (l ∷ ls) more (h, hs) =
      ap (λ p. prune_all name p (ls ++ more)) (prune_unmarked before l h)
      ∙ prune_all-Unmarked (before ++ l ∷ []) ls more hs
      ∙ rw append_assoc

  drop_blank_last_blank :
      (ls : List Text) (b : Text) → is_blank b ≡ true → drop_blank_last (ls ++ b ∷ []) ≡ ls
  unfolding drop_blank_last
  drop_blank_last_blank [] b h = rw h
  drop_blank_last_blank (l ∷ []) b h = rw h
  drop_blank_last_blank (l ∷ m ∷ ls) b h = ap (λ t. l ∷ t) (drop_blank_last_blank (m ∷ ls) b h)

  -- Behind the marked line of a block, its three iptables lines are skipped.
  prune_block :
      (before : List Text) (p a b c : Text)
      → is_marked name p ≡ true
      → prune_all name
          (record { lines = before ++ [] ∷ []; skip_left = 0 })
          (p ∷ (iptables ++ a) ∷ (iptables ++ b) ∷ (iptables ++ c) ∷ [])
        ≡ record { lines = before; skip_left = 0 }
  unfolding prune_all prune
  prune_block before p a b c h = rw (
    h,
    drop_blank_last_blank before [] (unfold is_blank trim_space text_eq in refl),
    is_marked-iptables name a,
    is_iptables-iptables a,
    is_marked-iptables name b,
    is_iptables-iptables b,
    is_marked-iptables name c,
    is_iptables-iptables c,
  )

is_marked-pf_line : (r : PortForwardRule) → is_marked r.name (pf_line r) ≡ true
is_marked-pf_line r =
    unfold is_marked in
    rw (trim_space-pf_line r, pf_line_marker r) (has_prefix-append (marker r.name) _)
  where
    pf_line_marker :
        (r : PortForwardRule)
        → pf_line (read_back r)
          ≡ marker r.name
            ++ (r.protocol
                ++ (b'|' ∷ (r.ext_port ++ (b'|' ∷ (r.int_ip ++ (b'|' ∷ (read_back r).int_port))))))
    pf_line_marker r = unfold pf_line marker in rw (append_assoc, append_assoc)

blank_unmarked : (name : Text) → is_marked name [] ≡ false
unfolding is_marked trim_space has_prefix
blank_unmarked name = refl

pruned_block :
    (wide : ℕ → ℕ) (r : PortForwardRule) (ls : List Text)
    → Unmarked r.name ls
    → pruned r.name (ls ++ ([] ∷ block_lines wide r)) ≡ ls
unfolding pruned block_lines dnat_line log_line accept_line
pruned_block wide r ls h =
    ap (λ p. p.lines)
      (prune_all-Unmarked r.name [] ls ([] ∷ block_lines wide r) h
        ∙ prune_all-Unmarked r.name ls ([] ∷ []) (block_lines wide r) (blank_unmarked r.name, tt)
        ∙ prune_block r.name ls (pf_line r) _ _ _ (is_marked-pf_line r))

appended :
    (wide : ℕ → ℕ) (r : PortForwardRule) (ls : List Text)
    → unlines ls ++ (b'\n' ∷ unlines (block_lines wide r))
      ≡ unlines (ls ++ ([] ∷ block_lines wide r))
appended wide r ls = sym (unlines-append ls ([] ∷ block_lines wide r) ∙ (unfold unlines in refl))

-- Deleting the name of a port forward that was just added restores the file to the byte, if its
-- lines were complete, at least one, none of them marked by that name, and none of the lines too
-- long or with a carriage return at its end.
pub delete-add_port_forward_rule :
    {w : World} (wide : ℕ → ℕ) (r : PortForwardRule) (l : Text) (ls : List Text)
    → Editable w port_forward_file (unlines (l ∷ ls))
    → All IsPlain (l ∷ ls)
    → All IsPlain (block_lines wide r)
    → Unmarked r.name (l ∷ ls)
    → (delete_port_forward_rule r.name (add_port_forward_rule wide r w).0).0.files port_forward_file
      ≡ some (unlines (l ∷ ls))
delete-add_port_forward_rule wide r l ls e h k unmarked = rw (
  add_port_forward_rule-Editable wide r e,
  appended wide r (l ∷ ls),
  delete-Editable r.name (written-Editable (unlines ((l ∷ ls) ++ ([] ∷ block_lines wide r))) e),
  scan_plain ((l ∷ ls) ++ ([] ∷ block_lines wide r))
      (All-append IsPlain (l ∷ ls) ([] ∷ block_lines wide r) h (nil_IsPlain, k)),
  pruned_block wide r (l ∷ ls) unmarked,
  write_lines-unlines l ls,
  text_eq_refl port_forward_file,
)
  where
    nil_IsPlain : IsPlain []
    nil_IsPlain = ((tt, unfold byte_len in omega arith), unfold drop_cr in refl)
