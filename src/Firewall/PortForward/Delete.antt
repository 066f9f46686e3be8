-- ===== src/Firewall/PortForward/Delete.antt =====
-- What `DeletePortForwardRule` takes away, and what it leaves.
use srouter.Base.{
  Bool, true, not, List, [], ◌∷◌, ◌++◌, ◌≡◌, refl, ap, sym, ◌∙◌, arith, none, Text, All, All-append,
  keep, keep-append, collect, collect-append, Lacks, text_eq, Bool-cases, inl, inr, append_assoc,
  append-nil, Option-cases,
}
use srouter.Strings.{scan_lines, has_prefix, trim_space}
use srouter.Strings.Lines.{IsLine, write_lines, scan_lines-IsLine, collect-write_lines}
use srouter.World.{World, ok, Editable}
use srouter.World.Laws.{open_file-Editable, written, written-Editable, write_file-Editable}
use srouter.Firewall.{PortForwardRule, port_forward_file}
use srouter.Firewall.PortForward.{
  pf_row, rule_of_line, iptables, get_port_forward_rules, Pruning, is_blank, drop_blank_last,
  is_iptables, prune, prune_all, pruned, delete_port_forward_rule,
}
use srouter.Firewall.PortForward.Rows.{pf_row_blank, pf_row-nil, pf_row-drop_cr, is_marked-pf_row}
use srouter.Firewall.PortForward.Add.{get_port_forward_rules-Editable}

collect-drop_blank_last : (ls : List Text) → collect pf_row (drop_blank_last ls) ≡ collect pf_row ls
unfolding collect drop_blank_last
collect-drop_blank_last [] = refl
collect-drop_blank_last (l ∷ []) = ground (arith, pf_row_blank l)
collect-drop_blank_last (l ∷ m ∷ ls) = ground (arith, collect-drop_blank_last (m ∷ ls))

drop_blank_last-IsLine : (ls : List Text) → All IsLine ls → All IsLine (drop_blank_last ls)
unfolding drop_blank_last
drop_blank_last-IsLine [] _ = tt
drop_blank_last-IsLine (l ∷ []) h = elim (Bool-cases (is_blank l)) [
  | inl e ↦ rw e tt
  | inr e ↦ rw e h
]
drop_blank_last-IsLine (l ∷ m ∷ ls) (h, hs) = (h, drop_blank_last-IsLine (m ∷ ls) hs)

iptables_no_row : (l : Text) → is_iptables l ≡ true → pf_row l ≡ none
unfolding is_iptables
iptables_no_row l h = first_letter (trim_space l) h
  where
    first_letter : (t : Text) → has_prefix t iptables ≡ true → rule_of_line t ≡ none
    first_letter [] h = unfold has_prefix in cc
    first_letter (c ∷ t) h = unfold rule_of_line has_prefix in ground arith

module _ (name : Text) where
  abbrev pub other : PortForwardRule → Bool
  other r = not (text_eq r.name name)

  -- One round keeps what the reader sees of a line, if it is a rule of another name.
  prune-rows :
      (p : Pruning) (l : Text)
      → Lacks b'|' name
      → collect pf_row (prune name p l).lines
        ≡ collect pf_row p.lines ++ keep other (collect pf_row (l ∷ []))
  unfolding prune keep collect
  prune-rows p l free = elim (Option-cases (pf_row l)) [
    | inl e ↦ ground (
      arith,
      e,
      append-nil (collect pf_row p.lines),
      collect-drop_blank_last p.lines,
      collect-append pf_row p.lines (l ∷ []),
    )
    | inr (r, e) ↦ ground (
      arith,
      e,
      is_marked-pf_row name free l r e,
      iptables_no_row l,
      append-nil (collect pf_row p.lines),
      collect-drop_blank_last p.lines,
      collect-append pf_row p.lines (l ∷ []),
    )
  ]

  prune-IsLine :
      (p : Pruning) (l : Text) → All IsLine p.lines → IsLine l → All IsLine (prune name p l).lines
  unfolding prune
  prune-IsLine p l h hl =
      ground
        (arith, drop_blank_last-IsLine p.lines h, All-append IsLine p.lines (l ∷ []) h (hl, tt))

  prune_all-IsLine :
      (p : Pruning) (ls : List Text)
      → All IsLine p.lines
      → All IsLine ls
      → All IsLine (prune_all name p ls).lines
  unfolding prune_all
  prune_all-IsLine p [] h _ = h
  prune_all-IsLine p (l ∷ ls) h (hl, hls) =
      prune_all-IsLine (prune name p l) ls (prune-IsLine p l h hl) hls

  prune_all-rows :
      (p : Pruning) (ls : List Text)
      → Lacks b'|' name
      → collect pf_row (prune_all name p ls).lines
        ≡ collect pf_row p.lines ++ keep other (collect pf_row ls)
  unfolding prune_all
  prune_all-rows p [] free =
      sym (ap (λ xs. collect pf_row p.lines ++ xs) (nothing_kept) ∙ append-nil _)
    where
      nothing_kept : keep other (collect pf_row []) ≡ []
      nothing_kept = unfold collect keep in refl
  prune_all-rows p (l ∷ ls) free =
      prune_all-rows (prune name p l) ls free
      ∙ rw (prune-rows p l free, append_assoc)
          (ap (λ xs. collect pf_row p.lines ++ xs)
            (sym (keep-append other (collect pf_row (l ∷ [])) (collect pf_row ls))
              ∙ ap (keep other) (sym (collect-append pf_row (l ∷ []) ls))))

  pub delete-Editable :
      {w : World} {s : Text}
      → Editable w port_forward_file s
      → delete_port_forward_rule name w
        ≡ (written w port_forward_file (write_lines (pruned name (scan_lines s))), ok tt)
  delete-Editable {s = s} e =
      unfold delete_port_forward_rule in
      rw (open_file-Editable e, write_file-Editable (write_lines (pruned name (scan_lines s))) e)

  pruned-rows :
      (ls : List Text)
      → Lacks b'|' name
      → collect pf_row (pruned name ls) ≡ keep other (collect pf_row ls)
  pruned-rows ls free = unfold pruned collect in prune_all-rows _ ls free

  -- Deleting a name that holds no bar removes every port forward of that name, and leaves the
  -- others as they are read, in their order.
  pub get_port_forward_rules-delete_port_forward_rule :
      {w : World} {s : Text} (rs : List PortForwardRule)
      → Editable w port_forward_file s
      → Lacks b'|' name
      → (get_port_forward_rules w).1 ≡ ok rs
      → (get_port_forward_rules (delete_port_forward_rule name w).0).1
        ≡ ok (keep (λ r. not (text_eq r.name name)) rs)
  get_port_forward_rules-delete_port_forward_rule {s = s} rs e free before =
      rw
        (
          delete-Editable e,
          get_port_forward_rules-Editable
              (written-Editable (write_lines (pruned name (scan_lines s))) e),
          collect-write_lines pf_row pf_row-nil pf_row-drop_cr (pruned name (scan_lines s))
              (unfold pruned in prune_all-IsLine _ (scan_lines s) tt (scan_lines-IsLine s)),
        )
        (left s (rw (get_port_forward_rules-Editable e) at before))
    where
      left :
          (s : Text)
          → ok (collect pf_row (scan_lines s)) ≡ ok rs
          → ok (collect pf_row (pruned name (scan_lines s))) ≡ ok (keep other rs)
      left s h = cc (h, pruned-rows (scan_lines s) free)
