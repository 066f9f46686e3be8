-- ===== src/Encrypted/Strict.antt =====
-- What `setStrictOrder` leaves in dnsmasq.conf.
use srouter.Base.{
  Bool, true, false, not, List, [], ◌∷◌, ◌++◌, ◌≡◌, refl, ap, ◌∙◌, arith, Option, none, some,
  if◌then◌else◌, Text, codes, text_eq, collect, collect-append, collect-keep, collect-keep-none,
  collect-map, collect-one, collect-one_none, text_eq_iff, keep, All, All-keep,
}
use srouter.Strings.{trim_space, join, has_prefix, scan_lines, drop_cr, byte_len}
use srouter.Strings.Trim.{trim_space-drop_cr}
use srouter.Strings.Lines.{IsLine, scan_lines-unlines, scan_lines-IsLine}
use srouter.World.{World, ok, opened, Editable}
use srouter.World.Laws.{open_file-Editable, written, write_file-Editable, written-Editable}
use srouter.Dns.{
  dnsmasq_conf, get_upstream_servers, get_local_entries, upstream_row, local_row, upstream_of_line,
  local_of_line,
}
use srouter.Dns.Upstream.{get_upstream_servers-Editable, get_local_entries-Editable}
use srouter.Dns.Rows.{upstream_row-nil, upstream_row-drop_cr, local_row-drop_cr, local_row-nil}
use srouter.Base.{sym, Bool-cases, inl, inr}
use srouter.Dhcp.{DhcpConfig, is_range_line, read_range, read_ranges, no_config, get_dhcp_config}
use srouter.Dhcp.Range.{read_range_other, read_ranges-drop_cr, get_dhcp_config-Editable}
use srouter.Encrypted.{strict_order, is_strict_order, reordered, set_strict_order}
use srouter.Encrypted.Newline.{
  shown, end_with_newline-closed, closed-join, shown-All, collect-shown,
}

-- the lines that `setStrictOrder` joins
abbrev pub ordered : Bool → List Text → List Text
ordered enable ls =
    (if enable then strict_order ∷ [] else []) ++ keep (λ line. not (is_strict_order line)) ls

ordered-All : (enable : Bool) (ls : List Text) → All IsLine ls → All IsLine (ordered enable ls)
ordered-All true ls h = (
  (omega arith, unfold byte_len in omega arith),
  All-keep IsLine (λ line. not (is_strict_order line)) ls h,
)
ordered-All false ls h = All-keep IsLine (λ line. not (is_strict_order line)) ls h

-- The rows that a reader finds in the file written.
pub collect-reordered {κ} :
    {B : Type κ} (f : Text → Option B) (enable : Bool) (s : Text)
    → f [] ≡ none
    → ((l : Text) → f (drop_cr l) ≡ f l)
    → collect f (scan_lines (reordered enable s)) ≡ collect f (ordered enable (scan_lines s))
unfolding reordered
collect-reordered f enable s empty cr =
    let lines = ordered-All enable (scan_lines s) (scan_lines-IsLine s) in
    rw
      (
        end_with_newline-closed (join (codes "\n") (ordered enable (scan_lines s))),
        closed-join (ordered enable (scan_lines s)) lines,
        scan_lines-unlines (shown (ordered enable (scan_lines s)))
            (shown-All (ordered enable (scan_lines s)) lines),
      )
      (collect-map f drop_cr cr (shown (ordered enable (scan_lines s)))
        ∙ collect-shown f (ordered enable (scan_lines s)) empty)

-- A reader that sees no row in a strict-order line reads what it read before.
pub collect-reordered_same {κ} :
    {B : Type κ} (f : Text → Option B) (enable : Bool) (s : Text)
    → f [] ≡ none
    → ((l : Text) → f (drop_cr l) ≡ f l)
    → ((l : Text) → not (is_strict_order l) ≡ false → f l ≡ none)
    → f strict_order ≡ none
    → collect f (scan_lines (reordered enable s)) ≡ collect f (scan_lines s)
collect-reordered_same f enable s empty cr other strict =
    collect-reordered f enable s empty cr
    ∙ without enable
    ∙ collect-keep f (λ line. not (is_strict_order line)) other (scan_lines s)
  where
    without :
        (enable : Bool)
        → collect f (ordered enable (scan_lines s))
          ≡ collect f (keep (λ line. not (is_strict_order line)) (scan_lines s))
    without true =
        collect-append f (strict_order ∷ [])
          (keep (λ line. not (is_strict_order line)) (scan_lines s))
        ∙ rw (collect-one_none f strict_order strict)
    without false = refl

-- a reader of the directive itself
abbrev pub directive : Text → Option (Unit {0})
directive l = if is_strict_order l then some tt else none

pub set_strict_order-Editable :
    {w : World} {s : Text} (enable : Bool)
    → Editable w dnsmasq_conf s
    → set_strict_order enable w ≡ (written w dnsmasq_conf (reordered enable s), ok tt)
set_strict_order-Editable {s = s} enable e =
    unfold set_strict_order opened in
    rw (open_file-Editable e, write_file-Editable (reordered enable s) e)

pub set_strict_order_after :
    {w : World} {s : Text} (enable : Bool)
    → Editable w dnsmasq_conf s
    → Editable (set_strict_order enable w).0 dnsmasq_conf (reordered enable s)
set_strict_order_after {s = s} enable e =
    rw (set_strict_order-Editable enable e) (written-Editable (reordered enable s) e)

is_strict_order_sound : (l : Text) → is_strict_order l ≡ true → trim_space l ≡ strict_order
unfolding is_strict_order
is_strict_order_sound l h = (text_eq_iff (trim_space l) strict_order).0 h

strict_order-trimmed : trim_space strict_order ≡ strict_order
unfolding trim_space
strict_order-trimmed = refl

strict_no_upstream : (l : Text) → trim_space l ≡ strict_order → upstream_row l ≡ none
unfolding upstream_of_line has_prefix
strict_no_upstream l h = rw h

strict_no_local : (l : Text) → trim_space l ≡ strict_order → local_row l ≡ none
unfolding local_of_line has_prefix
strict_no_local l h = rw h

strict_no_range : (l : Text) → trim_space l ≡ strict_order → is_range_line l ≡ false
unfolding is_range_line has_prefix
strict_no_range l h = rw h

-- The reader of the address range finds the same in lines without strict-order ones.
read_ranges-keep_strict :
    (ls : List Text) (cfg : DhcpConfig)
    → read_ranges (keep (λ line. not (is_strict_order line)) ls) cfg ≡ read_ranges ls cfg
unfolding keep read_ranges
read_ranges-keep_strict [] cfg = refl
read_ranges-keep_strict (l ∷ ls) cfg = elim (Bool-cases (is_strict_order l)) [
  | inl e ↦ rw e (
      read_ranges-keep_strict ls cfg
      ∙ ap (read_ranges ls)
          (sym (read_range_other l cfg (strict_no_range l (is_strict_order_sound l e)))))
  | inr e ↦ rw e (read_ranges-keep_strict ls (read_range l cfg))
]

-- nor does it see an empty line
read_range-nil : (cfg : DhcpConfig) → read_range [] cfg ≡ cfg
read_range-nil cfg = read_range_other [] cfg (unfold is_range_line trim_space has_prefix in refl)

read_ranges-shown :
    (ls : List Text) (cfg : DhcpConfig) → read_ranges (shown ls) cfg ≡ read_ranges ls cfg
unfolding read_ranges shown
read_ranges-shown [] cfg = read_range-nil cfg
read_ranges-shown (l ∷ []) cfg = refl
read_ranges-shown (l ∷ [] ∷ []) cfg = sym (read_range-nil (read_range l cfg))
read_ranges-shown (l ∷ [] ∷ m ∷ ls) cfg = read_ranges-shown ([] ∷ m ∷ ls) (read_range l cfg)
read_ranges-shown (l ∷ (c ∷ k) ∷ ls) cfg = read_ranges-shown ((c ∷ k) ∷ ls) (read_range l cfg)

read_ranges-reordered :
    (enable : Bool) (s : Text)
    → read_ranges (scan_lines (reordered enable s)) no_config ≡ read_ranges (scan_lines s) no_config
unfolding reordered
read_ranges-reordered enable s =
    let lines = ordered-All enable (scan_lines s) (scan_lines-IsLine s) in
    rw
      (
        end_with_newline-closed (join (codes "\n") (ordered enable (scan_lines s))),
        closed-join (ordered enable (scan_lines s)) lines,
        scan_lines-unlines (shown (ordered enable (scan_lines s)))
            (shown-All (ordered enable (scan_lines s)) lines),
      )
      (read_ranges-drop_cr (shown (ordered enable (scan_lines s))) no_config
        ∙ read_ranges-shown (ordered enable (scan_lines s)) no_config
        ∙ without enable)
  where
    without :
        (enable : Bool)
        → read_ranges (ordered enable (scan_lines s)) no_config
          ≡ read_ranges (scan_lines s) no_config
    without true =
        unfold read_ranges in
        ap (read_ranges (keep (λ line. not (is_strict_order line)) (scan_lines s))) (
          read_range_other strict_order no_config
            (strict_no_range strict_order strict_order-trimmed))
        ∙ read_ranges-keep_strict (scan_lines s) no_config
    without false = read_ranges-keep_strict (scan_lines s) no_config

directive-drop_cr : (l : Text) → directive (drop_cr l) ≡ directive l
unfolding is_strict_order
directive-drop_cr l = rw (trim_space-drop_cr l)

directive_other : (l : Text) → not (is_strict_order l) ≡ true → directive l ≡ none
directive_other l h = ground arith

directive-strict_order : directive strict_order ≡ some tt
unfolding is_strict_order trim_space text_eq
directive-strict_order = refl

directive-nil : directive [] ≡ none
unfolding is_strict_order trim_space text_eq
directive-nil = refl

-- Setting the order leaves one strict-order line in dnsmasq.conf if it is switched on, and none if
-- not, whatever was there before; and upstream servers, local records and the address range are
-- read as before. The file must be there, and be readable and writable.
pub set_strict_order_lem :
    {w : World} {s : Text} (enable : Bool)
    → Editable w dnsmasq_conf s
    → (collect directive (scan_lines (reordered enable s)) ≡ (if enable then tt ∷ [] else []))
      × Editable (set_strict_order enable w).0 dnsmasq_conf (reordered enable s)
      × ((get_upstream_servers (set_strict_order enable w).0).1 ≡ (get_upstream_servers w).1)
      × ((get_local_entries (set_strict_order enable w).0).1 ≡ (get_local_entries w).1)
      × ((get_dhcp_config (set_strict_order enable w).0).1 ≡ (get_dhcp_config w).1)
set_strict_order_lem {w} {s} enable e =
    let after = set_strict_order_after enable e in
    (
      collect-reordered directive enable s directive-nil directive-drop_cr ∙ only enable,
      after,
      rw (get_upstream_servers-Editable after, get_upstream_servers-Editable e)
          (ap ok (
            collect-reordered_same upstream_row enable s upstream_row-nil upstream_row-drop_cr
              (λ l h. strict_no_upstream l (is_strict_order_sound l (ground arith)))
              (strict_no_upstream strict_order strict_order-trimmed))),
      rw (get_local_entries-Editable after, get_local_entries-Editable e)
          (ap ok (
            collect-reordered_same local_row enable s local_row-nil local_row-drop_cr
              (λ l h. strict_no_local l (is_strict_order_sound l (ground arith)))
              (strict_no_local strict_order strict_order-trimmed))),
      rw (get_dhcp_config-Editable after, get_dhcp_config-Editable e)
          (ap ok (read_ranges-reordered enable s)),
    )
  where
    none_left :
        (ls : List Text) → collect directive (keep (λ line. not (is_strict_order line)) ls) ≡ []
    none_left ls =
        collect-keep-none directive (λ line. not (is_strict_order line)) directive_other ls

    only :
        (enable : Bool)
        → collect directive (ordered enable (scan_lines s)) ≡ (if enable then tt ∷ [] else [])
    only true =
        collect-append directive (strict_order ∷ [])
          (keep (λ line. not (is_strict_order line)) (scan_lines s))
        ∙ rw (collect-one directive strict_order directive-strict_order, none_left (scan_lines s))
    only false = none_left (scan_lines s)
