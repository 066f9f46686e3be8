-- ===== src/Dhcp/Range.antt =====
-- What `SaveDHCPConfig` leaves for the readers of dnsmasq.conf.
use srouter.Base.{
  Bool, true, false, not, List, [], ◌∷◌, ◌++◌, ◌≡◌, refl, ap, ◌∙◌, arith, Option, none, Text, All,
  keep, collect, collect-keep, collect-one_none, map, append-nil, Lacks,
}
use srouter.Strings.{scan_lines, trim_right, trim_space, has_prefix, split, drop_cr, is_space}
use srouter.Strings.Prefix.{has_prefix-append, trim_prefix-append}
use srouter.Strings.Trim.{
  trim_space-append, trim_right-Solid, trim_space-drop_cr, is_solid, is_solid_sound, Solid,
}
use srouter.Strings.Split.{split_at_sep, split_whole}
use srouter.Strings.Lines.{IsLine, edit, collect-edit, scan_lines-edit}
use srouter.World.{World, ok, opened, Editable}
use srouter.World.Laws.{open_file-Editable, written, write_file-Editable, written-Editable}
use srouter.Dns.{
  dnsmasq_conf, upstream_row, upstream_of_line, local_row, local_of_line, get_upstream_servers,
  get_local_entries,
}
use srouter.Dns.Rows.{upstream_row-nil, upstream_row-drop_cr, local_row-drop_cr, local_row-nil}
use srouter.Dns.Upstream.{get_upstream_servers-Editable, get_local_entries-Editable}
use srouter.Dhcp.{
  DhcpConfig, range_key, is_range_line, read_range, read_ranges, no_config, get_dhcp_config,
  range_line, lease_time_or_day, save_dhcp_config,
}

abbrev not_range : Text → Bool
not_range l = not (is_range_line l)

range_key-Solid : All Solid range_key
unfolding is_solid
range_key-Solid = is_solid_sound range_key refl

-- The configuration as it is read back: a missing lease time is a day, and the last field is
-- trimmed at its right end.
abbrev pub saved : DhcpConfig → DhcpConfig
saved cfg = record cfg { lease_time = trim_right (lease_time_or_day cfg.lease_time) }

trimmed_line :
    (cfg : DhcpConfig)
    → trim_space (range_line cfg)
      ≡ range_key
        ++ (cfg.range_start ++ (b',' ∷ (cfg.range_end ++ (b',' ∷ (saved cfg).lease_time))))
trimmed_line cfg =
    unfold range_line in
    rw (
      trim_space-append _ _
          (cfg.range_start ++ (b',' ∷ (cfg.range_end ++ (b',' ∷ lease_time_or_day cfg.lease_time))))
          range_key-Solid,
      trim_right-Solid cfg.range_start b','
          (cfg.range_end ++ (b',' ∷ lease_time_or_day cfg.lease_time)) (unfold is_space in refl),
      trim_right-Solid cfg.range_end b',' (lease_time_or_day cfg.lease_time)
          (unfold is_space in refl),
    )

is_range_line-range_line : (cfg : DhcpConfig) → is_range_line (range_line cfg) ≡ true
is_range_line-range_line cfg =
    unfold is_range_line in rw (trimmed_line cfg) (has_prefix-append range_key _)

split_three :
    (a b t : Text)
    → Lacks b',' a
    → Lacks b',' b
    → Lacks b',' t
    → split b',' (a ++ (b',' ∷ (b ++ (b',' ∷ t)))) ≡ a ∷ b ∷ t ∷ []
split_three a b t ha hb ht =
    rw (split_at_sep b',' a (b ++ (b',' ∷ t)) ha, split_at_sep b',' b t hb, split_whole b',' t ht)

read_range-range_line :
    (cfg old : DhcpConfig)
    → Lacks b',' cfg.range_start
    → Lacks b',' cfg.range_end
    → Lacks b',' (saved cfg).lease_time
    → read_range (range_line cfg) old ≡ saved cfg
read_range-range_line cfg old ha hb ht =
    unfold read_range in
    rw (
      is_range_line-range_line cfg,
      trimmed_line cfg,
      trim_prefix-append range_key,
      split_three cfg.range_start cfg.range_end (saved cfg).lease_time ha hb ht,
    )

read_range-drop_cr : (l : Text) (cfg : DhcpConfig) → read_range (drop_cr l) cfg ≡ read_range l cfg
read_range-drop_cr l cfg = unfold read_range is_range_line in rw (trim_space-drop_cr l)

pub read_range_other :
    (l : Text) (cfg : DhcpConfig) → is_range_line l ≡ false → read_range l cfg ≡ cfg
read_range_other l cfg h = unfold read_range in rw h

pub read_ranges-drop_cr :
    (ls : List Text) (cfg : DhcpConfig) → read_ranges (map drop_cr ls) cfg ≡ read_ranges ls cfg
unfolding read_ranges
read_ranges-drop_cr [] cfg = refl
read_ranges-drop_cr (l ∷ ls) cfg =
    ap (read_ranges (map drop_cr ls)) (read_range-drop_cr l cfg)
    ∙ read_ranges-drop_cr ls (read_range l cfg)

read_ranges-keep :
    (ls more : List Text) (cfg : DhcpConfig)
    → read_ranges (keep not_range ls ++ more) cfg ≡ read_ranges more cfg
unfolding keep read_ranges
read_ranges-keep [] more cfg = refl
read_ranges-keep (l ∷ ls) more cfg =
    ground (arith, read_range_other l cfg, read_ranges-keep ls more cfg)

pub get_dhcp_config-Editable :
    {w : World} {s : Text}
    → Editable w dnsmasq_conf s
    → get_dhcp_config w ≡ (w, ok (read_ranges (scan_lines s) no_config))
get_dhcp_config-Editable e = unfold get_dhcp_config opened in rw (open_file-Editable e)

abbrev with_range : DhcpConfig → Text → Text
with_range cfg s = edit not_range (range_line cfg ∷ []) s

save_dhcp_config-Editable :
    {w : World} {s : Text} (cfg : DhcpConfig)
    → Editable w dnsmasq_conf s
    → save_dhcp_config cfg w ≡ (written w dnsmasq_conf (with_range cfg s), ok tt)
save_dhcp_config-Editable {s = s} cfg e =
    unfold save_dhcp_config opened in
    rw (open_file-Editable e, write_file-Editable (with_range cfg s) e)

save_dhcp_config_after :
    {w : World} {s : Text} (cfg : DhcpConfig)
    → Editable w dnsmasq_conf s
    → Editable (save_dhcp_config cfg w).0 dnsmasq_conf (with_range cfg s)
save_dhcp_config_after {s = s} cfg e =
    rw (save_dhcp_config-Editable cfg e) (written-Editable (with_range cfg s) e)

-- Whatever dnsmasq.conf holds, the range that was saved is the range that is then read, with `24h`
-- for an empty lease time and the lease time trimmed at its right end; the line must hold no line
-- end, fit the scanner's buffer, and hold commas between its fields only.
pub get_dhcp_config-save_dhcp_config :
    {w : World} {s : Text} (cfg : DhcpConfig)
    → Editable w dnsmasq_conf s
    → IsLine (range_line cfg)
    → Lacks b',' cfg.range_start
    → Lacks b',' cfg.range_end
    → Lacks b',' (saved cfg).lease_time
    → (get_dhcp_config (save_dhcp_config cfg w).0).1 ≡ ok (saved cfg)
get_dhcp_config-save_dhcp_config {s = s} cfg e short ha hb ht =
    rw
      (
        get_dhcp_config-Editable (save_dhcp_config_after cfg e),
        scan_lines-edit not_range (range_line cfg) [] s (short, tt),
        read_ranges-drop_cr (keep not_range (scan_lines s) ++ range_line cfg ∷ []) no_config,
        read_ranges-keep (scan_lines s) (range_line cfg ∷ []) no_config,
      )
      (ap ok (unfold read_ranges in read_range-range_line cfg no_config ha hb ht))

first_letter_upstream : (t : Text) → has_prefix t range_key ≡ true → upstream_of_line t ≡ none
unfolding upstream_of_line has_prefix
first_letter_upstream [] h = ground arith
first_letter_upstream (c ∷ t) h = ground arith

first_letter_local : (t : Text) → has_prefix t range_key ≡ true → local_of_line t ≡ none
unfolding local_of_line has_prefix
first_letter_local [] h = ground arith
first_letter_local (c ∷ t) h = ground arith

range_line_not_upstream : (l : Text) → is_range_line l ≡ true → upstream_row l ≡ none
unfolding is_range_line
range_line_not_upstream l h = first_letter_upstream (trim_space l) h

range_line_not_local : (l : Text) → is_range_line l ≡ true → local_row l ≡ none
unfolding is_range_line
range_line_not_local l h = first_letter_local (trim_space l) h

-- A reader that sees nothing in a line of a range reads what it read before.
save_keeps_rows :
    {B : Type 0} (f : Text → Option B) (cfg : DhcpConfig) (s : Text)
    → f [] ≡ none
    → ((l : Text) → f (drop_cr l) ≡ f l)
    → ((l : Text) → is_range_line l ≡ true → f l ≡ none)
    → IsLine (range_line cfg)
    → collect f (scan_lines (with_range cfg s)) ≡ collect f (scan_lines s)
save_keeps_rows f cfg s empty cr other short =
    collect-edit f not_range (range_line cfg ∷ []) s empty cr (short, tt)
    ∙ rw (
      collect-keep f not_range (λ l k. other l (ground arith)) (scan_lines s),
      collect-one_none f (range_line cfg) (other (range_line cfg) (is_range_line-range_line cfg)),
      append-nil,
    )

-- Saving the range leaves the upstream servers and the local records as they are read.
pub save_dhcp_config_leaves_dns :
    {w : World} {s : Text} (cfg : DhcpConfig)
    → Editable w dnsmasq_conf s
    → IsLine (range_line cfg)
    → ((get_upstream_servers (save_dhcp_config cfg w).0).1 ≡ (get_upstream_servers w).1)
      × ((get_local_entries (save_dhcp_config cfg w).0).1 ≡ (get_local_entries w).1)
save_dhcp_config_leaves_dns {s = s} cfg e short = (
  rw (get_upstream_servers-Editable (save_dhcp_config_after cfg e), get_upstream_servers-Editable e)
      (ap ok (
        save_keeps_rows upstream_row cfg s upstream_row-nil upstream_row-drop_cr
          range_line_not_upstream short)),
  rw (get_local_entries-Editable (save_dhcp_config_after cfg e), get_local_entries-Editable e)
      (ap ok (
        save_keeps_rows local_row cfg s local_row-nil local_row-drop_cr range_line_not_local
          short)),
)
