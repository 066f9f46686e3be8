-- ===== src/Dns/Local.antt =====
-- What `AddLocalEntry` and `DeleteLocalEntry` leave for `GetLocalEntries`.
use srouter.Base.{
  true, false, not, List, [], ◌∷◌, ◌++◌, ◌≡◌, refl, ap, ◌∙◌, arith, none, some, Text, All, keep,
  collect, collect-keep_on, collect-nil, collect-one, append-nil, Lacks, text_eq, Bool-cases, inl,
  inr,
}
use srouter.Strings.{scan_lines, trim_right, trim_space, has_prefix, trim_prefix, split_n, is_space}
use srouter.Strings.Prefix.{has_prefix-append, trim_prefix-append, has_prefix_sound}
use srouter.Strings.Trim.{trim_space-append, trim_right-Solid, is_solid, is_solid_sound, Solid}
use srouter.Strings.Split.{
  split_n_pair, split_n_at_sep, split_n-zero, has_prefix-append_both, has_prefix_sep,
}
use srouter.Strings.Lines.{IsLine, edit, collect-edit, unlines, collect_appended}
use srouter.World.{World, ok, opened, Editable}
use srouter.World.Laws.{
  open_file-Editable, written, write_file-Editable, append_file-Editable, written-Editable,
}
use srouter.Dns.{
  LocalEntry, dnsmasq_conf, address_key, local_row, local_of_line, entry_of_parts,
  get_local_entries, add_local_entry, delete_local_entry, address_line, is_address_line,
}
use srouter.Dns.Rows.{local_row-drop_cr, local_row-nil}
use srouter.Dns.Upstream.{get_local_entries-Editable}

entry_of_parts-some :
    (ps : List Text) (e : LocalEntry) → entry_of_parts ps ≡ some e → ps ≡ e.hostname ∷ e.ip ∷ []
unfolding entry_of_parts
entry_of_parts-some [] e h = cc
entry_of_parts-some (a ∷ []) e h = cc
entry_of_parts-some (a ∷ b ∷ []) e h = ground arith
entry_of_parts-some (a ∷ b ∷ c ∷ ps) e h = cc

-- A line that gives an entry spells it.
local_of_line-some :
    (t : Text) (e : LocalEntry)
    → local_of_line t ≡ some e
    → (t ≡ address_key ++ (e.hostname ++ (b'/' ∷ e.ip))) × Lacks b'/' e.hostname
local_of_line-some t e h = elim (Bool-cases (has_prefix t address_key)) [
  | inl p ↦ spelled t e p (given t e p h)
  | inr p ↦ absurd (cc (skipped t p))
]
  where
    skipped : (t : Text) → has_prefix t address_key ≡ false → local_of_line t ≡ none
    skipped t p = unfold local_of_line in rw p

    given :
        (t : Text) (e : LocalEntry)
        → has_prefix t address_key ≡ true
        → local_of_line t ≡ some e
        → split_n b'/' 1 (trim_prefix t address_key) ≡ e.hostname ∷ e.ip ∷ []
    given t e p h = entry_of_parts-some _ e (unfold local_of_line in rw p at h)

    spelled :
        (t : Text) (e : LocalEntry)
        → has_prefix t address_key ≡ true
        → split_n b'/' 1 (trim_prefix t address_key) ≡ e.hostname ∷ e.ip ∷ []
        → (t ≡ address_key ++ (e.hostname ++ (b'/' ∷ e.ip))) × Lacks b'/' e.hostname
    spelled t e p h =
        let pair = split_n_pair b'/' _ e.hostname e.ip h in
        (
          has_prefix_sound t address_key p
              ∙ ap (λ r. address_key ++ r) (unfold trim_prefix in rw p at pair.0),
          pair.1,
        )

-- The line that `DeleteLocalEntry` looks for is a line that gives an entry of that host name.
is_address_line-local_row :
    (host : Text)
    → Lacks b'/' host
    → (l : Text) (e : LocalEntry) → local_row l ≡ some e
    → is_address_line host l ≡ text_eq e.hostname host
is_address_line-local_row host free l e h =
    let (spelled, free') = local_of_line-some (trim_space l) e h in
    unfold is_address_line in
    rw (spelled, has_prefix-append_both address_key)
      (has_prefix_sep b'/' e.hostname host e.ip free' free)

pub delete_local_entry-Editable :
    {w : World} {s : Text} (host : Text)
    → Editable w dnsmasq_conf s
    → delete_local_entry host w
      ≡ (written w dnsmasq_conf (edit (λ l. not (is_address_line host l)) [] s), ok tt)
delete_local_entry-Editable {s = s} host e =
    unfold delete_local_entry opened in
    rw (open_file-Editable e, write_file-Editable (edit (λ l. not (is_address_line host l)) [] s) e)

delete_local_entry_after :
    {w : World} {s : Text} (host : Text)
    → Editable w dnsmasq_conf s
    → Editable
        (delete_local_entry host w).0
        dnsmasq_conf
        (edit (λ l. not (is_address_line host l)) [] s)
delete_local_entry_after {s = s} host e =
    rw (delete_local_entry-Editable host e)
      (written-Editable (edit (λ l. not (is_address_line host l)) [] s) e)

-- Deleting a host name that holds no slash removes every local record of that name, and leaves the
-- others as they are read, in their order.
pub get_local_entries-delete_local_entry :
    {w : World} {s : Text} (host : Text) (es : List LocalEntry)
    → Editable w dnsmasq_conf s
    → Lacks b'/' host
    → (get_local_entries w).1 ≡ ok es
    → (get_local_entries (delete_local_entry host w).0).1
      ≡ ok (keep (λ e. not (text_eq e.hostname host)) es)
get_local_entries-delete_local_entry {s = s} host es e free h =
    rw
      (
        get_local_entries-Editable (delete_local_entry_after host e),
        collect-edit local_row (λ l. not (is_address_line host l)) [] s local_row-nil
            local_row-drop_cr tt,
        collect-keep_on local_row (λ l. not (is_address_line host l))
            (λ e. not (text_eq e.hostname host))
            (λ l x k. ap not (is_address_line-local_row host free l x k)) (scan_lines s),
        collect-nil local_row,
        append-nil,
      )
      (before s es (rw (get_local_entries-Editable e) at h))
  where
    before :
        (s : Text) (es : List LocalEntry)
        → ok (collect local_row (scan_lines s)) ≡ ok es
        → ok (keep (λ e. not (text_eq e.hostname host)) (collect local_row (scan_lines s)))
          ≡ ok (keep (λ e. not (text_eq e.hostname host)) es)
    before s es h = cc h

pub address_key-Solid : All Solid address_key
unfolding is_solid
address_key-Solid = is_solid_sound address_key refl

trim_right_entry : (h i : Text) → trim_right (h ++ (b'/' ∷ i)) ≡ h ++ (b'/' ∷ trim_right i)
trim_right_entry h i = trim_right-Solid h b'/' i (unfold is_space in refl)

local_row-address_line :
    (e : LocalEntry)
    → Lacks b'/' e.hostname
    → local_row (address_line e) ≡ some (record { hostname = e.hostname; ip = trim_right e.ip })
unfolding local_of_line address_line entry_of_parts
local_row-address_line e free = rw (
  trim_space-append _ _ (e.hostname ++ (b'/' ∷ e.ip)) address_key-Solid,
  trim_right_entry e.hostname e.ip,
  has_prefix-append address_key (e.hostname ++ (b'/' ∷ trim_right e.ip)),
  trim_prefix-append address_key (e.hostname ++ (b'/' ∷ trim_right e.ip)),
  split_n_at_sep b'/' 0 e.hostname (trim_right e.ip) free,
  split_n-zero,
)

pub add_local_entry-Editable :
    {w : World} {s : Text} (e : LocalEntry)
    → Editable w dnsmasq_conf s
    → add_local_entry e w ≡ (written w dnsmasq_conf (s ++ unlines (address_line e ∷ [])), ok tt)
add_local_entry-Editable e h =
    unfold add_local_entry unlines in append_file-Editable false (address_line e ++ b'\n' ∷ []) h

-- If the last line of dnsmasq.conf is complete, an added record is read behind those that were
-- there, its address trimmed at the right end; the host name must hold no slash, and the line no
-- line end.
pub get_local_entries-add_local_entry :
    {w : World} (ls : List Text) (e : LocalEntry) (es : List LocalEntry)
    → Editable w dnsmasq_conf (unlines ls)
    → All IsLine ls
    → Lacks b'/' e.hostname
    → IsLine (address_line e)
    → (get_local_entries w).1 ≡ ok es
    → (get_local_entries (add_local_entry e w).0).1
      ≡ ok (es ++ record { hostname = e.hostname; ip = trim_right e.ip } ∷ [])
get_local_entries-add_local_entry ls e es w-edit h free short before =
    rw
      (
        add_local_entry-Editable e w-edit,
        get_local_entries-Editable
            (written-Editable (unlines ls ++ unlines (address_line e ∷ [])) w-edit),
        collect_appended local_row ls (address_line e ∷ []) local_row-drop_cr h (short, tt),
        collect-one local_row (address_line e) (local_row-address_line e free),
      )
      (one (rw (get_local_entries-Editable w-edit) at before))
  where
    one :
        ok (collect local_row (scan_lines (unlines ls))) ≡ ok es
        → ok (
            collect local_row (scan_lines (unlines ls))
            ++ record { hostname = e.hostname; ip = trim_right e.ip } ∷ [])
          ≡ ok (es ++ record { hostname = e.hostname; ip = trim_right e.ip } ∷ [])
    one h = cc h
