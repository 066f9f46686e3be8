-- ===== src/Handlers/DnsRecords/Injection.antt =====
-- What the form of a local record can write beside its record: nothing looks at its values.
use srouter.Base.{
  ap, ℕ, false, ◌||◌, List, [], ◌∷◌, ◌++◌, ◌≡◌, refl, ◌∙◌, none, Text, text_eq, All, collect,
  collect-append, collect-one, collect-one_none, append_assoc,
}
use srouter.Strings.{trim_right, has_prefix, scan_lines}
use srouter.Strings.Trim.{trim_space-append}
use srouter.Strings.Lines.{IsLine, unlines, collect_appended}
use srouter.World.{World, ok, Editable}
use srouter.World.Laws.{written-Editable}
use srouter.Dns.{
  dnsmasq_conf, UpstreamServer, LocalEntry, get_upstream_servers, get_local_entries, address_line,
  server_line, upstream_row, upstream_of_line,
}
use srouter.Dns.Rows.{upstream_row-server_line, upstream_row-drop_cr}
use srouter.Dns.Upstream.{get_upstream_servers-Editable, reload_dnsmasq-Editable}
use srouter.Dns.Local.{address_key-Solid}
use srouter.Handlers.{Form}
use srouter.Handlers.DnsRecords.{has_hostname, add_entry, entry_of_form}
use srouter.Handlers.DnsRecords.Shown.{add_entry_new}

upstream_row-address_line : (e : LocalEntry) → upstream_row (address_line e) ≡ none
unfolding address_line upstream_of_line
upstream_row-address_line e =
    rw (trim_space-append _ _ (e.hostname ++ (b'/' ∷ e.ip)) address_key-Solid)
      (unfold has_prefix in refl)

two_lines :
    (e : LocalEntry) (i : Text) (u : UpstreamServer)
    → e.ip ≡ i ++ (b'\n' ∷ server_line u)
    → unlines (address_line e ∷ [])
      ≡ unlines (address_line (record e { ip = i }) ∷ server_line u ∷ [])
two_lines e i u h = unfold unlines address_line in rw h (simp append_assoc)

collect-two_lines :
    (e : LocalEntry) (u : UpstreamServer)
    → collect upstream_row (address_line e ∷ server_line u ∷ [])
      ≡ record { address = trim_right u.address } ∷ []
collect-two_lines e u =
    collect-append upstream_row (address_line e ∷ []) (server_line u ∷ [])
    ∙ rw (
      collect-one_none upstream_row (address_line e) (upstream_row-address_line e),
      collect-one upstream_row (server_line u) (upstream_row-server_line u),
    )

-- A new record whose address holds a line end and a `server=` line adds that upstream server to
-- those of dnsmasq.conf, its text trimmed at the right end: the lines must be complete and short.
pub get_upstream_servers-add_entry :
    {w : World} (wide : ℕ → ℕ) (form : Form) (ls : List Text) (es : List LocalEntry) (i : Text)
    (u : UpstreamServer) (us : List UpstreamServer)
    → Editable w dnsmasq_conf (unlines ls)
    → All IsLine ls
    → (entry_of_form form).ip ≡ i ++ (b'\n' ∷ server_line u)
    → IsLine (address_line (record (entry_of_form form) { ip = i }))
    → IsLine (server_line u)
    → (get_local_entries w).1 ≡ ok es
    → (text_eq (entry_of_form form).hostname [] || text_eq (entry_of_form form).ip []) ≡ false
    → has_hostname wide (entry_of_form form).hostname es ≡ false
    → (get_upstream_servers w).1 ≡ ok us
    → (get_upstream_servers (add_entry wide form w).0).1
      ≡ ok (us ++ record { address = trim_right u.address } ∷ [])
get_upstream_servers-add_entry {w = w} wide form ls es i u us edit lines value short line before
      given new had =
    ap (λ x. (get_upstream_servers x.0).1) (add_entry_new wide form ls es edit before given new)
    ∙ rw
        (
          get_upstream_servers-Editable (
              reload_dnsmasq-Editable (
                written-Editable (unlines ls ++ unlines (address_line (entry_of_form form) ∷ []))
                  edit)),
          two_lines (entry_of_form form) i u value,
          collect_appended upstream_row ls
              (address_line (record (entry_of_form form) { ip = i }) ∷ server_line u ∷ [])
              upstream_row-drop_cr lines (short, (line, tt)),
          collect-two_lines (record (entry_of_form form) { ip = i }) u,
        )
        (grown (collect upstream_row (scan_lines (unlines ls)))
          (rw (get_upstream_servers-Editable edit) at had))
  where
    grown :
        (xs : List UpstreamServer)
        → ok xs ≡ ok us
        → ok (xs ++ record { address = trim_right u.address } ∷ [])
          ≡ ok (us ++ record { address = trim_right u.address } ∷ [])
    grown xs k = cc k
