-- ===== src/Tests/Dns.antt =====
-- internal/system/dns.go, its handlers and the address range, on a small dnsmasq.conf.
use srouter.Base.{if◌then◌else◌}
use srouter.Strings.{equal_fold, has_prefix, trim_prefix}
use srouter.Dns.{get_upstream_servers, upstream_of_line}
use srouter.Handlers.{Form}
use srouter.Handlers.DnsRecords.{add_entry, entry_of_form, has_hostname}
use srouter.Handlers.DnsRecords.Shown.{NoClash, add_entry-NoClash}
use srouter.Handlers.DnsRecords.Injection.{get_upstream_servers-add_entry}
use srouter.Base.{
  not, List, [], ◌∷◌, ◌++◌, ◌≡◌, refl, arith, Text, codes, map, text_eq, keep, collect,
}
use srouter.Strings.{byte_len, trim_right, scan_lines, trim_space, trim_prefix, split_n}
use srouter.Strings.Lines.{unlines}
use srouter.World.{ok, open_file, opened}
use srouter.Dns.{
  UpstreamServer, LocalEntry, dnsmasq_conf, get_upstream_servers, set_upstream_servers,
  get_local_entries, delete_local_entry, server_line, address_line, local_of_line,
}
use srouter.Dns.Upstream.{
  trimmed, get_upstream_servers-set_upstream_servers, get_local_entries-set_upstream_servers,
}
use srouter.Dns.Local.{get_local_entries-delete_local_entry}
use srouter.Tests.Worlds.{world_with, world_with-Editable}

abbrev conf_lines : List Text
conf_lines =
    codes "domain=lan"
    ∷ codes "server=8.8.8.8"
    ∷ codes "address=/nas/10.0.0.2"
    ∷ codes "address=/tv/10.0.0.3"
    ∷ []

abbrev conf : Text
conf = codes "domain=lan\nserver=8.8.8.8\naddress=/nas/10.0.0.2\naddress=/tv/10.0.0.3\n"

abbrev servers : List UpstreamServer
servers = record { address = codes "1.1.1.1" } ∷ record { address = codes "9.9.9.9" } ∷ []

abbrev nas : LocalEntry
nas = record { hostname = codes "nas"; ip = codes "10.0.0.2" }

abbrev tv : LocalEntry
tv = record { hostname = codes "tv"; ip = codes "10.0.0.3" }

conf_entries : (get_local_entries (world_with dnsmasq_conf conf)).1 ≡ ok (nas ∷ tv ∷ [])
unfolding collect get_local_entries open_file opened text_eq scan_lines local_of_line trim_space
    split_n trim_prefix
conf_entries = refl

get_upstream_servers-set_upstream_servers_example :
    (get_upstream_servers (set_upstream_servers servers (world_with dnsmasq_conf conf)).0).1
    ≡ ok (map trimmed servers)
unfolding server_line byte_len
get_upstream_servers-set_upstream_servers_example =
    get_upstream_servers-set_upstream_servers servers (world_with-Editable dnsmasq_conf conf)
      (omega arith)

get_local_entries-set_upstream_servers_example :
    (get_local_entries (set_upstream_servers servers (world_with dnsmasq_conf conf)).0).1
    ≡ (get_local_entries (world_with dnsmasq_conf conf)).1
unfolding server_line byte_len
get_local_entries-set_upstream_servers_example =
    get_local_entries-set_upstream_servers servers (world_with-Editable dnsmasq_conf conf)
      (omega arith)

get_local_entries-delete_local_entry_example :
    (get_local_entries (delete_local_entry (codes "nas") (world_with dnsmasq_conf conf)).0).1
    ≡ ok (keep (λ e. not (text_eq e.hostname (codes "nas"))) (nas ∷ tv ∷ []))
get_local_entries-delete_local_entry_example =
    get_local_entries-delete_local_entry (codes "nas") (nas ∷ tv ∷ [])
      (world_with-Editable dnsmasq_conf conf) (omega arith) conf_entries

abbrev pc : LocalEntry
pc = record { hostname = codes "pc"; ip = codes "10.0.0.4" }

unlines_entries :
    (get_local_entries (world_with dnsmasq_conf (unlines conf_lines))).1 ≡ ok (nas ∷ tv ∷ [])
unfolding collect get_local_entries open_file opened text_eq scan_lines local_of_line trim_space
    split_n trim_prefix unlines
unlines_entries = refl

-- the form of the record of `pc`
abbrev pc_form : Form
pc_form key = if text_eq key (codes "hostname") then pc.hostname else pc.ip

add_entry-NoClash_example :
    (fs : List LocalEntry) × ((get_local_entries
        (add_entry (λ c. c) pc_form (world_with dnsmasq_conf (unlines conf_lines))).0).1
      ≡ ok fs)
    × NoClash (λ c. c) fs
unfolding byte_len address_line entry_of_form trim_space text_eq equal_fold
add_entry-NoClash_example =
    add_entry-NoClash (λ c. c) pc_form conf_lines (nas ∷ tv ∷ [])
      (world_with-Editable dnsmasq_conf (unlines conf_lines)) (omega arith) (omega arith)
      (omega arith) unlines_entries ((refl, tt), (tt, tt))

-- a form whose address brings a server of its own
abbrev evil_form : Form
evil_form key =
    if text_eq key (codes "hostname") then pc.hostname else codes "10.0.0.4\nserver=6.6.6.6"

conf_servers :
    (get_upstream_servers (world_with dnsmasq_conf (unlines conf_lines))).1
    ≡ ok (record { address = codes "8.8.8.8" } ∷ [])
unfolding collect get_upstream_servers open_file opened text_eq scan_lines upstream_of_line
    trim_space trim_prefix unlines has_prefix
conf_servers = refl

get_upstream_servers-add_entry_example :
    (get_upstream_servers
      (add_entry (λ c. c) evil_form (world_with dnsmasq_conf (unlines conf_lines))).0).1
    ≡ ok (
        (record { address = codes "8.8.8.8" } ∷ [])
        ++ record { address = trim_right (codes "6.6.6.6") } ∷ [])
unfolding byte_len address_line entry_of_form trim_space text_eq equal_fold server_line has_hostname
get_upstream_servers-add_entry_example =
    get_upstream_servers-add_entry (λ c. c) evil_form conf_lines (nas ∷ tv ∷ []) (codes "10.0.0.4")
      (record { address = codes "6.6.6.6" }) (record { address = codes "8.8.8.8" } ∷ [])
      (world_with-Editable dnsmasq_conf (unlines conf_lines)) (omega arith) refl (omega arith)
      (omega arith) unlines_entries refl refl conf_servers
