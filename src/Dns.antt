-- ===== src/Dns.antt =====
-- internal/system/dns.go: the upstream servers and the local records in dnsmasq.conf, and
-- `ReloadDNSMasq` of internal/system/dhcp.go.
pub mod Rows
pub mod Upstream
pub mod Local
use srouter.Base.{
  ℕ, Bool, true, false, not, List, [], ◌∷◌, ◌++◌, ◌≡◌, Option, none, some, if◌then◌else◌, Text,
  codes, keep, collect, map,
}
use srouter.Strings.{has_prefix, trim_prefix, trim_space, split_n, scan_lines}
use srouter.Strings.Lines.{edit}
use srouter.World.{
  M, pure, fail, open_failed, ◌>>=◌, ◌>>◌, open_file, opened, write_file, append_file, run,
}

abbrev pub dnsmasq_conf : Text
dnsmasq_conf = codes "/etc/dnsmasq.conf"

abbrev pub server_key : Text
server_key = codes "server="

abbrev pub address_key : Text
address_key = codes "address=/"

pub record UpstreamServer : Type 0 where
  pub address : Text

pub record LocalEntry : Type 0 where
  pub hostname : Text
  pub ip : Text

-- what one line adds to the result of `GetUpstreamServers`
unfoldable pub upstream_of_line : Text → Option UpstreamServer
upstream_of_line line =
    if has_prefix line server_key
    then some (record { address = trim_prefix line server_key })
    else none

abbrev pub upstream_row : Text → Option UpstreamServer
upstream_row raw = upstream_of_line (trim_space raw)

unfoldable pub get_upstream_servers : M (List UpstreamServer)
get_upstream_servers = do
  f ← open_file dnsmasq_conf
  s ← opened f
  pure (collect upstream_row (scan_lines s))

unfoldable pub reload_dnsmasq : M (Unit {0})
reload_dnsmasq = run (codes "rc-service" ∷ codes "dnsmasq" ∷ codes "restart" ∷ [])

unfoldable pub is_server_line : Text → Bool
is_server_line line = has_prefix (trim_space line) server_key

unfoldable pub server_line : UpstreamServer → Text
server_line s = server_key ++ s.address

unfoldable pub set_upstream_servers : List UpstreamServer → M (Unit {0})
set_upstream_servers servers = do
  f ← open_file dnsmasq_conf
  s ← opened f
  write_file dnsmasq_conf (edit (λ l. not (is_server_line l)) (map server_line servers) s)
  reload_dnsmasq

-- the entry of `hostname/ip`, if there is a slash
unfoldable pub entry_of_parts : List Text → Option LocalEntry
entry_of_parts (h ∷ i ∷ []) = some (record { hostname = h; ip = i })
entry_of_parts _ = none

-- what one line adds to the result of `GetLocalEntries`
unfoldable pub local_of_line : Text → Option LocalEntry
unfolding entry_of_parts
local_of_line line =
    if has_prefix line address_key
    then entry_of_parts (split_n b'/' 1 (trim_prefix line address_key))
    else none

abbrev pub local_row : Text → Option LocalEntry
local_row raw = local_of_line (trim_space raw)

unfoldable pub get_local_entries : M (List LocalEntry)
get_local_entries = do
  f ← open_file dnsmasq_conf
  s ← opened f
  pure (collect local_row (scan_lines s))

unfoldable pub address_line : LocalEntry → Text
address_line e = address_key ++ (e.hostname ++ (b'/' ∷ e.ip))

unfoldable pub add_local_entry : LocalEntry → M (Unit {0})
add_local_entry e = append_file false dnsmasq_conf (address_line e ++ b'\n' ∷ [])

unfoldable pub is_address_line : Text → Text → Bool
is_address_line hostname line =
    has_prefix (trim_space line) (address_key ++ (hostname ++ b'/' ∷ []))

unfoldable pub delete_local_entry : Text → M (Unit {0})
delete_local_entry hostname = do
  f ← open_file dnsmasq_conf
  s ← opened f
  write_file dnsmasq_conf (edit (λ l. not (is_address_line hostname l)) [] s)
