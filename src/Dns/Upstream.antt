-- ===== src/Dns/Upstream.antt =====
-- What `SetUpstreamServers` leaves for the readers of dnsmasq.conf.
use srouter.Base.{
  not, List, [], ◌∷◌, ◌≡◌, refl, arith, Text, All, collect, collect-keep, collect-keep-none, map,
  append-nil,
}
use srouter.Strings.{scan_lines, trim_right}
use srouter.Strings.Lines.{IsLine, edit, collect-edit}
use srouter.World.{World, ok, opened, Editable}
use srouter.World.Laws.{
  open_file-Editable, written, write_file-Editable, written-Editable, run-Editable,
}
use srouter.Dns.{
  UpstreamServer, dnsmasq_conf, upstream_row, local_row, get_upstream_servers, set_upstream_servers,
  get_local_entries, is_server_line, server_line, reload_dnsmasq,
}
use srouter.Dns.Rows.{
  upstream_row-nil, upstream_row-drop_cr, upstream_row_other, upstream_row-server_line,
  server_line_not_local, local_row-server_line, local_row-drop_cr, local_row-nil,
}

-- the content that `SetUpstreamServers` writes
abbrev pub with_servers : List UpstreamServer → Text → Text
with_servers us s = edit (λ l. not (is_server_line l)) (map server_line us) s

-- The server as it is read back: its address trimmed at the right end.
abbrev pub trimmed : UpstreamServer → UpstreamServer
trimmed u = record { address = trim_right u.address }

pub get_upstream_servers-Editable :
    {w : World} {s : Text}
    → Editable w dnsmasq_conf s
    → get_upstream_servers w ≡ (w, ok (collect upstream_row (scan_lines s)))
get_upstream_servers-Editable e = unfold get_upstream_servers opened in rw (open_file-Editable e)

pub get_local_entries-Editable :
    {w : World} {s : Text}
    → Editable w dnsmasq_conf s
    → get_local_entries w ≡ (w, ok (collect local_row (scan_lines s)))
get_local_entries-Editable e = unfold get_local_entries opened in rw (open_file-Editable e)

pub set_upstream_servers-Editable :
    {w : World} {s : Text} (us : List UpstreamServer)
    → Editable w dnsmasq_conf s
    → set_upstream_servers us w ≡ reload_dnsmasq (written w dnsmasq_conf (with_servers us s))
set_upstream_servers-Editable {s = s} us e =
    unfold set_upstream_servers opened in
    rw (open_file-Editable e, write_file-Editable (with_servers us s) e)

pub reload_dnsmasq-Editable :
    {w : World} {p s : Text} → Editable w p s → Editable (reload_dnsmasq w).0 p s
reload_dnsmasq-Editable e = unfold reload_dnsmasq in run-Editable _ e

pub set_upstream_servers_after :
    {w : World} {s : Text} (us : List UpstreamServer)
    → Editable w dnsmasq_conf s
    → Editable (set_upstream_servers us w).0 dnsmasq_conf (with_servers us s)
set_upstream_servers_after {s = s} us e =
    rw (set_upstream_servers-Editable us e)
      (reload_dnsmasq-Editable (written-Editable (with_servers us s) e))

collect-server_line :
    (us : List UpstreamServer) → collect upstream_row (map server_line us) ≡ map trimmed us
unfolding collect
collect-server_line [] = refl
collect-server_line (u ∷ us) = ground (arith, upstream_row-server_line u, collect-server_line us)

local-server_line : (us : List UpstreamServer) → collect local_row (map server_line us) ≡ []
unfolding collect
local-server_line [] = refl
local-server_line (u ∷ us) = ground (arith, local_row-server_line u, local-server_line us)

-- Whatever dnsmasq.conf holds, the servers that were set are the servers that are then read, in
-- their order and with nothing left of the old ones; an address is read back trimmed at its right
-- end. Each line `server=<address>` must hold no line end and fit the scanner's buffer.
pub get_upstream_servers-set_upstream_servers :
    {w : World} {s : Text} (us : List UpstreamServer)
    → Editable w dnsmasq_conf s
    → All IsLine (map server_line us)
    → (get_upstream_servers (set_upstream_servers us w).0).1 ≡ ok (map trimmed us)
get_upstream_servers-set_upstream_servers {s = s} us e h = rw (
  get_upstream_servers-Editable (set_upstream_servers_after us e),
  collect-edit upstream_row (λ l. not (is_server_line l)) (map server_line us) s upstream_row-nil
      upstream_row-drop_cr h,
  collect-keep-none upstream_row (λ l. not (is_server_line l)) upstream_row_other (scan_lines s),
  collect-server_line us,
)

-- Setting the upstream servers leaves the local records as they are read, if each line
-- `server=<address>` holds no line end and fits the scanner's buffer, and dnsmasq.conf can be read
-- and written.
pub get_local_entries-set_upstream_servers :
    {w : World} {s : Text} (us : List UpstreamServer)
    → Editable w dnsmasq_conf s
    → All IsLine (map server_line us)
    → (get_local_entries (set_upstream_servers us w).0).1 ≡ (get_local_entries w).1
get_local_entries-set_upstream_servers {s = s} us e h = rw (
  get_local_entries-Editable (set_upstream_servers_after us e),
  get_local_entries-Editable e,
  collect-edit local_row (λ l. not (is_server_line l)) (map server_line us) s local_row-nil
      local_row-drop_cr h,
  collect-keep local_row (λ l. not (is_server_line l))
      (λ l k. server_line_not_local l (ground arith)) (scan_lines s),
  local-server_line us,
  append-nil,
)
