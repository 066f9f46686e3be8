-- ===== src/Dns/Rows.antt =====
-- What the readers of dnsmasq.conf see of a line, and how the lines of one kind look to the
-- readers of the others.
use srouter.Base.{true, not, [], ◌∷◌, ◌≡◌, refl, ap, arith, none, some, Text, All}
use srouter.Strings.{has_prefix, trim_space, trim_right, drop_cr}
use srouter.Strings.Prefix.{has_prefix-append, trim_prefix-append}
use srouter.Strings.Trim.{trim_space-append, trim_space-drop_cr, Solid, is_solid, is_solid_sound}
use srouter.Dns.{
  UpstreamServer, server_key, address_key, upstream_of_line, upstream_row, is_server_line,
  server_line, local_of_line, local_row,
}

server_key-Solid : All Solid server_key
unfolding is_solid
server_key-Solid = is_solid_sound server_key refl

address_key-Solid : All Solid address_key
unfolding is_solid
address_key-Solid = is_solid_sound address_key refl

-- A server's line is read back as the server, its address trimmed at the right.
pub upstream_row-server_line :
    (u : UpstreamServer)
    → upstream_row (server_line u) ≡ some (record { address = trim_right u.address })
unfolding upstream_of_line server_line
upstream_row-server_line u = rw (
  trim_space-append _ _ u.address server_key-Solid,
  has_prefix-append server_key (trim_right u.address),
  trim_prefix-append server_key (trim_right u.address),
)

pub upstream_row-drop_cr : (l : Text) → upstream_row (drop_cr l) ≡ upstream_row l
upstream_row-drop_cr l = ap upstream_of_line (trim_space-drop_cr l)

pub upstream_row_other : (l : Text) → not (is_server_line l) ≡ true → upstream_row l ≡ none
unfolding upstream_of_line is_server_line
upstream_row_other l h = ground arith

pub upstream_row-nil : upstream_row [] ≡ none
unfolding upstream_of_line has_prefix trim_space
upstream_row-nil = refl

-- A line that starts one keyword does not start the other.
pub server_line_not_local : (l : Text) → is_server_line l ≡ true → local_row l ≡ none
unfolding is_server_line local_of_line has_prefix
server_line_not_local l h = first_letter (trim_space l) h
  where
    first_letter : (t : Text) → has_prefix t server_key ≡ true → local_of_line t ≡ none
    first_letter [] h = ground arith
    first_letter (c ∷ t) h = ground arith

pub local_row-server_line : (u : UpstreamServer) → local_row (server_line u) ≡ none
local_row-server_line u = server_line_not_local (server_line u) (is_server_line-server_line u)
  where
    is_server_line-server_line : (u : UpstreamServer) → is_server_line (server_line u) ≡ true
    is_server_line-server_line u =
        unfold is_server_line server_line in
        rw (trim_space-append _ _ u.address server_key-Solid)
          (has_prefix-append server_key (trim_right u.address))

pub local_row-drop_cr : (l : Text) → local_row (drop_cr l) ≡ local_row l
local_row-drop_cr l = ap local_of_line (trim_space-drop_cr l)

pub local_row-nil : local_row [] ≡ none
unfolding local_of_line has_prefix trim_space
local_row-nil = refl
