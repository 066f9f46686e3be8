-- ===== src/Tests/Encrypted.antt =====
-- internal/system/doh.go, on a small dnsmasq.conf and one URL.
use srouter.Base.{
  true, false, List, [], ◌∷◌, ◌≡◌, ◌≢◌, refl, arith, Option, some, if◌then◌else◌, Text, codes,
  text_eq, keep, collect, map,
}
use srouter.Strings.{byte_len, trim_space, scan_lines, trim_prefix}
use srouter.World.{ok, open_file, opened, Editable}
use srouter.Dns.{
  UpstreamServer, dnsmasq_conf, get_upstream_servers, get_local_entries, server_line,
  upstream_of_line,
}
use srouter.Dns.Upstream.{trimmed}
use srouter.Dhcp.{get_dhcp_config}
use srouter.Encrypted.{DohConfig, plain, is_stub, set_strict_order, reordered}
use srouter.Encrypted.Stash.{tidied}
use srouter.Encrypted.Strict.{directive, set_strict_order_lem}
use srouter.Encrypted.Stamp.{Url, path_or_query, build_doh_stamp}
use srouter.Encrypted.Stamp.Decode.{read_stamp, read_stamp-build_doh_stamp}
use srouter.Encrypted.Switch.{Doh, enable_encrypted_dns, disable_encrypted_dns}
use srouter.Encrypted.Switch.Revert.{disable-enable_encrypted_dns}
use srouter.Tests.Worlds.{world_with, world_with-Editable}

abbrev conf : Text
conf = codes "strict-order\nserver=8.8.8.8\nserver=9.9.9.9\n"

abbrev servers : List UpstreamServer
servers = record { address = codes "8.8.8.8" } ∷ record { address = codes "9.9.9.9" } ∷ []

abbrev config : DohConfig
config = record {
  enabled = false;
  provider_id = codes "custom";
  fallback_to_plain = true;
  stashed_upstreams = [];
  custom_dot_ip = codes "9.9.9.9";
  custom_dot_tls_name = codes "dns.quad9.net";
  custom_doh_url = codes "https://dns.quad9.net";
}

abbrev url : Url
url = record { scheme = codes "https"; hostname = codes "dns.quad9.net"; path = [] }

abbrev parse : Text → Option Url
parse raw = some url

abbrev doh : Doh
doh = record { row = config; answers = true; world = world_with dnsmasq_conf conf }

servers_not_empty : servers ≢ []
servers_not_empty = cc

set_strict_order_lem_example :
    (collect directive (scan_lines (reordered false conf)) ≡ (if false then tt ∷ [] else []))
    × Editable
        (set_strict_order false (world_with dnsmasq_conf conf)).0
        dnsmasq_conf
        (reordered false conf)
    × ((get_upstream_servers (set_strict_order false (world_with dnsmasq_conf conf)).0).1
        ≡ (get_upstream_servers (world_with dnsmasq_conf conf)).1)
    × ((get_local_entries (set_strict_order false (world_with dnsmasq_conf conf)).0).1
        ≡ (get_local_entries (world_with dnsmasq_conf conf)).1)
    × ((get_dhcp_config (set_strict_order false (world_with dnsmasq_conf conf)).0).1
        ≡ (get_dhcp_config (world_with dnsmasq_conf conf)).1)
set_strict_order_lem_example = set_strict_order_lem false (world_with-Editable dnsmasq_conf conf)

read_stamp-build_doh_stamp_example :
    (stamp : Text) × (build_doh_stamp parse (codes "https://dns.quad9.net") ≡ ok stamp)
    × (read_stamp stamp ≡ some (url.hostname, path_or_query url.path))
unfolding text_eq
read_stamp-build_doh_stamp_example =
    read_stamp-build_doh_stamp parse (codes "https://dns.quad9.net") url refl refl (omega arith) tt
      (omega arith) (omega arith)

quad9_stamp :
    build_doh_stamp parse (codes "https://dns.quad9.net")
    ≡ ok (codes "sdns://AgAAAAAAAAAAAAANZG5zLnF1YWQ5Lm5ldAovZG5zLXF1ZXJ5")
unfolding build_doh_stamp text_eq
quad9_stamp = refl

disable-enable_encrypted_dns_example :
    (get_upstream_servers
      (disable_encrypted_dns
        (enable_encrypted_dns parse
          (record { stubby = true; dnscrypt = false })
          config
          doh).0).0.world).1
    ≡ ok (map trimmed (map tidied (plain servers)))
unfolding collect get_upstream_servers open_file opened text_eq scan_lines upstream_of_line
    trim_space trim_prefix is_stub keep server_line byte_len
disable-enable_encrypted_dns_example =
    disable-enable_encrypted_dns parse (record { stubby = true; dnscrypt = false }) config doh
      servers refl (conf, world_with-Editable dnsmasq_conf conf) refl servers_not_empty
      ((omega arith, refl), ((omega arith, refl), tt)) (omega arith)
