-- ===== src/Encrypted.antt =====
-- internal/system/doh.go: DNS over TLS by stubby and over HTTPS by dnscrypt-proxy, the change of
-- dnsmasq.conf when they are switched on and off, and the configuration row.
pub mod Stash
pub mod Newline
pub mod Strict
pub mod Stamp
pub mod Switch
use srouter.Base.{
  ℕ, ◌+◌, Bool, true, false, not, List, [], ◌∷◌, ◌++◌, Option, none, some, if◌then◌else◌, Text,
  codes, text_eq, collect, map, keep, ◌||◌,
}
use srouter.Strings.{trim_space, split, join, has_suffix, scan_lines}
use srouter.Strings.Lines.{write_lines, edit}
use srouter.World.{
  World, Result, ok, err, query_failed, M, ◌>>=◌, ◌>>◌, pure, open_file, opened, write_file, run,
  mkdir_all,
}
use srouter.Dns.{
  UpstreamServer, dnsmasq_conf, get_upstream_servers, set_upstream_servers, reload_dnsmasq,
}

abbrev pub stubby_listen : Text
stubby_listen = codes "127.0.0.1#5353"

abbrev pub dnscrypt_listen : Text
dnscrypt_listen = codes "127.0.0.1#5454"

-- what the two proxies' templates are filled with
pub record DohProvider : Type 0 where
  pub id : Text
  pub dot_addrs : List Text
  pub dot_name : Text
  pub doh_name : Text
  pub doh_url : Text

abbrev pub builtin : Text → List Text → Text → Text → DohProvider
builtin id addrs dot_name doh_name = record {
  id = id;
  dot_addrs = addrs;
  dot_name = dot_name;
  doh_name = doh_name;
  doh_url = [];
}

-- `BuiltinProviders`, without the labels of the page
abbrev pub builtin_providers : List DohProvider
builtin_providers =
    builtin (codes "cloudflare") (codes "1.1.1.1" ∷ codes "1.0.0.1" ∷ [])
      (codes "cloudflare-dns.com") (codes "cloudflare")
    ∷ builtin (codes "google") (codes "8.8.8.8" ∷ codes "8.8.4.4" ∷ []) (codes "dns.google")
        (codes "google")
    ∷ builtin (codes "quad9") (codes "9.9.9.9" ∷ codes "149.112.112.112" ∷ [])
        (codes "dns.quad9.net") (codes "quad9-doh-ip4-port443-nofilter-pri")
    ∷ builtin (codes "adguard") (codes "94.140.14.14" ∷ codes "94.140.15.15" ∷ [])
        (codes "dns.adguard.com") (codes "adguard-dns-unfiltered-doh")
    ∷ builtin (codes "custom") [] [] []
    ∷ []

pub record DohConfig : Type 0 where
  pub enabled : Bool
  pub provider_id : Text
  pub fallback_to_plain : Bool
  pub stashed_upstreams : Text
  pub custom_dot_ip : Text
  pub custom_dot_tls_name : Text
  pub custom_doh_url : Text

unfoldable pub provider_by_id : Text → List DohProvider → Option DohProvider
provider_by_id id [] = none
provider_by_id id (p ∷ ps) =
    let rest = provider_by_id id ps in if text_eq p.id id then some p else rest

abbrev pub custom_provider : DohConfig → DohProvider
custom_provider cfg = record {
  id = codes "custom";
  dot_addrs = cfg.custom_dot_ip ∷ [];
  dot_name = cfg.custom_dot_tls_name;
  doh_name = [];
  doh_url = cfg.custom_doh_url;
}

unfoldable pub found_or_custom : DohConfig → Option DohProvider → DohProvider
found_or_custom cfg none = custom_provider cfg
found_or_custom cfg (some p) = p

unfoldable pub resolve_provider : DohConfig → DohProvider
unfolding found_or_custom provider_by_id
resolve_provider cfg =
    if text_eq cfg.provider_id (codes "custom")
    then custom_provider cfg
    else found_or_custom cfg (provider_by_id cfg.provider_id builtin_providers)

unfoldable pub is_stub : UpstreamServer → Bool
is_stub s = text_eq s.address stubby_listen || text_eq s.address dnscrypt_listen

abbrev pub plain : List UpstreamServer → List UpstreamServer
plain servers = keep (λ s. not (is_stub s)) servers

unfoldable pub joined_or : Text → List Text → Text
joined_or previous [] = previous
joined_or previous (a ∷ addrs) = join (codes ",") (a ∷ addrs)

unfoldable pub stash_upstreams : List UpstreamServer → Text → Text
unfolding joined_or is_stub
stash_upstreams current previous = joined_or previous (map (λ s. s.address) (plain current))

-- what one part adds to the result of `restoreUpstreams`
unfoldable pub restored_part : Text → Option UpstreamServer
restored_part p =
    if text_eq (trim_space p) [] then none else some (record { address = trim_space p })

unfoldable pub or_public : List UpstreamServer → List UpstreamServer
or_public [] = record { address = codes "1.1.1.1" } ∷ record { address = codes "8.8.8.8" } ∷ []
or_public (s ∷ servers) = s ∷ servers

unfoldable pub restore_upstreams : Text → List UpstreamServer
unfolding or_public restored_part
restore_upstreams stashed = or_public (collect restored_part (split b',' stashed))

abbrev pub strict_order : Text
strict_order = codes "strict-order"

unfoldable pub is_strict_order : Text → Bool
is_strict_order line = text_eq (trim_space line) strict_order

unfoldable pub end_with_newline : Text → Text
end_with_newline out = if has_suffix out (codes "\n") then out else out ++ codes "\n"

-- the new content of dnsmasq.conf in `setStrictOrder`
unfoldable pub reordered : Bool → Text → Text
unfolding end_with_newline is_strict_order
reordered enable s = end_with_newline (
    join (codes "\n") (
      (if enable then strict_order ∷ [] else [])
      ++ keep (λ line. not (is_strict_order line)) (scan_lines s)))

unfoldable pub set_strict_order : Bool → M (Unit {0})
unfolding reordered
set_strict_order enable = do
  f ← open_file dnsmasq_conf
  s ← opened f
  write_file dnsmasq_conf (reordered enable s)

-- Which of the two programs are installed.
pub record Installed : Type 0 where
  pub stubby : Bool
  pub dnscrypt : Bool

unfoldable pub build_encrypted_servers : Installed → DohConfig → List UpstreamServer
unfolding restore_upstreams
build_encrypted_servers i cfg =
    (if i.stubby then record { address = stubby_listen } ∷ [] else [])
    ++ ((if i.dnscrypt then record { address = dnscrypt_listen } ∷ [] else [])
        ++ (if cfg.fallback_to_plain then restore_upstreams cfg.stashed_upstreams else []))
