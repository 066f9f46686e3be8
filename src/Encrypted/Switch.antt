-- ===== src/Encrypted/Switch.antt =====
-- `EnableEncryptedDNS` and `DisableEncryptedDNS` of internal/system/doh.go, with the configuration
-- files of stubby and dnscrypt-proxy.
pub mod Keep
pub mod Revert
use srouter.Base.{
  ℕ, Bool, true, false, List, [], ◌∷◌, ◌++◌, Option, none, some, if◌then◌else◌, Text, codes,
  text_eq,
}
use srouter.Strings.Lines.{unlines}
use srouter.World.{
  World, Result, ok, err, query_failed, M, ◌>>=◌, ◌>>◌, pure, fail, resume, write_file, run,
  mkdir_all,
}
use srouter.Dns.{UpstreamServer, get_upstream_servers, set_upstream_servers, reload_dnsmasq}
use srouter.Encrypted.{
  DohProvider, DohConfig, Installed, resolve_provider, stash_upstreams, restore_upstreams,
  set_strict_order, build_encrypted_servers,
}
use srouter.Encrypted.Stamp.{Url, build_doh_stamp}

abbrev pub stubby_conf : Text
stubby_conf = codes "/etc/stubby/stubby.yml"

abbrev pub dnscrypt_conf : Text
dnscrypt_conf = codes "/etc/dnscrypt-proxy/dnscrypt-proxy.toml"

unfoldable pub stubby_upstreams : Text → List Text → List Text
stubby_upstreams name [] = []
stubby_upstreams name (a ∷ addrs) =
    (codes "  - address_data: " ++ a)
    ∷ (codes "    tls_auth_name: \"" ++ (name ++ codes "\""))
    ∷ codes "    tls_port: 853"
    ∷ stubby_upstreams name addrs

-- `stubbyTmpl`, filled in
unfoldable pub stubby_text : DohProvider → Text
unfolding stubby_upstreams
stubby_text p = unlines (
    codes "## Generated by srouter — do not edit manually"
    ∷ codes "resolution_type: GETDNS_RESOLUTION_STUB"
    ∷ codes "dns_transport_list:"
    ∷ codes "  - GETDNS_TRANSPORT_TLS"
    ∷ codes "tls_authentication: GETDNS_AUTHENTICATION_REQUIRED"
    ∷ codes "listen_addresses:"
    ∷ codes "  - 127.0.0.1@5353"
    ∷ codes "idle_timeout: 10000"
    ∷ codes "upstream_recursive_servers:"
    ∷ stubby_upstreams p.dot_name p.dot_addrs)

-- the lines that both templates of dnscrypt-proxy begin with
unfoldable pub dnscrypt_lines : Text → List Text → List Text
dnscrypt_lines server rest =
    codes "## Generated by srouter — do not edit manually"
    ∷ []
    ∷ codes "listen_addresses = ['127.0.0.1:5454']"
    ∷ (codes "server_names = ['" ++ (server ++ codes "']"))
    ∷ []
    ∷ codes "fallback_resolvers = ['9.9.9.9:53', '8.8.8.8:53']"
    ∷ codes "ignore_system_dns = true"
    ∷ codes "cache = false"
    ∷ codes "log_level = 2"
    ∷ []
    ∷ rest

-- `dnscryptBuiltinTmpl`, filled in
unfoldable pub dnscrypt_builtin_text : DohProvider → Text
unfolding dnscrypt_lines
dnscrypt_builtin_text p = unlines (
    dnscrypt_lines p.doh_name (
      codes "[sources]"
      ∷ codes "  [sources.public-resolvers]"
      ∷ codes "  urls = ['https://download.dnscrypt.info/resolvers-list/v3/public-resolvers.md',"
      ∷ codes
          "          'https://raw.githubusercontent.com/DNSCrypt/dnscrypt-resolvers/master/v3/public-resolvers.md']"
      ∷ codes "  cache_file = '/var/cache/dnscrypt-proxy/public-resolvers.md'"
      ∷ codes "  minisign_key = 'RWQf6LRCGA9i53mlYecO4IzT51TGPpvWucNSCh1CBM0QTaLn73Y7GFO3'"
      ∷ codes "  refresh_delay = 72"
      ∷ []))

-- `dnscryptCustomTmpl`, filled in
unfoldable pub dnscrypt_custom_text : Text → Text
unfolding dnscrypt_lines
dnscrypt_custom_text stamp = unlines (
    dnscrypt_lines (codes "custom") (
      codes "[static]"
      ∷ codes "  [static.custom]"
      ∷ (codes "  stamp = '" ++ (stamp ++ codes "'"))
      ∷ []))

unfoldable pub write_stubby_config : DohProvider → M (Unit {0})
unfolding stubby_text
write_stubby_config p = do mkdir_all (codes "/etc/stubby"); write_file stubby_conf (stubby_text p)

unfoldable pub dnscrypt_text : (Text → Option Url) → DohProvider → Result Text
unfolding dnscrypt_builtin_text
dnscrypt_text parse_url p =
    if text_eq p.doh_url []
    then ok (dnscrypt_builtin_text p)
    else elim (build_doh_stamp parse_url p.doh_url) [
      | ok stamp ↦ ok (dnscrypt_custom_text stamp)
      | err e ↦ err e
    ]

abbrev pub lifted : {A : Type 0} → Result A → M A
lifted (ok a) = pure a
lifted (err e) = fail e

unfoldable pub write_doh_proxy_config : (Text → Option Url) → DohProvider → M (Unit {0})
unfolding dnscrypt_text
write_doh_proxy_config parse_url p = do
  mkdir_all (codes "/etc/dnscrypt-proxy")
  mkdir_all (codes "/var/cache/dnscrypt-proxy")
  t ← lifted (dnscrypt_text parse_url p)
  write_file dnscrypt_conf t

-- a command whose error is ignored
unfoldable pub try_run : List Text → M (Unit {0})
try_run argv w = ((run argv w).0, ok tt)

unfoldable pub service_up : Text → M (Unit {0})
unfolding try_run
service_up svc = do
  try_run (codes "rc-service" ∷ svc ∷ codes "start" ∷ [])
  try_run (codes "rc-update" ∷ codes "add" ∷ svc ∷ codes "default" ∷ [])

unfoldable pub service_down : Text → M (Unit {0})
unfolding try_run
service_down svc = do
  try_run (codes "rc-service" ∷ svc ∷ codes "stop" ∷ [])
  try_run (codes "rc-update" ∷ codes "del" ∷ svc ∷ [])

-- the part of `EnableEncryptedDNS` behind the database
unfoldable pub start_and_point : (Text → Option Url) → Installed → DohConfig → M (Unit {0})
unfolding write_stubby_config write_doh_proxy_config service_up
start_and_point parse_url i cfg = do
  (if i.stubby
      then (do write_stubby_config (resolve_provider cfg); service_up (codes "stubby"))
      else pure tt)
  (if i.dnscrypt
      then (do
        write_doh_proxy_config parse_url (resolve_provider cfg)
        service_up (codes "dnscrypt-proxy"))
      else pure tt)
  set_upstream_servers (build_encrypted_servers i cfg)
  set_strict_order true
  reload_dnsmasq

-- The configuration row, whether the database answers, and the world.
pub record Doh : Type 0 where
  pub row : DohConfig
  pub answers : Bool
  pub world : World

-- the servers read, or none if they cannot be read
unfoldable pub servers_read : Result (List UpstreamServer) → List UpstreamServer
servers_read (ok servers) = servers
servers_read (err e) = []

-- the row that `EnableEncryptedDNS` saves
unfoldable pub enabled_config : List UpstreamServer → DohConfig → DohConfig
enabled_config current cfg = record cfg {
  stashed_upstreams = stash_upstreams current cfg.stashed_upstreams;
  enabled = true;
}

unfoldable pub enable_encrypted_dns :
    (Text → Option Url) → Installed → DohConfig → Doh → Doh × Result (Unit {0})
unfolding enabled_config servers_read start_and_point
enable_encrypted_dns parse_url i cfg s =
    if s.answers
    then (let cfg' = enabled_config (servers_read (get_upstream_servers s.world).1) cfg in
        let (w, r) = start_and_point parse_url i cfg' s.world in
        (record s { row = cfg'; world = w }, r))
    else (s, err query_failed)

-- the part of `DisableEncryptedDNS` before the row is saved
unfoldable pub stop_and_restore : DohConfig → M (Unit {0})
unfolding service_down
stop_and_restore cfg = do
  service_down (codes "stubby")
  service_down (codes "dnscrypt-proxy")
  set_strict_order false
  set_upstream_servers (restore_upstreams cfg.stashed_upstreams)

unfoldable pub finish_disable : Doh → World → Result (Unit {0}) → Doh × Result (Unit {0})
finish_disable s w (err e) = (record s { world = w }, err e)
finish_disable s w (ok _) =
    let (w', r) = reload_dnsmasq w in
    (record s { row = record s.row { enabled = false }; world = w' }, r)

unfoldable pub disable_encrypted_dns : Doh → Doh × Result (Unit {0})
unfolding finish_disable stop_and_restore
disable_encrypted_dns s =
    if s.answers
    then (let (w, r) = stop_and_restore s.row s.world in finish_disable s w r)
    else (s, err query_failed)
