-- ===== src/Encrypted/Switch/Revert.antt =====
-- Switching encrypted DNS off takes the switching on back.
use srouter.Base.{
  true, false, List, [], ◌≡◌, ◌≢◌, refl, sym, ap, ◌∙◌, Option, Text, codes, All, map,
}
use srouter.Strings.Lines.{IsLine}
use srouter.World.{World, Result, ok, err, M, ◌>>◌, resume, Editable}
use srouter.Dns.{
  UpstreamServer, dnsmasq_conf, get_upstream_servers, set_upstream_servers, server_line,
}
use srouter.Dns.Upstream.{
  trimmed, set_upstream_servers_after, reload_dnsmasq-Editable, get_upstream_servers-Editable,
  get_upstream_servers-set_upstream_servers,
}
use srouter.Encrypted.{
  DohConfig, Installed, plain, restore_upstreams, stash_upstreams, set_strict_order,
}
use srouter.Encrypted.Stash.{IsListable, tidied, restore_upstreams-stash_upstreams}
use srouter.Encrypted.Strict.{set_strict_order-Editable, set_strict_order_after}
use srouter.Encrypted.Stamp.{Url}
use srouter.Encrypted.Switch.{
  Doh, try_run, service_down, stop_and_restore, finish_disable, enable_encrypted_dns,
  disable_encrypted_dns, enabled_config, servers_read,
}
use srouter.Encrypted.Switch.Keep.{Kept, service_down-Keeps, start_and_point-Keeps}

service_down_ok : (svc : Text) (w : World) → service_down svc w ≡ ((service_down svc w).0, ok tt)
unfolding service_down try_run
service_down_ok svc w = refl

then_ok :
    {B : Type 0} (m : M (Unit {0})) (n : M B) (w : World) {w' : World}
    → m w ≡ (w', ok tt)
    → (m >> n) w ≡ n w'
then_ok m n w h = ap (λ x. resume (λ _. n) x.0 x.1) h

-- the world in which the servers are put back
abbrev halted : World → World
halted w = (service_down (codes "dnscrypt-proxy") (service_down (codes "stubby") w).0).0

halted-Kept : (w : World) → Kept w → Kept (halted w)
halted-Kept w k =
    (service_down-Keeps (codes "dnscrypt-proxy")).kept _
      ((service_down-Keeps (codes "stubby")).kept w k)

stop_and_restore-Kept :
    (cfg : DohConfig) (w : World)
    → Kept w
    → stop_and_restore cfg w
      ≡ set_upstream_servers
          (restore_upstreams cfg.stashed_upstreams)
          (set_strict_order false (halted w)).0
unfolding stop_and_restore
stop_and_restore-Kept cfg w k =
    let put_back = set_upstream_servers (restore_upstreams cfg.stashed_upstreams) in
    let half = (service_down (codes "stubby") w).0 in
    then_ok (service_down (codes "stubby"))
      (service_down (codes "dnscrypt-proxy") >> (set_strict_order false >> put_back)) w
      (service_down_ok (codes "stubby") w)
    ∙ then_ok (service_down (codes "dnscrypt-proxy")) (set_strict_order false >> put_back) half
        (service_down_ok (codes "dnscrypt-proxy") half)
    ∙ then_ok (set_strict_order false) put_back (halted w) strict_ok
  where
    strict_ok : set_strict_order false (halted w) ≡ ((set_strict_order false (halted w)).0, ok tt)
    strict_ok = rw (set_strict_order-Editable false (halted-Kept w k).1) refl

finish_disable-Editable :
    (s : Doh) (w : World) (r : Result (Unit {0})) {t : Text}
    → Editable w dnsmasq_conf t
    → Editable (finish_disable s w r).0.world dnsmasq_conf t
unfolding finish_disable
finish_disable-Editable s w (ok _) e = reload_dnsmasq-Editable e
finish_disable-Editable s w (err f) e = e

-- Switching off, where the database answers and dnsmasq.conf can be read and written, puts the
-- stashed servers back: they are what is then read, trimmed at the right end, even if a command
-- fails. Each line `server=<address>` must hold no line end and fit the scanner's buffer.
pub get_upstream_servers-disable_encrypted_dns :
    (s : Doh)
    → s.answers ≡ true
    → Kept s.world
    → All IsLine (map server_line (restore_upstreams s.row.stashed_upstreams))
    → (get_upstream_servers (disable_encrypted_dns s).0.world).1
      ≡ ok (map trimmed (restore_upstreams s.row.stashed_upstreams))
get_upstream_servers-disable_encrypted_dns s up k lines =
    let stashed = restore_upstreams s.row.stashed_upstreams in
    let halted_there = halted-Kept s.world k in
    let there = set_strict_order_after false halted_there.1 in
    let after = set_upstream_servers_after stashed there in
    let set = set_upstream_servers stashed (set_strict_order false (halted s.world)).0 in
    ap (λ d. (get_upstream_servers d.world).1) (finished (stop_and_restore-Kept s.row s.world k))
    ∙ ap (λ x. x.1) (get_upstream_servers-Editable (finish_disable-Editable s set.0 set.1 after))
    ∙ sym (ap (λ x. x.1) (get_upstream_servers-Editable after))
    ∙ get_upstream_servers-set_upstream_servers stashed there lines
  where
    finished :
        {x : World × Result (Unit {0})}
        → stop_and_restore s.row s.world ≡ x
        → (disable_encrypted_dns s).0 ≡ (finish_disable s x.0 x.1).0
    finished h = unfold disable_encrypted_dns in rw (up, h) refl

enabled_row :
    (parse_url : Text → Option Url) (i : Installed) (cfg : DohConfig) (s : Doh)
    (current : List UpstreamServer)
    → s.answers ≡ true
    → (get_upstream_servers s.world).1 ≡ ok current
    → ((enable_encrypted_dns parse_url i cfg s).0.row.stashed_upstreams
        ≡ stash_upstreams current cfg.stashed_upstreams)
      × ((enable_encrypted_dns parse_url i cfg s).0.answers ≡ true)
unfolding enable_encrypted_dns
enabled_row parse_url i cfg s current up h =
    unfold enabled_config servers_read in rw (up, h) (refl, refl)

enabled-Kept :
    (parse_url : Text → Option Url) (i : Installed) (cfg : DohConfig) (s : Doh)
    → s.answers ≡ true
    → Kept s.world
    → Kept (enable_encrypted_dns parse_url i cfg s).0.world
unfolding enable_encrypted_dns
enabled-Kept parse_url i cfg s up k = rw up ((start_and_point-Keeps parse_url i _).kept s.world k)

-- Switching encrypted DNS on and then off gives the plain servers back that were there before, in
-- their order, with white space around them cut off, whatever fails on the way but the database and
-- the access to dnsmasq.conf. There must be one that is not one of the proxies; none of them may
-- hold a comma, be blank, or make a line that the scanner cannot read.
pub disable-enable_encrypted_dns :
    (parse_url : Text → Option Url) (i : Installed) (cfg : DohConfig) (s : Doh)
    (current : List UpstreamServer)
    → s.answers ≡ true
    → Kept s.world
    → (get_upstream_servers s.world).1 ≡ ok current
    → plain current ≢ []
    → All IsListable (plain current)
    → All IsLine (map server_line (map tidied (plain current)))
    → (get_upstream_servers
        (disable_encrypted_dns (enable_encrypted_dns parse_url i cfg s).0).0.world).1
      ≡ ok (map trimmed (map tidied (plain current)))
disable-enable_encrypted_dns parse_url i cfg s current up k h ne listable lines =
    let (row, still_up) = enabled_row parse_url i cfg s current up h in
    let back =
      ap restore_upstreams row
      ∙ restore_upstreams-stash_upstreams current cfg.stashed_upstreams ne listable in
    get_upstream_servers-disable_encrypted_dns (enable_encrypted_dns parse_url i cfg s).0 still_up
      (enabled-Kept parse_url i cfg s up k) (rw back lines)
    ∙ rw back refl
