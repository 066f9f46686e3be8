-- ===== src/Handlers/EncryptedDns/Stashed.antt =====
-- What becomes of the stashed servers when the form comes while encrypted DNS is on.
use srouter.Base.{ap, true, false, ◌||◌, List, [], ◌≡◌, refl, ◌∙◌, Option, Text, codes, text_eq}
use srouter.World.{Result, ok, err}
use srouter.Dns.{UpstreamServer, get_upstream_servers}
use srouter.Encrypted.{DohConfig, Installed, stash_upstreams, plain, joined_or}
use srouter.Encrypted.Stamp.{Url}
use srouter.Encrypted.Switch.{Doh, enable_encrypted_dns, enabled_config, servers_read}
use srouter.Handlers.{Message, saved, Form}
use srouter.Handlers.EncryptedDns.{toggle, finish, config_of_form, installed_seen, lacks_custom}

enable_row :
    (parse_url : Text → Option Url) (i : Installed) (cfg : DohConfig) (s : Doh)
    (current : List UpstreamServer)
    → s.answers ≡ true
    → (get_upstream_servers s.world).1 ≡ ok current
    → plain current ≡ []
    → (enable_encrypted_dns parse_url i cfg s).0.row.stashed_upstreams ≡ cfg.stashed_upstreams
unfolding enable_encrypted_dns enabled_config servers_read stash_upstreams joined_or
enable_row parse_url i cfg s current up read none_plain = rw (up, read, none_plain)

finish_state : (m : Message) (d : Doh × Result (Unit {0})) → (finish m d).0 ≡ d.0
unfolding finish
finish_state m (s, ok _) = refl
finish_state m (s, err e) = refl

-- Where only the proxies are left as upstream servers, as while encrypted DNS is on: to switch it on
-- once more forgets the stashed servers, if the form is complete and a proxy is installed.
pub toggle_forgets :
    (parse_url : Text → Option Url) (i : Installed) (form : Form) (s : Doh)
    (current : List UpstreamServer)
    → s.answers ≡ true
    → (get_upstream_servers s.world).1 ≡ ok current
    → plain current ≡ []
    → text_eq (form (codes "enabled")) (codes "1") ≡ true
    → (i.stubby || i.dnscrypt) ≡ true
    → lacks_custom i (config_of_form form false []) ≡ false
    → (toggle parse_url i form s).0.row.stashed_upstreams ≡ []
unfolding toggle installed_seen
toggle_forgets parse_url i form s current up read none_plain on some_installed complete =
    simp (on, up, some_installed, complete)
      (ap (λ d. d.row.stashed_upstreams)
          (finish_state saved (enable_encrypted_dns parse_url i (config_of_form form false []) s))
        ∙ enable_row parse_url i (config_of_form form false []) s current up read none_plain)
