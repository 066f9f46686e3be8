-- ===== src/Handlers/EncryptedDns.antt =====
-- internal/handler/doh.go: the switch and the settings of encrypted DNS. Which of the two proxies are
-- installed is a parameter, as in Encrypted/Switch.
pub mod Stashed
use srouter.Base.{
  Bool, true, false, not, ◌&&◌, ◌||◌, List, [], Option, none, some, if◌then◌else◌, Text, codes,
  text_eq,
}
use srouter.World.{World, Result, ok, err, query_failed}
use srouter.Encrypted.{DohConfig, Installed}
use srouter.Encrypted.Stamp.{Url}
use srouter.Encrypted.Switch.{Doh, enable_encrypted_dns, disable_encrypted_dns}
use srouter.Handlers.{Message, required, failed, saved, applied, Reply, json, Form}

abbrev pub Done : Type 0
Done = Doh × Reply (Unit {0})

unfoldable pub provider_or_default : Text → Text
provider_or_default p = if text_eq p [] then codes "cloudflare" else p

-- the settings of a form, with what the handler adds
unfoldable pub config_of_form : Form → Bool → Text → DohConfig
unfolding provider_or_default
config_of_form form on stashed = record {
  enabled = on;
  provider_id = provider_or_default (form (codes "provider"));
  fallback_to_plain = text_eq (form (codes "fallback")) (codes "1");
  stashed_upstreams = stashed;
  custom_dot_ip = form (codes "custom_dot_ip");
  custom_dot_tls_name = form (codes "custom_dot_tls_name");
  custom_doh_url = form (codes "custom_doh_url");
}

-- `GetDoHStatus`: nothing is installed where the database does not answer
unfoldable pub installed_seen : Installed → Doh → Installed
installed_seen i s = if s.answers then i else record { stubby = false; dnscrypt = false }

-- whether a setting of a custom provider is missing
unfoldable pub lacks_custom : Installed → DohConfig → Bool
lacks_custom i cfg =
    text_eq cfg.provider_id (codes "custom")
    && ((i.stubby && (text_eq cfg.custom_dot_ip [] || text_eq cfg.custom_dot_tls_name []))
        || (i.dnscrypt && text_eq cfg.custom_doh_url []))

unfoldable pub finish : Message → Doh × Result (Unit {0}) → Done
finish m (s, ok _) = (s, json true m)
finish m (s, err e) = (s, json false failed)

-- `toggle`
unfoldable pub toggle : (Text → Option Url) → Installed → Form → Doh → Done
unfolding config_of_form installed_seen lacks_custom finish
toggle parse_url i form s =
    if text_eq (form (codes "enabled")) (codes "1")
    then (if not ((installed_seen i s).stubby || (installed_seen i s).dnscrypt)
        then (s, json false required)
        else if lacks_custom (installed_seen i s) (config_of_form form false [])
        then (s, json false required)
        else finish saved (enable_encrypted_dns parse_url i (config_of_form form false []) s))
    else finish saved (disable_encrypted_dns s)

-- `SaveDoHConfig`
unfoldable pub save_doh_config : DohConfig → Doh → Doh × Result (Unit {0})
save_doh_config cfg s = if s.answers then (record s { row = cfg }, ok tt) else (s, err query_failed)

-- `saveConfig`
unfoldable pub save_config : (Text → Option Url) → Installed → Form → Doh → Done
unfolding config_of_form finish save_doh_config
save_config parse_url i form s =
    if not s.answers
    then (s, json false failed)
    else if s.row.enabled
    then finish applied (
        enable_encrypted_dns parse_url i (config_of_form form s.row.enabled s.row.stashed_upstreams)
          s)
    else finish saved
        (save_doh_config (config_of_form form s.row.enabled s.row.stashed_upstreams) s)
