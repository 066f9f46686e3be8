-- ===== src/Handlers/DnsRecords.antt =====
-- internal/handler/dns.go: the upstream servers and the local records of the page, set by forms.
pub mod Shown
pub mod Upstream
pub mod Injection
use srouter.Base.{
  ℕ, Bool, true, false, ◌||◌, List, [], ◌∷◌, Option, none, some, if◌then◌else◌, Text, codes,
  text_eq,
}
use srouter.Strings.{trim_space, equal_fold}
use srouter.World.{World, M}
use srouter.Dns.{
  UpstreamServer, LocalEntry, get_upstream_servers, get_local_entries, set_upstream_servers,
  add_local_entry, delete_local_entry, reload_dnsmasq,
}
use srouter.Validate.{Net, Invalid, validate_dns_server}
use srouter.Handlers.{
  Message, required, failed, duplicate, not_valid, saved, Reply, http_error, json, page, Form,
  Handler, attempt, items, reply,
}

pub record DnsPage : Type 0 where
  pub upstream : List UpstreamServer
  pub entries : List LocalEntry

unfoldable pub show : Handler DnsPage
unfolding items
show w = (
  w,
  page (record {
    upstream = items (get_upstream_servers w).1;
    entries = items (get_local_entries w).1;
  }),
)

-- what the loop of `setUpstream` ends with: an error, or the servers
pub data Servers : Type 0 where
  refused : Invalid → Servers
  accepted : List UpstreamServer → Servers

unfoldable pub with_server : Option Invalid → Text → Servers → Servers
with_server (some e) addr rest = refused e
with_server none addr (refused e) = refused e
with_server none addr (accepted us) = accepted (record { address = addr } ∷ us)

unfoldable pub servers_of_form : Net → List Text → Servers
unfolding trim_space with_server validate_dns_server
servers_of_form net [] = accepted []
servers_of_form net (a ∷ addrs) =
    let rest = servers_of_form net addrs in
    if text_eq (trim_space a) []
    then rest
    else with_server (validate_dns_server net (trim_space a)) (trim_space a) rest

unfoldable pub set_servers : Servers → Handler (Unit {0})
unfolding attempt
set_servers (refused e) = reply (json false (not_valid e))
set_servers (accepted us) =
    attempt (set_upstream_servers us) (json false failed) (λ _. reply (json true saved))

-- `setUpstream`, with the values of `server`
unfoldable pub set_upstream : Net → List Text → Handler (Unit {0})
unfolding set_servers servers_of_form
set_upstream net addrs = set_servers (servers_of_form net addrs)

-- whether the loop of `addEntry` finds the name
unfoldable pub has_hostname : (ℕ → ℕ) → Text → List LocalEntry → Bool
unfolding equal_fold
has_hostname wide host [] = false
has_hostname wide host (e ∷ es) = equal_fold wide e.hostname host || has_hostname wide host es

-- an operation whose error is dropped
abbrev pub ignoring : {A : Type 0} → M (Unit {0}) → Reply A → Handler A
ignoring m r w = ((m w).0, r)

unfoldable pub add_unless : Bool → LocalEntry → Handler LocalEntry
unfolding attempt
add_unless true e = reply (json false duplicate)
add_unless false e =
    attempt (add_local_entry e) (json false failed) (λ _. ignoring reload_dnsmasq (page e))

unfoldable pub add_record : (ℕ → ℕ) → LocalEntry → Handler LocalEntry
unfolding add_unless has_hostname items
add_record wide e w =
    if text_eq e.hostname [] || text_eq e.ip []
    then (w, json false required)
    else add_unless (has_hostname wide e.hostname (items (get_local_entries w).1)) e w

unfoldable pub entry_of_form : Form → LocalEntry
unfolding trim_space
entry_of_form form = record {
  hostname = trim_space (form (codes "hostname"));
  ip = trim_space (form (codes "ip"));
}

-- `addEntry`
unfoldable pub add_entry : (ℕ → ℕ) → Form → Handler LocalEntry
unfolding entry_of_form add_record
add_entry wide form = add_record wide (entry_of_form form)

-- `deleteEntry`
unfoldable pub delete_entry : Text → Handler (Unit {0})
unfolding attempt
delete_entry hostname =
    attempt (delete_local_entry hostname) (http_error 500 failed)
      (λ _. ignoring reload_dnsmasq (page tt))
