-- ===== src/Handlers/Reservations.antt =====
-- internal/handler/dhcp.go: leases, reservations and the address range of the page, set by forms.
pub mod Shown
use srouter.Base.{
  ℕ, Bool, true, false, ◌||◌, List, [], ◌∷◌, Option, none, some, if◌then◌else◌, Text, codes,
  text_eq,
}
use srouter.Strings.{trim_space, to_lower, equal_fold}
use srouter.World.{World, M, Result, ok, err}
use srouter.Dns.{reload_dnsmasq}
use srouter.Dhcp.{
  Lease, Reservation, DhcpConfig, get_leases, get_reservations, get_dhcp_config, add_reservation,
  delete_reservation, save_dhcp_config, no_config,
}
use srouter.Handlers.{
  Message, required, failed, duplicate, saved, Reply, http_error, json, page, Form, Handler,
  attempt, items, reply,
}
use srouter.Handlers.DnsRecords.{ignoring}

unfoldable pub config_or_zero : Result DhcpConfig → DhcpConfig
config_or_zero (ok cfg) = cfg
config_or_zero (err e) = no_config

pub record DhcpPage : Type 0 where
  pub leases : List Lease
  pub reservations : List Reservation
  pub config : DhcpConfig

unfoldable pub show : Handler DhcpPage
unfolding items config_or_zero
show w = (
  w,
  page (record {
    leases = items (get_leases w).1;
    reservations = items (get_reservations w).1;
    config = config_or_zero (get_dhcp_config w).1;
  }),
)

-- whether the loop of `addReservation` finds the MAC or the IP; `fold` is the table of
-- `strings.EqualFold` beyond ASCII
unfoldable pub is_reserved : (ℕ → ℕ) → Reservation → List Reservation → Bool
unfolding equal_fold
is_reserved fold r [] = false
is_reserved fold r (e ∷ es) =
    equal_fold fold e.mac r.mac || text_eq e.ip r.ip || is_reserved fold r es

unfoldable pub reserve_unless : Bool → Reservation → Handler Reservation
unfolding attempt
reserve_unless true r = reply (json false duplicate)
reserve_unless false r =
    attempt (add_reservation r) (json false failed) (λ _. ignoring reload_dnsmasq (page r))

unfoldable pub reserve : (ℕ → ℕ) → Reservation → Handler Reservation
unfolding reserve_unless is_reserved items
reserve fold r w =
    if text_eq r.mac [] || text_eq r.ip []
    then (w, json false required)
    else reserve_unless (is_reserved fold r (items (get_reservations w).1)) r w

unfoldable pub reservation_of_form : (ℕ → ℕ) → Form → Reservation
unfolding trim_space to_lower
reservation_of_form wide form = record {
  mac = to_lower wide (trim_space (form (codes "mac")));
  ip = trim_space (form (codes "ip"));
  hostname = trim_space (form (codes "hostname"));
}

-- `addReservation`; `wide` is the table of `strings.ToLower` beyond ASCII
unfoldable pub reserve_form : (ℕ → ℕ) → (ℕ → ℕ) → Form → Handler Reservation
unfolding reservation_of_form reserve
reserve_form wide fold form = reserve fold (reservation_of_form wide form)

-- `deleteReservation`
unfoldable pub release : (ℕ → ℕ) → Text → Handler (Unit {0})
unfolding attempt
release wide mac =
    attempt (delete_reservation wide mac) (http_error 500 failed)
      (λ _. ignoring reload_dnsmasq (page tt))

-- `saveConfig`
unfoldable pub save_config : Form → Handler (Unit {0})
unfolding attempt
save_config form =
    attempt
      (save_dhcp_config (record {
        range_start = form (codes "range_start");
        range_end = form (codes "range_end");
        lease_time = form (codes "lease_time");
      }))
      (json false failed) (λ _. ignoring reload_dnsmasq (json true saved))
