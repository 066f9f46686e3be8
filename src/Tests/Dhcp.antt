-- ===== src/Tests/Dhcp.antt =====
-- internal/system/dhcp.go, on small files.
use srouter.Base.{if◌then◌else◌}
use srouter.Strings.{equal_fold, to_lower, trim_space}
use srouter.Handlers.{Form}
use srouter.Handlers.Reservations.{reserve_form, reservation_of_form}
use srouter.Handlers.Reservations.Shown.{NoClash, reserve_form-NoClash}
use srouter.Base.{List, [], ◌∷◌, ◌≡◌, refl, arith, Text, codes, text_eq, collect, All}
use srouter.Strings.{byte_len, trim_right, scan_lines, trim_space, trim_prefix, split_n}
use srouter.Strings.Lines.{unlines}
use srouter.World.{ok, open_file, opened_or}
use srouter.Dns.{dnsmasq_conf}
use srouter.Dhcp.{
  Reservation, DhcpConfig, leases_file, get_leases, get_dhcp_config, save_dhcp_config, range_line,
  lease_time_or_day, reservations_file, get_reservations, delete_reservation, reservation_line,
  reservation_of_line,
}
use srouter.Dhcp.Range.{saved, get_dhcp_config-save_dhcp_config}
use srouter.Dhcp.Reservations.{Unmentioned, delete_reservation_removes}
use srouter.Numbers.{pos, parse_int, int_value}
use srouter.Strings.{fields}
use srouter.Tests.Worlds.{world_with, world_with-Editable}

abbrev conf : Text
conf = codes "server=8.8.8.8\ndhcp-range=10.0.0.50,10.0.0.99,12h\naddress=/nas/10.0.0.2\n"

abbrev range : DhcpConfig
range = record { range_start = codes "10.0.0.10"; range_end = codes "10.0.0.20"; lease_time = [] }

get_dhcp_config-save_dhcp_config_example :
    (get_dhcp_config (save_dhcp_config range (world_with dnsmasq_conf conf)).0).1 ≡ ok (saved range)
unfolding byte_len range_line lease_time_or_day text_eq trim_right
get_dhcp_config-save_dhcp_config_example =
    get_dhcp_config-save_dhcp_config range (world_with-Editable dnsmasq_conf conf) (omega arith)
      (omega arith) (omega arith) (omega arith)

abbrev reserved : List Text
reserved = codes "# fixed" ∷ codes "dhcp-host=aa:bb:cc:dd:ee:ff,10.0.0.2,nas" ∷ []

abbrev nas : Reservation
nas = record { mac = codes "aa:bb:cc:dd:ee:ff"; ip = codes "10.0.0.2"; hostname = codes "nas" }

abbrev tv : Reservation
tv = record { mac = codes "11:22:33:44:55:66"; ip = codes "10.0.0.3"; hostname = codes "tv" }

reserved_read :
    (get_reservations (world_with reservations_file (unlines reserved))).1 ≡ ok (nas ∷ [])
unfolding collect get_reservations open_file opened_or text_eq scan_lines reservation_of_line
    trim_space split_n trim_prefix unlines
reserved_read = refl

abbrev tv_form : Form
tv_form key =
    if text_eq key (codes "mac")
    then tv.mac
    else if text_eq key (codes "ip")
    then tv.ip
    else tv.hostname

reserve_form-NoClash_example :
    (qs : List Reservation) × ((get_reservations
        (reserve_form
          (λ c. c)
          (λ c. c)
          tv_form
          (world_with reservations_file (unlines reserved))).0).1
      ≡ ok qs)
    × NoClash (λ c. c) qs
unfolding byte_len reservation_line reservation_of_form text_eq trim_space to_lower equal_fold
reserve_form-NoClash_example =
    reserve_form-NoClash (λ c. c) (λ c. c) tv_form reserved (nas ∷ [])
      (world_with-Editable reservations_file (unlines reserved)) reserved_read (omega arith)
      (omega arith) (omega arith) (omega arith) (tt, tt)

delete_reservation_removes_example :
    (rs : List Reservation) × ((get_reservations
        (delete_reservation
          (λ c. c)
          (codes "AA:bb")
          (world_with reservations_file (unlines reserved))).0).1
      ≡ ok rs)
    × All (Unmentioned (λ c. c) (codes "AA:bb")) rs
delete_reservation_removes_example =
    delete_reservation_removes (λ c. c) (codes "AA:bb")
      (world_with-Editable reservations_file (unlines reserved))

leases_read :
    (get_leases
      (world_with leases_file (codes "1700000000 aa:bb 10.0.0.2 * 01:aa\nshort line\n"))).1
    ≡ ok (
        record {
          expiry = pos 1700000000;
          mac = codes "aa:bb";
          ip = codes "10.0.0.2";
          hostname = [];
        }
        ∷ [])
unfolding collect get_leases open_file opened_or text_eq scan_lines fields parse_int int_value
leases_read = refl
