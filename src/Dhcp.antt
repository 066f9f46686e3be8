-- ===== src/Dhcp.antt =====
-- internal/system/dhcp.go: leases, reservations and the address range of dnsmasq.
pub mod Reservations
pub mod Range
use srouter.Base.{
  ℕ, Bool, true, false, not, ◌||◌, List, [], ◌∷◌, ◌++◌, Option, none, some, if◌then◌else◌, Text,
  codes, text_eq, collect,
}
use srouter.Strings.{
  has_prefix, trim_prefix, trim_space, split, split_n, scan_lines, fields, contains, to_lower,
}
use srouter.Strings.Lines.{edit}
use srouter.Numbers.{ℤ, parse_int, int_value}
use srouter.World.{
  M, pure, fail, open_failed, ◌>>=◌, ◌>>◌, Reading, absent, denied, content, open_file, opened,
  opened_or, write_file, append_file,
}
use srouter.Dns.{dnsmasq_conf}

abbrev pub leases_file : Text
leases_file = codes "/var/lib/misc/dnsmasq.leases"

abbrev pub reservations_file : Text
reservations_file = codes "/etc/dnsmasq.d/reservas.conf"

abbrev pub host_key : Text
host_key = codes "dhcp-host="

abbrev pub range_key : Text
range_key = codes "dhcp-range="

-- `expiry` is the Unix time of the Go field.
pub record Lease : Type 0 where
  pub expiry : ℤ
  pub mac : Text
  pub ip : Text
  pub hostname : Text

pub record Reservation : Type 0 where
  pub mac : Text
  pub ip : Text
  pub hostname : Text

pub record DhcpConfig : Type 0 where
  pub range_start : Text
  pub range_end : Text
  pub lease_time : Text

unfoldable pub lease_of_fields : List Text → Option Lease
lease_of_fields (t ∷ m ∷ i ∷ h ∷ _) = some (record {
  expiry = int_value t (parse_int t);
  mac = m;
  ip = i;
  hostname = if text_eq h (codes "*") then [] else h;
})
lease_of_fields _ = none

unfoldable pub get_leases : M (List Lease)
unfolding lease_of_fields
get_leases = do
  f ← open_file leases_file
  opened_or [] (λ s. collect (λ l. lease_of_fields (fields l)) (scan_lines s)) f

unfoldable pub reservation_of_parts : List Text → Option Reservation
reservation_of_parts [] = none
reservation_of_parts (m ∷ []) = none
reservation_of_parts (m ∷ i ∷ []) = some (record { mac = m; ip = i; hostname = [] })
reservation_of_parts (m ∷ i ∷ h ∷ []) = some (record { mac = m; ip = i; hostname = h })
reservation_of_parts (m ∷ i ∷ h ∷ x ∷ ps) = some (record { mac = m; ip = i; hostname = [] })

-- what one trimmed line adds to the result of `GetReservations`
unfoldable pub reservation_of_line : Text → Option Reservation
unfolding reservation_of_parts
reservation_of_line line =
    if text_eq line [] || has_prefix line (codes "#")
    then none
    else reservation_of_parts (split_n b',' 2 (trim_prefix line host_key))

abbrev pub reservation_row : Text → Option Reservation
reservation_row raw = reservation_of_line (trim_space raw)

unfoldable pub get_reservations : M (List Reservation)
get_reservations = do
  f ← open_file reservations_file
  opened_or [] (λ s. collect reservation_row (scan_lines s)) f

unfoldable pub reservation_line : Reservation → Text
reservation_line r = host_key ++ (r.mac ++ (b',' ∷ (r.ip ++ (b',' ∷ r.hostname))))

unfoldable pub add_reservation : Reservation → M (Unit {0})
add_reservation r = append_file true reservations_file (reservation_line r ++ b'\n' ∷ [])

-- `wide` is the table of `unicode.ToLower` beyond ASCII.
unfoldable pub mentions : (ℕ → ℕ) → Text → Text → Bool
mentions wide mac line = contains (to_lower wide line) (to_lower wide mac)

unfoldable pub without_reservation : (ℕ → ℕ) → Text → Reading → M (Unit {0})
without_reservation wide mac absent = pure tt
without_reservation wide mac denied = fail open_failed
without_reservation wide mac (content s) =
    write_file reservations_file (edit (λ l. not (mentions wide mac l)) [] s)

unfoldable pub delete_reservation : (ℕ → ℕ) → Text → M (Unit {0})
unfolding without_reservation
delete_reservation wide mac = do f ← open_file reservations_file; without_reservation wide mac f

-- the configuration behind one `dhcp-range=` line
unfoldable pub range_of_parts : List Text → DhcpConfig → DhcpConfig
range_of_parts [] cfg = cfg
range_of_parts (a ∷ []) cfg = cfg
range_of_parts (a ∷ b ∷ []) cfg = record cfg { range_start = a; range_end = b }
range_of_parts (a ∷ b ∷ t ∷ _) cfg = record { range_start = a; range_end = b; lease_time = t }

unfoldable pub is_range_line : Text → Bool
is_range_line line = has_prefix (trim_space line) range_key

unfoldable pub read_range : Text → DhcpConfig → DhcpConfig
unfolding range_of_parts is_range_line
read_range raw cfg =
    if is_range_line raw
    then range_of_parts (split b',' (trim_prefix (trim_space raw) range_key)) cfg
    else cfg

-- the loop of `GetDHCPConfig`
unfoldable pub read_ranges : List Text → DhcpConfig → DhcpConfig
read_ranges [] cfg = cfg
read_ranges (l ∷ ls) cfg = read_ranges ls (read_range l cfg)

abbrev pub no_config : DhcpConfig
no_config = record { range_start = []; range_end = []; lease_time = [] }

unfoldable pub get_dhcp_config : M DhcpConfig
get_dhcp_config = do
  f ← open_file dnsmasq_conf
  s ← opened f
  pure (read_ranges (scan_lines s) no_config)

-- the lease time that is written: a day, if none is given
unfoldable pub lease_time_or_day : Text → Text
lease_time_or_day t = if text_eq t [] then codes "24h" else t

unfoldable pub range_line : DhcpConfig → Text
range_line cfg =
    range_key
    ++ (cfg.range_start ++ (b',' ∷ (cfg.range_end ++ (b',' ∷ lease_time_or_day cfg.lease_time))))

unfoldable pub save_dhcp_config : DhcpConfig → M (Unit {0})
save_dhcp_config cfg = do
  f ← open_file dnsmasq_conf
  s ← opened f
  write_file dnsmasq_conf (edit (λ l. not (is_range_line l)) (range_line cfg ∷ []) s)
