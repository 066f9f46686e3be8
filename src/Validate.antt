-- ===== src/Validate.antt =====
-- internal/handler/validate.go: the tests that the handlers put a form's values to. A regular
-- expression is a function that recognises the same texts. What net.ParseIP and net.ParseCIDR
-- accept are parameters, and so is which addresses have a form in four bytes (`To4`).
pub mod Runes
pub mod Values
pub mod Rules
pub mod Forwards
use srouter.Base.{
  ℕ, zero, suc, Bool, true, false, not, ◌&&◌, ◌||◌, List, [], ◌∷◌, Option, none, some, ltb, leb,
  ◌==◌, if◌then◌else◌, Text, codes, text_eq, length,
}
use srouter.Strings.{byte_len, has_rune, split_n}
use srouter.Numbers.{ℤ, pos, negsuc, Parsed, parsed, bad_syntax, out_of_range, parse_int}
use srouter.Firewall.{FirewallRule, PortForwardRule}

-- What the program asks of the package net.
pub record Net : Type 0 where
  -- whether `ParseIP` gives an address
  pub is_ip : Text → Bool
  -- whether it gives one for which `To4` is not nil
  pub is_ipv4 : Text → Bool
  -- whether `ParseCIDR` gives no error
  pub is_cidr : Text → Bool

unfoldable pub is_digit : ℕ → Bool
is_digit c = leb b'0' c && leb c b'9'

unfoldable pub is_lower : ℕ → Bool
is_lower c = leb b'a' c && leb c b'z'

unfoldable pub is_upper : ℕ → Bool
is_upper c = leb b'A' c && leb c b'Z'

unfoldable pub is_alnum : ℕ → Bool
unfolding is_digit is_lower is_upper
is_alnum c = is_digit c || is_lower c || is_upper c

-- `[0-9a-fA-F]`
unfoldable pub is_hex : ℕ → Bool
unfolding is_digit
is_hex c = is_digit c || (leb b'a' c && leb c b'f') || (leb b'A' c && leb c b'F')

unfoldable pub every : (ℕ → Bool) → Text → Bool
every p [] = true
every p (c ∷ s) = p c && every p s

-- `n` times two hex digits and a colon, and two hex digits
unfoldable pub mac_groups : ℕ → Text → Bool
unfolding is_hex
mac_groups zero (a ∷ b ∷ []) = is_hex a && is_hex b
mac_groups (suc n) (a ∷ b ∷ c ∷ s) = is_hex a && is_hex b && c == b':' && mac_groups n s
mac_groups _ _ = false

-- `macRE`
unfoldable pub mac_re : Text → Bool
unfolding mac_groups
mac_re s = mac_groups 5 s

-- `[a-z0-9_.@-]`
unfoldable pub is_iface_rune : ℕ → Bool
unfolding is_digit is_lower
is_iface_rune c = is_lower c || is_digit c || c == b'_' || c == b'.' || c == b'@' || c == b'-'

-- `ifaceRE`
unfoldable pub iface_re : Text → Bool
unfolding is_lower is_iface_rune every
iface_re [] = false
iface_re (c ∷ s) = is_lower c && every is_iface_rune s && leb (length s) 14

-- `[a-zA-Z0-9_-]`
unfoldable pub is_name_rune : ℕ → Bool
unfolding is_alnum
is_name_rune c = is_alnum c || c == b'_' || c == b'-'

-- `pfNameRE`
unfoldable pub pf_name_re : Text → Bool
unfolding is_name_rune every
pf_name_re s = leb 1 (length s) && leb (length s) 50 && every is_name_rune s

-- `[a-zA-Z0-9\-\.]*[a-zA-Z0-9]`
unfoldable pub host_tail : Text → Bool
unfolding is_alnum
host_tail [] = false
host_tail (c ∷ []) = is_alnum c
host_tail (c ∷ d ∷ s) = (is_alnum c || c == b'-' || c == b'.') && host_tail (d ∷ s)

-- `hostnameRE`
unfoldable pub hostname_re : Text → Bool
unfolding is_alnum host_tail
hostname_re [] = false
hostname_re (c ∷ []) = is_alnum c
hostname_re (c ∷ d ∷ s) = is_alnum c && host_tail (d ∷ s)

unfoldable pub one_of : Text → List Text → Bool
one_of s [] = false
one_of s (t ∷ ts) = text_eq s t || one_of s ts

abbrev pub valid_chains : List Text
valid_chains = codes "INPUT" ∷ codes "FORWARD" ∷ codes "OUTPUT" ∷ []

abbrev pub valid_actions : List Text
valid_actions = codes "ACCEPT" ∷ codes "DROP" ∷ codes "REJECT" ∷ codes "LOG" ∷ []

abbrev pub valid_protocols : List Text
valid_protocols = codes "tcp" ∷ codes "udp" ∷ codes "icmp" ∷ codes "all" ∷ []

abbrev pub valid_pf_protos : List Text
valid_pf_protos = codes "tcp" ∷ codes "udp" ∷ []

-- What an error of a test is about.
pub data Invalid : Type 0 where
  bad_chain bad_action bad_protocol bad_source bad_destination bad_source_port : Invalid
  bad_destination_port bad_in_iface bad_out_iface bad_comment bad_name : Invalid
  bad_external_port bad_internal_port bad_internal_ip bad_mac bad_server_port bad_server : Invalid

-- The next test, where the one at hand gives no error.
unfoldable pub demand : Bool → Invalid → Option Invalid → Option Invalid
demand true e rest = rest
demand false e rest = some e

-- whether `n < 1 || n > 65535` is false
unfoldable pub is_port_number : Parsed ℤ → Bool
is_port_number (parsed (pos n)) = not (ltb n 1 || ltb 65535 n)
is_port_number (parsed (negsuc n)) = false
is_port_number bad_syntax = false
is_port_number out_of_range = false

unfoldable pub all_ports : List Text → Bool
unfolding is_port_number parse_int
all_ports [] = true
all_ports (p ∷ ps) = is_port_number (parse_int p) && all_ports ps

-- whether `validatePort` gives no error
unfoldable pub validate_port : Text → Bool
unfolding all_ports split_n
validate_port port = all_ports (split_n b':' 1 port)

-- whether `validateMAC` gives no error
unfoldable pub validate_mac : Text → Bool
unfolding mac_re
validate_mac mac = mac_re mac

-- an optional value
unfoldable pub empty_or : (Text → Bool) → Text → Bool
empty_or p [] = true
empty_or p (c ∷ s) = p (c ∷ s)

-- whether `validateIPOrCIDR` gives no error
unfoldable pub validate_ip_or_cidr : Net → Text → Bool
validate_ip_or_cidr net s = net.is_ip s || net.is_cidr s

unfoldable pub validate_firewall_rule : Net → FirewallRule → Option Invalid
unfolding one_of demand empty_or validate_port validate_ip_or_cidr iface_re
validate_firewall_rule net r = demand (one_of r.chain valid_chains) bad_chain (
    demand (one_of r.action valid_actions) bad_action (
      demand (empty_or (λ p. one_of p valid_protocols) r.protocol) bad_protocol (
        demand (empty_or (validate_ip_or_cidr net) r.src_ip) bad_source (
          demand (empty_or (validate_ip_or_cidr net) r.dst_ip) bad_destination (
            demand (empty_or validate_port r.src_port) bad_source_port (
              demand (empty_or validate_port r.dst_port) bad_destination_port (
                demand (empty_or iface_re r.in_iface) bad_in_iface (
                  demand (empty_or iface_re r.out_iface) bad_out_iface (
                    demand (not (has_rune b'\n' r.comment || has_rune b'\r' r.comment)) bad_comment
                      none)))))))))

unfoldable pub validate_port_forward_rule : Net → PortForwardRule → Option Invalid
unfolding pf_name_re one_of demand validate_port
validate_port_forward_rule net r = demand (pf_name_re r.name) bad_name (
    demand (one_of r.protocol valid_pf_protos) bad_protocol (
      demand (validate_port r.ext_port) bad_external_port (
        demand (validate_port r.int_port) bad_internal_port
          (demand (net.is_ipv4 r.int_ip) bad_internal_ip none))))

-- the host of an address without a port, or the address itself
unfoldable pub validate_host : Net → Text → Option Invalid
unfolding hostname_re demand
validate_host net host =
    if net.is_ip host
    then none
    else demand (not (byte_len host == 0 || ltb 253 (byte_len host)) && hostname_re host) bad_server
        none

unfoldable pub validate_server_parts : Net → List Text → Option Invalid
unfolding validate_host is_port_number demand
validate_server_parts net (host ∷ port ∷ _) =
    demand (is_port_number (parse_int port)) bad_server_port (validate_host net host)
validate_server_parts net (host ∷ []) = validate_host net host
validate_server_parts net [] = validate_host net []

-- `validateDNSServer`; `strings.Cut` gives the parts of a split into two.
unfoldable pub validate_dns_server : Net → Text → Option Invalid
unfolding validate_server_parts split_n
validate_dns_server net addr = validate_server_parts net (split_n b'#' 1 addr)
