-- ===== src/Network.antt =====
-- internal/system/network.go: the parsers of /proc/net/arp, /proc/net/dev and of the ip command, and
-- the cache of the connectivity test. What /sys and the commands hold are parameters.
pub mod Routes
pub mod Connectivity
use srouter.Base.{
  ℕ, zero, suc, ◌+◌, ◌-◌, ◌*◌, Bool, true, false, not, ◌&&◌, ◌||◌, List, [], ◌∷◌, Option, none,
  some, ltb, ◌==◌, if◌then◌else◌, Text, codes, text_eq, collect, map, length, get_elem?,
}
use srouter.Numbers.{
  ℤ, pos, Parsed, parsed, bad_syntax, out_of_range, parse_uint, uint_value, parse_int, int_value,
}
use srouter.Strings.{has_prefix, has_suffix, trim_space, split, scan_lines, fields}
use srouter.Maps.{lookup, insert}
use srouter.World.{M, pure, ◌>>=◌, open_file, opened}

pub record Interface : Type 0 where
  pub name : Text
  pub mac : Text
  pub ipv4 : Text
  pub state : Text
  pub mtu : ℤ
  pub rx_bytes : ℕ
  pub tx_bytes : ℕ

pub record ArpEntry : Type 0 where
  pub ip : Text
  pub mac : Text
  pub iface : Text

pub record Route : Type 0 where
  pub destination : Text
  pub gateway : Text
  pub iface : Text
  pub metric : ℤ

pub record ConntrackStats : Type 0 where
  pub current : ℤ
  pub max : ℤ

-- what is left behind the first lines, which are headers
unfoldable pub skip_lines : ℕ → List Text → List Text
skip_lines zero ls = ls
skip_lines (suc n) [] = []
skip_lines (suc n) (l ∷ ls) = skip_lines n ls

-- an entry of the fields of a line: six at least, and not the flags 0x0
unfoldable pub arp_entry : List Text → Option ArpEntry
arp_entry (ip ∷ hw ∷ flags ∷ mac ∷ mask ∷ dev ∷ _) =
    if text_eq flags (codes "0x0") then none else some (record { ip = ip; mac = mac; iface = dev })
arp_entry _ = none

abbrev pub arp_file : Text
arp_file = codes "/proc/net/arp"

unfoldable pub get_arp_table : M (List ArpEntry)
unfolding arp_entry skip_lines
get_arp_table = do
  f ← open_file arp_file
  s ← opened f
  pure (collect (λ l. arp_entry (fields l)) (skip_lines 1 (scan_lines s)))

-- what a word of a route sets, given the word behind it
unfoldable pub route_word : Text → Text → Route → Route
route_word w next r =
    if text_eq w (codes "via")
    then record r { gateway = next }
    else if text_eq w (codes "dev")
    then record r { iface = next }
    else if text_eq w (codes "metric")
    then record r { metric = int_value next (parse_int next) }
    else r

-- the loop over the fields behind the destination; the last has none behind it
unfoldable pub route_words : List Text → Route → Route
unfolding route_word
route_words [] r = r
route_words (w ∷ []) r = r
route_words (w ∷ next ∷ ws) r = route_words (next ∷ ws) (route_word w next r)

abbrev pub no_route : Route
no_route = record { destination = []; gateway = []; iface = []; metric = pos 0 }

unfoldable pub route_of_fields : List Text → Option Route
unfolding route_words
route_of_fields [] = none
route_of_fields (d ∷ ws) = some (route_words ws (record no_route { destination = d }))

-- what a line of `ip route show` adds to the result of `GetRoutes`
unfoldable pub route_of_line : Text → Option Route
unfolding route_of_fields
route_of_line raw =
    if text_eq (trim_space raw) [] then none else route_of_fields (fields (trim_space raw))

-- `GetRoutes`, with the output of the command, none if it fails
unfoldable pub get_routes : Option Text → Option (List Route)
unfolding route_of_line
get_routes none = none
get_routes (some out) = some (collect route_of_line (split b'\n' out))

-- `strings.TrimSuffix` of a colon
unfoldable pub trim_colon : Text → Text
trim_colon [] = []
trim_colon (c ∷ []) = if c == b':' then [] else c ∷ []
trim_colon (c ∷ d ∷ s) = c ∷ trim_colon (d ∷ s)

-- the name and the two counters of the fields of a line of /proc/net/dev, given the ten first
unfoldable pub counters_of : (Text → ℕ) → List Text → Option (Text × ℕ × ℕ)
unfolding trim_colon
counters_of read (n ∷ rx ∷ _ ∷ _ ∷ _ ∷ _ ∷ _ ∷ _ ∷ _ ∷ tx ∷ _) =
    some (trim_colon n, read rx, read tx)
counters_of read _ = none

unfoldable pub parse_counter : Text → ℕ
unfolding parse_uint uint_value
parse_counter t = uint_value (parse_uint t)

unfoldable pub add_counters : List (Text × ℕ × ℕ) → List (Text × (ℕ × ℕ)) → List (Text × (ℕ × ℕ))
add_counters [] m = m
add_counters ((n, rx, tx) ∷ cs) m = add_counters cs (insert n (rx, tx) m)

-- the map of the counters of a text in the form of /proc/net/dev
unfoldable pub net_dev : (Text → ℕ) → Text → List (Text × (ℕ × ℕ))
unfolding counters_of add_counters skip_lines
net_dev read s =
    add_counters (collect (λ l. counters_of read (fields l)) (skip_lines 2 (scan_lines s))) []

-- the address behind the first `inet ` line, if it has one
unfoldable pub address_of_fields : List Text → Text
address_of_fields (w ∷ a ∷ _) = a
address_of_fields _ = []

unfoldable pub inet_address : List Text → Text
unfolding address_of_fields
inet_address [] = []
inet_address (l ∷ ls) =
    let rest = inet_address ls in
    if has_prefix (trim_space l) (codes "inet ")
    then address_of_fields (fields (trim_space l))
    else rest

unfoldable pub int_or_zero : Parsed ℤ → ℤ
int_or_zero (parsed n) = n
int_or_zero bad_syntax = pos 0
int_or_zero out_of_range = pos 0

unfoldable pub counters_or_zero : Option (ℕ × ℕ) → ℕ × ℕ
counters_or_zero none = (0, 0)
counters_or_zero (some c) = c

unfoldable pub address_or_empty : Option Text → Text
unfolding inet_address
address_or_empty none = []
address_or_empty (some out) = inet_address (split b'\n' out)

-- an interface, with what its files in /sys and `ip -4 addr show` of it give
unfoldable pub interface_of :
    (Text → Text → Text) → (Text → Option Text) → List (Text × (ℕ × ℕ)) → Text → Interface
unfolding counters_or_zero address_or_empty int_or_zero
interface_of sys addr counters name = record {
  name = name;
  mac = trim_space (sys name (codes "address"));
  ipv4 = address_or_empty (addr name);
  state = trim_space (sys name (codes "operstate"));
  mtu = int_or_zero (parse_int (trim_space (sys name (codes "mtu"))));
  rx_bytes = (counters_or_zero (lookup name counters)).0;
  tx_bytes = (counters_or_zero (lookup name counters)).1;
}

abbrev pub net_dev_file : Text
net_dev_file = codes "/proc/net/dev"

-- `GetInterfaces`, with the listing of /sys/class/net
unfoldable pub get_interfaces :
    (Text → Text → Text) → (Text → Option Text) → List Text → M (List Interface)
unfolding net_dev interface_of parse_counter
get_interfaces sys addr names = do
  f ← open_file net_dev_file
  s ← opened f
  pure (map (interface_of sys addr (net_dev parse_counter s)) names)

-- `readInt` of a file, zero without one
unfoldable pub conntrack_value : Option Text → ℤ
conntrack_value none = pos 0
conntrack_value (some s) = int_value (trim_space s) (parse_int (trim_space s))

unfoldable pub get_conntrack_stats : (Text → Option Text) → ConntrackStats
unfolding conntrack_value
get_conntrack_stats read = record {
  current = conntrack_value (read (codes "/proc/sys/net/netfilter/nf_conntrack_count"));
  max = conntrack_value (read (codes "/proc/sys/net/netfilter/nf_conntrack_max"));
}

-- `internetCache`, with the pings that run; `updated_at` is none for the zero time.
pub record InternetCache : Type 0 where
  pub ok : Bool
  pub updated_at : Option ℕ
  pub pings : ℕ

abbrev pub new_internet_cache : InternetCache
new_internet_cache = record { ok = true; updated_at = none; pings = 0 }

-- `internetCacheTTL`, in seconds
abbrev pub internet_cache_ttl : ℕ
internet_cache_ttl = 60

unfoldable pub is_cached : ℕ → Option ℕ → Bool
is_cached now none = false
is_cached now (some t) = ltb (now - t) internet_cache_ttl

-- `CheckInternetConnectivity`: the cache behind it, and what it answers
unfoldable pub check_internet_connectivity : ℕ → InternetCache → InternetCache × Bool
unfolding is_cached
check_internet_connectivity now c =
    if is_cached now c.updated_at then (c, c.ok) else (record c { pings = c.pings + 1 }, c.ok)

-- a ping that was started comes to its end
unfoldable pub ping_done : ℕ → Bool → InternetCache → InternetCache
ping_done now ok c = record { ok = ok; updated_at = some now; pings = c.pings - 1 }

-- `ForceCheckInternet`
unfoldable pub force_check_internet : ℕ → Bool → InternetCache → InternetCache × Bool
force_check_internet now ok c = (record c { ok = ok; updated_at = some now }, ok)
