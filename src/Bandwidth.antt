-- ===== src/Bandwidth.antt =====
-- internal/system/bandwidth_limits.go: download limits by MAC, and the script that applies them.
-- Go ranges over a map in any order: `order` gives the keys in the order taken. A limit is one of
-- the presets that the handler admits, so a number from 1 on.
pub mod Script
pub mod Apply
use srouter.Base.{
  ℕ, ◌+◌, Bool, true, false, List, [], ◌∷◌, ◌++◌, Option, none, some, if◌then◌else◌, Text, codes,
  ltb, ◌==◌, map,
}
use srouter.Strings.Lines.{unlines}
use srouter.Numbers.{decimal}
use srouter.Maps.{lookup, insert, erase}
use srouter.Sort.{sort_strings}
use srouter.World.{
  World, Result, ok, err, query_failed, M, ◌>>=◌, ◌>>◌, pure, write_file, mkdir_all, run,
}

-- `AllowedBandwidthMbps`
abbrev pub allowed_bandwidth_mbps : List ℕ
allowed_bandwidth_mbps = 1 ∷ 5 ∷ 10 ∷ 25 ∷ 50 ∷ 100 ∷ 250 ∷ []

unfoldable pub member : ℕ → List ℕ → Bool
member n [] = false
member n (v ∷ vs) = if v == n then true else member n vs

-- whether `validateBandwidthMbps` of internal/handler/validate.go gives no error
unfoldable pub validate_bandwidth_mbps : ℕ → Bool
unfolding member
validate_bandwidth_mbps mbps = member mbps allowed_bandwidth_mbps

abbrev pub bandwidth_limits_script : Text
bandwidth_limits_script = codes "/etc/firewall.d/80-bandwidth-limits.sh"

abbrev pub class_id_start : ℕ
class_id_start = 10

abbrev pub class_id_max : ℕ
class_id_max = 245

unfoldable pub mark_line : Text → ℕ → Text
mark_line mac id =
    codes "iptables -t mangle -A BWLIMIT -m mac --mac-destination "
    ++ (mac ++ (codes " -j MARK --set-mark " ++ decimal id))

-- the first loop of `generateBandwidthScript`
unfoldable pub mark_lines : ℕ → List Text → List Text
mark_lines id [] = []
mark_lines id (mac ∷ macs) =
    let rest = mark_lines (id + 1) macs in
    if ltb class_id_max id then [] else mark_line mac id ∷ rest

-- The command that adds a class of the given name below the root class.
unfoldable pub add_class : Text → Text → Text → Text
add_class iface id mbps =
    codes "tc class add dev "
    ++ (iface
        ++ (codes " parent 1:1 classid 1:"
            ++ (id
                ++ (codes " htb rate "
                    ++ (mbps ++ (codes "mbit ceil " ++ (mbps ++ codes "mbit")))))))

unfoldable pub class_line : Text → ℕ → ℕ → Text
unfolding add_class
class_line iface id mbps = add_class iface (decimal id) (decimal mbps)

unfoldable pub filter_line : Text → ℕ → Text
filter_line iface id =
    codes "tc filter add dev "
    ++ (iface
        ++ (codes " parent 1: protocol ip prio 1 handle "
            ++ (decimal id ++ (codes " fw flowid 1:" ++ decimal id))))

-- what indexing a Go map gives: 0 for a missing key
unfoldable pub mbps_of : Option ℕ → ℕ
mbps_of none = 0
mbps_of (some mbps) = mbps

-- the second loop of `generateBandwidthScript`
unfoldable pub class_lines : Text → List (Text × ℕ) → ℕ → List Text → List Text
unfolding mbps_of
class_lines iface limits id [] = []
class_lines iface limits id (mac ∷ macs) =
    let rest = class_lines iface limits (id + 1) macs in
    if ltb class_id_max id
    then []
    else class_line iface id (mbps_of (lookup mac limits)) ∷ filter_line iface id ∷ rest

unfoldable pub mangle_lines : Text → List Text
mangle_lines iface =
    codes "#!/bin/sh"
    ∷ codes "# Managed by srouter — do not edit manually"
    ∷ (codes "[ -d /sys/class/net/" ++ (iface ++ codes " ] || exit 0"))
    ∷ (codes "iptables -t mangle -D POSTROUTING -o " ++ (iface ++ codes " -j BWLIMIT 2>/dev/null"))
    ∷ codes "iptables -t mangle -F BWLIMIT 2>/dev/null"
    ∷ codes "iptables -t mangle -X BWLIMIT 2>/dev/null"
    ∷ codes "iptables -t mangle -N BWLIMIT"
    ∷ []

-- the class of the traffic that no filter takes
unfoldable pub default_class_line : Text → Text
unfolding add_class
default_class_line iface = add_class iface (codes "30") (codes "1000")

unfoldable pub root_lines : Text → List Text
root_lines iface =
    (codes "iptables -t mangle -A POSTROUTING -o " ++ (iface ++ codes " -j BWLIMIT"))
    ∷ (codes "tc qdisc del dev " ++ (iface ++ codes " root 2>/dev/null || true"))
    ∷ (codes "tc qdisc add dev " ++ (iface ++ codes " root handle 1: htb default 30"))
    ∷ (codes "tc class add dev "
        ++ (iface ++ codes " parent 1: classid 1:1 htb rate 1000mbit ceil 1000mbit"))
    ∷ default_class_line iface
    ∷ []

-- the lines of the script for the MACs in their sorted order
unfoldable pub script_lines : Text → List (Text × ℕ) → List Text → List Text
unfolding mangle_lines root_lines
script_lines iface limits macs =
    mangle_lines iface
    ++ (mark_lines class_id_start macs
        ++ (root_lines iface ++ class_lines iface limits class_id_start macs))

-- `macs` are the keys of the map, in the order of the loop that collects them.
unfoldable pub generate_bandwidth_script : Text → List (Text × ℕ) → List Text → Text
unfolding sort_strings script_lines
generate_bandwidth_script iface limits macs =
    unlines (script_lines iface limits (sort_strings macs))

-- The table `device_bandwidth_limits` by its primary key, whether the database answers, and the
-- flag `DevMode`.
pub record Router : Type 0 where
  pub limits : List (Text × ℕ)
  pub answers : Bool
  pub dev_mode : Bool
  pub world : World

-- what `ListBandwidthLimits` returns; none is an error
unfoldable pub list_bandwidth_limits : Router → Option (List (Text × ℕ))
list_bandwidth_limits s = if s.answers then some s.limits else none

-- what `GetBandwidthLimit` returns: an error, no row, or the limit
unfoldable pub get_bandwidth_limit : Text → Router → Option (Option ℕ)
get_bandwidth_limit mac s = if s.answers then some (lookup mac s.limits) else none

unfoldable pub write_and_run : Text → M (Unit {0})
write_and_run script = do
  mkdir_all (codes "/etc/firewall.d")
  write_file bandwidth_limits_script script
  run (codes "sh" ∷ codes "-c" ∷ script ∷ [])

abbrev in_world : Router → World × Result (Unit {0}) → Router × Result (Unit {0})
in_world s (w, r) = (record s { world = w }, r)

-- the part of `ApplyAllBandwidthLimits` behind the query
unfoldable pub apply_limits :
    (List (Text × ℕ) → List Text)
    → Text
    → Router
    → Option (List (Text × ℕ))
    → Router × Result (Unit {0})
unfolding write_and_run
apply_limits order iface s none = (s, err query_failed)
apply_limits order iface s (some limits) =
    if s.dev_mode
    then (s, ok tt)
    else in_world s (write_and_run (generate_bandwidth_script iface limits (order limits)) s.world)

unfoldable pub apply_all_bandwidth_limits :
    (List (Text × ℕ) → List Text) → Text → Router → Router × Result (Unit {0})
unfolding apply_limits list_bandwidth_limits
apply_all_bandwidth_limits order iface s = apply_limits order iface s (list_bandwidth_limits s)

unfoldable pub set_bandwidth_limit :
    (List (Text × ℕ) → List Text) → Text → ℕ → Router → Router × Result (Unit {0})
unfolding apply_all_bandwidth_limits
set_bandwidth_limit order mac mbps s =
    if s.answers
    then apply_all_bandwidth_limits order (codes "lan")
        (record s { limits = insert mac mbps s.limits })
    else (s, err query_failed)

unfoldable pub delete_bandwidth_limit :
    (List (Text × ℕ) → List Text) → Text → Router → Router × Result (Unit {0})
unfolding apply_all_bandwidth_limits
delete_bandwidth_limit order mac s =
    if s.answers
    then apply_all_bandwidth_limits order (codes "lan") (record s { limits = erase mac s.limits })
    else (s, err query_failed)
