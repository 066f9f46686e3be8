-- ===== src/SystemInfo.antt =====
-- internal/system/sysinfo.go and memory.go: the uptime in words, the versions of packages, the cached
-- service of the clock, and the memory. Percentages are left out.
pub mod Shown
use srouter.Base.{
  ℕ, zero, suc, ◌+◌, ◌-◌, ◌*◌, ◌/◌, ◌%◌, ◌^◌, Bool, true, false, not, List, [], ◌∷◌, ◌++◌, Option,
  none, some, ltb, ◌==◌, if◌then◌else◌, Text, codes, text_eq,
}
use srouter.Strings.{trim_space, fields, scan_lines, contains}
use srouter.Numbers.{decimal, parse_uint, uint_value}
use srouter.Maps.{lookup, insert}
use srouter.World.{M, pure, ◌>>=◌, open_file, opened}
use srouter.Network.{trim_colon, parse_counter}

-- the days, hours and minutes of a number of seconds
unfoldable pub uptime_parts : ℕ → ℕ × ℕ × ℕ
uptime_parts secs = (secs / 86400, secs % 86400 / 3600, secs % 3600 / 60)

-- `formatUptime`
unfoldable pub format_uptime : ℕ → Text
unfolding uptime_parts
format_uptime secs =
    let d = (uptime_parts secs).0 in
    let h = (uptime_parts secs).1 in
    let m = decimal (uptime_parts secs).2 ++ codes "m" in
    if ltb 0 d
    then decimal d ++ (codes "d " ++ (decimal h ++ (codes "h " ++ m)))
    else if ltb 0 h
    then decimal h ++ (codes "h " ++ m)
    else m

-- what is behind the last dash, if there is one that is not the first code point
unfoldable pub behind_last_dash : Text → Option Text
behind_last_dash [] = none
behind_last_dash (c ∷ s) =
    let rest = behind_last_dash s in
    elim rest [ some t ↦ some t | none ↦ if c == b'-' then some s else none ]

unfoldable pub version_of_line : Text → Text
unfolding behind_last_dash
version_of_line [] = []
version_of_line (c ∷ s) = elim (behind_last_dash s) [ none ↦ [] | some v ↦ v ]

pub record RouterPackage : Type 0 where
  pub name : Text
  pub version : Text

abbrev pub package_names : List Text
package_names =
    codes "dnsmasq"
    ∷ codes "iptables"
    ∷ codes "ip6tables"
    ∷ codes "iproute2"
    ∷ codes "ppp"
    ∷ codes "pppoe"
    ∷ codes "openntpd"
    ∷ codes "chrony"
    ∷ codes "linux-pam"
    ∷ codes "busybox"
    ∷ []

unfoldable pub version_or_empty : Option Text → Text
unfolding version_of_line
version_or_empty none = []
version_or_empty (some out) = version_of_line (trim_space out)

unfoldable pub is_installed : Option Text → Bool
is_installed none = false
is_installed (some out) = not (text_eq (trim_space out) [])

-- the loop of `GetRouterPackages`, with the outputs of `apk info -e` and `apk info -v`, none where
-- they fail
unfoldable pub router_packages :
    (Text → Option Text) → (Text → Option Text) → List Text → List RouterPackage
unfolding is_installed version_or_empty
router_packages exists versions [] = []
router_packages exists versions (n ∷ ns) =
    let rest = router_packages exists versions ns in
    if is_installed (exists n)
    then record { name = n; version = version_or_empty (versions n) } ∷ rest
    else rest

-- the keys and values of /proc/meminfo
unfoldable pub mem_value : List Text → List (Text × ℕ) → List (Text × ℕ)
mem_value (k ∷ v ∷ _) m = insert (trim_colon k) (parse_counter v) m
mem_value _ m = m

unfoldable pub mem_values : List Text → List (Text × ℕ) → List (Text × ℕ)
unfolding mem_value
mem_values [] m = m
mem_values (l ∷ ls) m = mem_values ls (mem_value (fields l) m)

pub record MemInfo : Type 0 where
  pub total_kb : ℕ
  pub available_kb : ℕ
  pub used_kb : ℕ

unfoldable pub value_or_zero : Option ℕ → ℕ
value_or_zero none = 0
value_or_zero (some n) = n

-- the difference is one of uint64
unfoldable pub mem_info : List (Text × ℕ) → MemInfo
unfolding value_or_zero
mem_info m = record {
  total_kb = value_or_zero (lookup (codes "MemTotal") m);
  available_kb = value_or_zero (lookup (codes "MemAvailable") m);
  used_kb =
      (value_or_zero (lookup (codes "MemTotal") m)
        + 2 ^ 64
        - value_or_zero (lookup (codes "MemAvailable") m))
      % 2 ^ 64;
}

unfoldable pub get_memory : M MemInfo
unfolding mem_info mem_values
get_memory = do
  f ← open_file (codes "/proc/meminfo")
  s ← opened f
  pure (mem_info (mem_values (scan_lines s) []))

-- The variables of `detectNTP`; `checked` is none for the zero time, in seconds.
pub record Ntp : Type 0 where
  pub service : Text
  pub synced : Bool
  pub checked : Option ℕ

abbrev pub ntp_services : List Text
ntp_services = codes "openntpd" ∷ codes "chronyd" ∷ codes "ntpd" ∷ []

unfoldable pub is_started : Option Text → Bool
is_started none = false
is_started (some out) = contains out (codes "started")

-- the loop over the services, with the output of the status of each
unfoldable pub find_ntp : (Text → Option Text) → List Text → Text × Bool
unfolding is_started
find_ntp status [] = (codes "none", false)
find_ntp status (s ∷ ss) =
    let rest = find_ntp status ss in if is_started (status s) then (s, true) else rest

unfoldable pub ntp_is_recent : ℕ → Option ℕ → Bool
ntp_is_recent now none = false
ntp_is_recent now (some t) = ltb (now - t) 300

-- `detectNTP`
unfoldable pub detect_ntp : (Text → Option Text) → ℕ → Ntp → Ntp
unfolding find_ntp ntp_is_recent
detect_ntp status now n = if ntp_is_recent now n.checked then n else record {
  service = (find_ntp status ntp_services).0;
  synced = (find_ntp status ntp_services).1;
  checked = some now;
}
