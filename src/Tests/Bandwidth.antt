-- ===== src/Tests/Bandwidth.antt =====
-- internal/system/bandwidth_limits.go, on two and on 21 devices, and device_blocks.go, on two.
use mathlib.Core.List.{Permᴰ}
use srouter.Base.{
  ℕ, zero, suc, ◌+◌, true, false, List, [], ◌∷◌, ◌≡◌, refl, some, Text, codes, text_eq,
  if◌then◌else◌, get_elem?, map,
}
use srouter.Maps.{lookup}
use srouter.Numbers.{decimal}
use srouter.World.{write_file, mkdir_all, run}
use srouter.Bandwidth.{
  Router, generate_bandwidth_script, mark_line, mark_lines, class_line, filter_line, class_lines,
  mbps_of, class_id_start, default_class_line, add_class, set_bandwidth_limit, get_bandwidth_limit,
}
use srouter.Bandwidth.Script.{
  class_of_device, class_of_device_clashes, generate_bandwidth_script-Perm, in_range,
}
use srouter.Bandwidth.Apply.{InStep, set_bandwidth_limit-InStep}
use srouter.Blocks.{Blocker}
use srouter.Tests.Worlds.{world_with}

abbrev phone : Text
phone = codes "0a:00:00:00:00:01"

abbrev laptop : Text
laptop = codes "0b:00:00:00:00:02"

abbrev two_limits : List (Text × ℕ)
two_limits = (laptop, 25) ∷ (phone, 10) ∷ []

abbrev devices : ℕ → List Text
devices zero = []
devices (suc n) = codes "0c:" ∷ devices n

abbrev router : Router
router = record { limits = two_limits; answers = true; dev_mode = false; world = world_with [] [] }

abbrev keys : List (Text × ℕ) → List Text
keys limits = map (λ r. r.0) limits

class_of_device_example :
    (get_elem? (mark_lines class_id_start (phone ∷ laptop ∷ [])) 1
      ≡ in_range 1 (mark_line laptop (class_id_start + 1)))
    × (get_elem? (class_lines (codes "lan") two_limits class_id_start (phone ∷ laptop ∷ [])) 2
        ≡ in_range 1
            (class_line (codes "lan") (class_id_start + 1) (mbps_of (lookup laptop two_limits))))
    × (get_elem? (class_lines (codes "lan") two_limits class_id_start (phone ∷ laptop ∷ [])) 3
        ≡ in_range 1 (filter_line (codes "lan") (class_id_start + 1)))
class_of_device_example =
    class_of_device (codes "lan") two_limits (phone ∷ laptop ∷ []) 1 laptop refl

generate_bandwidth_script-Perm_example :
    generate_bandwidth_script (codes "lan") two_limits (laptop ∷ phone ∷ [])
    ≡ generate_bandwidth_script (codes "lan") two_limits (phone ∷ laptop ∷ [])
generate_bandwidth_script-Perm_example =
    generate_bandwidth_script-Perm (codes "lan") two_limits {macs = laptop ∷ phone ∷ []}
      {macs' = phone ∷ laptop ∷ []} (Permᴰ.swap refl refl)

class_of_device_clashes_example :
    (get_elem? (class_lines (codes "lan") [] class_id_start (devices 21)) 40
      ≡ some (add_class (codes "lan") (codes "30") (decimal (mbps_of (lookup (codes "0c:") [])))))
    × (default_class_line (codes "lan") ≡ add_class (codes "lan") (codes "30") (codes "1000"))
class_of_device_clashes_example =
    class_of_device_clashes (codes "lan") [] (devices 21) (codes "0c:") refl

set_bandwidth_limit-InStep_example :
    (get_bandwidth_limit phone (set_bandwidth_limit keys phone 50 router).0
      ≡ some (if text_eq phone phone then some 50 else lookup phone router.limits))
    × InStep keys (set_bandwidth_limit keys phone 50 router).0
unfolding set_bandwidth_limit write_file mkdir_all run
set_bandwidth_limit-InStep_example = set_bandwidth_limit-InStep keys phone phone 50 router refl refl

second_mark :
    get_elem? (mark_lines 10 (phone ∷ laptop ∷ [])) 1
    ≡ some (
        codes
          "iptables -t mangle -A BWLIMIT -m mac --mac-destination 0b:00:00:00:00:02 -j MARK --set-mark 11")
unfolding mark_lines mark_line decimal
second_mark = refl

abbrev blocker : Blocker
blocker = record { macs = laptop ∷ []; answers = true; world = world_with [] [] }

abbrev in_order : List Text → List Text
in_order macs = macs
