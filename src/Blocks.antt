-- ===== src/Blocks.antt =====
-- internal/system/device_blocks.go: devices kept from the internet, by MAC. Go ranges over the map
-- of MACs in any order: `order` gives it.
pub mod Apply
use srouter.Base.{
  Bool, true, false, not, List, [], ◌∷◌, ◌++◌, Option, none, some, if◌then◌else◌, Text, codes,
  text_eq, keep, map,
}
use srouter.Strings.Lines.{unlines}
use srouter.World.{World, Result, ok, err, query_failed, M, ◌>>=◌, ◌>>◌, write_file, mkdir_all, run}

abbrev pub blocks_script : Text
blocks_script = codes "/etc/firewall.d/70-device-blocks.sh"

-- The table `device_blocks`, whether the database answers, and the world.
pub record Blocker : Type 0 where
  pub macs : List Text
  pub answers : Bool
  pub world : World

unfoldable pub holds : Text → List Text → Bool
holds mac [] = false
holds mac (m ∷ macs) = let rest = holds mac macs in if text_eq m mac then true else rest

-- `ListBlockedMACs`; none is an error
unfoldable pub list_blocked_macs : Blocker → Option (List Text)
list_blocked_macs s = if s.answers then some s.macs else none

-- `IsDeviceBlocked`; none is an error
unfoldable pub is_device_blocked : Text → Blocker → Option Bool
unfolding holds
is_device_blocked mac s = if s.answers then some (holds mac s.macs) else none

unfoldable pub block_line : Text → Text
block_line mac = codes "iptables -I FORWARD 1 -m mac --mac-source " ++ (mac ++ codes " -j DROP")

-- the script for the MACs in the order of the loop
unfoldable pub blocks_text : List Text → Text
unfolding block_line
blocks_text macs =
    unlines (
      codes "#!/bin/sh" ∷ codes "# Managed by srouter — do not edit manually" ∷ map block_line macs)

unfoldable pub write_text : Text → M (Unit {0})
write_text t = do mkdir_all (codes "/etc/firewall.d"); write_file blocks_script t

abbrev in_world : Blocker → World × Result (Unit {0}) → Blocker × Result (Unit {0})
in_world s (w, r) = (record s { world = w }, r)

unfoldable pub write_listed :
    (List Text → List Text) → Blocker → Option (List Text) → Blocker × Result (Unit {0})
unfolding write_text blocks_text
write_listed order s none = (s, err query_failed)
write_listed order s (some macs) = in_world s (write_text (blocks_text (order macs)) s.world)

unfoldable pub write_blocks_script : (List Text → List Text) → Blocker → Blocker × Result (Unit {0})
unfolding write_listed list_blocked_macs
write_blocks_script order s = write_listed order s (list_blocked_macs s)

abbrev rule : Text → List Text
rule mac = codes "-m" ∷ codes "mac" ∷ codes "--mac-source" ∷ mac ∷ codes "-j" ∷ codes "DROP" ∷ []

-- `BlockDevice`; the error of iptables is ignored
unfoldable pub block_device : (List Text → List Text) → Text → Blocker → Blocker × Result (Unit {0})
unfolding write_blocks_script holds
block_device order mac s =
    if s.answers
    then write_blocks_script order (record s {
      macs = if holds mac s.macs then s.macs else mac ∷ s.macs;
      world =
          (run (codes "iptables" ∷ codes "-I" ∷ codes "FORWARD" ∷ codes "1" ∷ rule mac) s.world).0;
    })
    else (s, err query_failed)

-- `UnblockDevice`; the error of iptables is ignored
unfoldable pub unblock_device :
    (List Text → List Text) → Text → Blocker → Blocker × Result (Unit {0})
unfolding write_blocks_script
unblock_device order mac s =
    if s.answers
    then write_blocks_script order (record s {
      macs = keep (λ m. not (text_eq m mac)) s.macs;
      world = (run (codes "iptables" ∷ codes "-D" ∷ codes "FORWARD" ∷ rule mac) s.world).0;
    })
    else (s, err query_failed)
