-- ===== src/Bandwidth/Apply.antt =====
-- What a change of the limits leaves in the table and in the script that the boot runs.
use srouter.Base.{
  ℕ, true, false, List, ◌≡◌, arith, none, some, if◌then◌else◌, Text, codes, text_eq, text_eq_refl,
}
use srouter.Maps.{lookup, insert, erase, lookup-insert, lookup-erase}
use srouter.World.{World, ok, write_file, mkdir_all, run}
use srouter.Bandwidth.{
  Router, generate_bandwidth_script, bandwidth_limits_script, write_and_run, apply_limits,
  apply_all_bandwidth_limits, list_bandwidth_limits, get_bandwidth_limit, set_bandwidth_limit,
  delete_bandwidth_limit,
}

-- The script on disk is the one of the table.
abbrev pub InStep : (List (Text × ℕ) → List Text) → Router → Type 0
InStep order s =
    s.world.files bandwidth_limits_script
    ≡ some (generate_bandwidth_script (codes "lan") s.limits (order s.limits))

write_and_run_file :
    (script : Text) (w : World)
    → (write_and_run script w).1 ≡ ok tt
    → (write_and_run script w).0.files bandwidth_limits_script ≡ some script
unfolding write_and_run mkdir_all write_file run
write_and_run_file script w h = ground (arith, text_eq_refl bandwidth_limits_script)

apply-InStep :
    (order : List (Text × ℕ) → List Text) (s : Router)
    → s.dev_mode ≡ false
    → (apply_all_bandwidth_limits order (codes "lan") s).1 ≡ ok tt
    → InStep order (apply_all_bandwidth_limits order (codes "lan") s).0
      × ((apply_all_bandwidth_limits order (codes "lan") s).0.limits ≡ s.limits)
      × ((apply_all_bandwidth_limits order (codes "lan") s).0.answers ≡ true)
unfolding apply_all_bandwidth_limits list_bandwidth_limits apply_limits
apply-InStep order s dev h = ground (
  arith,
  write_and_run_file (generate_bandwidth_script (codes "lan") s.limits (order s.limits)) s.world,
)

-- Outside development mode, after a successful change of a MAC's limit the table gives that limit
-- for the MAC and the others as before, and the script on disk is the script of the table.
pub set_bandwidth_limit-InStep :
    (order : List (Text × ℕ) → List Text) (mac other : Text) (mbps : ℕ) (s : Router)
    → s.dev_mode ≡ false
    → (set_bandwidth_limit order mac mbps s).1 ≡ ok tt
    → (get_bandwidth_limit other (set_bandwidth_limit order mac mbps s).0
        ≡ some (if text_eq mac other then some mbps else lookup other s.limits))
      × InStep order (set_bandwidth_limit order mac mbps s).0
unfolding set_bandwidth_limit get_bandwidth_limit
set_bandwidth_limit-InStep order mac other mbps s dev h = ground (
  arith,
  lookup-insert mac other mbps s.limits,
  apply-InStep order (record s { limits = insert mac mbps s.limits }) dev,
)

-- Outside development mode, after a successful deletion the table has no limit for the MAC, and the
-- others as before, and the script on disk is the script of the table.
pub delete_bandwidth_limit-InStep :
    (order : List (Text × ℕ) → List Text) (mac other : Text) (s : Router)
    → s.dev_mode ≡ false
    → (delete_bandwidth_limit order mac s).1 ≡ ok tt
    → (get_bandwidth_limit other (delete_bandwidth_limit order mac s).0
        ≡ some (if text_eq mac other then none else lookup other s.limits))
      × InStep order (delete_bandwidth_limit order mac s).0
unfolding delete_bandwidth_limit get_bandwidth_limit
delete_bandwidth_limit-InStep order mac other s dev h = ground (
  arith,
  lookup-erase mac other s.limits,
  apply-InStep order (record s { limits = erase mac s.limits }) dev,
)
