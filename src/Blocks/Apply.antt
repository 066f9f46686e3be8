-- ===== src/Blocks/Apply.antt =====
-- What blocking and unblocking leave in the table and in the script that the boot runs.
use srouter.Base.{
  true, false, not, List, [], ◌∷◌, ◌≡◌, arith, some, if◌then◌else◌, Text, codes, text_eq,
  text_eq_refl, text_eq_iff, keep,
}
use srouter.World.{World, ok, write_file, mkdir_all, run}
use srouter.Blocks.{
  Blocker, blocks_script, holds, list_blocked_macs, is_device_blocked, blocks_text, write_text,
  write_listed, write_blocks_script, block_device, unblock_device,
}

-- The script on disk is the one of the table.
abbrev pub InStep : (List Text → List Text) → Blocker → Type 0
InStep order s = s.world.files blocks_script ≡ some (blocks_text (order s.macs))

write_text_file :
    (t : Text) (w : World)
    → (write_text t w).1 ≡ ok tt
    → (write_text t w).0.files blocks_script ≡ some t
unfolding write_text mkdir_all write_file
write_text_file t w h = ground (arith, text_eq_refl blocks_script)

write-InStep :
    (order : List Text → List Text) (s : Blocker)
    → (write_blocks_script order s).1 ≡ ok tt
    → InStep order (write_blocks_script order s).0
      × ((write_blocks_script order s).0.macs ≡ s.macs)
      × ((write_blocks_script order s).0.answers ≡ true)
unfolding write_blocks_script list_blocked_macs write_listed
write-InStep order s h = ground (arith, write_text_file (blocks_text (order s.macs)) s.world)

pub holds-insert :
    (mac other : Text) (macs : List Text)
    → holds other (if holds mac macs then macs else mac ∷ macs)
      ≡ (if text_eq mac other then true else holds other macs)
unfolding holds
holds-insert mac other macs = ground (arith, text_eq_iff mac other)

pub holds-keep :
    (mac other : Text) (macs : List Text)
    → holds other (keep (λ m. not (text_eq m mac)) macs)
      ≡ (if text_eq mac other then false else holds other macs)
unfolding holds keep
holds-keep mac other [] = ground arith
holds-keep mac other (m ∷ macs) = ground (
  arith,
  text_eq_iff mac other,
  text_eq_iff m mac,
  text_eq_iff m other,
  holds-keep mac other macs,
)

-- After a device was blocked without an error, the table holds it and the others as before, and the
-- script on disk is the script of the table.
pub block_device-InStep :
    (order : List Text → List Text) (mac other : Text) (s : Blocker)
    → (block_device order mac s).1 ≡ ok tt
    → (is_device_blocked other (block_device order mac s).0
        ≡ some (if text_eq mac other then true else holds other s.macs))
      × InStep order (block_device order mac s).0
unfolding block_device is_device_blocked
block_device-InStep order mac other s h = ground (
  arith,
  holds-insert mac other s.macs,
  write-InStep order (record s {
    macs = if holds mac s.macs then s.macs else mac ∷ s.macs;
    world =
        (run
          (codes "iptables"
            ∷ codes "-I"
            ∷ codes "FORWARD"
            ∷ codes "1"
            ∷ codes "-m"
            ∷ codes "mac"
            ∷ codes "--mac-source"
            ∷ mac
            ∷ codes "-j"
            ∷ codes "DROP"
            ∷ [])
          s.world).0;
  }),
)

-- After a device was unblocked without an error, the table does not hold it, and the others as
-- before, and the script on disk is the script of the table.
pub unblock_device-InStep :
    (order : List Text → List Text) (mac other : Text) (s : Blocker)
    → (unblock_device order mac s).1 ≡ ok tt
    → (is_device_blocked other (unblock_device order mac s).0
        ≡ some (if text_eq mac other then false else holds other s.macs))
      × InStep order (unblock_device order mac s).0
unfolding unblock_device is_device_blocked
unblock_device-InStep order mac other s h = ground (
  arith,
  holds-keep mac other s.macs,
  write-InStep order (record s {
    macs = keep (λ m. not (text_eq m mac)) s.macs;
    world =
        (run
          (codes "iptables"
            ∷ codes "-D"
            ∷ codes "FORWARD"
            ∷ codes "-m"
            ∷ codes "mac"
            ∷ codes "--mac-source"
            ∷ mac
            ∷ codes "-j"
            ∷ codes "DROP"
            ∷ [])
          s.world).0;
  }),
)
