-- ===== src/Dashboard/Rows.antt =====
-- What an accepted form changes in the rows of the dashboard.
use srouter.Base.{
  ap, ℕ, Bool, true, false, not, List, [], ◌∷◌, ◌≡◌, refl, ◌∙◌, arith, Option, some, Text, text_eq,
  if◌then◌else◌, keep,
}
use srouter.Numbers.{pos, parsed, parse_int}
use srouter.Maps.{lookup, insert, lookup-insert}
use srouter.World.{Result, ok, err}
use srouter.Network.{ArpEntry}
use srouter.Blocks.{
  Blocker, holds, block_device, unblock_device, list_blocked_macs, write_blocks_script,
  write_listed,
}
use srouter.Blocks.Apply.{holds-insert, holds-keep}
use srouter.Bandwidth.{
  Router, mbps_of, set_bandwidth_limit, list_bandwidth_limits, apply_limits,
  apply_all_bandwidth_limits, validate_bandwidth_mbps,
}
use srouter.Validate.{validate_mac}
use srouter.Dashboard.{Site, device_of, Sorting, answer, block, unblock, limit_parsed, set_limit}

-- The tables are changed whether or not the script could be written.
block_macs :
    (order : List Text → List Text) (mac : Text) (s : Blocker)
    → s.answers ≡ true
    → list_blocked_macs (block_device order mac s).0
      ≡ some (if holds mac s.macs then s.macs else mac ∷ s.macs)
unfolding block_device write_blocks_script write_listed list_blocked_macs
block_macs order mac s h = ground arith

unblock_macs :
    (order : List Text → List Text) (mac : Text) (s : Blocker)
    → s.answers ≡ true
    → list_blocked_macs (unblock_device order mac s).0
      ≡ some (keep (λ m. not (text_eq m mac)) s.macs)
unfolding unblock_device write_blocks_script write_listed list_blocked_macs
unblock_macs order mac s h = ground arith

limit_rows :
    (order : List (Text × ℕ) → List Text) (mac : Text) (mbps : ℕ) (s : Router)
    → s.answers ≡ true
    → list_bandwidth_limits (set_bandwidth_limit order mac mbps s).0
      ≡ some (insert mac mbps s.limits)
unfolding set_bandwidth_limit apply_all_bandwidth_limits apply_limits list_bandwidth_limits
limit_rows order mac mbps s h = ground arith

answer_site :
    (four : Text → Option (List ℕ)) (sort : Sorting) (order : List Text → List Text)
    (order_limits : List (Text × ℕ) → List Text) (mac : Text) (r : Result (Unit {0})) (s : Site)
    → (answer four sort order order_limits mac r s).0 ≡ s
unfolding answer
answer_site four sort order order_limits mac (ok _) s = refl
answer_site four sort order order_limits mac (err e) s = refl

blocked_listed : (b : Blocker) → b.answers ≡ true → list_blocked_macs b ≡ some b.macs
unfolding list_blocked_macs
blocked_listed b h = rw h

limits_listed : (r : Router) → r.answers ≡ true → list_bandwidth_limits r ≡ some r.limits
unfolding list_bandwidth_limits
limits_listed r h = rw h

module _ (four : Text → Option (List ℕ)) (sort : Sorting) (order : List Text → List Text)
    (order_limits : List (Text × ℕ) → List Text) (mac : Text) (s : Site)
    (valid : validate_mac mac ≡ true) (given : text_eq mac [] ≡ false) where
  block_site :
      (block four sort order order_limits mac s).0
      ≡ record s { blocker = (block_device order mac s.blocker).0 }
  unfolding block
  block_site =
      rw (given, valid)
        (answer_site four sort order order_limits mac (block_device order mac s.blocker).1
          (record s { blocker = (block_device order mac s.blocker).0 }))

  -- Blocking a valid MAC shows just the connected devices of that MAC as blocked besides those that
  -- were, and changes nothing else of any row, even if the script cannot be written; the database
  -- must answer.
  pub device_of-block :
      (a : ArpEntry)
      → s.blocker.answers ≡ true
      → device_of (block four sort order order_limits mac s).0 a ≡ record (device_of s a) {
        blocked = if text_eq mac a.mac then true else (device_of s a).blocked;
      }
  unfolding device_of
  device_of-block a h =
      rw (block_site, block_macs order mac s.blocker h, blocked_listed s.blocker h)
        (ap (λ b. record (device_of s a) { blocked = b }) (holds-insert mac a.mac s.blocker.macs))

  unblock_site :
      (unblock four sort order order_limits mac s).0
      ≡ record s { blocker = (unblock_device order mac s.blocker).0 }
  unfolding unblock
  unblock_site = rw valid (
      answer_site four sort order order_limits mac (unblock_device order mac s.blocker).1
        (record s { blocker = (unblock_device order mac s.blocker).0 }))

  -- Unblocking a valid MAC shows its devices as not blocked, and changes nothing else of any row.
  pub device_of-unblock :
      (a : ArpEntry)
      → s.blocker.answers ≡ true
      → device_of (unblock four sort order order_limits mac s).0 a ≡ record (device_of s a) {
        blocked = if text_eq mac a.mac then false else (device_of s a).blocked;
      }
  unfolding device_of
  device_of-unblock a h =
      rw (unblock_site, unblock_macs order mac s.blocker h, blocked_listed s.blocker h)
        (ap (λ b. record (device_of s a) { blocked = b }) (holds-keep mac a.mac s.blocker.macs))

  set_limit_site :
      (mbps : Text) (n : ℕ)
      → text_eq mbps [] ≡ false
      → parse_int mbps ≡ parsed (pos n)
      → validate_bandwidth_mbps n ≡ true
      → (set_limit four sort order order_limits mac mbps s).0
        ≡ record s { router = (set_bandwidth_limit order_limits mac n s.router).0 }
  unfolding set_limit limit_parsed
  set_limit_site mbps n some_text number allowed =
      rw (given, some_text, valid, number, allowed)
        (answer_site four sort order order_limits mac
          (set_bandwidth_limit order_limits mac n s.router).1
          (record s { router = (set_bandwidth_limit order_limits mac n s.router).0 }))

  -- Limiting a valid MAC to one of the presets shows that limit for its devices, and changes nothing
  -- else of any row, even if the script cannot be applied; the database must answer.
  pub device_of-set_limit :
      (a : ArpEntry) (mbps : Text) (n : ℕ)
      → text_eq mbps [] ≡ false
      → parse_int mbps ≡ parsed (pos n)
      → validate_bandwidth_mbps n ≡ true
      → s.router.answers ≡ true
      → device_of (set_limit four sort order order_limits mac mbps s).0 a ≡ record (device_of s a) {
        limit_mbps = if text_eq mac a.mac then n else (device_of s a).limit_mbps;
      }
  unfolding device_of
  device_of-set_limit a mbps n some_text number allowed h =
      rw
        (
          set_limit_site mbps n some_text number allowed,
          limit_rows order_limits mac n s.router h,
          limits_listed s.router h,
        )
        (ap (λ m. record (device_of s a) { limit_mbps = m })
          (ap mbps_of (lookup-insert mac a.mac n s.router.limits) ∙ either (text_eq mac a.mac)))
    where
      either :
          (b : Bool)
          → mbps_of (if b then some n else lookup a.mac s.router.limits)
            ≡ (if b then n else mbps_of (lookup a.mac s.router.limits))
      either true = unfold mbps_of in refl
      either false = refl
