-- ===== src/Bandwidth/Script.antt =====
-- The classes that the script gives to the limited devices.
use mathlib.Core.List.{Permᴰ}
use srouter.Base.{
  ℕ, zero, suc, ◌+◌, ◌≤◌, ◌<◌, true, List, [], ◌∷◌, ◌≡◌, refl, arith, Option, none, some,
  if◌then◌else◌, Text, codes, ltb, All, get_elem?,
}
use srouter.Maps.{lookup}
use srouter.Numbers.{decimal}
use srouter.Sort.{sort_strings, text_leb}
use srouter.Sort.Order.{sort_strings-Perm, sort_strings-All, insert_sorted-least}
use srouter.Bandwidth.{
  mark_line, mark_lines, class_line, filter_line, class_lines, mbps_of, generate_bandwidth_script,
  default_class_line, class_id_start, add_class,
}

-- The script does not depend on the order in which Go ranges over the map of the limits.
pub generate_bandwidth_script-Perm :
    (iface : Text) (limits : List (Text × ℕ)) {macs macs' : List Text}
    → Permᴰ macs macs'
    → generate_bandwidth_script iface limits macs ≡ generate_bandwidth_script iface limits macs'
unfolding generate_bandwidth_script
generate_bandwidth_script-Perm iface limits d = rw (sort_strings-Perm d) refl

mark_at :
    (id : ℕ) (macs : List Text) (n : ℕ) (mac : Text)
    → get_elem? macs n ≡ some mac
    → id + n ≤ 245
    → get_elem? (mark_lines id macs) n ≡ some (mark_line mac (id + n))
unfolding mark_lines
mark_at id [] n mac h le = ground arith
mark_at id (m ∷ macs) zero mac h le = ground arith
mark_at id (m ∷ macs) (suc n) mac h le = ground (arith, mark_at (id + 1) macs n mac h)

marks_end :
    (id : ℕ) (macs : List Text) (n : ℕ) → 245 < id + n → get_elem? (mark_lines id macs) n ≡ none
unfolding mark_lines
marks_end id [] n h = refl
marks_end id (m ∷ macs) zero h = ground arith
marks_end id (m ∷ macs) (suc n) h = ground (arith, marks_end (id + 1) macs n)

class_at :
    (iface : Text) (limits : List (Text × ℕ)) (id : ℕ) (macs : List Text) (n : ℕ) (mac : Text)
    → get_elem? macs n ≡ some mac
    → id + n ≤ 245
    → (get_elem? (class_lines iface limits id macs) (n + n)
        ≡ some (class_line iface (id + n) (mbps_of (lookup mac limits))))
      × (get_elem? (class_lines iface limits id macs) (suc (n + n))
          ≡ some (filter_line iface (id + n)))
unfolding class_lines
class_at iface limits id [] n mac h le = ground arith
class_at iface limits id (m ∷ macs) zero mac h le = ground arith
class_at iface limits id (m ∷ macs) (suc n) mac h le =
    ground (arith, class_at iface limits (id + 1) macs n mac h)

classes_end :
    (iface : Text) (limits : List (Text × ℕ)) (id : ℕ) (macs : List Text) (n : ℕ)
    → 245 < id + n
    → (get_elem? (class_lines iface limits id macs) (n + n) ≡ none)
      × (get_elem? (class_lines iface limits id macs) (suc (n + n)) ≡ none)
unfolding class_lines
classes_end iface limits id [] n h = (refl, refl)
classes_end iface limits id (m ∷ macs) zero h = ground arith
classes_end iface limits id (m ∷ macs) (suc n) h =
    ground (arith, classes_end iface limits (id + 1) macs n)

-- An item for the device at place n, if its number is in the range.
abbrev pub in_range {ℓ} : {A : Type ℓ} → ℕ → A → Option A
in_range n x = if ltb 245 (class_id_start + n) then none else some x

-- The device at place n of the sorted MACs, from 0, gets the number 10 + n, if that is at most 245:
-- for its mark, for its class with its own limit, and for the filter that leads the mark to the
-- class. The devices behind get no line.
pub class_of_device :
    (iface : Text) (limits : List (Text × ℕ)) (macs : List Text) (n : ℕ) (mac : Text)
    → get_elem? macs n ≡ some mac
    → (get_elem? (mark_lines class_id_start macs) n
        ≡ in_range n (mark_line mac (class_id_start + n)))
      × (get_elem? (class_lines iface limits class_id_start macs) (n + n)
          ≡ in_range n (class_line iface (class_id_start + n) (mbps_of (lookup mac limits))))
      × (get_elem? (class_lines iface limits class_id_start macs) (suc (n + n))
          ≡ in_range n (filter_line iface (class_id_start + n)))
class_of_device iface limits macs n mac h = ground (
  arith,
  mark_at 10 macs n mac h,
  marks_end 10 macs n,
  class_at iface limits 10 macs n mac h,
  classes_end iface limits 10 macs n,
)

-- The class of the device at place 20, from 0, has the name of the class of the traffic that no
-- filter takes: the script adds 1:30 twice.
pub class_of_device_clashes :
    (iface : Text) (limits : List (Text × ℕ)) (macs : List Text) (mac : Text)
    → get_elem? macs 20 ≡ some mac
    → (get_elem? (class_lines iface limits class_id_start macs) 40
        ≡ some (add_class iface (codes "30") (decimal (mbps_of (lookup mac limits)))))
      × (default_class_line iface ≡ add_class iface (codes "30") (codes "1000"))
unfolding class_line decimal default_class_line
class_of_device_clashes iface limits macs mac h =
    ((class_at iface limits 10 macs 20 mac h (omega arith)).0, refl)

-- Where a MAC that sorts before all others is added, every device that had a number gets the next.
pub mark_lines_shift :
    (mac : Text) (macs : List Text)
    → All (λ m. text_leb mac m ≡ true) macs
    → mark_lines class_id_start (sort_strings (mac ∷ macs))
      ≡ mark_line mac class_id_start ∷ mark_lines (class_id_start + 1) (sort_strings macs)
unfolding sort_strings mark_lines
mark_lines_shift mac macs h =
    rw (insert_sorted-least mac (sort_strings macs) (sort_strings-All _ macs h)) refl
