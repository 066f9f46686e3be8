-- ===== src/Dashboard.antt =====
-- internal/handler/dashboard.go and internal/system/device_labels.go: the table of labels, the rows of
-- the connected devices, and the forms that label, block and limit a device. The three tables are
-- those of Dashboard, Blocks and Bandwidth. `sort.Slice` is a parameter, and so are the four bytes
-- of an address of net.ParseIP, if it has them.
pub mod Rows
pub mod Limits
use srouter.Base.{
  ℕ, zero, suc, Bool, true, false, not, ◌&&◌, ◌||◌, List, [], ◌∷◌, Option, none, some, ltb, ◌==◌,
  if◌then◌else◌, Text, codes, text_eq, map,
}
use srouter.Numbers.{ℤ, pos, negsuc, Parsed, parsed, bad_syntax, out_of_range, parse_int}
use srouter.Maps.{lookup, insert, erase}
use srouter.Sort.{text_leb}
use srouter.World.{World, Result, ok, err, query_failed}
use srouter.Dhcp.{Lease}
use srouter.Network.{ArpEntry}
use srouter.Blocks
use srouter.Blocks.{Blocker, holds, block_device, unblock_device, list_blocked_macs}
use srouter.Bandwidth
use srouter.Bandwidth.{
  Router, mbps_of, set_bandwidth_limit, delete_bandwidth_limit, list_bandwidth_limits,
  validate_bandwidth_mbps,
}
use srouter.Validate.{validate_mac}
use srouter.Handlers.{Message, required, failed, Reply, http_error, page}

-- The table `device_labels` by its primary key, and whether the database answers.
pub record LabelTable : Type 0 where
  pub labels : List (Text × Text)
  pub answers : Bool

-- what `GetDeviceLabel` returns: an error, or the label, empty without a row
unfoldable pub get_device_label : Text → LabelTable → Option Text
get_device_label mac t =
    if t.answers then elim (lookup mac t.labels) [ none ↦ some [] | some l ↦ some l ] else none

unfoldable pub set_device_label : Text → Text → LabelTable → LabelTable × Result (Unit {0})
set_device_label mac label t =
    if t.answers
    then (record t { labels = insert mac label t.labels }, ok tt)
    else (t, err query_failed)

unfoldable pub delete_device_label : Text → LabelTable → LabelTable × Result (Unit {0})
delete_device_label mac t =
    if t.answers then (record t { labels = erase mac t.labels }, ok tt) else (t, err query_failed)

-- `ListDeviceLabels`; none is an error
unfoldable pub list_device_labels : LabelTable → Option (List (Text × Text))
list_device_labels t = if t.answers then some t.labels else none

pub record Device : Type 0 where
  pub ip : Text
  pub mac : Text
  pub hostname : Text
  pub label : Text
  pub blocked : Bool
  pub limit_mbps : ℕ

unfoldable pub text_or_empty : Option Text → Text
text_or_empty none = []
text_or_empty (some t) = t

unfoldable pub list_or_empty : {A : Type 0} → Option (List A) → List A
list_or_empty none = []
list_or_empty (some xs) = xs

-- the host names of the leases by MAC; the last lease with a name counts
unfoldable pub hostname_by_mac : List Lease → List (Text × Text) → List (Text × Text)
hostname_by_mac [] m = m
hostname_by_mac (l ∷ ls) m =
    hostname_by_mac ls (if text_eq l.hostname [] then m else insert l.mac l.hostname m)

-- What the dashboard shows of a device is drawn from these.
pub record Site : Type 0 where
  pub labels : LabelTable
  pub blocker : Blocker
  pub router : Router
  -- what `GetLeases` and `GetARPTable` give
  pub leases : List Lease
  pub arp : List ArpEntry

unfoldable pub device_of : Site → ArpEntry → Device
unfolding hostname_by_mac text_or_empty list_or_empty
device_of s a = record {
  ip = a.ip;
  mac = a.mac;
  hostname = text_or_empty (lookup a.mac (hostname_by_mac s.leases []));
  label = text_or_empty (lookup a.mac (list_or_empty (list_device_labels s.labels)));
  blocked = holds a.mac (list_or_empty (list_blocked_macs s.blocker));
  limit_mbps = mbps_of (lookup a.mac (list_or_empty (list_bandwidth_limits s.router)));
}

-- lexical order of two addresses of the same length
unfoldable pub bytes_less : List ℕ → List ℕ → Bool
bytes_less [] bs = false
bytes_less (a ∷ as4) [] = false
bytes_less (a ∷ as4) (b ∷ bs) = if a == b then bytes_less as4 bs else ltb a b

unfoldable pub parsed_less : Option (List ℕ) → Option (List ℕ) → Text → Text → Bool
unfolding bytes_less
parsed_less (some x) (some y) a b = bytes_less x y
parsed_less none y a b = not (text_leb b a)
parsed_less (some x) none a b = not (text_leb b a)

-- `ipLess`
unfoldable pub ip_less : (Text → Option (List ℕ)) → Text → Text → Bool
unfolding parsed_less
ip_less four a b = parsed_less (four a) (four b) a b

abbrev pub Sorting : Type 0
Sorting = (Device → Device → Bool) → List Device → List Device

-- the devices of `gatherData`
unfoldable pub gather_devices : (Text → Option (List ℕ)) → Sorting → Site → List Device
unfolding device_of ip_less
gather_devices four sort s = sort (λ x y. ip_less four x.ip y.ip) (map (device_of s) s.arp)

-- the first row of a MAC
unfoldable pub find_device : Text → List Device → Option Device
find_device mac [] = none
find_device mac (d ∷ ds) = if text_eq d.mac mac then some d else find_device mac ds

-- what a form is answered with: the new row of the device, if it is connected
abbrev pub Answer : Type 0
Answer = Reply (Option Device)

module _ (four : Text → Option (List ℕ)) (sort : Sorting) (order : List Text → List Text)
    (order_limits : List (Text × ℕ) → List Text) where
  unfoldable pub answer : Text → Result (Unit {0}) → Site → Site × Answer
  unfolding gather_devices find_device
  answer mac (ok _) s = (s, page (find_device mac (gather_devices four sort s)))
  answer mac (err e) s = (s, http_error 500 failed)

  unfoldable pub set_label : Text → Text → Site → Site × Answer
  unfolding answer set_device_label
  set_label mac label s =
      if text_eq mac [] || text_eq label []
      then (s, http_error 400 required)
      else if validate_mac mac
      then answer mac (set_device_label mac label s.labels).1
          (record s { labels = (set_device_label mac label s.labels).0 })
      else (s, http_error 400 required)

  unfoldable pub delete_label : Text → Site → Site × Answer
  unfolding answer delete_device_label
  delete_label mac s =
      if validate_mac mac
      then answer mac (delete_device_label mac s.labels).1
          (record s { labels = (delete_device_label mac s.labels).0 })
      else (s, http_error 400 required)

  unfoldable pub block : Text → Site → Site × Answer
  unfolding answer
  block mac s =
      if text_eq mac []
      then (s, http_error 400 required)
      else if validate_mac mac
      then answer mac (block_device order mac s.blocker).1
          (record s { blocker = (block_device order mac s.blocker).0 })
      else (s, http_error 400 required)

  unfoldable pub unblock : Text → Site → Site × Answer
  unfolding answer
  unblock mac s =
      if validate_mac mac
      then answer mac (unblock_device order mac s.blocker).1
          (record s { blocker = (unblock_device order mac s.blocker).0 })
      else (s, http_error 400 required)

  unfoldable pub limit_parsed : Text → Parsed ℤ → Site → Site × Answer
  unfolding answer
  limit_parsed mac (parsed (pos mbps)) s =
      if validate_bandwidth_mbps mbps
      then answer mac (set_bandwidth_limit order_limits mac mbps s.router).1
          (record s { router = (set_bandwidth_limit order_limits mac mbps s.router).0 })
      else (s, http_error 400 required)
  limit_parsed mac (parsed (negsuc n)) s = (s, http_error 400 required)
  limit_parsed mac bad_syntax s = (s, http_error 400 required)
  limit_parsed mac out_of_range s = (s, http_error 400 required)

  unfoldable pub set_limit : Text → Text → Site → Site × Answer
  unfolding limit_parsed
  set_limit mac mbps s =
      if text_eq mac [] || text_eq mbps []
      then (s, http_error 400 required)
      else if validate_mac mac
      then limit_parsed mac (parse_int mbps) s
      else (s, http_error 400 required)

  unfoldable pub delete_limit : Text → Site → Site × Answer
  unfolding answer
  delete_limit mac s =
      if validate_mac mac
      then answer mac (delete_bandwidth_limit order_limits mac s.router).1
          (record s { router = (delete_bandwidth_limit order_limits mac s.router).0 })
      else (s, http_error 400 required)
