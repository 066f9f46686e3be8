-- ===== src/Wol.antt =====
-- internal/system/wol.go and internal/handler/wol.go: the table of the devices to wake, its forms, and
-- the magic packet. The database gives a new row its number; the order by name is a parameter.
pub mod Packet
use srouter.Base.{
  ℕ, zero, suc, ◌+◌, ◌-◌, ◌*◌, Bool, true, false, not, ◌&&◌, ◌||◌, List, [], ◌∷◌, ◌++◌, Option,
  none, some, leb, ◌==◌, if◌then◌else◌, Text, codes, text_eq, keep,
}
use srouter.Strings.{byte_len}
use srouter.Numbers.{ℤ, pos, negsuc, Parsed, parsed, bad_syntax, out_of_range, parse_int}
use srouter.World.{Result, ok, err, query_failed}
use srouter.Validate.{is_hex, is_digit, validate_mac}
use srouter.Handlers.{
  Message, required, failed, invalid_index, saved, Reply, http_error, json, page,
}

pub record WolDevice : Type 0 where
  pub id : ℕ
  pub name : Text
  pub mac : Text
  pub ip : Text

-- The table `wol_devices`, the number of its next row, and whether the database answers.
pub record WolTable : Type 0 where
  pub devices : List WolDevice
  pub next_id : ℕ
  pub answers : Bool

-- `ListWoLDevices`; none is an error
unfoldable pub list_wol_devices :
    (List WolDevice → List WolDevice) → WolTable → Option (List WolDevice)
list_wol_devices by_name t = if t.answers then some (by_name t.devices) else none

-- whether a row has the MAC
unfoldable pub has_mac : Text → List WolDevice → Bool
has_mac mac [] = false
has_mac mac (d ∷ ds) = text_eq d.mac mac || has_mac mac ds

-- `AddWoLDevice`; a MAC that a row has violates the uniqueness of the column.
unfoldable pub add_wol_device : WolDevice → WolTable → WolTable × Result ℕ
unfolding has_mac
add_wol_device d t =
    if t.answers && not (has_mac d.mac t.devices)
    then (
      record t { devices = t.devices ++ record d { id = t.next_id } ∷ []; next_id = t.next_id + 1 },
      ok t.next_id,
    )
    else (t, err query_failed)

unfoldable pub is_row : ℤ → WolDevice → Bool
is_row (pos n) d = d.id == n
is_row (negsuc n) d = false

unfoldable pub delete_wol_device : ℤ → WolTable → WolTable × Result (Unit {0})
unfolding is_row
delete_wol_device id t =
    if t.answers
    then (record t { devices = keep (λ d. not (is_row id d)) t.devices }, ok tt)
    else (t, err query_failed)

-- the text without colons and dashes
unfoldable pub strip_separators : Text → Text
strip_separators [] = []
strip_separators (c ∷ s) =
    let rest = strip_separators s in if c == b':' || c == b'-' then rest else c ∷ rest

unfoldable pub hex_value : ℕ → ℕ
unfolding is_digit
hex_value c = if is_digit c then c - b'0' else if leb b'a' c then c - b'a' + 10 else c - b'A' + 10

unfoldable pub put_byte : ℕ → Option (List ℕ) → Option (List ℕ)
put_byte b none = none
put_byte b (some bytes) = some (b ∷ bytes)

-- `hex.DecodeString`; none is an error
unfoldable pub decode_hex : Text → Option (List ℕ)
unfolding is_hex hex_value put_byte
decode_hex [] = some []
decode_hex (a ∷ []) = none
decode_hex (a ∷ b ∷ s) =
    let rest = decode_hex s in
    if is_hex a && is_hex b then put_byte (hex_value a * 16 + hex_value b) rest else none

unfoldable pub copies : ℕ → List ℕ → List ℕ
copies zero bytes = []
copies (suc n) bytes = bytes ++ copies n bytes

unfoldable pub packet_of : Option (List ℕ) → Option (List ℕ)
unfolding copies
packet_of none = none
packet_of (some bytes) = some (copies 6 (0xff ∷ []) ++ copies 16 bytes)

-- the packet of `SendMagicPacket`, none for an invalid MAC
unfoldable pub magic_packet : Text → Option (List ℕ)
unfolding strip_separators decode_hex packet_of
magic_packet mac =
    if byte_len (strip_separators mac) == 12
    then packet_of (decode_hex (strip_separators mac))
    else none

-- `addDevice`
unfoldable pub add_device : WolDevice → WolTable → WolTable × Reply WolDevice
unfolding add_wol_device
add_device d t =
    if text_eq d.name [] || text_eq d.mac []
    then (t, http_error 400 required)
    else if validate_mac d.mac
    then (
      (add_wol_device d t).0,
      elim ((add_wol_device d t).1) [
        | ok n ↦ page (record d { id = n })
        | err e ↦ http_error 500 failed
      ],
    )
    else (t, http_error 400 required)

unfoldable pub done_or_failed : Result (Unit {0}) → Reply (Unit {0})
done_or_failed (ok _) = page tt
done_or_failed (err e) = http_error 500 failed

unfoldable pub delete_parsed : Parsed ℤ → WolTable → WolTable × Reply (Unit {0})
unfolding delete_wol_device done_or_failed
delete_parsed (parsed id) t =
    ((delete_wol_device id t).0, done_or_failed (delete_wol_device id t).1)
delete_parsed bad_syntax t = (t, http_error 400 invalid_index)
delete_parsed out_of_range t = (t, http_error 400 invalid_index)

-- `deleteDevice`
unfoldable pub delete_device : Text → WolTable → WolTable × Reply (Unit {0})
unfolding delete_parsed parse_int
delete_device id t = delete_parsed (parse_int id) t

-- the MAC of the first row of a number, empty without one
unfoldable pub mac_of : ℤ → List WolDevice → Text
unfolding is_row
mac_of id [] = []
mac_of id (d ∷ ds) = if is_row id d then d.mac else mac_of id ds

unfoldable pub devices_or_none : Option (List WolDevice) → List WolDevice
devices_or_none none = []
devices_or_none (some ds) = ds

-- what is sent, and the answer; `sends` says whether the broadcast goes out
unfoldable pub send_to : Bool → Text → Option (List ℕ) × Reply (Unit {0})
unfolding magic_packet
send_to sends mac =
    if text_eq mac [] then (none, http_error 404 required) else elim (magic_packet mac) [
      | none ↦ (none, json false failed)
      | some p ↦ if sends then (some p, json true saved) else (none, json false failed)
    ]

unfoldable pub send_parsed :
    (List WolDevice → List WolDevice)
    → Bool
    → Parsed ℤ
    → WolTable
    → Option (List ℕ) × Reply (Unit {0})
unfolding send_to mac_of devices_or_none list_wol_devices
send_parsed by_name sends (parsed id) t =
    send_to sends (mac_of id (devices_or_none (list_wol_devices by_name t)))
send_parsed by_name sends bad_syntax t = (none, http_error 400 invalid_index)
send_parsed by_name sends out_of_range t = (none, http_error 400 invalid_index)

-- `sendPacket`
unfoldable pub send_packet :
    (List WolDevice → List WolDevice) → Bool → Text → WolTable → Option (List ℕ) × Reply (Unit {0})
unfolding send_parsed parse_int
send_packet by_name sends id t = send_parsed by_name sends (parse_int id) t
