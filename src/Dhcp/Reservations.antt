-- ===== src/Dhcp/Reservations.antt =====
-- What `AddReservation` and `DeleteReservation` leave for `GetReservations`.
use srouter.Base.{
  ℕ, true, false, not, List, [], ◌∷◌, ◌++◌, ◌≡◌, refl, ap, arith, none, some, Text, All, keep,
  collect, collect-one, collect-nil, append-nil, Lacks, text_eq, Bool-cases, inl, inr, Option-cases,
}
use srouter.Strings.{
  scan_lines, trim_right, trim_space, has_prefix, trim_prefix, split_n, drop_cr, is_space, contains,
  to_lower,
}
use srouter.Strings.Prefix.{trim_prefix-append}
use srouter.Strings.Trim.{
  trim_space-append, trim_right-Solid, trim_space-drop_cr, is_solid, is_solid_sound, Solid,
}
use srouter.Strings.Split.{split_n_at_sep, split_n-zero}
use srouter.Strings.Parts.{
  Infix, Infix-trans, Infix-trim_space, Infix-trim_prefix, Infix-split_n, contains_lower-Infix,
}
use srouter.Strings.Lines.{IsLine, edit, collect-edit, unlines, collect_appended}
use srouter.World.{World, ok, opened_or, Editable}
use srouter.World.Laws.{
  open_file-Editable, written, write_file-Editable, written-Editable, append_file-Editable,
}
use srouter.Dhcp.{
  Reservation, reservations_file, host_key, reservation_of_parts, reservation_of_line,
  reservation_row, get_reservations, reservation_line, add_reservation, mentions,
  delete_reservation,
}

reservation_row-drop_cr : (l : Text) → reservation_row (drop_cr l) ≡ reservation_row l
reservation_row-drop_cr l = ap reservation_of_line (trim_space-drop_cr l)

reservation_row-nil : reservation_row [] ≡ none
unfolding reservation_of_line trim_space text_eq
reservation_row-nil = refl

pub get_reservations-Editable :
    {w : World} {s : Text}
    → Editable w reservations_file s
    → get_reservations w ≡ (w, ok (collect reservation_row (scan_lines s)))
get_reservations-Editable e = unfold get_reservations opened_or in rw (open_file-Editable e)

host_key-Solid : All Solid host_key
unfolding is_solid
host_key-Solid = is_solid_sound host_key refl

trimmed_line :
    (r : Reservation)
    → trim_space (reservation_line r)
      ≡ host_key ++ (r.mac ++ (b',' ∷ (r.ip ++ (b',' ∷ trim_right r.hostname))))
trimmed_line r =
    unfold reservation_line in
    rw (
      trim_space-append _ _ (r.mac ++ (b',' ∷ (r.ip ++ (b',' ∷ r.hostname)))) host_key-Solid,
      trim_right-Solid r.mac b',' (r.ip ++ (b',' ∷ r.hostname)) (unfold is_space in refl),
      trim_right-Solid r.ip b',' r.hostname (unfold is_space in refl),
    )

line_is_read :
    (v : Text) → reservation_of_line (host_key ++ v) ≡ reservation_of_parts (split_n b',' 2 v)
line_is_read v = unfold reservation_of_line text_eq has_prefix in rw (trim_prefix-append host_key v)

split_two :
    (a b t : Text)
    → Lacks b',' a
    → Lacks b',' b
    → split_n b',' 2 (a ++ (b',' ∷ (b ++ (b',' ∷ t)))) ≡ a ∷ b ∷ t ∷ []
split_two a b t ha hb =
    rw (split_n_at_sep b',' 1 a (b ++ (b',' ∷ t)) ha, split_n_at_sep b',' 0 b t hb, split_n-zero)

reservation_row-line :
    (r : Reservation)
    → Lacks b',' r.mac
    → Lacks b',' r.ip
    → reservation_row (reservation_line r)
      ≡ some (record { mac = r.mac; ip = r.ip; hostname = trim_right r.hostname })
reservation_row-line r ha hb =
    rw (trimmed_line r, line_is_read, split_two r.mac r.ip (trim_right r.hostname) ha hb)
      (unfold reservation_of_parts in refl)

pub add_reservation-Editable :
    {w : World} {s : Text} (r : Reservation)
    → Editable w reservations_file s
    → add_reservation r w
      ≡ (written w reservations_file (s ++ unlines (reservation_line r ∷ [])), ok tt)
add_reservation-Editable r h =
    unfold add_reservation unlines in append_file-Editable true (reservation_line r ++ b'\n' ∷ []) h

-- If the last line of the reservations file is complete, an added reservation is read behind those
-- that were there, its host name trimmed at the right end; MAC and IP must hold no comma, and the
-- line no line end.
pub get_reservations-add_reservation :
    {w : World} (ls : List Text) (r : Reservation) (rs : List Reservation)
    → Editable w reservations_file (unlines ls)
    → All IsLine ls
    → Lacks b',' r.mac
    → Lacks b',' r.ip
    → IsLine (reservation_line r)
    → (get_reservations w).1 ≡ ok rs
    → (get_reservations (add_reservation r w).0).1
      ≡ ok (rs ++ record { mac = r.mac; ip = r.ip; hostname = trim_right r.hostname } ∷ [])
get_reservations-add_reservation ls r rs w-edit h ha hb short before =
    rw
      (
        add_reservation-Editable r w-edit,
        get_reservations-Editable
            (written-Editable (unlines ls ++ unlines (reservation_line r ∷ [])) w-edit),
        collect_appended reservation_row ls (reservation_line r ∷ []) reservation_row-drop_cr h
            (short, tt),
        collect-one reservation_row (reservation_line r) (reservation_row-line r ha hb),
      )
      (one (rw (get_reservations-Editable w-edit) at before))
  where
    one :
        ok (collect reservation_row (scan_lines (unlines ls))) ≡ ok rs
        → ok (
            collect reservation_row (scan_lines (unlines ls))
            ++ record { mac = r.mac; ip = r.ip; hostname = trim_right r.hostname } ∷ [])
          ≡ ok (rs ++ record { mac = r.mac; ip = r.ip; hostname = trim_right r.hostname } ∷ [])
    one h = cc h

parts_mac :
    (ps : List Text) (r : Reservation)
    → reservation_of_parts ps ≡ some r
    → (rest : List Text) × (ps ≡ r.mac ∷ rest)
unfolding reservation_of_parts
parts_mac [] r h = cc
parts_mac (m ∷ []) r h = cc
parts_mac (m ∷ i ∷ []) r h = (i ∷ [], ground arith)
parts_mac (m ∷ i ∷ k ∷ []) r h = (i ∷ k ∷ [], ground arith)
parts_mac (m ∷ i ∷ k ∷ x ∷ ps) r h = (i ∷ k ∷ x ∷ ps, ground arith)

line_mac : (t : Text) (r : Reservation) → reservation_of_line t ≡ some r → Infix r.mac t
line_mac t r h =
    let (rest, e) = parts_mac (split_n b',' 2 (trim_prefix t host_key)) r (read t r h) in
    Infix-trans r.mac (trim_prefix t host_key) t
      (Infix-split_n b',' 2 (trim_prefix t host_key) r.mac rest e) (Infix-trim_prefix t host_key)
  where
    read :
        (t : Text) (r : Reservation)
        → reservation_of_line t ≡ some r
        → reservation_of_parts (split_n b',' 2 (trim_prefix t host_key)) ≡ some r
    read t r h = unfold reservation_of_line in ground arith

-- A reservation's MAC stands in its line.
row_mac : (l : Text) (r : Reservation) → reservation_row l ≡ some r → Infix r.mac l
row_mac l r h =
    Infix-trans r.mac (trim_space l) l (line_mac (trim_space l) r h) (Infix-trim_space l)

module _ (wide : ℕ → ℕ) (mac : Text) where
  -- No part of the reservation's MAC is the text, whatever the case of the letters.
  abbrev pub Unmentioned : Reservation → Type 0
  Unmentioned r = contains (to_lower wide r.mac) (to_lower wide mac) ≡ false

  collect-Unmentioned :
      (ls : List Text)
      → All Unmentioned (collect reservation_row (keep (λ l. not (mentions wide mac l)) ls))
  unfolding collect keep
  collect-Unmentioned [] = tt
  collect-Unmentioned (l ∷ ls) = elim (Bool-cases (mentions wide mac l)) [
    | inl hit ↦ rw hit (collect-Unmentioned ls)
    | inr miss ↦ elim (Option-cases (reservation_row l)) [
      | inl e ↦ rw (miss, e, collect) (collect-Unmentioned ls)
      | inr (r, e) ↦ rw (miss, e, collect) (unmentioned l r e miss, collect-Unmentioned ls)
    ]
  ]
    where
      clash :
          (l : Text)
          → mentions wide mac l ≡ false
          → contains (to_lower wide l) (to_lower wide mac) ≡ true
          → ⊥
      clash l miss hit = unfold mentions in cc

      unmentioned :
          (l : Text) (r : Reservation)
          → reservation_row l ≡ some r
          → mentions wide mac l ≡ false
          → Unmentioned r
      unmentioned l r e miss =
          elim (Bool-cases (contains (to_lower wide r.mac) (to_lower wide mac))) [
            | inl hit ↦ absurd (
                clash l miss
                  (contains_lower-Infix wide r.mac l (to_lower wide mac) (row_mac l r e) hit))
            | inr no_hit ↦ no_hit
          ]

  abbrev without : Text → Text
  without s = edit (λ l. not (mentions wide mac l)) [] s

  delete_reservation-Editable :
      {w : World} {s : Text}
      → Editable w reservations_file s
      → delete_reservation wide mac w ≡ (written w reservations_file (without s), ok tt)
  delete_reservation-Editable {s = s} e =
      unfold delete_reservation in rw (open_file-Editable e, write_file-Editable (without s) e)

  -- After a deletion the reservations can be read, and no one is left whose MAC contains the text
  -- given, in any case of the letters: the reservation of that MAC is gone, and so is every other
  -- whose MAC the text is a part of.
  pub delete_reservation_removes :
      {w : World} {s : Text}
      → Editable w reservations_file s
      → (rs : List Reservation) × ((get_reservations (delete_reservation wide mac w).0).1 ≡ ok rs)
        × All Unmentioned rs
  delete_reservation_removes {s = s} e = (
    collect reservation_row (keep (λ l. not (mentions wide mac l)) (scan_lines s)),
    rw (
      delete_reservation-Editable e,
      get_reservations-Editable (written-Editable (without s) e),
      collect-edit reservation_row (λ l. not (mentions wide mac l)) [] s reservation_row-nil
          reservation_row-drop_cr tt,
      collect-nil reservation_row,
      append-nil,
    ),
    collect-Unmentioned (scan_lines s),
  )
