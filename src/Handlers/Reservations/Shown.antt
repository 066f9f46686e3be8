-- ===== src/Handlers/Reservations/Shown.antt =====
-- What the form of a reservation leaves in the file of reservations.
use srouter.Base.{
  ap, ℕ, Bool, true, false, ◌||◌, List, [], ◌∷◌, ◌++◌, ◌≡◌, ◌∙◌, arith, Text, codes, text_eq, All,
  All-append, Lacks, Bool-cases, inl, inr,
}
use srouter.Strings.{trim_right, equal_fold}
use srouter.Strings.Trim.{trim_right-trim_space}
use srouter.Strings.Lines.{IsLine, unlines}
use srouter.World.{World, ok, Editable}
use srouter.World.Laws.{written, written-Editable}
use srouter.Dns.{reload_dnsmasq}
use srouter.Dns.Upstream.{reload_dnsmasq-Editable}
use srouter.Dhcp.{
  reservations_file, Reservation, get_reservations, add_reservation, reservation_line,
}
use srouter.Dhcp.Reservations.{
  get_reservations-Editable, get_reservations-add_reservation, add_reservation-Editable,
}
use srouter.Handlers.{json, page, Form, attempt-ok, items, failed}
use srouter.Handlers.DnsRecords.{ignoring}
use srouter.Handlers.Reservations.{
  is_reserved, reserve_unless, reserve, reserve_form, reservation_of_form,
}

-- the test on one reservation of the loop
abbrev clashes : (ℕ → ℕ) → Reservation → Reservation → Bool
clashes fold e r = equal_fold fold e.mac r.mac || text_eq e.ip r.ip

-- No two reservations have the same MAC up to case, or the same address.
abbrev pub NoClash : (ℕ → ℕ) → List Reservation → Type 0
NoClash fold [] = Unit
NoClash fold (e ∷ es) =
    All (λ r. (equal_fold fold e.mac r.mac || text_eq e.ip r.ip) ≡ false) es × NoClash fold es

is_reserved-append :
    (fold : ℕ → ℕ) (r : Reservation) (es : List Reservation)
    → is_reserved fold r es ≡ false
    → NoClash fold es
    → NoClash fold (es ++ r ∷ [])
unfolding is_reserved
is_reserved-append fold r [] h k = (tt, tt)
is_reserved-append fold r (e ∷ es) h (k, ks) = (
  All-append (λ f. clashes fold e f ≡ false) es (r ∷ []) k (ground arith, tt),
  is_reserved-append fold r es (ground arith) ks,
)

get_reservations-reload_dnsmasq :
    {w : World} {s : Text}
    → Editable w reservations_file s
    → (get_reservations (reload_dnsmasq w).0).1 ≡ (get_reservations w).1
get_reservations-reload_dnsmasq e =
    rw (get_reservations-Editable (reload_dnsmasq-Editable e), get_reservations-Editable e)

module _ {w : World} (wide fold : ℕ → ℕ) (form : Form) (ls : List Text) (rs : List Reservation)
    (edit : Editable w reservations_file (unlines ls))
    (before : (get_reservations w).1 ≡ ok rs) where
  reservations_read : items (get_reservations w).1 ≡ rs
  unfolding items
  reservations_read = rw before

  reserve_form_new :
      (text_eq (reservation_of_form wide form).mac []
          || text_eq (reservation_of_form wide form).ip [])
        ≡ false
      → is_reserved fold (reservation_of_form wide form) rs ≡ false
      → reserve_form wide fold form w ≡ (
        (reload_dnsmasq (
            written w reservations_file
              (unlines ls ++ unlines (reservation_line (reservation_of_form wide form) ∷ [])))).0,
        page (reservation_of_form wide form),
      )
  reserve_form_new h new =
      unfold reserve_form reserve reserve_unless in
      rw (h, reservations_read, new)
        (attempt-ok (add_reservation (reservation_of_form wide form)) (json false failed)
          (λ _. ignoring reload_dnsmasq (page (reservation_of_form wide form)))
          (add_reservation-Editable (reservation_of_form wide form) edit))

  -- A refused form leaves all as it was.
  reserve_form_refused :
      (text_eq (reservation_of_form wide form).mac []
            || text_eq (reservation_of_form wide form).ip [])
          || is_reserved fold (reservation_of_form wide form) rs
        ≡ true
      → (reserve_form wide fold form w).0 ≡ w
  reserve_form_refused h =
      elim (Bool-cases (
        text_eq (reservation_of_form wide form).mac []
        || text_eq (reservation_of_form wide form).ip [])) [
          | inl e ↦ unfold reserve_form reserve in rw e
          | inr e ↦
              unfold reserve_form reserve reserve_unless in rw (e, reservations_read, rw e at h)
        ]

  trimmed :
      trim_right (reservation_of_form wide form).hostname ≡ (reservation_of_form wide form).hostname
  trimmed = unfold reservation_of_form in trim_right-trim_space (form (codes "hostname"))

  module _ (lines : All IsLine ls) (mac : Lacks b',' (reservation_of_form wide form).mac)
      (ip : Lacks b',' (reservation_of_form wide form).ip)
      (short : IsLine (reservation_line (reservation_of_form wide form))) where
    reservations_after :
        (text_eq (reservation_of_form wide form).mac []
            || text_eq (reservation_of_form wide form).ip [])
          ≡ false
        → is_reserved fold (reservation_of_form wide form) rs ≡ false
        → (get_reservations (reserve_form wide fold form w).0).1
          ≡ ok (rs ++ reservation_of_form wide form ∷ [])
    reservations_after h new =
        ap (λ x. (get_reservations x.0).1) (reserve_form_new h new)
        ∙ get_reservations-reload_dnsmasq (
            written-Editable
              (unlines ls ++ unlines (reservation_line (reservation_of_form wide form) ∷ [])) edit)
        ∙ rw (trimmed, add_reservation-Editable (reservation_of_form wide form) edit) at
            (get_reservations-add_reservation ls (reservation_of_form wide form) rs edit lines mac
              ip short before)

    -- Whatever the form, the handler leaves reservations of which no two have the same MAC up to
    -- case or the same address, if there were none before; the lines of the file must be complete,
    -- and the form's values hold no comma and no line end.
    pub reserve_form-NoClash :
        NoClash fold rs
        → (qs : List Reservation) × ((get_reservations (reserve_form wide fold form w).0).1 ≡ ok qs)
          × NoClash fold qs
    reserve_form-NoClash k =
        elim (Bool-cases (
          (text_eq (reservation_of_form wide form).mac []
            || text_eq (reservation_of_form wide form).ip [])
          || is_reserved fold (reservation_of_form wide form) rs)) [
            | inl e ↦ (rs, ap (λ v. (get_reservations v).1) (reserve_form_refused e) ∙ before, k)
            | inr e ↦
                let new = neither e in
                (
                  rs ++ reservation_of_form wide form ∷ [],
                  reservations_after new.0 new.1,
                  is_reserved-append fold (reservation_of_form wide form) rs new.1 k,
                )
          ]
      where
        neither : {a b : Bool} → a || b ≡ false → (a ≡ false) × (b ≡ false)
        neither h = ground arith
