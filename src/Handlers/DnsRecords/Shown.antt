-- ===== src/Handlers/DnsRecords/Shown.antt =====
-- What the forms of local records leave in dnsmasq.conf.
use srouter.Base.{
  ap, ℕ, true, false, ◌||◌, List, [], ◌∷◌, ◌++◌, ◌≡◌, ◌∙◌, arith, Text, codes, text_eq, All,
  All-append, Lacks, Bool-cases, inl, inr,
}
use srouter.Strings.{trim_right, equal_fold}
use srouter.Strings.Trim.{trim_right-trim_space}
use srouter.Strings.Lines.{IsLine, unlines}
use srouter.World.{World, ok, Editable}
use srouter.World.Laws.{written, written-Editable}
use srouter.Dns.{
  dnsmasq_conf, LocalEntry, get_local_entries, add_local_entry, address_line, reload_dnsmasq,
}
use srouter.Dns.Upstream.{get_local_entries-Editable, reload_dnsmasq-Editable}
use srouter.Dns.Local.{get_local_entries-add_local_entry, add_local_entry-Editable}
use srouter.Handlers.{json, page, Form, attempt-ok, items, failed}
use srouter.Handlers.DnsRecords.{
  has_hostname, add_unless, add_record, add_entry, entry_of_form, ignoring,
}

-- No two records have the same host name up to case.
abbrev pub NoClash : (ℕ → ℕ) → List LocalEntry → Type 0
NoClash wide [] = Unit
NoClash wide (e ∷ es) =
    All (λ f. equal_fold wide e.hostname f.hostname ≡ false) es × NoClash wide es

has_hostname-append :
    (wide : ℕ → ℕ) (e : LocalEntry) (es : List LocalEntry)
    → has_hostname wide e.hostname es ≡ false
    → NoClash wide es
    → NoClash wide (es ++ e ∷ [])
unfolding has_hostname
has_hostname-append wide e [] h k = (tt, tt)
has_hostname-append wide e (f ∷ es) h (k, ks) = (
  All-append (λ g. equal_fold wide f.hostname g.hostname ≡ false) es (e ∷ []) k (ground arith, tt),
  has_hostname-append wide e es (ground arith) ks,
)

-- the same records behind a restart of dnsmasq
get_local_entries-reload_dnsmasq :
    {w : World} {s : Text}
    → Editable w dnsmasq_conf s
    → (get_local_entries (reload_dnsmasq w).0).1 ≡ (get_local_entries w).1
get_local_entries-reload_dnsmasq e =
    rw (get_local_entries-Editable (reload_dnsmasq-Editable e), get_local_entries-Editable e)

module _ {w : World} (wide : ℕ → ℕ) (form : Form) (ls : List Text) (es : List LocalEntry)
    (edit : Editable w dnsmasq_conf (unlines ls)) (before : (get_local_entries w).1 ≡ ok es) where
  entries_read : items (get_local_entries w).1 ≡ es
  unfolding items
  entries_read = rw before

  pub add_entry_new :
      (text_eq (entry_of_form form).hostname [] || text_eq (entry_of_form form).ip []) ≡ false
      → has_hostname wide (entry_of_form form).hostname es ≡ false
      → add_entry wide form w ≡ (
        (reload_dnsmasq (
            written w dnsmasq_conf
              (unlines ls ++ unlines (address_line (entry_of_form form) ∷ [])))).0,
        page (entry_of_form form),
      )
  add_entry_new h new =
      unfold add_entry add_record add_unless in
      rw (h, entries_read, new)
        (attempt-ok (add_local_entry (entry_of_form form)) (json false failed)
          (λ _. ignoring reload_dnsmasq (page (entry_of_form form)))
          (add_local_entry-Editable (entry_of_form form) edit))

  add_entry_old :
      has_hostname wide (entry_of_form form).hostname es ≡ true → (add_entry wide form w).0 ≡ w
  add_entry_old old =
      elim (Bool-cases
        (text_eq (entry_of_form form).hostname [] || text_eq (entry_of_form form).ip [])) [
          | inl e ↦ unfold add_entry add_record in rw e
          | inr e ↦ unfold add_entry add_record add_unless in rw (e, entries_read, old)
        ]

  add_entry_empty :
      (text_eq (entry_of_form form).hostname [] || text_eq (entry_of_form form).ip []) ≡ true
      → (add_entry wide form w).0 ≡ w
  add_entry_empty e = unfold add_entry add_record in rw e

module _ {w : World} (wide : ℕ → ℕ) (form : Form) (ls : List Text) (es : List LocalEntry)
    (edit : Editable w dnsmasq_conf (unlines ls)) (lines : All IsLine ls)
    (free : Lacks b'/' (entry_of_form form).hostname)
    (short : IsLine (address_line (entry_of_form form)))
    (before : (get_local_entries w).1 ≡ ok es) where
  trimmed : trim_right (entry_of_form form).ip ≡ (entry_of_form form).ip
  trimmed = unfold entry_of_form in trim_right-trim_space (form (codes "ip"))

  entries_after :
      (text_eq (entry_of_form form).hostname [] || text_eq (entry_of_form form).ip []) ≡ false
      → has_hostname wide (entry_of_form form).hostname es ≡ false
      → (get_local_entries (add_entry wide form w).0).1 ≡ ok (es ++ entry_of_form form ∷ [])
  entries_after h new =
      ap (λ x. (get_local_entries x.0).1) (add_entry_new wide form ls es edit before h new)
      ∙ get_local_entries-reload_dnsmasq
          (written-Editable (unlines ls ++ unlines (address_line (entry_of_form form) ∷ [])) edit)
      ∙ rw (trimmed, add_local_entry-Editable (entry_of_form form) edit) at
          (get_local_entries-add_local_entry ls (entry_of_form form) es edit lines free short
            before)

  -- A form with both fields, whose host name no record has up to case, is answered with its record,
  -- trimmed, and that record is read behind the others as it was answered: the lines of
  -- dnsmasq.conf must be complete, the host name hold no slash, and the line no line end.
  pub get_local_entries-add_entry :
      text_eq (entry_of_form form).hostname [] ≡ false
      → text_eq (entry_of_form form).ip [] ≡ false
      → has_hostname wide (entry_of_form form).hostname es ≡ false
      → ((add_entry wide form w).1 ≡ page (entry_of_form form))
        × ((get_local_entries (add_entry wide form w).0).1 ≡ ok (es ++ entry_of_form form ∷ []))
  get_local_entries-add_entry h i new =
      let both = ap (λ b. b || text_eq (entry_of_form form).ip []) h ∙ i in
      (ap (λ x. x.1) (add_entry_new wide form ls es edit before both new), entries_after both new)

  -- Whatever the form, the handler leaves records of which no two have the same host name up to
  -- case, if there were none before: the lines of dnsmasq.conf must be complete and short, the host
  -- name hold no slash, and the line of the record be short and hold no line end.
  pub add_entry-NoClash :
      NoClash wide es
      → (fs : List LocalEntry) × ((get_local_entries (add_entry wide form w).0).1 ≡ ok fs)
        × NoClash wide fs
  add_entry-NoClash k = elim (Bool-cases (has_hostname wide (entry_of_form form).hostname es)) [
    | inl old ↦ (
      es,
      ap (λ v. (get_local_entries v).1) (add_entry_old wide form ls es edit before old) ∙ before,
      k,
    )
    | inr new ↦
        elim (Bool-cases
          (text_eq (entry_of_form form).hostname [] || text_eq (entry_of_form form).ip [])) [
            | inl e ↦ (
              es,
              ap (λ v. (get_local_entries v).1) (add_entry_empty wide form ls es edit before e)
                  ∙ before,
              k,
            )
            | inr e ↦ (
              es ++ entry_of_form form ∷ [],
              entries_after e new,
              has_hostname-append wide (entry_of_form form) es new k,
            )
          ]
  ]
