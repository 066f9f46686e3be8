-- ===== src/Handlers/PortForwards/Shown.antt =====
-- What a form that is accepted leaves on the page of port forwards.
use srouter.Base.{
  ap, collect, ℕ, ◌≤◌, true, false, List, [], ◌∷◌, ◌++◌, ◌≡◌, refl, sym, ◌∙◌, arith, Option, none,
  some, Text, text_eq, length, All, keep, not, Bool-cases, inl, inr,
}
use srouter.Strings.{raw_lines, scan_lines}
use srouter.Strings.Lines.{IsLine, unlines}
use srouter.World.{World, Result, ok, err, Editable}
use srouter.World.Laws.{written}
use srouter.Firewall.{PortForwardRule, port_forward_file}
use srouter.Firewall.PortForward.{
  block_lines, pf_row, get_port_forward_rules, add_port_forward_rule, delete_port_forward_rule,
}
use srouter.Firewall.PortForward.Add.{
  get_port_forward_rules-add_port_forward_rule, add_port_forward_rule-Editable,
  get_port_forward_rules-Editable,
}
use srouter.Firewall.PortForward.Restore.{
  All-IsLine, IsPlain, Unmarked, delete-add_port_forward_rule,
}
use srouter.Firewall.PortForward.Delete.{get_port_forward_rules-delete_port_forward_rule}
use srouter.Validate.{Net, Invalid, validate_port_forward_rule, pf_name_re}
use srouter.Validate.Rules.{Documented, validate_port_forward_rule-none}
use srouter.Validate.Forwards.{
  name-Token, Token-Lacks, block_lines-IsPlain, Forward-Barless, Forward-Fields, read_back-Forward,
}
use srouter.Handlers.{
  http_error, page, Form, required, failed, attempt-ok, attempt, items, reply, go_on,
}
use srouter.Handlers.PortForwards.{
  add, add_rule, add_valid, with_defaults, rule_of_form, lacks_field, show, delete,
}

-- What is behind an operation that the page shows.
go_on-page :
    (p r : PortForwardRule) (w : World) (res : Result (Unit {0}))
    → (go_on (http_error 500 failed) (λ _. reply (page p)) w res).1 ≡ page r
    → (r ≡ p) × ((go_on (http_error 500 failed) (λ _. reply (page p)) w res).0 ≡ w)
unfolding go_on
go_on-page p r w (ok _) h = (cc, refl)
go_on-page p r w (err e) h = cc

add_valid-page :
    (wide : ℕ → ℕ) (p r : PortForwardRule) (w : World) (o : Option Invalid)
    → (add_valid wide p o w).1 ≡ page r
    → (o ≡ none) × (r ≡ p) × ((add_valid wide p o w).0 ≡ (add_port_forward_rule wide p w).0)
unfolding add_valid attempt
add_valid-page wide p r w none h =
    let (same, after) = go_on-page p r _ (add_port_forward_rule wide p w).1 h in (refl, same, after)
add_valid-page wide p r w (some e) h = cc

-- A rule on the page has passed the validation, and is the one that was added.
add_rule-page :
    (net : Net) (wide : ℕ → ℕ) (q r : PortForwardRule) (w : World)
    → (add_rule net wide q w).1 ≡ page r
    → (validate_port_forward_rule net r ≡ none)
      × ((add_rule net wide q w).0 ≡ (add_port_forward_rule wide r w).0)
add_rule-page net wide q r w h = elim (Bool-cases (lacks_field q)) [
  | inl e ↦ absurd (cc (missing e, h))
  | inr e ↦
      let (valid, same, after) =
        add_valid-page wide (with_defaults q) r w (validate_port_forward_rule net (with_defaults q))
          (sym (ap (λ x. x.1) (checked e)) ∙ h) in
      (
        ap (validate_port_forward_rule net) same ∙ valid,
        ap (λ x. x.0) (checked e) ∙ after ∙ ap (λ p. (add_port_forward_rule wide p w).0) (sym same),
      )
]
  where
    missing : lacks_field q ≡ true → add_rule net wide q w ≡ (w, http_error 400 required)
    missing e = unfold add_rule in rw e

    checked :
        lacks_field q ≡ false
        → add_rule net wide q w
          ≡ add_valid wide (with_defaults q) (validate_port_forward_rule net (with_defaults q)) w
    checked e = unfold add_rule in rw e

show-Editable :
    {w : World} {s : Text} (rs : List PortForwardRule)
    → Editable w port_forward_file s
    → (show w).1 ≡ page rs
    → (get_port_forward_rules w).1 ≡ ok rs
unfolding show items
show-Editable {s = s} rs e h =
    rw (get_port_forward_rules-Editable e)
      (read (collect pf_row (scan_lines s)) (rw (get_port_forward_rules-Editable e) at h))
  where
    read : (xs : List PortForwardRule) → page xs ≡ page rs → ok xs ≡ ok rs
    read xs k = cc k

delete_world :
    (w : World) (name : Text)
    → pf_name_re name ≡ true
    → (delete name w).0 ≡ (delete_port_forward_rule name w).0
delete_world w name h =
    unfold delete attempt in
    rw h (same (delete_port_forward_rule name w).0 (delete_port_forward_rule name w).1)
  where
    same :
        (v : World) (res : Result (Unit {0}))
        → (go_on {B = Unit {0}} (http_error 500 failed) (λ _. reply (page tt)) v res).0 ≡ v
    same v (ok _) = unfold go_on in refl
    same v (err e) = unfold go_on in refl

show-ok :
    (w : World) (rs : List PortForwardRule)
    → (get_port_forward_rules w).1 ≡ ok rs
    → (show w).1 ≡ page rs
unfolding show items
show-ok w rs h = rw h

-- A form that is complete and valid is answered with its port forward, the defaults filled in, and
-- the page shows that one just as it was answered, behind those that were there: the file must be
-- readable and writable, its lines and the numbers of the ports not overlong, and net.ParseIP as
-- documented.
pub show-add :
    {w : World} {s : Text} (net : Net) (wide : ℕ → ℕ) (form : Form) (rs : List PortForwardRule)
    → Documented net
    → Editable w port_forward_file s
    → All IsLine (raw_lines s)
    → lacks_field (rule_of_form form) ≡ false
    → validate_port_forward_rule net (with_defaults (rule_of_form form)) ≡ none
    → length (with_defaults (rule_of_form form)).ext_port ≤ 20000
    → length (with_defaults (rule_of_form form)).int_port ≤ 20000
    → (show w).1 ≡ page rs
    → ((add net wide form w).1 ≡ page (with_defaults (rule_of_form form)))
      × ((show (add net wide form w).0).1 ≡ page (rs ++ with_defaults (rule_of_form form) ∷ []))
show-add {w = w} {s = s} net wide form rs doc e lines complete valid ext int before =
    let r = with_defaults (rule_of_form form) in
    let good = validate_port_forward_rule-none net r valid in
    let small = Forward-Fields net doc r good 20000 ext int in
    (
      ap (λ x. x.1) accepted,
      ap (λ x. (show x.0).1) accepted
          ∙ show-ok _ (rs ++ r ∷ []) (
              rw (read_back-Forward net doc r good, add_port_forward_rule-Editable wide r e) at
                (get_port_forward_rules-add_port_forward_rule wide r rs e lines
                  (All-IsLine (block_lines wide r)
                    (block_lines-IsPlain wide 20000 r (omega arith) small))
                  (Forward-Barless net doc r good) (show-Editable rs e before))),
    )
  where
    accepted : add net wide form w ≡ (
      written w port_forward_file
          (s ++ (b'\n' ∷ unlines (block_lines wide (with_defaults (rule_of_form form))))),
      page (with_defaults (rule_of_form form)),
    )
    accepted =
        unfold add add_rule add_valid in
        rw (complete, valid)
          (attempt-ok (add_port_forward_rule wide (with_defaults (rule_of_form form))) _
            (λ _. reply (page (with_defaults (rule_of_form form))))
            (add_port_forward_rule-Editable wide (with_defaults (rule_of_form form)) e))

-- Deleting by the page's button a port forward that its form has just added restores the file to
-- the byte, if its lines were complete, at least one, none of them marked by the rule's name, none
-- overlong or with a carriage return at its end, and the ports are not overlong.
pub delete-add :
    {w : World} (net : Net) (wide : ℕ → ℕ) (form : Form) (r : PortForwardRule) (l : Text)
    (ls : List Text)
    → Documented net
    → Editable w port_forward_file (unlines (l ∷ ls))
    → All IsPlain (l ∷ ls)
    → Unmarked r.name (l ∷ ls)
    → length r.ext_port ≤ 20000
    → length r.int_port ≤ 20000
    → (add net wide form w).1 ≡ page r
    → (delete r.name (add net wide form w).0).0.files port_forward_file ≡ some (unlines (l ∷ ls))
delete-add {w = w} net wide form r l ls doc e plain unmarked ext int h =
    let (valid, after) = add_rule-page net wide (rule_of_form form) r w (unfold add in h) in
    let good = validate_port_forward_rule-none net r valid in
    let small = Forward-Fields net doc r good 20000 ext int in
    ap (λ v. (delete r.name v).0.files port_forward_file) (opened ∙ after)
    ∙ ap (λ v. v.files port_forward_file)
        (delete_world (add_port_forward_rule wide r w).0 r.name good.name)
    ∙ delete-add_port_forward_rule wide r l ls e plain
        (block_lines-IsPlain wide 20000 r (omega arith) small) unmarked
  where
    opened : (add net wide form w).0 ≡ (add_rule net wide (rule_of_form form) w).0
    opened = unfold add in refl

-- The button of an accepted name removes the port forwards of that name from the page, and leaves
-- the others as they are shown, in their order.
pub show-delete :
    {w : World} {s : Text} (name : Text) (rs : List PortForwardRule)
    → Editable w port_forward_file s
    → pf_name_re name ≡ true
    → (show w).1 ≡ page rs
    → (show (delete name w).0).1 ≡ page (keep (λ r. not (text_eq r.name name)) rs)
show-delete {w = w} name rs e h before =
    ap (λ v. (show v).1) (delete_world w name h)
    ∙ show-ok (delete_port_forward_rule name w).0 _ (
        get_port_forward_rules-delete_port_forward_rule name rs e
          (Token-Lacks name (name-Token name h).0) (show-Editable rs e before))
