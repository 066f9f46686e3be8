-- ===== src/Firewall/Files.antt =====
-- Which names `validateFirewallFileName` lets through, and what `SaveFirewallScript` can change.
use srouter.Base.{
  ℕ, true, false, [], ◌∷◌, ◌++◌, ◌≡◌, ◌↔◌, ◌⊎◌, refl, append-nil, arith, Text, codes, Lacks,
  text_eq, text_eq_iff, text_eq_refl, Bool-cases, inl, inr,
}
use srouter.Strings.{has_prefix, has_suffix, has_rune, split, push}
use srouter.Strings.Prefix.{has_prefix-append}
use srouter.Strings.Split.{split_whole}
use srouter.World.{World, ok, err, invalid_name, opened, open_file, write_file, reading}
use srouter.Firewall.{
  firewall_d_dir, clean_parts, rooted, or_root, path_join, validate_firewall_file_name, checked,
  get_firewall_file_content, save_firewall_script,
}

pub has_rune-Lacks : (b : ℕ) (s : Text) → has_rune b s ≡ false → Lacks b s
unfolding has_rune
has_rune-Lacks b [] _ = tt
has_rune-Lacks b (c ∷ s) h = ground (arith, has_rune-Lacks b s)

Lacks-has_rune : (b : ℕ) (s : Text) → Lacks b s → has_rune b s ≡ false
unfolding has_rune
Lacks-has_rune b [] _ = refl
Lacks-has_rune b (c ∷ s) (h, hs) = ground (arith, Lacks-has_rune b s hs)

dir_parts :
    (name : Text)
    → split b'/' (firewall_d_dir ++ (b'/' ∷ name))
      ≡ [] ∷ codes "etc" ∷ codes "firewall.d" ∷ split b'/' name
unfolding split push
dir_parts name = refl

-- A name that is no dot and holds no slash is joined behind the directory as it stands.
path_join_plain :
    (name : Text)
    → Lacks b'/' name
    → text_eq name [] ≡ false
    → text_eq name (codes ".") ≡ false
    → text_eq name (codes "..") ≡ false
    → path_join firewall_d_dir name ≡ firewall_d_dir ++ (b'/' ∷ name)
path_join_plain name free a b c =
    unfold path_join in rw (dir_parts name, split_whole b'/' name free) (cleaned name a b c)
  where
    cleaned :
        (name : Text)
        → text_eq name [] ≡ false
        → text_eq name (codes ".") ≡ false
        → text_eq name (codes "..") ≡ false
        → or_root (rooted (clean_parts [] ([] ∷ codes "etc" ∷ codes "firewall.d" ∷ name ∷ [])) [])
          ≡ firewall_d_dir ++ (b'/' ∷ name)
    cleaned name a b c = unfold or_root rooted clean_parts text_eq in rw (a, b, c) (rw append-nil)

-- The conditions that a name has to meet.
pub record IsFileName (name : Text) : Type 0 where
  pub no_slash : Lacks b'/' name
  pub no_backslash : Lacks b'\\' name
  pub suffix : has_suffix name (codes ".sh") ≡ true

suffix_differs :
    (name other : Text)
    → has_suffix name (codes ".sh") ≡ true
    → has_suffix other (codes ".sh") ≡ false
    → text_eq name other ≡ false
suffix_differs name other h k = elim (Bool-cases (text_eq name other)) [
  | inl e ↦ absurd (cc (h, k, (text_eq_iff name other).0 e))
  | inr e ↦ e
]

nil_no_suffix : has_suffix [] (codes ".sh") ≡ false
unfolding has_suffix
nil_no_suffix = refl

dot_no_suffix : has_suffix (codes ".") (codes ".sh") ≡ false
unfolding has_suffix
dot_no_suffix = refl

dots_no_suffix : has_suffix (codes "..") (codes ".sh") ≡ false
unfolding has_suffix
dots_no_suffix = refl

IsFileName-path :
    (name : Text)
    → IsFileName name
    → path_join firewall_d_dir name ≡ firewall_d_dir ++ (b'/' ∷ name)
IsFileName-path name h =
    path_join_plain name h.no_slash (suffix_differs name [] h.suffix nil_no_suffix)
      (suffix_differs name (codes ".") h.suffix dot_no_suffix)
      (suffix_differs name (codes "..") h.suffix dots_no_suffix)

joined_inside :
    (name : Text)
    → has_prefix (firewall_d_dir ++ (b'/' ∷ name)) (firewall_d_dir ++ codes "/") ≡ true
joined_inside name = has_prefix-append (firewall_d_dir ++ codes "/") name

validate_accepts : (name : Text) → IsFileName name → validate_firewall_file_name name ≡ ok tt
validate_accepts name h =
    unfold validate_firewall_file_name in
    rw (
      suffix_differs name [] h.suffix nil_no_suffix,
      Lacks-has_rune b'/' name h.no_slash,
      Lacks-has_rune b'\\' name h.no_backslash,
      h.suffix,
      IsFileName-path name h,
      joined_inside name,
    )

validate_first :
    (name : Text)
    → validate_firewall_file_name name ≡ ok tt
    → (has_rune b'/' name ≡ false)
      × (has_rune b'\\' name ≡ false)
      × (has_suffix name (codes ".sh") ≡ true)
validate_first name h = unfold validate_firewall_file_name in ground arith

accepted : (name : Text) → validate_firewall_file_name name ≡ ok tt → IsFileName name
accepted name h =
    let (a, b, c) = validate_first name h in
    record {
      no_slash = has_rune-Lacks b'/' name a;
      no_backslash = has_rune-Lacks b'\\' name b;
      suffix = c;
    }

-- `validateFirewallFileName` accepts just the names that end in `.sh` and hold neither a slash nor a
-- backslash, and an accepted name is the path of a file directly in /etc/firewall.d.
pub validate_firewall_file_name_iff :
    (name : Text)
    → (validate_firewall_file_name name ≡ ok tt)
      ↔ (IsFileName name × (path_join firewall_d_dir name ≡ firewall_d_dir ++ (b'/' ∷ name)))
validate_firewall_file_name_iff name =
    (λ h. (accepted name h, IsFileName-path name (accepted name h)), λ h. validate_accepts name h.0)

validate-cases :
    (name : Text)
    → (validate_firewall_file_name name ≡ ok tt)
      ⊎ (validate_firewall_file_name name ≡ err invalid_name)
validate-cases name = unfold validate_firewall_file_name in ground arith

save_accepted :
    (w : World) (name text : Text)
    → validate_firewall_file_name name ≡ ok tt
    → save_firewall_script name text w ≡ write_file (path_join firewall_d_dir name) text w
save_accepted w name text h = unfold save_firewall_script checked in rw h

save_refused :
    (w : World) (name text : Text)
    → validate_firewall_file_name name ≡ err invalid_name
    → save_firewall_script name text w ≡ (w, err invalid_name)
save_refused w name text h = unfold save_firewall_script checked in rw h

write_elsewhere :
    (w : World) (p q s : Text) → text_eq p q ≡ false → (write_file p s w).0.files q ≡ w.files q
write_elsewhere w p q s h = unfold write_file in ground arith

not_inside :
    (p name : Text)
    → has_prefix p (firewall_d_dir ++ codes "/") ≡ false
    → text_eq (firewall_d_dir ++ (b'/' ∷ name)) p ≡ false
not_inside p name h = elim (Bool-cases (text_eq (firewall_d_dir ++ (b'/' ∷ name)) p)) [
  | inl e ↦
      absurd (cc (h, joined_inside name, (text_eq_iff (firewall_d_dir ++ (b'/' ∷ name)) p).0 e))
  | inr e ↦ e
]

-- Whatever the name, saving a script leaves every file outside /etc/firewall.d as it was.
pub save_firewall_script_confined :
    (w : World) (name text p : Text)
    → has_prefix p (firewall_d_dir ++ codes "/") ≡ false
    → (save_firewall_script name text w).0.files p ≡ w.files p
save_firewall_script_confined w name text p out = elim (validate-cases name) [
  | inl h ↦
      rw (save_accepted w name text h, IsFileName-path name (accepted name h))
        (write_elsewhere w (firewall_d_dir ++ (b'/' ∷ name)) p text (not_inside p name out))
  | inr h ↦ rw (save_refused w name text h)
]

-- A script that is saved under an accepted name, where the file can be written and read, is the
-- content that is then read under that name.
pub get_firewall_file_content-save_firewall_script :
    (w : World) (name text : Text)
    → IsFileName name
    → w.writable (firewall_d_dir ++ (b'/' ∷ name)) ≡ true
    → w.readable (firewall_d_dir ++ (b'/' ∷ name)) ≡ true
    → (get_firewall_file_content name (save_firewall_script name text w).0).1
      ≡ ok (record { name = name; path = firewall_d_dir ++ (b'/' ∷ name); text = text })
get_firewall_file_content-save_firewall_script w name text h can_write can_read =
    rw (save_accepted w name text (validate_accepts name h), IsFileName-path name h)
      (read_written w name text h can_write can_read)
  where
    read_written :
        (w : World) (name text : Text)
        → IsFileName name
        → w.writable (firewall_d_dir ++ (b'/' ∷ name)) ≡ true
        → w.readable (firewall_d_dir ++ (b'/' ∷ name)) ≡ true
        → (get_firewall_file_content name (write_file (firewall_d_dir ++ (b'/' ∷ name)) text w).0).1
          ≡ ok (record { name = name; path = firewall_d_dir ++ (b'/' ∷ name); text = text })
    read_written w name text h can_write can_read =
        unfold get_firewall_file_content checked open_file opened write_file reading in
        rw (
          validate_accepts name h,
          can_write,
          IsFileName-path name h,
          can_read,
          text_eq_refl (firewall_d_dir ++ (b'/' ∷ name)),
        )
