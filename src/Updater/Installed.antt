-- ===== src/Updater/Installed.antt =====
-- What an installation leaves at the path of the program, on every path through it.
use mathlib.Core.Path.{subst}
use srouter.Base.{
  ℕ, Bool, true, false, not, List, [], ◌∷◌, ◌≡◌, ◌⊎◌, refl, sym, ◌∙◌, arith, Option, none, some,
  Text, text_eq, text_eq_iff, ◌==◌, if◌then◌else◌, Bool-cases, inl, inr,
}
use srouter.Strings.{fields, to_lower}
use srouter.Updater.{UpdateChecker, UpdateInfo, Fetched, no_answer, answered, install_path}
use srouter.Updater.Install.{
  Host, InstallError, no_update, spawn_failed, rename_failed, chmod_failed, download_failed,
  write_failed, bad_status, put, limited, compare_sum, verify_sha256, replace_binary, after_check,
  install_content, download, cleaned, with_temp, install_info, install,
}

-- The program is as it was, and an error is returned.
abbrev pub Kept : Host → Host × Option InstallError → Type 0
Kept h r = (r.0.files install_path ≡ h.files install_path) × ((e : InstallError) × (r.1 ≡ some e))

-- The program is the content, and no error is returned but that of the restart.
abbrev pub Replaced : Text → Host × Option InstallError → Type 0
Replaced content r =
    (r.0.files install_path ≡ some content) × ((r.1 ≡ none) ⊎ (r.1 ≡ some spawn_failed))

-- The first word of the checksum's file, in lower case, is the hash of the content.
abbrev pub Matches : (ℕ → ℕ) → (Text → Text) → Text → Fetched → Type 0
Matches wide sha256 content f =
    (code : ℕ) × (body : Text) × (expected : Text) × (more : List Text) × (f
      ≡ answered code body true)
    × (fields (limited 256 body) ≡ expected ∷ more)
    × (sha256 content ≡ to_lower wide expected)

module _ (wide : ℕ → ℕ) (sha256 : Text → Text) where
  compare_sum-none :
      (rereads : Bool) (actual : Text) (ws : List Text)
      → compare_sum wide rereads actual ws ≡ none
      → (expected : Text) × (more : List Text) × (ws ≡ expected ∷ more)
        × (actual ≡ to_lower wide expected)
  unfolding compare_sum
  compare_sum-none rereads actual [] h = absurd (cc h)
  compare_sum-none false actual (w ∷ ws) h = absurd (cc h)
  compare_sum-none true actual (w ∷ ws) h = elim (Bool-cases (text_eq actual (to_lower wide w))) [
    | inl e ↦ (w, ws, refl, (text_eq_iff actual (to_lower wide w)).0 e)
    | inr e ↦ absurd (cc (rw e at h))
  ]

  verify_sha256-none :
      (rereads : Bool) (content : Text) (f : Fetched)
      → verify_sha256 wide sha256 rereads content f ≡ none
      → Matches wide sha256 content f
  unfolding verify_sha256
  verify_sha256-none rereads content no_answer h = absurd (cc h)
  verify_sha256-none rereads content (answered code body false) h = absurd (cc h)
  verify_sha256-none rereads content (answered code body true) h =
      let (expected, more, e, k) =
        compare_sum-none rereads (sha256 content) (fields (limited 256 body)) h in
      (code, body, expected, more, refl, e, k)

  -- What the content of a replaced program is checked by.
  abbrev pub Trusted : UpdateInfo → Host → Text → Type 0
  Trusted info h content =
      (info.checksum_url ≡ []) ⊎ Matches wide sha256 content (h.fetch info.checksum_url)

  replace_binary-cases :
      (tmp content : Text) (h : Host)
      → Kept h (replace_binary tmp content h) ⊎ Replaced content (replace_binary tmp content h)
  unfolding replace_binary text_eq
  replace_binary-cases tmp content h = elim (Bool-cases h.renames) [
    | inr e ↦ inl (rw e (refl, (rename_failed, refl)))
    | inl e ↦ inr (rw e (refl, started h.starts))
  ]
    where
      started :
          (b : Bool)
          → ((if b then none else some spawn_failed) ≡ none)
            ⊎ ((if b then none else some spawn_failed) ≡ some spawn_failed)
      started true = inl refl
      started false = inr refl

  -- What a part of an installation does to the program.
  abbrev pub Outcome : UpdateInfo → Text → Host → Host × Option InstallError → Type 0
  Outcome info content h r = Kept h r ⊎ (Replaced content r × Trusted info h content)

  with_trust :
      (info : UpdateInfo) (content : Text) (h : Host) (r : Host × Option InstallError)
      → Trusted info h content
      → Kept h r ⊎ Replaced content r
      → Outcome info content h r
  with_trust info content h r t (inl k) = inl k
  with_trust info content h r t (inr k) = inr (k, t)

  verified-cases :
      (info : UpdateInfo) (tmp content : Text) (h : Host) (o : Option InstallError)
      → (o ≡ none → Trusted info h content)
      → Outcome info content h (after_check o tmp content h)
  unfolding after_check
  verified-cases info tmp content h none t =
      with_trust info content h (replace_binary tmp content h) (t refl)
        (replace_binary-cases tmp content h)
  verified-cases info tmp content h (some e) t = inl (refl, (e, refl))

  install_content-cases :
      (info : UpdateInfo) (tmp content : Text) (h : Host)
      → Outcome info content h (install_content wide sha256 info tmp content h)
  unfolding install_content
  install_content-cases info tmp content h = chmoded h.chmods
    where
      summed :
          (b : Bool)
          → text_eq info.checksum_url [] ≡ b
          → Outcome info content h (
              if b
              then after_check none tmp content h
              else after_check
                  (verify_sha256 wide sha256 h.rereads content (h.fetch info.checksum_url))
                  tmp
                  content
                  h)
      summed true k =
          verified-cases info tmp content h none (λ _. inl ((text_eq_iff info.checksum_url []).0 k))
      summed false k =
          verified-cases info tmp content h
            (verify_sha256 wide sha256 h.rereads content (h.fetch info.checksum_url))
            (λ v. inr (verify_sha256-none h.rereads content (h.fetch info.checksum_url) v))

      chmoded :
          (b : Bool)
          → Outcome info content h (
              if not b
              then (h, some chmod_failed)
              else if text_eq info.checksum_url []
              then after_check none tmp content h
              else after_check
                  (verify_sha256 wide sha256 h.rereads content (h.fetch info.checksum_url))
                  tmp
                  content
                  h)
      chmoded false = inl (refl, (chmod_failed, refl))
      chmoded true = summed (text_eq info.checksum_url []) refl

  -- The content that an answer brings, if it is good and whole.
  abbrev pub Brought : Fetched → Text → Type 0
  Brought f content = f ≡ answered 200 content true

  -- What an installation does to the program: nothing, with an error, or the replacement by what was
  -- downloaded, checked if the release has a checksum.
  abbrev pub Installs : UpdateInfo → Host → Host × Option InstallError → Type 0
  Installs info h r =
      Kept h r
      ⊎ ((content : Text) × Brought (h.fetch info.asset_url) content
          × Replaced content r
          × Trusted info h content)

  brought :
      (info : UpdateInfo) (tmp body : Text) (h : Host) (r : Host × Option InstallError)
      → text_eq tmp install_path ≡ false
      → Brought (h.fetch info.asset_url) body
      → Outcome info body (put tmp (some body) h) r
      → Installs info h r
  brought info tmp body h r apart got (inl (a, b)) = inl (rw apart at a, b)
  brought info tmp body h r apart got (inr (a, t)) = inr (body, got, a, t)

  download-cases :
      (info : UpdateInfo) (tmp : Text) (f : Fetched) (h : Host)
      → text_eq tmp install_path ≡ false
      → h.fetch info.asset_url ≡ f
      → Installs info h (download wide sha256 info tmp f h)
  unfolding download
  download-cases info tmp no_answer h apart got = inl (refl, (download_failed, refl))
  download-cases info tmp (answered code body whole) h apart got =
      good (code == 200) whole refl refl
    where
      good :
          (a b : Bool)
          → (code == 200) ≡ a
          → whole ≡ b
          → Installs info h (
              if not a
              then (h, some (bad_status code))
              else if not b
              then (h, some write_failed)
              else install_content wide sha256 info tmp body (put tmp (some body) h))
      good false b e k = inl (refl, (bad_status code, refl))
      good true false e k = inl (refl, (write_failed, refl))
      good true true e k =
          brought info tmp body h
            (install_content wide sha256 info tmp body (put tmp (some body) h)) apart
            (got ∙ answer (ground arith))
            (install_content-cases info tmp body (put tmp (some body) h))
        where
          answer : code ≡ 200 → answered code body whole ≡ answered 200 body true
          answer c = cc (c, k)

  -- The removal of the temporary file does not touch the program.
  cleaned-Installs :
      (info : UpdateInfo) (tmp : Text) (h : Host) (r : Host × Option InstallError)
      → text_eq tmp install_path ≡ false
      → Installs info h r
      → Installs info h (cleaned tmp r)
  cleaned-Installs info tmp h r apart (inl (a, b)) = inl (rw apart a, b)
  cleaned-Installs info tmp h r apart (inr (c, got, (a, b), t)) = inr (c, got, (rw apart a, b), t)

  begun-Installs :
      (info : UpdateInfo) (tmp : Text) (h : Host) (r : Host × Option InstallError)
      → text_eq tmp install_path ≡ false
      → Installs info (put tmp (some []) h) r
      → Installs info h r
  begun-Installs info tmp h r apart (inl (a, b)) = inl (rw apart at a, b)
  begun-Installs info tmp h r apart (inr k) = inr k

  with_temp-cases :
      (info : UpdateInfo) (tmp : Text) (h : Host)
      → text_eq tmp install_path ≡ false
      → Installs info h (with_temp wide sha256 info (some tmp) h)
  unfolding with_temp
  with_temp-cases info tmp h apart =
      cleaned-Installs info tmp h
        (download wide sha256 info tmp (h.fetch info.asset_url) (put tmp (some []) h)) apart
        (begun-Installs info tmp h
          (download wide sha256 info tmp (h.fetch info.asset_url) (put tmp (some []) h)) apart
          (download-cases info tmp (h.fetch info.asset_url) (put tmp (some []) h) apart refl))

  given-cases :
      (info : UpdateInfo) (h : Host)
      → Installs info h (with_temp wide sha256 info h.temp h)
      → Installs info h (install_info wide sha256 false (some info) h)
  unfolding install_info
  given-cases info h k = asset (text_eq info.asset_url [])
    where
      asset :
          (b : Bool)
          → Installs info h (if b then (h, some no_update) else with_temp wide sha256 info h.temp h)
      asset true = inl (refl, (no_update, refl))
      asset false = k

  -- An installation of a release either fails and leaves the program as it was, or replaces it by
  -- the whole body of a good answer from the asset's URL, whose hash is the first word of the
  -- checksum's file if the release has one, and then fails only if the script of the restart does
  -- not start; the temporary file must not be the program itself. Nothing is said of a development
  -- build, which installs nothing.
  pub install_sound :
      (uc : UpdateChecker) (info : UpdateInfo) (tmp : Text) (h : Host)
      → uc.dev_mode ≡ false
      → uc.status.info ≡ some info
      → h.temp ≡ some tmp
      → text_eq tmp install_path ≡ false
      → Installs info h (install wide sha256 uc h)
  unfolding install
  install_sound uc info tmp h prod e t apart =
      subst (λ d. Installs info h (install_info wide sha256 d uc.status.info h)) (sym prod)
        (subst (λ o. Installs info h (install_info wide sha256 false o h)) (sym e)
          (given-cases info h (
            subst (λ o. Installs info h (with_temp wide sha256 info o h)) (sym t)
              (with_temp-cases info tmp h apart))))
