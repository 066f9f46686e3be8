-- ===== src/Updater/Install.antt =====
-- internal/system/updater.go: Install and verifySHA256.
use srouter.Base.{
  ℕ, zero, suc, Bool, true, false, not, ◌||◌, List, [], ◌∷◌, Option, none, some, ◌==◌,
  if◌then◌else◌, Text, text_eq,
}
use srouter.Strings.{fields, to_lower}
use srouter.Updater.{install_path, UpdateInfo, UpdateChecker, Fetched, no_answer, answered}

-- What an installation meets outside: whether each call succeeds, and the file of `CreateTemp`.
pub record Host : Type 0 where
  pub files : Text → Option Text
  pub temp : Option Text
  pub fetch : Text → Fetched
  pub chmods : Bool
  -- whether the downloaded file is opened and read to its end for the checksum
  pub rereads : Bool
  pub renames : Bool
  pub starts : Bool
  -- whether the script of the restart has been started
  pub restarting : Bool

pub data InstallError : Type 0 where
  no_update no_temp download_failed : InstallError
  bad_status : ℕ → InstallError
  write_failed chmod_failed no_checksum empty_checksum not_hashed mismatch : InstallError
  rename_failed spawn_failed : InstallError

abbrev pub put : Text → Option Text → Host → Host
put p content h = record h { files = λ q. if text_eq p q then content else h.files q }

-- at most `n` bytes
unfoldable pub limited : ℕ → Text → Text
limited zero s = []
limited (suc n) [] = []
limited (suc n) (c ∷ s) = c ∷ limited n s

unfoldable pub compare_sum : (ℕ → ℕ) → Bool → Text → List Text → Option InstallError
compare_sum wide rereads actual [] = some empty_checksum
compare_sum wide rereads actual (expected ∷ more) =
    if not rereads
    then some not_hashed
    else if text_eq actual (to_lower wide expected)
    then none
    else some mismatch

-- `verifySHA256` of the content of a file, if that can be read
unfoldable pub verify_sha256 : (ℕ → ℕ) → (Text → Text) → Bool → Text → Fetched → Option InstallError
unfolding compare_sum limited
verify_sha256 wide sha256 rereads content no_answer = some no_checksum
verify_sha256 wide sha256 rereads content (answered code body false) = some no_checksum
verify_sha256 wide sha256 rereads content (answered code body true) =
    compare_sum wide rereads (sha256 content) (fields (limited 256 body))

-- the end of the installation: the new binary in place, and the script of the restart
unfoldable pub replace_binary : Text → Text → Host → Host × Option InstallError
replace_binary tmp content h =
    if h.renames
    then (
      record (put install_path (some content) (put tmp none h)) {
        restarting = h.starts || h.restarting;
      },
      if h.starts then none else some spawn_failed,
    )
    else (h, some rename_failed)

unfoldable pub after_check : Option InstallError → Text → Text → Host → Host × Option InstallError
unfolding replace_binary
after_check (some e) tmp content h = (h, some e)
after_check none tmp content h = replace_binary tmp content h

-- with the whole asset in the temporary file
unfoldable pub install_content :
    (ℕ → ℕ) → (Text → Text) → UpdateInfo → Text → Text → Host → Host × Option InstallError
unfolding after_check verify_sha256
install_content wide sha256 info tmp content h =
    if not h.chmods
    then (h, some chmod_failed)
    else if text_eq info.checksum_url []
    then after_check none tmp content h
    else after_check (verify_sha256 wide sha256 h.rereads content (h.fetch info.checksum_url)) tmp
        content h

unfoldable pub download :
    (ℕ → ℕ) → (Text → Text) → UpdateInfo → Text → Fetched → Host → Host × Option InstallError
unfolding install_content
download wide sha256 info tmp no_answer h = (h, some download_failed)
download wide sha256 info tmp (answered code body whole) h =
    if not (code == 200)
    then (h, some (bad_status code))
    else if not whole
    then (h, some write_failed)
    else install_content wide sha256 info tmp body (put tmp (some body) h)

-- the deferred removal of the temporary file
abbrev pub cleaned : Text → Host × Option InstallError → Host × Option InstallError
cleaned tmp (h, e) = (put tmp none h, e)

unfoldable pub with_temp :
    (ℕ → ℕ) → (Text → Text) → UpdateInfo → Option Text → Host → Host × Option InstallError
unfolding download
with_temp wide sha256 info none h = (h, some no_temp)
with_temp wide sha256 info (some tmp) h =
    cleaned tmp (download wide sha256 info tmp (h.fetch info.asset_url) (put tmp (some []) h))

unfoldable pub install_info :
    (ℕ → ℕ) → (Text → Text) → Bool → Option UpdateInfo → Host → Host × Option InstallError
unfolding with_temp
install_info wide sha256 dev none h = (h, some no_update)
install_info wide sha256 dev (some info) h =
    if text_eq info.asset_url []
    then (h, some no_update)
    else if dev
    then (h, none)
    else with_temp wide sha256 info h.temp h

-- `Install`
unfoldable pub install : (ℕ → ℕ) → (Text → Text) → UpdateChecker → Host → Host × Option InstallError
unfolding install_info
install wide sha256 uc h = install_info wide sha256 uc.dev_mode uc.status.info h
