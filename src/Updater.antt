-- ===== src/Updater.antt =====
-- internal/system/updater.go: the check for a release, with its cache; the installation of one is
-- in Updater/Install.
-- Times are in nanoseconds. The answers of HTTP, the decoding of JSON and SHA-256 are parameters;
-- a file and a body are lists of bytes, and a checksum file is ASCII.
pub mod Install
pub mod Installed
pub mod Checked
use srouter.Base.{
  ℕ, zero, suc, ◌+◌, ◌-◌, ◌*◌, Bool, true, false, not, ◌&&◌, ◌||◌, List, [], ◌∷◌, Option, none,
  some, ltb, ◌==◌, if◌then◌else◌, Text, codes, text_eq,
}
use srouter.Strings.{fields, to_lower}

abbrev pub install_path : Text
install_path = codes "/usr/local/bin/srouter"

abbrev pub latest_url : Text
latest_url = codes "https://api.github.com/repos/tomasweigenast/srouter/releases/latest"

abbrev pub update_asset_name : Text
update_asset_name = codes "srouter-linux"

abbrev pub checksum_asset_name : Text
checksum_asset_name = codes "srouter-linux.sha256"

pub record UpdateInfo : Type 0 where
  pub version : Text
  pub published_at : ℕ
  pub release_notes : Text
  pub asset_url : Text
  pub checksum_url : Text
  pub html_url : Text

-- what `Error` of a status says
pub data CheckError : Type 0 where
  request_failed : CheckError
  http_status : ℕ → CheckError
  not_parsed : CheckError

-- `checked` is none for the zero time, `error` none for the empty text.
pub record UpdateStatus : Type 0 where
  pub checked : Option ℕ
  pub available : Bool
  pub info : Option UpdateInfo
  pub error : Option CheckError

pub record UpdateChecker : Type 0 where
  pub dev_mode : Bool
  pub status : UpdateStatus

pub record GithubAsset : Type 0 where
  pub name : Text
  pub browser_download_url : Text

pub record GithubRelease : Type 0 where
  pub tag_name : Text
  pub html_url : Text
  pub published_at : ℕ
  pub body : Text
  pub assets : List GithubAsset

-- What a request ends with: no answer, or a status and a body, and whether it was read to its end.
pub data Fetched : Type 0 where
  no_answer : Fetched
  answered : ℕ → Text → Bool → Fetched

unfoldable pub new_update_checker : Bool → UpdateChecker
new_update_checker dev = record {
  dev_mode = dev;
  status = record { checked = none; available = false; info = none; error = none };
}

-- the loop over the assets: the URLs of the asset and of its checksum, the last of each name
unfoldable pub asset_urls : List GithubAsset → Text × Text → Text × Text
asset_urls [] urls = urls
asset_urls (a ∷ assets) (asset, checksum) = asset_urls assets (
    if text_eq a.name update_asset_name
    then (a.browser_download_url, checksum)
    else if text_eq a.name checksum_asset_name
    then (asset, a.browser_download_url)
    else (asset, checksum))

abbrev pub failed_status : ℕ → CheckError → UpdateStatus
failed_status now e = record { checked = some now; available = false; info = none; error = some e }

unfoldable pub info_of : GithubRelease → Text × Text → UpdateInfo
info_of release urls = record {
  version = release.tag_name;
  published_at = release.published_at;
  release_notes = release.body;
  asset_url = urls.0;
  checksum_url = urls.1;
  html_url = release.html_url;
}

unfoldable pub release_status : Text → ℕ → Option GithubRelease → UpdateStatus
unfolding info_of asset_urls
release_status app_version now none = failed_status now not_parsed
release_status app_version now (some release) = record {
  checked = some now;
  available =
      not (text_eq app_version (codes "dev"))
      && not (text_eq app_version [])
      && not (text_eq release.tag_name app_version);
  info = some (info_of release (asset_urls release.assets ([], [])));
  error = none;
}

unfoldable pub answer_status : (Text → Option GithubRelease) → Text → ℕ → Fetched → UpdateStatus
unfolding release_status
answer_status decode app_version now no_answer = failed_status now request_failed
answer_status decode app_version now (answered code body whole) =
    if code == 404
    then record { checked = some now; available = false; info = none; error = none }
    else if code == 200
    then release_status app_version now (decode body)
    else failed_status now (http_status code)

unfoldable pub fetch_latest_release :
    (Text → Fetched) → (Text → Option GithubRelease) → Text → ℕ → UpdateStatus
unfolding answer_status
fetch_latest_release fetch decode app_version now =
    answer_status decode app_version now (fetch latest_url)

abbrev pub five_minutes : ℕ
five_minutes = 5 * 60 * 1000000000

-- whether the cached status is still used
unfoldable pub is_recent : ℕ → Option ℕ → Bool
is_recent now none = false
is_recent now (some t) = ltb (now - t) five_minutes

-- the status of a development build
unfoldable pub mock_status : ℕ → UpdateStatus
mock_status now = record {
  checked = some now;
  available = true;
  info = some (record {
    version = codes "v99.0.0";
    published_at = now - 48 * 3600 * 1000000000;
    release_notes = codes "Mock release for development testing.";
    asset_url = [];
    checksum_url = [];
    html_url = codes "https://github.com/tomasweigenast/srouter/releases/tag/v99.0.0";
  });
  error = none;
}

-- `Check`: the checker with the status that it keeps, and returns
unfoldable pub check :
    (Text → Fetched) → (Text → Option GithubRelease) → Text → ℕ → UpdateChecker → UpdateChecker
unfolding mock_status is_recent fetch_latest_release
check fetch decode app_version now uc =
    if uc.dev_mode
    then record uc { status = mock_status now }
    else if is_recent now uc.status.checked
    then uc
    else record uc { status = fetch_latest_release fetch decode app_version now }
