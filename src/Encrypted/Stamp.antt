-- ===== src/Encrypted/Stamp.antt =====
-- `buildDoHStamp` of internal/system/doh.go: the stamp of a custom server. Host and path are bytes
-- here; `parse_url` stands for `url.Parse`.
pub mod Decode
pub mod Base64
use srouter.Base.{
  ℕ, zero, suc, ◌+◌, ◌-◌, ◌*◌, ◌/◌, ◌%◌, Bool, true, false, List, [], ◌∷◌, ◌++◌, Option, none, some,
  if◌then◌else◌, Text, codes, text_eq, ltb, ◌==◌, length,
}
use srouter.World.{Result, ok, err, invalid_url}

pub record Url : Type 0 where
  pub scheme : Text
  pub hostname : List ℕ
  pub path : List ℕ

-- `writeLP`: the length is cut to a byte
unfoldable pub write_lp : List ℕ → List ℕ
write_lp bytes = length bytes % 256 ∷ bytes

unfoldable pub stamp_bytes : List ℕ → List ℕ → List ℕ
unfolding write_lp
stamp_bytes hostname path =
    2
    ∷ 0
    ∷ 0
    ∷ 0
    ∷ 0
    ∷ 0
    ∷ 0
    ∷ 0
    ∷ 0
    ∷ (write_lp [] ++ (write_lp [] ++ (write_lp hostname ++ write_lp path)))

-- a symbol of the URL alphabet of base64
unfoldable pub symbol : ℕ → ℕ
symbol n =
    if ltb n 26
    then n + b'A'
    else if ltb n 52
    then n - 26 + b'a'
    else if ltb n 62
    then n - 52 + b'0'
    else if n == 62
    then b'-'
    else b'_'

-- `base64.RawURLEncoding.EncodeToString`
unfoldable pub raw_url_encoding : List ℕ → Text
unfolding symbol
raw_url_encoding [] = []
raw_url_encoding (a ∷ []) = symbol (a / 4) ∷ symbol (a % 4 * 16) ∷ []
raw_url_encoding (a ∷ b ∷ []) =
    symbol (a / 4) ∷ symbol (a % 4 * 16 + b / 16) ∷ symbol (b % 16 * 4) ∷ []
raw_url_encoding (a ∷ b ∷ c ∷ bytes) =
    symbol (a / 4)
    ∷ symbol (a % 4 * 16 + b / 16)
    ∷ symbol (b % 16 * 4 + c / 64)
    ∷ symbol (c % 64)
    ∷ raw_url_encoding bytes

unfoldable pub path_or_query : List ℕ → List ℕ
path_or_query [] = codes "/dns-query"
path_or_query (c ∷ path) = c ∷ path

unfoldable pub stamp_of : Option Url → Result Text
unfolding stamp_bytes raw_url_encoding path_or_query
stamp_of none = err invalid_url
stamp_of (some u) =
    if text_eq u.scheme (codes "https")
    then ok (codes "sdns://" ++ raw_url_encoding (stamp_bytes u.hostname (path_or_query u.path)))
    else err invalid_url

unfoldable pub build_doh_stamp : (Text → Option Url) → Text → Result Text
unfolding stamp_of
build_doh_stamp parse_url raw_url = stamp_of (parse_url raw_url)
