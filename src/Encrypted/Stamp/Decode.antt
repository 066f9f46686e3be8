-- ===== src/Encrypted/Stamp/Decode.antt =====
-- A stamp read back, by the format of DNS stamps.
use srouter.Base.{
  ℕ, zero, suc, ◌%◌, ◌<◌, true, List, [], ◌∷◌, ◌++◌, ◌≡◌, refl, ap, ◌∙◌, arith, Option, none, some,
  Text, codes, text_eq, length, All, All-append, append-nil,
}
use srouter.Strings.{drop_prefix}
use srouter.Strings.Prefix.{drop_prefix-append}
use srouter.World.{ok}
use srouter.Encrypted.Stamp.{
  Url, write_lp, stamp_bytes, raw_url_encoding, path_or_query, stamp_of, build_doh_stamp,
}
use srouter.Encrypted.Stamp.Base64.{decode, decode-raw_url_encoding}

-- the first n items and the rest, if there are so many
unfoldable pub take_exactly : ℕ → List ℕ → Option (List ℕ × List ℕ)
take_exactly zero bytes = some ([], bytes)
take_exactly (suc n) [] = none
take_exactly (suc n) (b ∷ bytes) = elim (take_exactly n bytes) [
  | none ↦ none
  | some (d, rest) ↦ some (b ∷ d, rest)
]

-- a field with its length in front
unfoldable pub read_lp : List ℕ → Option (List ℕ × List ℕ)
unfolding take_exactly
read_lp [] = none
read_lp (n ∷ bytes) = take_exactly n bytes

take_exactly-length : (d rest : List ℕ) → take_exactly (length d) (d ++ rest) ≡ some (d, rest)
unfolding take_exactly
take_exactly-length [] rest = refl
take_exactly-length (b ∷ d) rest = rw (take_exactly-length d rest)

-- A field of less than 256 bytes is read back, and what stands behind it is left.
read_lp-write_lp :
    (d rest : List ℕ) → length d < 256 → read_lp (write_lp d ++ rest) ≡ some (d, rest)
unfolding read_lp write_lp
read_lp-write_lp d rest h =
    ap (λ n. take_exactly n (d ++ rest)) (small (length d) h) ∙ take_exactly-length d rest
  where
    small : (n : ℕ) → n < 256 → n % 256 ≡ n
    small n h = omega arith

-- the second of two fields
unfoldable pub read_next : Option (List ℕ × List ℕ) → Option (List ℕ × List ℕ)
unfolding read_lp
read_next none = none
read_next (some (d, rest)) = read_lp rest

unfoldable pub paired : List ℕ → Option (List ℕ × List ℕ) → Option (List ℕ × List ℕ)
paired host none = none
paired host (some (path, rest)) = some (host, path)

unfoldable pub read_pair : Option (List ℕ × List ℕ) → Option (List ℕ × List ℕ)
unfolding paired read_lp
read_pair none = none
read_pair (some (host, rest)) = paired host (read_lp rest)

unfoldable pub read_fields : Option (List ℕ × List ℕ) → Option (List ℕ × List ℕ)
unfolding read_next read_pair
read_fields none = none
read_fields (some (front, bytes)) = read_pair (read_next (read_next (read_lp bytes)))

-- Host and path of a stamp: behind its 7 characters, the protocol, 8 bytes of properties, the
-- address and the hash.
unfoldable pub read_stamp : Text → Option (List ℕ × List ℕ)
unfolding read_fields decode
read_stamp stamp = read_fields (take_exactly 9 (decode (drop_prefix stamp (codes "sdns://"))))

write_lp-All : (d : List ℕ) → All (λ b. b < 256) d → All (λ b. b < 256) (write_lp d)
unfolding write_lp
write_lp-All d h = (below (length d), h)
  where
    below : (n : ℕ) → n % 256 < 256
    below n = omega arith

read_lp-last : (d : List ℕ) → length d < 256 → read_lp (write_lp d) ≡ some (d, [])
read_lp-last d h = ap read_lp (append-nil_sym (write_lp d)) ∙ read_lp-write_lp d [] h
  where
    append-nil_sym : (bytes : List ℕ) → bytes ≡ bytes ++ []
    append-nil_sym bytes = rw (append-nil bytes) refl

read_empty : (rest : List ℕ) → read_lp (write_lp [] ++ rest) ≡ some ([], rest)
read_empty rest = read_lp-write_lp [] rest (omega arith)

fields_read :
    (host path : List ℕ)
    → length host < 256
    → length path < 256
    → read_fields (take_exactly 9 (stamp_bytes host path)) ≡ some (host, path)
unfolding read_fields take_exactly stamp_bytes
fields_read host path h p =
    ap (λ o. read_pair (read_next (read_next o)))
      (read_empty (write_lp [] ++ (write_lp host ++ write_lp path)))
    ∙ unfold read_next in
      ap (λ o. read_pair (read_next o)) (read_empty (write_lp host ++ write_lp path))
      ∙ ap read_pair (read_lp-write_lp host (write_lp path) h)
      ∙ unfold read_pair in ap (paired host) (read_lp-last path p)

stamp_bytes-All :
    (host path : List ℕ)
    → All (λ b. b < 256) host
    → All (λ b. b < 256) path
    → All (λ b. b < 256) (stamp_bytes host path)
stamp_bytes-All host path hb pb =
    unfold stamp_bytes in
    All-append (λ b. b < 256) (2 ∷ 0 ∷ 0 ∷ 0 ∷ 0 ∷ 0 ∷ 0 ∷ 0 ∷ 0 ∷ 0 ∷ 0 ∷ [])
      (write_lp host ++ write_lp path) (omega arith)
      (All-append (λ b. b < 256) (write_lp host) (write_lp path) (write_lp-All host hb)
        (write_lp-All path pb))

read_stamp-bytes :
    (host path : List ℕ)
    → All (λ b. b < 256) host
    → All (λ b. b < 256) path
    → length host < 256
    → length path < 256
    → read_stamp (codes "sdns://" ++ raw_url_encoding (stamp_bytes host path)) ≡ some (host, path)
unfolding read_stamp
read_stamp-bytes host path hb pb h p =
    ap (λ t. read_fields (take_exactly 9 (decode t)))
      (drop_prefix-append (codes "sdns://") (raw_url_encoding (stamp_bytes host path)))
    ∙ ap (λ bytes. read_fields (take_exactly 9 bytes))
        (decode-raw_url_encoding (stamp_bytes host path) (stamp_bytes-All host path hb pb))
    ∙ fields_read host path h p

-- For an https URL whose host and path are shorter than 256 bytes the stamp is built, and it reads
-- back as the host and the path, or `/dns-query` for an empty path.
pub read_stamp-build_doh_stamp :
    (parse_url : Text → Option Url) (raw_url : Text) (u : Url)
    → parse_url raw_url ≡ some u
    → text_eq u.scheme (codes "https") ≡ true
    → All (λ b. b < 256) u.hostname
    → All (λ b. b < 256) u.path
    → length u.hostname < 256
    → length u.path < 256
    → (stamp : Text) × (build_doh_stamp parse_url raw_url ≡ ok stamp)
      × (read_stamp stamp ≡ some (u.hostname, path_or_query u.path))
read_stamp-build_doh_stamp parse_url raw_url u parses https hb pb h p = (
  codes "sdns://" ++ raw_url_encoding (stamp_bytes u.hostname (path_or_query u.path)),
  unfold build_doh_stamp stamp_of in rw (parses, https),
  read_stamp-bytes u.hostname (path_or_query u.path) hb (query_bytes u.path pb) h
      (query_length u.path p),
)
  where
    query_bytes :
        (path : List ℕ) → All (λ b. b < 256) path → All (λ b. b < 256) (path_or_query path)
    query_bytes [] _ = unfold path_or_query in omega arith
    query_bytes (c ∷ path) h = unfold path_or_query in h

    query_length : (path : List ℕ) → length path < 256 → length (path_or_query path) < 256
    query_length [] h = unfold path_or_query in omega arith
    query_length (c ∷ path) h = unfold path_or_query in h
