-- ===== src/DnsStats.antt =====
-- internal/system/dns_stats.go and plainQueries of internal/handler/doh.go: the counters of dnsmasq's
-- log lines. A counter is an int64, kept as its bit pattern. The index of a word in a lower-cased
-- line is taken in the line itself, as if both had the same length; `wide` is the table of
-- `unicode.ToLower` beyond ASCII.
pub mod Counts
use srouter.Base.{
  ℕ, zero, suc, ◌+◌, ◌*◌, ◌%◌, ◌^◌, Bool, true, false, not, ◌&&◌, ◌||◌, List, [], ◌∷◌, Option, none,
  some, ◌==◌, if◌then◌else◌, Text, codes, text_eq, map, length,
}
use srouter.Strings.{has_prefix, contains, to_lower, trim_space}
use srouter.Encrypted.{stubby_listen, dnscrypt_listen}
use srouter.Maps.{lookup, insert}

pub record DnsStatsCollector : Type 0 where
  pub queries : ℕ
  pub cache_hits : ℕ
  pub forwarded : ℕ
  pub by_upstream : List (Text × ℕ)
  pub by_domain : List (Text × ℕ)

abbrev pub new_dns_stats_collector : DnsStatsCollector
new_dns_stats_collector = record {
  queries = 0;
  cache_hits = 0;
  forwarded = 0;
  by_upstream = [];
  by_domain = [];
}

-- `++` on an int64
unfoldable pub bump : ℕ → ℕ
bump n = (n + 1) % 2 ^ 64

unfoldable pub count_or_zero : Option ℕ → ℕ
count_or_zero none = 0
count_or_zero (some n) = n

-- `++` on an entry of a map
unfoldable pub bump_at : Text → List (Text × ℕ) → List (Text × ℕ)
unfolding bump count_or_zero
bump_at k m = insert k (bump (count_or_zero (lookup k m))) m

-- up to the first space or tab
unfoldable pub before_blank : Text → Text
before_blank [] = []
before_blank (c ∷ s) = let rest = before_blank s in if c == b' ' || c == b'\t' then [] else c ∷ rest

unfoldable pub first_word : Text → Text
unfolding before_blank
first_word s = before_blank (trim_space s)

-- `strings.Index`
unfoldable pub index : Text → Text → Option ℕ
index [] p = if has_prefix [] p then some 0 else none
index (c ∷ s) p =
    let rest = index s p in
    if has_prefix (c ∷ s) p then some 0 else elim rest [ none ↦ none | some i ↦ some (suc i) ]

unfoldable pub drop_text : ℕ → Text → Text
drop_text zero s = s
drop_text (suc n) [] = []
drop_text (suc n) (c ∷ s) = drop_text n s

unfoldable pub word_at : ℕ → Text → Option ℕ → Text
unfolding first_word drop_text
word_at n s none = []
word_at n s (some i) = first_word (drop_text (i + n) s)

unfoldable pub extract_word_after : (ℕ → ℕ) → Text → Text → Text
unfolding word_at index
extract_word_after wide s keyword =
    word_at (length keyword) s (index (to_lower wide s) (to_lower wide keyword))

-- an entry of a map counts one more, unless its key is empty
unfoldable pub count_word : Text → List (Text × ℕ) → List (Text × ℕ)
unfolding bump_at
count_word [] m = m
count_word (c ∷ w) m = bump_at (c ∷ w) m

abbrev pub query_key : Text
query_key = codes "query["

abbrev pub cached_key : Text
cached_key = codes "cached "

abbrev pub forwarded_key : Text
forwarded_key = codes "forwarded "

-- `parseLine`
unfoldable pub parse_line : (ℕ → ℕ) → Text → DnsStatsCollector → DnsStatsCollector
unfolding bump count_word extract_word_after word_at
parse_line wide raw c =
    if contains (to_lower wide raw) query_key
    then record c {
      queries = bump c.queries;
      by_domain = count_word (word_at 2 raw (index (to_lower wide raw) (codes "] "))) c.by_domain;
    }
    else if contains (to_lower wide raw) cached_key
    then record c {
      queries = bump c.queries;
      cache_hits = bump c.cache_hits;
      by_domain = count_word (extract_word_after wide raw (codes "cached")) c.by_domain;
    }
    else if contains (to_lower wide raw) forwarded_key
    then record c {
      forwarded = bump c.forwarded;
      by_upstream = count_word (extract_word_after wide raw (codes " to ")) c.by_upstream;
    }
    else c

-- the loop of `run`, over the lines that come
unfoldable pub collect_lines : (ℕ → ℕ) → List Text → DnsStatsCollector → DnsStatsCollector
unfolding parse_line
collect_lines wide [] c = c
collect_lines wide (l ∷ ls) c = collect_lines wide ls (parse_line wide l c)

pub record DomainStat : Type 0 where
  pub domain : Text
  pub count : ℕ

unfoldable pub first_items : {A : Type 0} → ℕ → List A → List A
first_items zero xs = []
first_items (suc n) [] = []
first_items (suc n) (x ∷ xs) = x ∷ first_items n xs

-- `TopDomains` of `Stats`: `sorted` is what `sort.Slice` makes of the list, by falling count.
unfoldable pub top_domains :
    (List DomainStat → List DomainStat) → DnsStatsCollector → List DomainStat
unfolding first_items
top_domains sorted c =
    first_items 10 (sorted (map (λ e. record { domain = e.0; count = e.1 }) c.by_domain))

-- `plainQueries`
unfoldable pub plain_queries : List (Text × ℕ) → ℕ
plain_queries [] = 0
plain_queries ((addr, n) ∷ m) =
    let rest = plain_queries m in
    if text_eq addr stubby_listen || text_eq addr dnscrypt_listen then rest else (n + rest) % 2 ^ 64
