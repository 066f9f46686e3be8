-- ===== src/DnsStats/Counts.antt =====
-- The counters are the counts of the lines of each kind.
use srouter.Base.{
  ℕ, ◌+◌, ◌*◌, ◌^◌, ◌≤◌, ◌<◌, Bool, true, false, not, ◌&&◌, List, [], ◌∷◌, ◌≡◌, arith,
  if◌then◌else◌, Text, keep, length,
}
use srouter.Strings.{contains, to_lower}
use srouter.DnsStats.{
  DnsStatsCollector, new_dns_stats_collector, bump, parse_line, collect_lines, query_key,
  cached_key, forwarded_key,
}

module _ (wide : ℕ → ℕ) where
  -- a line of the kind that `parseLine` takes first, second and third
  pub is_query_line : Text → Bool
  is_query_line l = contains (to_lower wide l) query_key

  pub is_cached_line : Text → Bool
  is_cached_line l = not (is_query_line l) && contains (to_lower wide l) cached_key

  pub is_forwarded_line : Text → Bool
  is_forwarded_line l =
      not (is_query_line l)
      && not (contains (to_lower wide l) cached_key)
      && contains (to_lower wide l) forwarded_key

  abbrev pub count : (Text → Bool) → List Text → ℕ
  count p ls = length (keep p ls)

  parse_line-queries :
      (l : Text) (c : DnsStatsCollector)
      → (parse_line wide l c).queries ≡ (
          if is_query_line l
          then bump c.queries
          else if is_cached_line l
          then bump c.queries
          else c.queries)
  unfolding parse_line is_query_line is_cached_line
  parse_line-queries l c = ground arith

  parse_line-cache_hits :
      (l : Text) (c : DnsStatsCollector)
      → (parse_line wide l c).cache_hits
        ≡ (if is_cached_line l then bump c.cache_hits else c.cache_hits)
  unfolding parse_line is_query_line is_cached_line
  parse_line-cache_hits l c = ground arith

  parse_line-forwarded :
      (l : Text) (c : DnsStatsCollector)
      → (parse_line wide l c).forwarded
        ≡ (if is_forwarded_line l then bump c.forwarded else c.forwarded)
  unfolding parse_line is_query_line is_forwarded_line
  parse_line-forwarded l c = ground arith

  -- a cached line is no query line
  exclusive : (l : Text) → is_query_line l ≡ true → is_cached_line l ≡ false
  unfolding is_cached_line
  exclusive l h = rw h

  bump_small : (n : ℕ) → n + 1 < 2 ^ 64 → bump n ≡ n + 1
  unfolding bump
  bump_small n h = omega (arith, h)

  collect_lines-queries :
      (ls : List Text) (c : DnsStatsCollector)
      → c.queries + length ls < 2 ^ 64
      → (collect_lines wide ls c).queries
        ≡ c.queries + count is_query_line ls + count is_cached_line ls
  unfolding collect_lines keep
  collect_lines-queries [] c h = omega arith
  collect_lines-queries (l ∷ ls) c h = ground (
    arith,
    parse_line-queries l c,
    bump_small c.queries (omega (arith, h)),
    exclusive l,
    collect_lines-queries ls (parse_line wide l c),
  )

  collect_lines-cache_hits :
      (ls : List Text) (c : DnsStatsCollector)
      → c.cache_hits + length ls < 2 ^ 64
      → (collect_lines wide ls c).cache_hits ≡ c.cache_hits + count is_cached_line ls
  unfolding collect_lines keep
  collect_lines-cache_hits [] c h = omega arith
  collect_lines-cache_hits (l ∷ ls) c h = ground (
    arith,
    parse_line-cache_hits l c,
    bump_small c.cache_hits (omega (arith, h)),
    collect_lines-cache_hits ls (parse_line wide l c),
  )

  collect_lines-forwarded :
      (ls : List Text) (c : DnsStatsCollector)
      → c.forwarded + length ls < 2 ^ 64
      → (collect_lines wide ls c).forwarded ≡ c.forwarded + count is_forwarded_line ls
  unfolding collect_lines keep
  collect_lines-forwarded [] c h = omega arith
  collect_lines-forwarded (l ∷ ls) c h = ground (
    arith,
    parse_line-forwarded l c,
    bump_small c.forwarded (omega (arith, h)),
    collect_lines-forwarded ls (parse_line wide l c),
  )

  -- From the start, over fewer than 2 ^ 63 lines, the counters are the counts of the lines of each
  -- kind, and the total of the queries counts a cached answer besides its query.
  pub collect_lines-counts :
      (ls : List Text)
      → length ls < 2 ^ 63
      → ((collect_lines wide ls new_dns_stats_collector).queries
          ≡ count is_query_line ls + count is_cached_line ls)
        × ((collect_lines wide ls new_dns_stats_collector).cache_hits ≡ count is_cached_line ls)
        × ((collect_lines wide ls new_dns_stats_collector).forwarded ≡ count is_forwarded_line ls)
  collect_lines-counts ls h = (
    omega (arith, collect_lines-queries ls new_dns_stats_collector (omega (arith, h))),
    omega (arith, collect_lines-cache_hits ls new_dns_stats_collector (omega (arith, h))),
    omega (arith, collect_lines-forwarded ls new_dns_stats_collector (omega (arith, h))),
  )

  -- Where no more cached answers are logged than queries, as dnsmasq logs the query of each, the cache
  -- hits are never more than half of the total, though every query may have been answered from the
  -- cache.
  pub collect_lines-half :
      (ls : List Text)
      → length ls < 2 ^ 63
      → count is_cached_line ls ≤ count is_query_line ls
      → 2 * (collect_lines wide ls new_dns_stats_collector).cache_hits
        ≤ (collect_lines wide ls new_dns_stats_collector).queries
  collect_lines-half ls h k =
      let (q, hits, _) = collect_lines-counts ls h in omega (arith, q, hits, k)
