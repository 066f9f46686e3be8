-- ===== src/Network/Connectivity.antt =====
-- What the cache of the connectivity test answers.
use srouter.Base.{
  ℕ, ◌+◌, ◌-◌, ◌<◌, Bool, true, List, [], ◌∷◌, ◌≡◌, refl, ◌∙◌, arith, none, lt→ltb, length,
}
use srouter.Network.{
  InternetCache, new_internet_cache, internet_cache_ttl, is_cached, check_internet_connectivity,
  ping_done,
}

-- checks at the given times, one after the other
unfoldable pub check_all : List ℕ → InternetCache → InternetCache
unfolding check_internet_connectivity
check_all [] c = c
check_all (t ∷ ts) c = check_all ts (check_internet_connectivity t c).0

untested :
    (ts : List ℕ) (n : ℕ)
    → check_all ts (record { ok = true; updated_at = none; pings = n })
      ≡ record { ok = true; updated_at = none; pings = n + length ts }
unfolding check_all check_internet_connectivity is_cached
untested [] n = ground arith
untested (t ∷ ts) n = untested ts (n + 1) ∙ ground arith

-- Until a ping comes to its end, each check answers that the internet is there, whatever is true,
-- and starts one more ping.
pub check_internet_connectivity_untested :
    (ts : List ℕ) (now : ℕ)
    → ((check_internet_connectivity now (check_all ts new_internet_cache)).1 ≡ true)
      × ((check_internet_connectivity now (check_all ts new_internet_cache)).0.pings
          ≡ length ts + 1)
check_internet_connectivity_untested ts now =
    rw (untested ts 0) (unfold check_internet_connectivity is_cached in (refl, omega arith))

-- For a minute from the end of a ping every check answers what that ping found, and starts none.
pub check_internet_connectivity-ping_done :
    (done now : ℕ) (ok : Bool) (c : InternetCache)
    → now < done + internet_cache_ttl
    → check_internet_connectivity now (ping_done done ok c) ≡ (ping_done done ok c, ok)
check_internet_connectivity-ping_done done now ok c h =
    unfold check_internet_connectivity ping_done is_cached in
    rw (lt→ltb (now - done) internet_cache_ttl (omega (arith, h)))
