-- ===== src/RateLimit.antt =====
-- internal/middleware/ratelimit.go: the fixed-window limiter of the login route. Times are numbers;
-- the mutex makes each call of `allow` one step.
pub mod Quota
use srouter.Base.{
  ℕ, zero, suc, ◌+◌, Bool, true, false, List, [], ◌∷◌, Option, none, some, if◌then◌else◌, Text,
  text_eq, ltb, leb, codes, ◌&&◌,
}
use srouter.Maps.{lookup, insert}

pub record Bucket : Type 0 where
  pub count : ℕ
  pub reset : ℕ

pub record Limiter : Type 0 where
  pub limit : ℕ
  pub window : ℕ
  pub buckets : List (Text × Bucket)

-- `LoginLimiter`
unfoldable pub login_limiter : ℕ → ℕ → Limiter
login_limiter limit window = record { limit = limit; window = window; buckets = [] }

unfoldable pub fresh : ℕ → Text → Limiter → Limiter × Bool
fresh now ip rl = (
  record rl { buckets = insert ip (record { count = 1; reset = now + rl.window }) rl.buckets },
  true,
)

unfoldable pub allow_bucket : Option Bucket → ℕ → Text → Limiter → Limiter × Bool
unfolding fresh
allow_bucket none now ip rl = fresh now ip rl
allow_bucket (some b) now ip rl =
    if ltb b.reset now
    then fresh now ip rl
    else if leb rl.limit b.count
    then (rl, false)
    else (record rl { buckets = insert ip (record b { count = b.count + 1 }) rl.buckets }, true)

unfoldable pub allow : ℕ → Text → Limiter → Limiter × Bool
unfolding allow_bucket
allow now ip rl = allow_bucket (lookup ip rl.buckets) now ip rl

-- a request that reaches the limiter: when, and from which address
pub record Arrival : Type 0 where
  pub time : ℕ
  pub ip : Text

-- `host` is the answer of `net.SplitHostPort` on the remote address, if it succeeds.
unfoldable pub client_ip : Option Text → Text → Text
client_ip none remote = remote
client_ip (some host) remote = host

-- what the middleware answers: the next handler runs, or status 429
pub data Verdict : Type 0 where
  served too_many_requests : Verdict

unfoldable pub limited : (Text → Option Text) → ℕ → Text → Limiter → Limiter × Verdict
unfolding client_ip
limited split_host now remote rl =
    let (rl', ok) = allow now (client_ip (split_host remote) remote) rl in
    (rl', if ok then served else too_many_requests)

-- how many of the arrivals come from an address
unfoldable pub requests : Text → List Arrival → ℕ
requests ip [] = 0
requests ip (a ∷ es) = (if text_eq a.ip ip then 1 else 0) + requests ip es

-- how many of them are let through, one call of `allow` after the other
unfoldable pub admitted : Text → List Arrival → Limiter → ℕ
admitted ip [] rl = 0
admitted ip (a ∷ es) rl =
    (if text_eq a.ip ip && (allow a.time a.ip rl).1 then 1 else 0)
    + admitted ip es (allow a.time a.ip rl).0
