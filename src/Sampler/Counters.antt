-- ===== src/Sampler/Counters.antt =====
-- The counters as they are read, and their differences.
use srouter.Base.{ℕ, ◌+◌, ◌-◌, ◌*◌, ◌%◌, ◌^◌, ◌<◌, [], ◌∷◌, ◌≡◌, arith, Text}
use srouter.Numbers.{parsed, parse_digits, parse_uint}
use srouter.Validate.{is_digit}
use srouter.Sampler.{read_digits, delta}

read_digits-parse_digits : (n m : ℕ) (s : Text) → parse_digits n s ≡ parsed m → read_digits n s ≡ m
unfolding read_digits parse_digits is_digit
read_digits-parse_digits n m [] h = ground arith
read_digits-parse_digits n m (c ∷ s) h =
    ground (arith, read_digits-parse_digits (n * 10 + (c - b'0')) m s)

-- The loop of the sampler reads every number that `ParseUint` accepts, as it is read for the table of
-- interfaces, to the same value.
pub read_digits-parse_uint : (s : Text) (m : ℕ) → parse_uint s ≡ parsed m → read_digits 0 s ≡ m
unfolding parse_uint
read_digits-parse_uint [] m h = absurd (cc h)
read_digits-parse_uint (c ∷ s) m h = read_digits-parse_digits 0 m (c ∷ s) h

-- The difference of two readings of a counter is the traffic between them, even if the counter has
-- wrapped around; but if the counter has been set back, as when its interface is made anew, the
-- difference is 2 ^ 64 less the loss.
pub delta_traffic :
    (p d q : ℕ)
    → p < 2 ^ 64
    → d < 2 ^ 64
    → q < p
    → (delta ((p + d) % 2 ^ 64) p ≡ d) × (delta q p ≡ 2 ^ 64 - (p - q))
unfolding delta
delta_traffic p d q hp hd hq = (omega (arith, hp, hd), omega (arith, hp, hq))
