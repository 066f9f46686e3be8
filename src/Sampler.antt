-- ===== src/Sampler.antt =====
-- internal/system/bandwidth.go: the sampler of /proc/net/dev and its subscribers. Counters are uint64;
-- a rate is kept as the difference of two counters, without the division by the elapsed time.
-- `order` is the order in which Go ranges over a map.
pub mod Counters
pub mod Channels
use srouter.Base.{
  ℕ, zero, suc, ◌+◌, ◌-◌, ◌*◌, ◌%◌, ◌^◌, Bool, true, false, not, ◌&&◌, List, [], ◌∷◌, ◌++◌, Option,
  none, some, ltb, leb, ◌==◌, if◌then◌else◌, Text, codes, collect, length, keep, map,
}
use srouter.Maps.{lookup}
use srouter.World.{World, Reading, absent, denied, content, reading}
use srouter.Validate.{is_digit}
use srouter.Network.{net_dev, net_dev_file}

-- the inner loop of `readNetDev`: the digits of a field, and nothing else of it
unfoldable pub read_digits : ℕ → Text → ℕ
unfolding is_digit
read_digits n [] = n
read_digits n (c ∷ s) = read_digits (if is_digit c then (n * 10 + (c - b'0')) % 2 ^ 64 else n) s

unfoldable pub counters_of_reading : Reading → List (Text × (ℕ × ℕ))
unfolding net_dev read_digits
counters_of_reading (content s) = net_dev (read_digits 0) s
counters_of_reading absent = []
counters_of_reading denied = []

unfoldable pub read_net_dev : World → List (Text × (ℕ × ℕ))
unfolding counters_of_reading reading
read_net_dev w = counters_of_reading (reading (w.readable net_dev_file) (w.files net_dev_file))

-- the difference of two uint64
unfoldable pub delta : ℕ → ℕ → ℕ
delta curr prev = (curr + 2 ^ 64 - prev) % 2 ^ 64

pub record BandwidthSample : Type 0 where
  pub iface : Text
  pub rx : ℕ
  pub tx : ℕ

unfoldable pub sample_of : List (Text × (ℕ × ℕ)) → Text × (ℕ × ℕ) → Option BandwidthSample
unfolding delta
sample_of prev (iface, (rx, tx)) = elim (lookup iface prev) [
  | none ↦ none
  | some p ↦ some (record { iface = iface; rx = delta rx p.0; tx = delta tx p.1 })
]

-- the samples of one tick
unfoldable pub samples :
    (List (Text × (ℕ × ℕ)) → List (Text × (ℕ × ℕ)))
    → List (Text × (ℕ × ℕ))
    → List (Text × (ℕ × ℕ))
    → List BandwidthSample
unfolding sample_of
samples order prev curr = collect (sample_of prev) (order curr)

-- the size of a subscriber's channel
abbrev pub sample_channel : ℕ
sample_channel = 4

unfoldable pub offer_sample : BandwidthSample → List BandwidthSample → List BandwidthSample
offer_sample s ch = if ltb (length ch) sample_channel then ch ++ s ∷ [] else ch

unfoldable pub offer_samples : List BandwidthSample → List BandwidthSample → List BandwidthSample
unfolding offer_sample
offer_samples [] ch = ch
offer_samples (s ∷ ss) ch = offer_samples ss (offer_sample s ch)

-- A subscriber has its number and the samples that it has not received yet.
pub record Broadcaster : Type 0 where
  pub subscribers : List (ℕ × List BandwidthSample)
  pub next_id : ℕ
  pub prev : List (Text × (ℕ × ℕ))

-- one tick of `run`
unfoldable pub tick :
    (List (Text × (ℕ × ℕ)) → List (Text × (ℕ × ℕ)))
    → List (Text × (ℕ × ℕ))
    → Broadcaster
    → Broadcaster
unfolding samples offer_samples
tick order curr b = record b {
  subscribers = map (λ s. (s.0, offer_samples (samples order b.prev curr) s.1)) b.subscribers;
  prev = curr;
}

unfoldable pub subscribe : Broadcaster → Broadcaster
subscribe b = record b { subscribers = (b.next_id, []) ∷ b.subscribers; next_id = b.next_id + 1 }

-- the function that `Subscribe` returns
unfoldable pub unsubscribe : ℕ → Broadcaster → Broadcaster
unsubscribe id b = record b { subscribers = keep (λ s. not (s.0 == id)) b.subscribers }
