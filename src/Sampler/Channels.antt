-- ===== src/Sampler/Channels.antt =====
-- The channels of the sampler's subscribers.
use srouter.Base.{
  ℕ, ◌≤◌, not, List, [], ◌∷◌, arith, ◌==◌, Text, length, length-append, All, All-keep, map,
}
use srouter.Sampler.{
  BandwidthSample, Broadcaster, sample_channel, offer_sample, offer_samples, samples, tick,
  subscribe, unsubscribe,
}

-- Each channel within its size.
abbrev pub Fits : List (ℕ × List BandwidthSample) → Type 0
Fits = All (λ s. length s.1 ≤ sample_channel)

offer_samples-Fits :
    (ss ch : List BandwidthSample)
    → length ch ≤ sample_channel
    → length (offer_samples ss ch) ≤ sample_channel
unfolding offer_samples offer_sample
offer_samples-Fits [] ch h = h
offer_samples-Fits (s ∷ ss) ch h =
    offer_samples-Fits ss _ (ground (arith, length-append ch (s ∷ [])))

map-Fits :
    (ss : List BandwidthSample) (subs : List (ℕ × List BandwidthSample))
    → Fits subs
    → Fits (map (λ s. (s.0, offer_samples ss s.1)) subs)
map-Fits ss [] _ = tt
map-Fits ss (s ∷ subs) (h, hs) = (offer_samples-Fits ss s.1 h, map-Fits ss subs hs)

-- No channel holds more than its four samples, whatever subscribers come and go and however slowly
-- they receive: a tick, a new subscriber and one that leaves keep it so.
pub tick-Fits :
    (order : List (Text × (ℕ × ℕ)) → List (Text × (ℕ × ℕ))) (curr : List (Text × (ℕ × ℕ))) (id : ℕ)
    (b : Broadcaster)
    → Fits b.subscribers
    → Fits (tick order curr b).subscribers
      × Fits (subscribe b).subscribers
      × Fits (unsubscribe id b).subscribers
unfolding tick subscribe unsubscribe
tick-Fits order curr id b h = (
  map-Fits (samples order b.prev curr) b.subscribers h,
  (omega arith, h),
  All-keep (λ s. length s.1 ≤ sample_channel) (λ s. not (s.0 == id)) b.subscribers h,
)
