-- ===== src/RateLimit/Quota.antt =====
-- How many requests of one address the limiter lets through in a window.
use Prim.Native.Nat.{min}
use srouter.Base.{
  ℕ, ◌+◌, ◌-◌, ◌≤◌, ◌<◌, true, false, List, [], ◌∷◌, ◌≡◌, sym, ap, ◌∙◌, arith, Option, none, some,
  if◌then◌else◌, Text, text_eq, text_eq_iff, text_eq_refl, All, Bool-cases, inl, inr, ltb,
}
use srouter.Maps.{lookup, lookup-insert}
use srouter.RateLimit.{Bucket, Limiter, allow_bucket, allow, Arrival, requests, admitted}

-- No live bucket of the address: none at all, or one whose window has passed.
abbrev pub Expired : ℕ → Option Bucket → Type 0
Expired now none = Unit
Expired now (some b) = b.reset < now

allow_limit : (now : ℕ) (ip : Text) (rl : Limiter) → (allow now ip rl).0.limit ≡ rl.limit
unfolding allow
allow_limit now ip rl = ground arith

abbrev started : ℕ → Limiter → Bucket
started now rl = record { count = 1; reset = now + rl.window }

abbrev counted : Bucket → Bucket
counted b = record b { count = b.count + 1 }

bucket_other :
    (o : Option Bucket) (now : ℕ) (ip other : Text) (rl : Limiter)
    → text_eq other ip ≡ false
    → lookup ip (allow_bucket o now other rl).0.buckets ≡ lookup ip rl.buckets
unfolding allow_bucket
bucket_other none now ip other rl h =
    ground (arith, lookup-insert other ip (started now rl) rl.buckets)
bucket_other (some b) now ip other rl h = ground (
  arith,
  lookup-insert other ip (started now rl) rl.buckets,
  lookup-insert other ip (counted b) rl.buckets,
)

-- Another address's request leaves the bucket alone.
allow_other :
    (now : ℕ) (ip other : Text) (rl : Limiter)
    → text_eq other ip ≡ false
    → lookup ip (allow now other rl).0.buckets ≡ lookup ip rl.buckets
allow_other now ip other rl h =
    unfold allow in bucket_other (lookup other rl.buckets) now ip other rl h

-- a request against a live bucket
allow_live :
    (now : ℕ) (ip : Text) (rl : Limiter) (b : Bucket)
    → lookup ip rl.buckets ≡ some b
    → now ≤ b.reset
    → ((allow now ip rl).1 ≡ ltb b.count rl.limit)
      × (lookup ip (allow now ip rl).0.buckets
          ≡ some (if ltb b.count rl.limit then counted b else b))
allow_live now ip rl b h live = unfold allow in rw h (bucket_live now ip rl b h live)
  where
    bucket_live :
        (now : ℕ) (ip : Text) (rl : Limiter) (b : Bucket)
        → lookup ip rl.buckets ≡ some b
        → now ≤ b.reset
        → ((allow_bucket (some b) now ip rl).1 ≡ ltb b.count rl.limit)
          × (lookup ip (allow_bucket (some b) now ip rl).0.buckets
              ≡ some (if ltb b.count rl.limit then counted b else b))
    bucket_live now ip rl b h live =
        unfold allow_bucket in
        ground (arith, text_eq_refl ip, lookup-insert ip ip (counted b) rl.buckets)

-- While its bucket lives, an address is let through as often as its quota allows.
admitted_live :
    (ip : Text) (es : List Arrival) (rl : Limiter) (b : Bucket)
    → lookup ip rl.buckets ≡ some b
    → All (λ e. e.time ≤ b.reset) es
    → admitted ip es rl ≡ min (requests ip es) (rl.limit - b.count)
unfolding admitted requests
admitted_live ip [] rl b h _ = omega arith
admitted_live ip (e ∷ es) rl b h (now, later) = elim (Bool-cases (text_eq e.ip ip)) [
  | inr other ↦
      let ih =
        admitted_live ip es (allow e.time e.ip rl).0 b (allow_other e.time ip e.ip rl other ∙ h)
          later in
      rw other (omega (arith, ih, allow_limit e.time e.ip rl))
  | inl own ↦
      let eq = (text_eq_iff e.ip ip).0 own in
      let (answer, kept) = allow_live e.time e.ip rl b (rw eq h) now in
      let here = ap (λ x. lookup x (allow e.time e.ip rl).0.buckets) (sym eq) ∙ kept in
      elim (Bool-cases (ltb b.count rl.limit)) [
        | inl more ↦
            let ih =
              admitted_live ip es (allow e.time e.ip rl).0 (counted b) (rw more at here) later in
            rw (own, answer, more, ih, allow_limit e.time e.ip rl) (ground arith)
        | inr full ↦
            let ih = admitted_live ip es (allow e.time e.ip rl).0 b (rw full at here) later in
            rw (own, answer, full, ih, allow_limit e.time e.ip rl) (ground arith)
      ]
]

allow_stale :
    (now : ℕ) (ip : Text) (rl : Limiter)
    → Expired now (lookup ip rl.buckets)
    → ((allow now ip rl).1 ≡ true) × (lookup ip (allow now ip rl).0.buckets ≡ some (started now rl))
allow_stale now ip rl h = unfold allow in bucket_expired (lookup ip rl.buckets) now ip rl h
  where
    bucket_expired :
        (o : Option Bucket) (now : ℕ) (ip : Text) (rl : Limiter)
        → Expired now o
        → ((allow_bucket o now ip rl).1 ≡ true)
          × (lookup ip (allow_bucket o now ip rl).0.buckets ≡ some (started now rl))
    bucket_expired none now ip rl h =
        unfold allow_bucket in
        ground (arith, text_eq_refl ip, lookup-insert ip ip (started now rl) rl.buckets)
    bucket_expired (some b) now ip rl h =
        unfold allow_bucket in
        ground (arith, text_eq_refl ip, lookup-insert ip ip (started now rl) rl.buckets)

-- From a request of an address that has no live bucket, to the end of the window that it opens,
-- the limiter lets through that request and as many more of the address as the limit leaves: with
-- a limit of at least 1 it is the first `limit` requests, no more and no fewer, whatever the
-- requests of other addresses between them.
pub admitted_in_window :
    (start : ℕ) (ip : Text) (es : List Arrival) (rl : Limiter)
    → Expired start (lookup ip rl.buckets)
    → All (λ e. e.time ≤ start + rl.window) es
    → admitted ip (record { time = start; ip = ip } ∷ es) rl
      ≡ 1 + min (requests ip es) (rl.limit - 1)
admitted_in_window start ip es rl h later =
    let (answer, kept) = allow_stale start ip rl h in
    first answer (admitted_live ip es (allow start ip rl).0 (started start rl) kept later)
  where
    first :
        (allow start ip rl).1 ≡ true
        → admitted ip es (allow start ip rl).0
          ≡ min (requests ip es) ((allow start ip rl).0.limit - 1)
        → admitted ip (record { time = start; ip = ip } ∷ es) rl
          ≡ 1 + min (requests ip es) (rl.limit - 1)
    first answer rest =
        unfold admitted in rw (text_eq_refl ip, answer, rest, allow_limit start ip rl)
