-- ===== src/Origin/Sound.antt =====
-- Which origins the check lets through.
use srouter.Base.{
  Bool, true, false, List, [], ◌∷◌, ◌++◌, ◌≡◌, refl, sym, ◌∙◌, arith, if◌then◌else◌, Text, codes,
  text_eq, text_eq_iff, Lacks, ℕ, ◌||◌, inl, inr,
}
use mathlib.Core.List.{Memᴰ}
use mathlib.Core.List.Memᴰ
use srouter.Origin.{Request, changes_state, scheme, passed, require_local_origin}

scheme-Lacks : (r : Request) → Lacks b':' (scheme r)
unfolding scheme
scheme-Lacks r = secure (◌||◌ r.tls (text_eq r.forwarded_proto (codes "https")))
  where
    secure : (b : Bool) → Lacks b':' (if b then codes "https" else codes "http")
    secure true = omega arith
    secure false = omega arith

-- Two texts cut at their first separator agree in both parts.
cut_at :
    (sep : ℕ) (a b s t : Text)
    → Lacks sep a
    → Lacks sep b
    → a ++ (sep ∷ s) ≡ b ++ (sep ∷ t)
    → (a ≡ b) × (s ≡ t)
cut_at sep [] [] s t _ _ h = (refl, cc)
cut_at sep [] (d ∷ b) s t _ (hd, _) h = absurd (hd cc)
cut_at sep (c ∷ a) [] s t (hc, _) _ h = absurd (hc cc)
cut_at sep (c ∷ a) (d ∷ b) s t (_, ha) (_, hb) h =
    let (same, rest) = cut_at sep a b s t ha hb cc in (cc, rest)

-- A text with a separator is not one without.
text_eq-Lacks : (sep : ℕ) (a s t : Text) → Lacks sep t → text_eq (a ++ (sep ∷ s)) t ≡ false
unfolding text_eq
text_eq-Lacks sep [] s [] _ = refl
text_eq-Lacks sep [] s (d ∷ t) (hd, _) = ground arith
text_eq-Lacks sep (c ∷ a) s [] _ = refl
text_eq-Lacks sep (c ∷ a) s (d ∷ t) (_, h) = ground (arith, text_eq-Lacks sep a s t h)

-- the methods of requests that change state
abbrev pub changing : List Text
changing = codes "POST" ∷ codes "PUT" ∷ codes "DELETE" ∷ codes "PATCH" ∷ []

-- https behind TLS, here or at the proxy in front
abbrev pub own_scheme : Request → Text
own_scheme r =
    if r.tls || text_eq r.forwarded_proto (codes "https") then codes "https" else codes "http"

changes_state-changing : (m : Text) → Memᴰ m changing → changes_state m ≡ true
unfolding changes_state text_eq
changes_state-changing m h = elim (Memᴰ.cases_cons h) [
  | inl e ↦ rw e refl
  | inr h1 ↦ elim (Memᴰ.cases_cons h1) [
    | inl e ↦ rw e refl
    | inr h2 ↦ elim (Memᴰ.cases_cons h2) [
      | inl e ↦ rw e refl
      | inr h3 ↦ elim (Memᴰ.cases_cons h3) [ inl e ↦ rw e refl | inr h4 ↦ absurd (Memᴰ.not-nil h4) ]
    ]
  ]
]

-- A POST, PUT, DELETE or PATCH request whose Origin header has the form `scheme://host`, the scheme
-- without a colon, passes only if these are the scheme and the host of the request itself.
pub require_local_origin_sound :
    (r : Request) (from host : Text)
    → require_local_origin r ≡ passed
    → Memᴰ r.method changing
    → r.origin ≡ from ++ (codes "://" ++ host)
    → Lacks b':' from
    → (from ≡ own_scheme r) × (host ≡ r.host)
unfolding scheme
require_local_origin_sound r from host h method origin no_colon =
    let (same_scheme, same_host) =
      cut_at b':' from (scheme r) (codes "//" ++ host) (codes "//" ++ r.host) no_colon
        (scheme-Lacks r) (sym origin ∙ own) in
    (same_scheme, drop_slashes same_host)
  where
    changes : changes_state r.method ≡ true
    changes = changes_state-changing r.method method

    not_empty : text_eq r.origin [] ≡ false
    not_empty = rw origin (text_eq-Lacks b':' from (codes "//" ++ host) [] tt)

    not_null : text_eq r.origin (codes "null") ≡ false
    not_null = rw origin (text_eq-Lacks b':' from (codes "//" ++ host) (codes "null") (omega arith))

    compared :
        require_local_origin r ≡ passed
        → text_eq r.origin (scheme r ++ (codes "://" ++ r.host)) ≡ true
    compared h = unfold require_local_origin in ground (arith, changes, not_empty, not_null)

    own : r.origin ≡ scheme r ++ (codes "://" ++ r.host)
    own = (text_eq_iff r.origin (scheme r ++ (codes "://" ++ r.host))).0 (compared h)

    drop_slashes : codes "//" ++ host ≡ codes "//" ++ r.host → host ≡ r.host
    drop_slashes e = cc
