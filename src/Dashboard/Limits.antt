-- ===== src/Dashboard/Limits.antt =====
-- The limits in the table are presets, whatever forms come.
use srouter.Base.{
  ℕ, true, ◌||◌, List, [], ◌∷◌, ◌≡◌, arith, Option, Text, text_eq, All, Bool-cases, inl, inr,
}
use mathlib.Core.List.{Memᴰ}
use srouter.Base.{◌==◌}
use srouter.Bandwidth.{member}
use srouter.Numbers.{ℤ, pos, negsuc, Parsed, parsed, bad_syntax, out_of_range, parse_int}
use srouter.Maps.{insert, erase}
use srouter.World.{Result, ok, err}
use srouter.Bandwidth.{
  Router, set_bandwidth_limit, delete_bandwidth_limit, list_bandwidth_limits, apply_limits,
  apply_all_bandwidth_limits, validate_bandwidth_mbps,
}
use srouter.Validate.{validate_mac}
use srouter.Dashboard.{Site, Sorting, answer, limit_parsed, set_limit, delete_limit}

-- Each limit of a table is one of the presets.
abbrev pub Allowed : List (Text × ℕ) → Type 0
Allowed = All (λ r. Memᴰ r.1 (1 ∷ 5 ∷ 10 ∷ 25 ∷ 50 ∷ 100 ∷ 250 ∷ []))

member-Mem : (n : ℕ) (vs : List ℕ) → member n vs ≡ true → Memᴰ n vs
unfolding member
member-Mem n [] h = absurd (cc h)
member-Mem n (v ∷ vs) h = elim (Bool-cases (v == n)) [
  | inl e ↦ Memᴰ.head (ground arith)
  | inr e ↦ Memᴰ.tail (member-Mem n vs (rw e at h))
]

validate_bandwidth_mbps-Mem :
    (n : ℕ) → validate_bandwidth_mbps n ≡ true → Memᴰ n (1 ∷ 5 ∷ 10 ∷ 25 ∷ 50 ∷ 100 ∷ 250 ∷ [])
unfolding validate_bandwidth_mbps
validate_bandwidth_mbps-Mem n h = member-Mem n (1 ∷ 5 ∷ 10 ∷ 25 ∷ 50 ∷ 100 ∷ 250 ∷ []) h

insert-Allowed :
    (k : Text) (n : ℕ) (m : List (Text × ℕ))
    → Memᴰ n (1 ∷ 5 ∷ 10 ∷ 25 ∷ 50 ∷ 100 ∷ 250 ∷ [])
    → Allowed m
    → Allowed (insert k n m)
unfolding insert
insert-Allowed k n [] h _ = (h, tt)
insert-Allowed k n ((j, v) ∷ m) h (a, as4) = ground (arith, insert-Allowed k n m h as4)

erase-Allowed : (k : Text) (m : List (Text × ℕ)) → Allowed m → Allowed (erase k m)
unfolding erase
erase-Allowed k [] _ = tt
erase-Allowed k ((j, v) ∷ m) (a, as4) = ground (arith, erase-Allowed k m as4)

set-Allowed :
    (order : List (Text × ℕ) → List Text) (mac : Text) (n : ℕ) (r : Router)
    → validate_bandwidth_mbps n ≡ true
    → Allowed r.limits
    → Allowed (set_bandwidth_limit order mac n r).0.limits
unfolding set_bandwidth_limit apply_all_bandwidth_limits apply_limits list_bandwidth_limits
set-Allowed order mac n r h k =
    ground (arith, insert-Allowed mac n r.limits (validate_bandwidth_mbps-Mem n h) k)

delete-Allowed :
    (order : List (Text × ℕ) → List Text) (mac : Text) (r : Router)
    → Allowed r.limits
    → Allowed (delete_bandwidth_limit order mac r).0.limits
unfolding delete_bandwidth_limit apply_all_bandwidth_limits apply_limits list_bandwidth_limits
delete-Allowed order mac r k = ground (arith, erase-Allowed mac r.limits k)

module _ (four : Text → Option (List ℕ)) (sort : Sorting) (order : List Text → List Text)
    (order_limits : List (Text × ℕ) → List Text) where
  answer-Allowed :
      (mac : Text) (res : Result (Unit {0})) (s : Site)
      → Allowed s.router.limits
      → Allowed (answer four sort order order_limits mac res s).0.router.limits
  unfolding answer
  answer-Allowed mac (ok _) s h = h
  answer-Allowed mac (err e) s h = h

  limit_parsed-Allowed :
      (mac : Text) (p : Parsed ℤ) (s : Site)
      → Allowed s.router.limits
      → Allowed (limit_parsed four sort order order_limits mac p s).0.router.limits
  unfolding limit_parsed
  limit_parsed-Allowed mac (parsed (pos n)) s h = elim (Bool-cases (validate_bandwidth_mbps n)) [
    | inl e ↦ rw e (
        answer-Allowed mac (set_bandwidth_limit order_limits mac n s.router).1
          (record s { router = (set_bandwidth_limit order_limits mac n s.router).0 })
          (set-Allowed order_limits mac n s.router e h))
    | inr e ↦ rw e h
  ]
  limit_parsed-Allowed mac (parsed (negsuc n)) s h = h
  limit_parsed-Allowed mac bad_syntax s h = h
  limit_parsed-Allowed mac out_of_range s h = h

  -- Whatever the values of the two forms, and whether or not the database and the script are there,
  -- setting and deleting limits leaves only limits of 1, 5, 10, 25, 50, 100 and 250 in the table,
  -- if there were only such.
  pub set_limit-Allowed :
      (mac mbps : Text) (s : Site)
      → Allowed s.router.limits
      → Allowed (set_limit four sort order order_limits mac mbps s).0.router.limits
        × Allowed (delete_limit four sort order order_limits mac s).0.router.limits
  unfolding set_limit delete_limit
  set_limit-Allowed mac mbps s h = (setting, deleting)
    where
      setting : Allowed (set_limit four sort order order_limits mac mbps s).0.router.limits
      setting = elim (Bool-cases (text_eq mac [] || text_eq mbps [])) [
        | inl e ↦ rw e h
        | inr e ↦ elim (Bool-cases (validate_mac mac)) [
          | inl k ↦ rw (e, k) (limit_parsed-Allowed mac (parse_int mbps) s h)
          | inr k ↦ rw (e, k) h
        ]
      ]

      deleting : Allowed (delete_limit four sort order order_limits mac s).0.router.limits
      deleting = elim (Bool-cases (validate_mac mac)) [
        | inl e ↦ rw e (
            answer-Allowed mac (delete_bandwidth_limit order_limits mac s.router).1
              (record s { router = (delete_bandwidth_limit order_limits mac s.router).0 })
              (delete-Allowed order_limits mac s.router h))
        | inr e ↦ rw e h
      ]
