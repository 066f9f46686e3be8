-- ===== src/Updater/Checked.antt =====
-- What a check leaves in the checker.
use mathlib.Core.Path.{subst}
use srouter.Base.{
  lt→ltb, ℕ, ◌+◌, ◌-◌, ◌<◌, Bool, true, false, not, ◌&&◌, [], ◌≡◌, ◌≢◌, refl, arith, Option, none,
  some, Text, codes, text_eq, text_eq_iff, ◌==◌, Bool-cases, inl, inr,
}
use srouter.Updater.{
  UpdateChecker, UpdateStatus, GithubRelease, Fetched, no_answer, answered, check, is_recent,
  mock_status, fetch_latest_release, answer_status, release_status, five_minutes, latest_url,
}
use srouter.Updater.Install.{install, Host, no_update}

check_fetches :
    (fetch : Text → Fetched) (decode : Text → Option GithubRelease) (version : Text) (now : ℕ)
    (uc : UpdateChecker)
    → uc.dev_mode ≡ false
    → is_recent now uc.status.checked ≡ false
    → check fetch decode version now uc
      ≡ record uc { status = answer_status decode version now (fetch latest_url) }
unfolding check fetch_latest_release
check_fetches fetch decode version now uc prod old = rw (prod, old)

release_checked :
    (version : Text) (now : ℕ) (r : Option GithubRelease)
    → (release_status version now r).checked ≡ some now
unfolding release_status
release_checked version now none = refl
release_checked version now (some r) = refl

answer_checked :
    (decode : Text → Option GithubRelease) (version : Text) (now : ℕ) (f : Fetched)
    → (answer_status decode version now f).checked ≡ some now
unfolding answer_status
answer_checked decode version now no_answer = refl
answer_checked decode version now (answered code body whole) =
    ground (arith, release_checked version now (decode body))

-- A check within five minutes of one that fetched, as the status was missing or at least five
-- minutes old, gives the same status, whatever would be fetched by then, in a build that is not for
-- development.
pub check-check :
    (fetch fetch' : Text → Fetched) (decode : Text → Option GithubRelease) (version : Text)
    (now later : ℕ) (uc : UpdateChecker)
    → uc.dev_mode ≡ false
    → is_recent now uc.status.checked ≡ false
    → later < now + five_minutes
    → check fetch' decode version later (check fetch decode version now uc)
      ≡ check fetch decode version now uc
check-check fetch fetch' decode version now later uc prod old soon =
    let first = check_fetches fetch decode version now uc prod old in
    rw first (
      kept (answer_status decode version now (fetch latest_url))
        (answer_checked decode version now (fetch latest_url)))
  where
    kept :
        (status : UpdateStatus)
        → status.checked ≡ some now
        → check fetch' decode version later (record uc { status = status })
          ≡ record uc { status = status }
    kept status e =
        unfold check is_recent in
        rw (prod, e, lt→ltb (later - now) five_minutes (omega (arith, soon)))

text_ne : (s t : Text) → text_eq s t ≡ false → s ≢ t
text_ne s t h e = cc (h, (text_eq_iff s t).1 e)

-- What an answer must be for an update to be offered.
abbrev pub Offered : (Text → Option GithubRelease) → Text → Fetched → Type 0
Offered decode version f =
    (version ≢ codes "dev")
    × (version ≢ [])
    × ((body : Text) × (whole : Bool) × (release : GithubRelease) × (f ≡ answered 200 body whole)
        × (decode body ≡ some release)
        × (release.tag_name ≢ version))

release_offers :
    (decode : Text → Option GithubRelease) (version : Text) (now : ℕ) (body : Text) (whole : Bool)
    (r : Option GithubRelease)
    → decode body ≡ r
    → (release_status version now r).available ≡ true
    → Offered decode version (answered 200 body whole)
unfolding release_status
release_offers decode version now body whole none e h = absurd (cc h)
release_offers decode version now body whole (some r) e h =
    let (a, b, c) = three _ _ _ h in
    (
      text_ne version (codes "dev") a,
      text_ne version [] b,
      (body, whole, r, refl, e, text_ne r.tag_name version c),
    )
  where
    three :
        (a b c : Bool) → (not a && not b && not c) ≡ true → (a ≡ false) × (b ≡ false) × (c ≡ false)
    three a b c h = ground arith

answer_offers :
    (decode : Text → Option GithubRelease) (version : Text) (now : ℕ) (f : Fetched)
    → (answer_status decode version now f).available ≡ true
    → Offered decode version f
unfolding answer_status
answer_offers decode version now no_answer h = absurd (cc h)
answer_offers decode version now (answered code body whole) h = elim (Bool-cases (code == 404)) [
  | inl e ↦ absurd (cc (rw e at h))
  | inr e ↦ elim (Bool-cases (code == 200)) [
    | inl k ↦
        subst (λ c. Offered decode version (answered c body whole)) (same code k)
          (release_offers decode version now body whole (decode body) refl (rw (e, k) at h))
    | inr k ↦ absurd (cc (rw (e, k) at h))
  ]
]
  where
    same : (c : ℕ) → (c == 200) ≡ true → 200 ≡ c
    same c k = ground arith

-- An update is offered only by a checked release whose tag is not the version that runs, and not
-- by a build without a version.
pub check_offers :
    (fetch : Text → Fetched) (decode : Text → Option GithubRelease) (version : Text) (now : ℕ)
    (uc : UpdateChecker)
    → uc.dev_mode ≡ false
    → is_recent now uc.status.checked ≡ false
    → (check fetch decode version now uc).status.available ≡ true
    → Offered decode version (fetch latest_url)
check_offers fetch decode version now uc prod old h =
    answer_offers decode version now (fetch latest_url)
      (rw (check_fetches fetch decode version now uc prod old) at h)

-- In a development build an installation behind a check always fails for want of an asset's URL, so
-- the simulated installation is never reached.
pub install-check_dev :
    (wide : ℕ → ℕ) (sha256 : Text → Text) (fetch : Text → Fetched)
    (decode : Text → Option GithubRelease) (version : Text) (now : ℕ) (uc : UpdateChecker)
    (h : Host)
    → uc.dev_mode ≡ true
    → install wide sha256 (check fetch decode version now uc) h ≡ (h, some no_update)
install-check_dev wide sha256 fetch decode version now uc h dev =
    unfold install check mock_status text_eq in rw dev
