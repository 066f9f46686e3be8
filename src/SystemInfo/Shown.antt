-- ===== src/SystemInfo/Shown.antt =====
-- What the page shows of the uptime and of a package's version.
use srouter.Base.{
  append_assoc, ap, ℕ, ◌+◌, ◌*◌, ◌≤◌, ◌<◌, [], ◌∷◌, ◌++◌, ◌≡◌, refl, sym, ◌∙◌, arith, none, some,
  Text, Lacks,
}
use srouter.SystemInfo.{uptime_parts, behind_last_dash, version_of_line}

-- The hours and minutes of an uptime are within a day and an hour, and with the days they make up the
-- uptime to the minute.
pub uptime_parts_bounds :
    (secs : ℕ)
    → ((uptime_parts secs).1 < 24)
      × ((uptime_parts secs).2 < 60)
      × ((uptime_parts secs).0 * 86400 + (uptime_parts secs).1 * 3600 + (uptime_parts secs).2 * 60
          ≤ secs)
      × (secs
          < (uptime_parts secs).0 * 86400
            + (uptime_parts secs).1 * 3600
            + (uptime_parts secs).2 * 60
            + 60)
unfolding uptime_parts
uptime_parts_bounds secs = (omega arith, omega arith, omega arith, omega arith)

no_dash : (s : Text) → Lacks b'-' s → behind_last_dash s ≡ none
unfolding behind_last_dash
no_dash [] _ = refl
no_dash (c ∷ s) (h, hs) = ground (arith, no_dash s hs)

last_dash : (s r : Text) → Lacks b'-' r → behind_last_dash (s ++ (b'-' ∷ r)) ≡ some r
unfolding behind_last_dash
last_dash [] r h = ground (arith, no_dash r h)
last_dash (c ∷ s) r h = ground (arith, last_dash s r h)

behind_name : (c : ℕ) (s r : Text) → Lacks b'-' r → version_of_line (c ∷ (s ++ (b'-' ∷ r))) ≡ r
unfolding version_of_line
behind_name c s r h = rw (version_of_line, last_dash s r h)

-- Of a line `name-version-release`, as apk prints it for each package, only the release is shown as
-- the version; the release must hold no dash.
pub version_of_line_release :
    (c : ℕ) (name version release : Text)
    → Lacks b'-' release
    → version_of_line ((c ∷ name) ++ (b'-' ∷ (version ++ (b'-' ∷ release)))) ≡ release
version_of_line_release c name version release h =
    ap (λ t. version_of_line (c ∷ t)) (sym (append_assoc name (b'-' ∷ version) (b'-' ∷ release)))
    ∙ behind_name c (name ++ (b'-' ∷ version)) release h
