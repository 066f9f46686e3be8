-- ===== src/Reboot/Clock.antt =====
-- When the timer of the daily reboot fires.
use srouter.Base.{ℕ, ◌+◌, ◌≤◌, ◌<◌, true, [], ◌∷◌, ◌≡◌, arith, Text}
use srouter.Validate.{is_digit}
use srouter.Reboot.{time_re, seconds_of, next_occurrence}

-- An accepted time lies within the day.
seconds_of_bound : (tod : Text) → time_re tod ≡ true → seconds_of tod < 86400
unfolding time_re seconds_of is_digit
seconds_of_bound (a ∷ b ∷ c ∷ d ∷ e ∷ []) h = ground arith
seconds_of_bound [] h = cc h
seconds_of_bound (a ∷ []) h = cc h
seconds_of_bound (a ∷ b ∷ []) h = cc h
seconds_of_bound (a ∷ b ∷ c ∷ []) h = cc h
seconds_of_bound (a ∷ b ∷ c ∷ d ∷ []) h = cc h
seconds_of_bound (a ∷ b ∷ c ∷ d ∷ e ∷ f ∷ t) h = cc h

-- For an accepted time of day the next occurrence is not in the past, and is less than a day away.
pub next_occurrence_bounds :
    (now midnight : ℕ) (tod : Text)
    → midnight ≤ now
    → now < midnight + 86400
    → time_re tod ≡ true
    → (now ≤ next_occurrence now midnight tod) × (next_occurrence now midnight tod ≤ now + 86400)
unfolding next_occurrence
next_occurrence_bounds now midnight tod h k e = let bound = seconds_of_bound tod e in ground arith
