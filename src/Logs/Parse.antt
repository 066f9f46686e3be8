-- ===== src/Logs/Parse.antt =====
-- Time and message of a line of the system log.
use srouter.Base.{ℕ, [], ◌∷◌, ◌++◌, ◌≡◌, ap, ◌∙◌, Text, codes, Lacks}
use srouter.Strings.{split_n, join}
use srouter.Strings.Split.{split_n_at_sep, split_n-zero}
use srouter.Logs.{parse_log_line, of_parts}

-- five parts with one space between each two
abbrev pub spaced : Text → Text → Text → Text → Text → Text
spaced a b c d rest = a ++ (b' ' ∷ (b ++ (b' ' ∷ (c ++ (b' ' ∷ (d ++ (b' ' ∷ rest)))))))

split-spaced :
    (a b c d rest : Text)
    → Lacks b' ' a
    → Lacks b' ' b
    → Lacks b' ' c
    → Lacks b' ' d
    → split_n b' ' 4 (spaced a b c d rest) ≡ a ∷ b ∷ c ∷ d ∷ rest ∷ []
split-spaced a b c d rest ha hb hc hd =
    split_n_at_sep b' ' 3 a _ ha
    ∙ ap (λ ls. a ∷ ls) (split_n_at_sep b' ' 2 b _ hb)
    ∙ ap (λ ls. a ∷ b ∷ ls) (split_n_at_sep b' ' 1 c _ hc)
    ∙ ap (λ ls. a ∷ b ∷ c ∷ ls) (split_n_at_sep b' ' 0 d rest hd)
    ∙ ap (λ ls. a ∷ b ∷ c ∷ d ∷ ls) (split_n-zero b' ' rest)

time_and_message :
    (wide : ℕ → ℕ) (a b c d rest : Text)
    → Lacks b' ' a
    → Lacks b' ' b
    → Lacks b' ' c
    → Lacks b' ' d
    → ((parse_log_line wide (spaced a b c d rest)).time ≡ join (codes " ") (a ∷ b ∷ c ∷ []))
      × ((parse_log_line wide (spaced a b c d rest)).message ≡ rest)
unfolding parse_log_line
time_and_message wide a b c d rest ha hb hc hd =
    let parts = ap (of_parts (spaced a b c d rest)) (split-spaced a b c d rest ha hb hc hd) in
    unfold of_parts in (ap (λ x. x.0) parts, ap (λ x. x.1) parts)

-- On a day of two digits, `month day clock host message`, the line is cut after the host: the time
-- is month, day and clock, the message what stands behind the host.
pub parse_log_line_two_digits :
    (wide : ℕ → ℕ) (month day clock host message : Text)
    → Lacks b' ' month
    → Lacks b' ' day
    → Lacks b' ' clock
    → Lacks b' ' host
    → ((parse_log_line wide (spaced month day clock host message)).time
        ≡ join (codes " ") (month ∷ day ∷ clock ∷ []))
      × ((parse_log_line wide (spaced month day clock host message)).message ≡ message)
parse_log_line_two_digits = time_and_message

-- On a day of one digit, which has two spaces in front of it, the time lacks the clock, and the
-- message begins with the host.
pub parse_log_line_one_digit :
    (wide : ℕ → ℕ) (month day clock host message : Text)
    → Lacks b' ' month
    → Lacks b' ' day
    → Lacks b' ' clock
    → ((parse_log_line wide (spaced month [] day clock (host ++ (b' ' ∷ message)))).time
        ≡ join (codes " ") (month ∷ [] ∷ day ∷ []))
      × ((parse_log_line wide (spaced month [] day clock (host ++ (b' ' ∷ message)))).message
          ≡ host ++ (b' ' ∷ message))
parse_log_line_one_digit wide month day clock host message hm hd hc =
    time_and_message wide month [] day clock (host ++ (b' ' ∷ message)) hm tt hd hc
