-- ===== src/Tests/Logs.antt =====
-- internal/system/logs.go, on three lines.
use srouter.Base.{ℕ, ◌+◌, List, [], ◌∷◌, ◌≡◌, refl, arith, some, Text, codes, text_eq}
use srouter.Strings.{to_lower, contains, split_n, join}
use srouter.Logs.{
  LogLine, LogFilter, LogBroadcaster, parse_log_line, publish, subscribe, lines_of, last,
  history_per_category,
}
use srouter.Logs.Parse.{spaced, parse_log_line_one_digit}
use srouter.Logs.History.{remember_all, of_category, lines_of-remember_all}
use srouter.Logs.Steps.{
  published, Reachable, start, after, new_log_broadcaster, Bounded, caught_up, Reachable-Bounded,
  subscribe_returns,
}

abbrev wide : ℕ → ℕ
wide c = c

abbrev order : List (Text × List LogLine) → List (Text × List LogLine)
order h = h

abbrev lease_text : Text
lease_text = codes "Jan  2 15:04:05 gw dnsmasq: DHCPACK"

abbrev drop_text : Text
drop_text = codes "Jan 12 15:04:05 gw FW-INPUT-DROP: IN=ppp0"

abbrev three : List LogLine
three =
    parse_log_line wide drop_text
    ∷ parse_log_line wide lease_text
    ∷ parse_log_line wide drop_text
    ∷ []

parsed_drop : parse_log_line wide drop_text ≡ record {
  raw = drop_text;
  category = codes "firewall";
  time = codes "Jan 12 15:04:05";
  message = codes "FW-INPUT-DROP: IN=ppp0";
}
unfolding parse_log_line to_lower contains split_n join
parsed_drop = refl

-- two spaces in front of a one-digit day shift the parts
parsed_lease : (parse_log_line wide lease_text).time ≡ codes "Jan  2"
unfolding parse_log_line to_lower contains split_n join
parsed_lease = refl

lines_of-remember_all_example :
    lines_of (codes "dhcp") (remember_all three [])
    ≡ last history_per_category (of_category (codes "dhcp") three)
lines_of-remember_all_example = lines_of-remember_all (codes "dhcp") three

abbrev one_line : LogBroadcaster
one_line = publish wide (parse_log_line wide drop_text) (new_log_broadcaster wide order)

one_line-Reachable : Reachable wide order one_line
one_line-Reachable = after start (published drop_text refl)

Reachable-Bounded_example : Bounded wide order one_line
Reachable-Bounded_example = Reachable-Bounded wide order one_line-Reachable

abbrev firewall : LogFilter
firewall = record { category = codes "firewall"; search = codes "drop" }

subscribe_returns_example :
    subscribe wide order firewall one_line
    ≡ some (record one_line {
      subscribers =
          (
            one_line.next_id,
            record { ch = caught_up wide order firewall one_line; filter = firewall },
          )
          ∷ one_line.subscribers;
      next_id = one_line.next_id + 1;
    })
unfolding text_eq
subscribe_returns_example = subscribe_returns wide order firewall one_line-Reachable

parse_log_line_one_digit_example :
    ((parse_log_line wide
        (spaced (codes "Jan") [] (codes "2") (codes "15:04:05") (codes "gw up"))).time
      ≡ join (codes " ") (codes "Jan" ∷ [] ∷ codes "2" ∷ []))
    × ((parse_log_line wide
          (spaced (codes "Jan") [] (codes "2") (codes "15:04:05") (codes "gw up"))).message
        ≡ codes "gw up")
parse_log_line_one_digit_example =
    parse_log_line_one_digit wide (codes "Jan") (codes "2") (codes "15:04:05") (codes "gw")
      (codes "up") (omega arith) (omega arith) (omega arith)
