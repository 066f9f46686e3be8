-- ===== src/Logs.antt =====
-- internal/system/logs.go: the stream of the system log. A line is parsed, kept in the history of
-- its category and sent to the subscribers that want it. A channel is its list of lines not yet
-- received. Publishing, subscribing and unsubscribing run under the broadcaster's mutex, so each is
-- one step; so is the receiving of a line, which touches one channel. `wide` is the lower case of
-- the code points beyond ASCII.
pub mod Parse
pub mod History
pub mod Offers
pub mod Steps
use srouter.Base.{
  ℕ, zero, suc, ◌+◌, ◌-◌, ◌*◌, Bool, true, false, not, List, [], ◌∷◌, ◌++◌, Option, none, some,
  if◌then◌else◌, Text, codes, text_eq, ltb, leb, ◌==◌, ◌||◌, ◌&&◌, length, keep,
}
use srouter.Strings.{split_n, join, contains, to_lower}
use srouter.Maps.{lookup, insert}

pub record LogLine : Type 0 where
  pub raw : Text
  pub category : Text
  pub time : Text
  pub message : Text

unfoldable pub category_of : Text → Text
category_of lower =
    if contains lower (codes "iptables")
      || contains lower (codes "fw-input")
      || contains lower (codes "mc-connect")
    then codes "firewall"
    else if contains lower (codes "dnsmasq")
    then codes "dhcp"
    else if contains lower (codes "pppd") || contains lower (codes "pppoe")
    then codes "pppoe"
    else codes "system"

-- time and message of a line that has at least five parts
unfoldable pub of_parts : Text → List Text → Text × Text
of_parts raw (a ∷ b ∷ c ∷ host ∷ message ∷ rest) = (join (codes " ") (a ∷ b ∷ c ∷ []), message)
of_parts raw _ = ([], raw)

unfoldable pub parse_log_line : (ℕ → ℕ) → Text → LogLine
unfolding category_of of_parts
parse_log_line wide raw =
    let (time, message) = of_parts raw (split_n b' ' 4 raw) in
    record { raw = raw; category = category_of (to_lower wide raw); time = time; message = message }

pub record LogFilter : Type 0 where
  pub category : Text
  pub search : Text

unfoldable pub matches_filter : (ℕ → ℕ) → LogLine → LogFilter → Bool
matches_filter wide l f =
    if not (text_eq f.category []) && not (text_eq l.category f.category)
    then false
    else if not (text_eq f.search [])
        && not (contains (to_lower wide l.raw) (to_lower wide f.search))
    then false
    else true

abbrev pub history_per_category : ℕ
history_per_category = 150

-- the size of a subscriber's channel
abbrev pub channel_size : ℕ
channel_size = history_per_category * 5 + 64

pub record LogSubscriber : Type 0 where
  pub ch : List LogLine
  pub filter : LogFilter

pub record LogBroadcaster : Type 0 where
  pub subscribers : List (ℕ × LogSubscriber)
  pub next_id : ℕ
  pub history : List (Text × List LogLine)

unfoldable pub drop {ℓ} : {A : Type ℓ} → ℕ → List A → List A
drop zero xs = xs
drop (suc n) [] = []
drop (suc n) (x ∷ xs) = drop n xs

-- `xs[len(xs)-n:]`, if there are more
unfoldable pub last {ℓ} : {A : Type ℓ} → ℕ → List A → List A
unfolding drop
last n xs = if ltb n (length xs) then drop (length xs - n) xs else xs

-- indexing the map of histories: no lines for a missing key
unfoldable pub lines_or_none : Option (List LogLine) → List LogLine
lines_or_none none = []
lines_or_none (some lines) = lines

unfoldable pub lines_of : Text → List (Text × List LogLine) → List LogLine
unfolding lines_or_none
lines_of category history = lines_or_none (lookup category history)

-- the history with one more line
unfoldable pub remember : LogLine → List (Text × List LogLine) → List (Text × List LogLine)
unfolding last lines_of
remember l history =
    insert l.category (last history_per_category (lines_of l.category history ++ l ∷ [])) history

-- a send with a `default`: on a full channel the line is lost
unfoldable pub offer : LogLine → List LogLine → List LogLine
offer l ch = if ltb (length ch) channel_size then ch ++ l ∷ [] else ch

unfoldable pub fan_out : (ℕ → ℕ) → LogLine → List (ℕ × LogSubscriber) → List (ℕ × LogSubscriber)
unfolding offer matches_filter
fan_out wide l [] = []
fan_out wide l ((id, sub) ∷ subs) =
    let rest = fan_out wide l subs in
    if matches_filter wide l sub.filter
    then (id, record sub { ch = offer l sub.ch }) ∷ rest
    else (id, sub) ∷ rest

-- one round of the loop of `run`, behind the reading of a line that is not empty
unfoldable pub publish : (ℕ → ℕ) → LogLine → LogBroadcaster → LogBroadcaster
unfolding remember fan_out
publish wide l lb = record lb {
  history = remember l lb.history;
  subscribers = fan_out wide l lb.subscribers;
}

-- Sends without a `default`: none is a send on a full channel, which never returns.
unfoldable pub send_all : (ℕ → ℕ) → LogFilter → List LogLine → List LogLine → Option (List LogLine)
send_all wide f ch [] = some ch
send_all wide f ch (l ∷ lines) =
    if matches_filter wide l f
    then if ltb (length ch) channel_size then send_all wide f (ch ++ l ∷ []) lines else none
    else send_all wide f ch lines

unfoldable pub offer_all : (ℕ → ℕ) → LogFilter → List LogLine → List LogLine → List LogLine
offer_all wide f ch [] = ch
offer_all wide f ch (l ∷ lines) =
    offer_all wide f (if matches_filter wide l f then offer l ch else ch) lines

unfoldable pub offer_histories :
    (ℕ → ℕ) → LogFilter → List LogLine → List (Text × List LogLine) → List LogLine
unfolding offer_all
offer_histories wide f ch [] = ch
offer_histories wide f ch ((category, lines) ∷ history) =
    offer_histories wide f (offer_all wide f ch lines) history

unfoldable pub subscribed :
    LogFilter → LogBroadcaster → Option (List LogLine) → Option LogBroadcaster
subscribed f lb none = none
subscribed f lb (some ch) = some (record lb {
  subscribers = (lb.next_id, record { ch = ch; filter = f }) ∷ lb.subscribers;
  next_id = lb.next_id + 1;
})

-- `Subscribe`; `order` is the order in which Go ranges over the map of histories.
unfoldable pub subscribe :
    (ℕ → ℕ)
    → (List (Text × List LogLine) → List (Text × List LogLine))
    → LogFilter
    → LogBroadcaster
    → Option LogBroadcaster
unfolding subscribed send_all offer_histories
subscribe wide order f lb = subscribed f lb (
    if text_eq f.category []
    then some (offer_histories wide f [] (order lb.history))
    else send_all wide f [] (lines_of f.category lb.history))

-- the function that `Subscribe` returns
unfoldable pub unsubscribe : ℕ → LogBroadcaster → LogBroadcaster
unsubscribe id lb = record lb { subscribers = keep (λ s. not (s.0 == id)) lb.subscribers }

-- a subscriber takes the first line of its channel
unfoldable pub receive : ℕ → List (ℕ × LogSubscriber) → List (ℕ × LogSubscriber)
unfolding drop
receive id [] = []
receive id ((j, sub) ∷ subs) =
    let rest = receive id subs in
    if j == id then (j, record sub { ch = drop 1 sub.ch }) ∷ subs else (j, sub) ∷ rest
