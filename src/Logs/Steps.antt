-- ===== src/Logs/Steps.antt =====
-- The broadcaster as a state machine: the loop of `run`, subscribers that come, receive and go.
use srouter.Base.{
  ℕ, suc, ◌+◌, ◌≤◌, true, not, List, [], ◌∷◌, ◌++◌, ◌≡◌, refl, sym, ap, ◌∙◌, arith, some, Text,
  text_eq, ltb, ◌==◌, length, length-append, length-keep, keep, All, All-keep, Bool-cases, inl, inr,
  append_assoc, append-nil, if◌then◌else◌,
}
use mathlib.Core.Option.{some-injective}
use mathlib.Core.Path.{subst}
use srouter.Maps.{lookup}
use srouter.Logs.{
  LogLine, LogFilter, LogSubscriber, LogBroadcaster, parse_log_line, matches_filter, drop, lines_of,
  lines_or_none, remember, offer_histories, fan_out, publish, send_all, subscribed, subscribe,
  unsubscribe, receive, channel_size, history_per_category,
}
use srouter.Logs.History.{lines_of-remember, length-last}
use srouter.Logs.Offers.{
  first, Fits, offer-Fits, offer_histories-Fits, all_lines, offer_histories-first,
}

module _ (wide : ℕ → ℕ) (order : List (Text × List LogLine) → List (Text × List LogLine)) where
  -- what can happen under the mutex
  pub data Step (lb lb' : LogBroadcaster) : Type 0 where
    published : (raw : Text) → lb' ≡ publish wide (parse_log_line wide raw) lb → Step lb lb'
    joined : (f : LogFilter) → subscribe wide order f lb ≡ some lb' → Step lb lb'
    departed : (id : ℕ) → lb' ≡ unsubscribe id lb → Step lb lb'
    received : (id : ℕ) → lb' ≡ record lb { subscribers = receive id lb.subscribers } → Step lb lb'

  -- `NewLogBroadcaster`
  abbrev pub new_log_broadcaster : LogBroadcaster
  new_log_broadcaster = record { subscribers = []; next_id = 0; history = [] }

  pub data Reachable : LogBroadcaster → Type 0 where
    start : Reachable new_log_broadcaster
    after : {lb lb' : LogBroadcaster} → Reachable lb → Step lb lb' → Reachable lb'

  -- each history within 150 lines, each channel within its size
  pub record Bounded (lb : LogBroadcaster) : Type 0 where
    pub histories : (category : Text) → length (lines_of category lb.history) ≤ history_per_category
    pub channels : All (Fits wide) lb.subscribers

  fan_out-Fits :
      (l : LogLine) (subs : List (ℕ × LogSubscriber))
      → All (Fits wide) subs
      → All (Fits wide) (fan_out wide l subs)
  unfolding fan_out
  fan_out-Fits l [] _ = tt
  fan_out-Fits l ((id, sub) ∷ subs) (h, hs) = elim (Bool-cases (matches_filter wide l sub.filter)) [
    | inl wanted ↦ rw wanted (offer-Fits wide l sub.ch h, fan_out-Fits l subs hs)
    | inr other ↦ rw other (h, fan_out-Fits l subs hs)
  ]

  -- Sends that the channel has room for all arrive.
  send_all-some :
      (f : LogFilter) (ch lines : List LogLine)
      → length ch + length lines ≤ channel_size
      → send_all wide f ch lines ≡ some (ch ++ keep (λ l. matches_filter wide l f) lines)
  unfolding send_all keep
  send_all-some f ch [] h = ap some (sym (append-nil ch))
  send_all-some f ch (l ∷ lines) h = elim (Bool-cases (matches_filter wide l f)) [
    | inl wanted ↦
        rw (wanted, room (length ch) (length lines) h)
          (send_all-some f (ch ++ l ∷ []) lines (omega (arith, h, length-append ch (l ∷ [])))
            ∙ ap some (append_assoc ch (l ∷ []) (keep (λ l. matches_filter wide l f) lines)))
    | inr other ↦ rw other (send_all-some f ch lines (omega (arith, h)))
  ]
    where
      room : (n m : ℕ) → n + suc m ≤ channel_size → ltb n channel_size ≡ true
      room n m h = ground arith

  receive-Fits :
      (id : ℕ) (subs : List (ℕ × LogSubscriber))
      → All (Fits wide) subs
      → All (Fits wide) (receive id subs)
  unfolding receive
  receive-Fits id [] _ = tt
  receive-Fits id ((j, sub) ∷ subs) (h, hs) = elim (Bool-cases (j == id)) [
    | inl wanted ↦ rw wanted (shorter sub.ch h, hs)
    | inr other ↦ rw other (h, receive-Fits id subs hs)
  ]
    where
      shorter : (ch : List LogLine) → length ch ≤ channel_size → length (drop 1 ch) ≤ channel_size
      shorter [] h = unfold drop in h
      shorter (l ∷ ch) h = unfold drop in omega (arith, h)

  new-Bounded : Bounded new_log_broadcaster
  new-Bounded = record {
    histories = λ c. unfold lines_of lines_or_none lookup in omega arith;
    channels = tt;
  }

  remember-Bounded :
      (category : Text) (l : LogLine) (lb : LogBroadcaster)
      → Bounded lb
      → length (lines_of category (remember l lb.history)) ≤ history_per_category
  remember-Bounded category l lb b = elim (Bool-cases (text_eq l.category category)) [
    | inl same ↦
        rw (lines_of-remember category l lb.history, same)
          (length-last history_per_category (lines_of category lb.history ++ l ∷ []))
    | inr other ↦ rw (lines_of-remember category l lb.history, other) (b.histories category)
  ]

  -- what a subscriber of one category gets from the history
  abbrev pub replayed : LogFilter → LogBroadcaster → List LogLine
  replayed f lb = keep (λ l. matches_filter wide l f) (lines_of f.category lb.history)

  replay :
      (f : LogFilter) (lb : LogBroadcaster)
      → Bounded lb
      → send_all wide f [] (lines_of f.category lb.history) ≡ some (replayed f lb)
  replay f lb b =
      send_all-some f [] (lines_of f.category lb.history) (omega (arith, b.histories f.category))

  subscribed-Bounded :
      (f : LogFilter) (ch : List LogLine) (lb lb' : LogBroadcaster)
      → Bounded lb
      → length ch ≤ channel_size
      → subscribed f lb (some ch) ≡ some lb'
      → Bounded lb'
  subscribed-Bounded f ch lb lb' b h e =
      unfold subscribed in
      subst Bounded (some-injective _ _ e)
        (record { histories = b.histories; channels = (h, b.channels) })

  -- the channel that `Subscribe` fills
  joined_channel :
      (f : LogFilter) (lb : LogBroadcaster)
      → Bounded lb
      → (ch : List LogLine) × (length ch ≤ channel_size)
        × (subscribe wide order f lb ≡ subscribed f lb (some ch))
  unfolding subscribe
  joined_channel f lb b = elim (Bool-cases (text_eq f.category [])) [
    | inl all ↦ (
      offer_histories wide f [] (order lb.history),
      offer_histories-Fits wide f [] (order lb.history) (omega arith),
      rw all refl,
    )
    | inr one ↦ (
      replayed f lb,
      omega (
        arith,
        b.histories f.category,
        length-keep (λ l. matches_filter wide l f) (lines_of f.category lb.history),
      ),
      rw (one, replay f lb b) refl,
    )
  ]

  Step-Bounded : {lb lb' : LogBroadcaster} → Step lb lb' → Bounded lb → Bounded lb'
  Step-Bounded {lb} {lb'} (published raw e) b = subst Bounded (sym e) (record {
    histories = λ c. unfold publish in remember-Bounded c (parse_log_line wide raw) lb b;
    channels = unfold publish in fan_out-Fits (parse_log_line wide raw) lb.subscribers b.channels;
  })
  Step-Bounded {lb} {lb'} (joined f e) b =
      let (ch, fits, filled) = joined_channel f lb b in
      subscribed-Bounded f ch lb lb' b fits (sym filled ∙ e)
  Step-Bounded {lb} {lb'} (departed id e) b = subst Bounded (sym e) (record {
    histories = unfold unsubscribe in b.histories;
    channels =
        unfold unsubscribe in All-keep (Fits wide) (λ s. not (s.0 == id)) lb.subscribers b.channels;
  })
  Step-Bounded {lb} {lb'} (received id e) b =
      subst Bounded (sym e)
        (record { histories = b.histories; channels = receive-Fits id lb.subscribers b.channels })

  -- Whatever lines come and whoever subscribes, receives and goes, no history is longer than 150
  -- lines, and no channel longer than its size.
  pub Reachable-Bounded : {lb : LogBroadcaster} → Reachable lb → Bounded lb
  Reachable-Bounded start = new-Bounded
  Reachable-Bounded (after r step) = Step-Bounded step (Reachable-Bounded r)

  -- what a new subscriber finds in its channel: of one category the lines that its filter wants,
  -- of all categories the first of these that the channel holds
  abbrev pub caught_up : LogFilter → LogBroadcaster → List LogLine
  caught_up f lb =
      if text_eq f.category []
      then first channel_size
          (keep (λ l. matches_filter wide l f) (all_lines wide (order lb.history)))
      else replayed f lb

  -- A subscription always returns, although it sends without a `default` under the mutex: in every
  -- reachable state, the new subscriber finds in its channel the lines of the history that its
  -- filter wants: all of them if it asks for one category, and the first 814 of them, in Go's order
  -- of the categories, if it asks for all.
  pub subscribe_returns :
      {lb : LogBroadcaster} (f : LogFilter)
      → Reachable lb
      → subscribe wide order f lb
        ≡ some (record lb {
          subscribers = (lb.next_id, record { ch = caught_up f lb; filter = f }) ∷ lb.subscribers;
          next_id = lb.next_id + 1;
        })
  unfolding subscribe subscribed
  subscribe_returns {lb} f r = elim (Bool-cases (text_eq f.category [])) [
    | inl all ↦ rw (all, offer_histories-first wide f [] (order lb.history) (omega arith)) refl
    | inr one ↦ rw (one, replay f lb (Reachable-Bounded r)) refl
  ]
