-- ===== src/Reboot.antt =====
-- internal/system/reboot.go and the schedule of internal/handler/system.go: the row with the daily
-- time, the channel that wakes the watch loop, and the loop, interleaved with the handlers that run.
-- Whether a query of the database fails is open in each step, and so is when a timer fires.
pub mod Steps
pub mod Clock
use srouter.Base.{
  ℕ, ◌+◌, ◌*◌, ◌-◌, Bool, true, false, ◌&&◌, ◌||◌, List, [], ◌∷◌, ◌++◌, Option, none, some, leb,
  ltb, ◌==◌, if◌then◌else◌, Text, ◌≡◌,
}
use srouter.Validate.{is_digit}

-- `timeRE`
unfoldable pub time_re : Text → Bool
unfolding is_digit
time_re (a ∷ b ∷ c ∷ d ∷ e ∷ []) =
    (((a == b'0' || a == b'1') && is_digit b) || (a == b'2' && (leb b'0' b && leb b b'3')))
    && c == b':'
    && (leb b'0' d && leb d b'5')
    && is_digit e
time_re _ = false

-- the seconds of an accepted time of day; midnight, if it cannot be parsed
unfoldable pub seconds_of : Text → ℕ
seconds_of (a ∷ b ∷ c ∷ d ∷ e ∷ []) =
    ((a - b'0') * 10 + (b - b'0')) * 3600 + ((d - b'0') * 10 + (e - b'0')) * 60
seconds_of _ = 0

-- `nextOccurrence`, with the second at which the day began; a day has 24 hours.
unfoldable pub next_occurrence : ℕ → ℕ → Text → ℕ
unfolding seconds_of
next_occurrence now midnight tod =
    if ltb (midnight + seconds_of tod) now
    then midnight + seconds_of tod + 86400
    else midnight + seconds_of tod

-- what a handler still has to do
pub data Action : Type 0 where
  -- `ScheduleDailyReboot`
  save : Text → Action
  -- `CancelScheduledReboot`
  remove : Action
  -- the send to the channel, dropped if it is full
  send : Action

-- `schedule`
unfoldable pub schedule : Text → List Action
unfolding time_re
schedule tod = if time_re tod then save tod ∷ send ∷ [] else []

-- `cancelSchedule`
abbrev pub cancel_schedule : List Action
cancel_schedule = send ∷ remove ∷ []

-- where `RebootWatchLoop` stands
pub data Phase : Type 0 where
  -- at the top of the loop
  reading : Phase
  -- blocked on the channel, without a schedule
  waiting : Phase
  -- in the select, with the timer for a time of day
  armed : Text → Phase
  -- past the select: the reboot is executed, and the loop has ended
  fired : Phase

pub record Watch : Type 0 where
  pub row : Option Text
  -- whether the channel, of capacity 1, holds a signal
  pub signal : Bool
  pub phase : Phase
  -- the handlers that are running
  pub threads : List (List Action)

-- an action that asks the database
unfoldable pub is_query : Action → Bool
is_query (save t) = true
is_query remove = true
is_query send = false

module _ (cancels fails : Bool) where
  -- One step, of the loop or of a handler. The first parameter says whether `cancelSchedule` is
  -- requested at all, the second whether a query may fail.
  pub data Step (s s' : Watch) : Type 0 where
    -- the loop reads the row
    read_row :
        (t : Text)
        → s.phase ≡ reading
        → s.row ≡ some t
        → s' ≡ record s { phase = armed t }
        → Step s s'
    read_none : s.phase ≡ reading → s.row ≡ none → s' ≡ record s { phase = waiting } → Step s s'
    read_failed : fails ≡ true → s.phase ≡ reading → s' ≡ record s { phase = waiting } → Step s s'
    -- it receives from the channel, without a timer or with one
    wake :
        s.phase ≡ waiting
        → s.signal ≡ true
        → s' ≡ record s { signal = false; phase = reading }
        → Step s s'
    reset :
        (t : Text)
        → s.phase ≡ armed t
        → s.signal ≡ true
        → s' ≡ record s { signal = false; phase = reading }
        → Step s s'
    fire : (t : Text) → s.phase ≡ armed t → s' ≡ record s { phase = fired } → Step s s'
    -- a handler goes on, between the others
    saves :
        (xs ys : List (List Action)) (t : Text) (acts : List Action)
        → s.threads ≡ xs ++ ((save t ∷ acts) ∷ ys)
        → s' ≡ record s { row = some t; threads = xs ++ (acts ∷ ys) }
        → Step s s'
    removes :
        (xs ys : List (List Action)) (acts : List Action)
        → s.threads ≡ xs ++ ((remove ∷ acts) ∷ ys)
        → s' ≡ record s { row = none; threads = xs ++ (acts ∷ ys) }
        → Step s s'
    sends :
        (xs ys : List (List Action)) (acts : List Action)
        → s.threads ≡ xs ++ ((send ∷ acts) ∷ ys)
        → s' ≡ record s { signal = true; threads = xs ++ (acts ∷ ys) }
        → Step s s'
    -- its query fails, and it returns
    query_failed :
        (xs ys : List (List Action)) (a : Action) (acts : List Action)
        → fails ≡ true
        → is_query a ≡ true
        → s.threads ≡ xs ++ ((a ∷ acts) ∷ ys)
        → s' ≡ record s { threads = xs ++ ([] ∷ ys) }
        → Step s s'
    request_schedule :
        (tod : Text) → s' ≡ record s { threads = schedule tod ∷ s.threads } → Step s s'
    request_cancel :
        cancels ≡ true → s' ≡ record s { threads = cancel_schedule ∷ s.threads } → Step s s'

  -- some steps one after the other
  pub data Run (s : Watch) : Watch → Type 0 where
    rest : Run s s
    then_step : {u v : Watch} → Run s u → Step u v → Run s v

-- at the start of the program
abbrev pub started : Option Text → Watch
started r = record { row = r; signal = false; phase = reading; threads = [] }
