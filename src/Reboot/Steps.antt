-- ===== src/Reboot/Steps.antt =====
-- What holds of every interleaving of the handlers with the watch loop.

use srouter.Base.{
  Bool, true, false, ◌||◌, List, [], ◌∷◌, ◌++◌, ◌≡◌, ◌⊎◌, inl, inr, refl, arith, Option, none, some,
  Text, All, if◌then◌else◌,
}
use srouter.Reboot.{
  Action, save, remove, send, schedule, Phase, reading, waiting, armed, fired, Watch, Step,
  read_row, read_none, read_failed, wake, reset, fire, saves, removes, sends, query_failed,
  request_schedule, request_cancel, Run, rest, then_step, time_re, started,
}

is_sending : List Action → Bool
is_sending [] = false
is_sending (send ∷ acts) = true
is_sending (save t ∷ acts) = false
is_sending (remove ∷ acts) = false

-- whether some handler is about to send
unfoldable pub some_sending : List (List Action) → Bool
unfolding is_sending
some_sending [] = false
some_sending (th ∷ ths) = is_sending th || some_sending ths

some_sending-append :
    (xs ys : List (List Action)) → some_sending (xs ++ ys) ≡ some_sending xs || some_sending ys
unfolding some_sending
some_sending-append [] ys = refl
some_sending-append (th ∷ xs) ys = ground (arith, some_sending-append xs ys)

-- a thread in the middle that is about to send
sending_here :
    (xs ys : List (List Action)) (th : List Action)
    → is_sending th ≡ true
    → some_sending (xs ++ (th ∷ ys)) ≡ true
unfolding some_sending
sending_here xs ys th h = rw (some_sending-append xs (th ∷ ys)) (ground arith)

-- A handler that sends behind its query.
abbrev Ordered : List Action → Type 0
Ordered [] = Unit
Ordered (save t ∷ acts) = acts ≡ send ∷ []
Ordered (send ∷ acts) = acts ≡ []
Ordered (remove ∷ acts) = acts ≡ send ∷ []

-- The loop is where the row says.
abbrev pub Knows : Option Text → Phase → Type 0
Knows r reading = Unit
Knows r waiting = r ≡ none
Knows r (armed t) = r ≡ some t
Knows r fired = Unit

-- The loop knows the row, or will be woken.
record Fresh (s : Watch) : Type 0 where
  ordered : All Ordered s.threads
  known : Knows s.row s.phase ⊎ ((s.signal || some_sending s.threads) ≡ true)

middle-All :
    (xs ys : List (List Action)) (th th' : List Action)
    → All Ordered (xs ++ (th ∷ ys))
    → (Ordered th → Ordered th')
    → All Ordered (xs ++ (th' ∷ ys))
middle-All [] ys th th' (h, hs) f = (f h, hs)
middle-All (x ∷ xs) ys th th' (h, hs) f = (h, middle-All xs ys th th' hs f)

middle-Ordered :
    (xs ys : List (List Action)) (th : List Action) → All Ordered (xs ++ (th ∷ ys)) → Ordered th
middle-Ordered [] ys th (h, hs) = h
middle-Ordered (x ∷ xs) ys th (h, hs) = middle-Ordered xs ys th hs

schedule-Ordered : (tod : Text) → Ordered (schedule tod)
unfolding schedule
schedule-Ordered tod = either (time_re tod)
  where
    either : (b : Bool) → Ordered (if b then save tod ∷ send ∷ [] else [])
    either true = refl
    either false = tt

or_true : (a : Bool) {b : Bool} → b ≡ true → (a || b) ≡ true
or_true a h = ground arith

-- a handler behind its query, which is about to send
sent :
    (b : Bool) (xs ys : List (List Action)) (acts : List Action)
    → acts ≡ send ∷ []
    → (b || some_sending (xs ++ (acts ∷ ys))) ≡ true
unfolding is_sending
sent b xs ys acts e = or_true b (sending_here xs ys acts (rw e))

queried :
    (xs ys : List (List Action)) (th acts : List Action)
    → All Ordered (xs ++ (th ∷ ys))
    → acts ≡ send ∷ []
    → All Ordered (xs ++ (acts ∷ ys))
queried xs ys th acts h e = middle-All xs ys th acts h (λ _. rw e refl)

Step-Fresh : {s s' : Watch} → Step false false s s' → Fresh s → Fresh s'
Step-Fresh (read_row t p r e) h = rw e (record { ordered = h.ordered; known = inl r })
Step-Fresh (read_none p r e) h = rw e (record { ordered = h.ordered; known = inl r })
Step-Fresh (read_failed f p e) h = absurd (cc f)
Step-Fresh (wake p b e) h = rw e (record { ordered = h.ordered; known = inl tt })
Step-Fresh (reset t p b e) h = rw e (record { ordered = h.ordered; known = inl tt })
Step-Fresh (fire t p e) h = rw e (record { ordered = h.ordered; known = inl tt })
Step-Fresh {s = s} (saves xs ys t acts k e) h =
    let ordered = rw k at h.ordered in
    let turn = middle-Ordered xs ys (save t ∷ acts) ordered in
    rw e (record {
      ordered = queried xs ys (save t ∷ acts) acts ordered turn;
      known = inr (sent s.signal xs ys acts turn);
    })
Step-Fresh {s = s} (removes xs ys acts k e) h =
    let ordered = rw k at h.ordered in
    let turn = middle-Ordered xs ys (remove ∷ acts) ordered in
    rw e (record {
      ordered = queried xs ys (remove ∷ acts) acts ordered turn;
      known = inr (sent s.signal xs ys acts turn);
    })
Step-Fresh (sends xs ys acts k e) h =
    let ordered = rw k at h.ordered in
    let turn = middle-Ordered xs ys (send ∷ acts) ordered in
    rw e (record {
      ordered = middle-All xs ys (send ∷ acts) acts ordered (λ _. rw turn tt);
      known = inr refl;
    })
Step-Fresh (query_failed xs ys a acts f q k e) h = absurd (cc f)
Step-Fresh {s = s} (request_schedule tod e) h =
    rw e (record { ordered = (schedule-Ordered tod, h.ordered); known = more h.known })
  where
    more :
        Knows s.row s.phase ⊎ ((s.signal || some_sending s.threads) ≡ true)
        → Knows s.row s.phase ⊎ ((s.signal || some_sending (schedule tod ∷ s.threads)) ≡ true)
    more (inl k) = inl k
    more (inr k) = inr (unfold some_sending in ground arith)
Step-Fresh (request_cancel f e) h = absurd (cc f)

Run-Fresh : {s v : Watch} → Run false false s v → Fresh s → Fresh v
Run-Fresh rest h = h
Run-Fresh (then_step r k) h = Step-Fresh k (Run-Fresh r h)

-- Where only times are saved and no query fails, then however the requests and the loop are
-- interleaved: when no request is about to send and the channel is empty, a loop that waits for a
-- time waits for the one in the row, and a loop that waits for a schedule does so as there is none.
pub Run-Knows :
    (r : Option Text) (s : Watch)
    → Run false false (started r) s
    → s.signal ≡ false
    → some_sending s.threads ≡ false
    → Knows s.row s.phase
Run-Knows r s run quiet sent =
    settled s.signal (some_sending s.threads) quiet sent (Run-Fresh run begun).known
  where
    begun : Fresh (started r)
    begun = record { ordered = tt; known = inl tt }

    settled :
        (a b : Bool)
        → a ≡ false
        → b ≡ false
        → Knows s.row s.phase ⊎ ((a || b) ≡ true)
        → Knows s.row s.phase
    settled a b ha hb (inl k) = k
    settled a b ha hb (inr k) = absurd (ground arith)

-- A cancelled schedule that is executed all the same: with a time in the row and the loop waiting
-- for it, there are steps without a failed query in which the cancellation is requested and
-- finishes, the row is gone, the channel is empty, and the loop still waits for the time, at which
-- it fires.
pub cancel_schedule_misses :
    (t : Text)
    → (s : Watch) × Run true false
        (record { row = some t; signal = false; phase = armed t; threads = [] })
        s
      × (s.row ≡ none)
      × (s.signal ≡ false)
      × (s.threads ≡ [] ∷ [])
      × (s.phase ≡ armed t)
      × Step true false s (record s { phase = fired })
cancel_schedule_misses t = (
  record { row = none; signal = false; phase = armed t; threads = [] ∷ [] },
  then_step
      (then_step
        (then_step
          (then_step (then_step rest (request_cancel refl refl))
            (sends [] [] (remove ∷ []) refl refl))
          (reset t refl refl refl))
        (read_row t refl refl refl))
      (removes [] [] [] refl refl),
  refl,
  refl,
  refl,
  refl,
  fire t refl refl,
)
