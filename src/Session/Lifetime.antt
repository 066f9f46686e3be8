-- ===== src/Session/Lifetime.antt =====
-- From login to logout or expiry: when the session check lets a request through.
use srouter.Base.{
  ℕ, ◌+◌, ◌≤◌, ◌<◌, Bool, true, false, not, List, [], ◌∷◌, ◌≡◌, refl, ap, sym, arith, Option, none,
  some, if◌then◌else◌, Text, text_eq, text_eq_refl, text_eq_iff, ltb, keep, Bool-cases, inl, inr,
  ◌&&◌,
}
use mathlib.Core.List.{Memᴰ}
use srouter.Session.{
  Session, Db, ttl, has_id, found, missing, select, cleanup, granted, to_login, require_auth,
  signed_in, handle_login, handle_logout,
}

has_id-select :
    (id : Text) (now : ℕ) (ss : List Session) → has_id id ss ≡ false → select id now ss ≡ missing
unfolding has_id select
has_id-select id now [] h = refl
has_id-select id now (s ∷ ss) h = ground (arith, has_id-select id now ss)

-- the session that a login opens
abbrev opened : Text → Text → ℕ → Session
opened id username now = record { id = id; username = username; expires_at = now + ttl }

signed_in-injective : (s t : Session) → signed_in s ≡ signed_in t → s ≡ t
signed_in-injective s t h = cc h

login_opens :
    (authenticates : Text → Text → Bool) (dev_mode : Bool) (username password id : Text)
    (now later : ℕ) (db : Db) {s : Session}
    → (handle_login authenticates dev_mode username password id now db).1 ≡ signed_in s
    → (s ≡ opened id username now)
      × (require_auth
            (some id)
            later
            (handle_login authenticates dev_mode username password id now db).0
          ≡ (if ltb later (now + ttl) then granted (opened id username now) else to_login))
unfolding handle_login require_auth
login_opens authenticates dev_mode username password id now later db {s} h = ground (
  arith,
  has_id-select id later db.rows,
  text_eq_refl id,
  signed_in-injective s (opened id username now),
)

-- A login that succeeds opens a session of the new id for the user, that ends a day later, and sets
-- its id as the cookie: until it ends the check lets a request with that cookie through with that
-- session, and from then on it sends the request to /login.
pub require_auth-handle_login :
    (authenticates : Text → Text → Bool) (dev_mode : Bool) (username password id : Text)
    (now later : ℕ) (db : Db) {s : Session}
    → (handle_login authenticates dev_mode username password id now db).1 ≡ signed_in s
    → (require_auth
          (some s.id)
          later
          (handle_login authenticates dev_mode username password id now db).0
        ≡ (if ltb later s.expires_at then granted s else to_login))
      × (s ≡ record { id = id; username = username; expires_at = now + 86400 })
require_auth-handle_login authenticates dev_mode username password id now later db {s} h =
    let (same, kept) = login_opens authenticates dev_mode username password id now later db h in
    (rw same kept, same)

select-keep_id :
    (id : Text) (now : ℕ) (ss : List Session)
    → select id now (keep (λ s. not (text_eq s.id id)) ss) ≡ missing
unfolding select keep
select-keep_id id now [] = refl
select-keep_id id now (s ∷ ss) = ground (arith, select-keep_id id now ss)

select-keep_other :
    (id other : Text) (now : ℕ) (ss : List Session)
    → text_eq other id ≡ false
    → select other now (keep (λ s. not (text_eq s.id id)) ss) ≡ select other now ss
unfolding select keep
select-keep_other id other now [] h = refl
select-keep_other id other now (s ∷ ss) h = ground (
  arith,
  text_eq_iff s.id id,
  text_eq_iff s.id other,
  text_eq_iff other id,
  select-keep_other id other now ss,
)

-- After a logout, where the database answers, the check sends every request with that cookie to
-- /login, at any time, and lets through every other cookie as before.
pub require_auth-handle_logout :
    (id other : Text) (now : ℕ) (db : Db)
    → db.answers ≡ true
    → text_eq other id ≡ false
    → (require_auth (some id) now (handle_logout (some id) db) ≡ to_login)
      × (require_auth (some other) now (handle_logout (some id) db)
          ≡ require_auth (some other) now db)
unfolding require_auth handle_logout
require_auth-handle_logout id other now db up h =
    (rw (up, select-keep_id id now db.rows), rw (up, select-keep_other id other now db.rows h))

select-keep_later :
    (id : Text) (now later : ℕ) (ss : List Session)
    → now ≤ later
    → select id later (keep (λ s. not (ltb s.expires_at now)) ss) ≡ select id later ss
unfolding select keep
select-keep_later id now later [] h = refl
select-keep_later id now later (s ∷ ss) h = ground (arith, select-keep_later id now later ss h)

-- A cleanup takes away no session that the check would still accept: then and later it decides
-- every cookie as it would without the cleanup.
pub require_auth-cleanup :
    (cookie : Option Text) (now later : ℕ) (db : Db)
    → now ≤ later
    → require_auth cookie later (cleanup now db).0 ≡ require_auth cookie later db
unfolding require_auth cleanup
require_auth-cleanup none now later db h = refl
require_auth-cleanup (some id) now later db h =
    ground (arith, select-keep_later id now later db.rows)

found-injective : (s t : Session) → found s ≡ found t → s ≡ t
found-injective s t h = cc h

select_sound :
    (id : Text) (now : ℕ) (ss : List Session) (s : Session)
    → select id now ss ≡ found s
    → Memᴰ s ss × (s.id ≡ id) × (now < s.expires_at)
unfolding select
select_sound id now [] s h = absurd (cc h)
select_sound id now (x ∷ ss) s h = elim (Bool-cases (text_eq x.id id && ltb now x.expires_at)) [
  | inl e ↦
      let same = found-injective x s (rw e at h) in
      let (i, live) = rw same at (row x e) in (Memᴰ.head (sym same), i, live)
  | inr e ↦ let (m, i, live) = select_sound id now ss s (rw e at h) in (Memᴰ.tail m, i, live)
]
  where
    row :
        (x : Session)
        → (text_eq x.id id && ltb now x.expires_at) ≡ true
        → (x.id ≡ id) × (now < x.expires_at)
    row x e = ground (arith, text_eq_iff x.id id)

-- Whoever the check lets through has a cookie, and its session is a row of the table of that id,
-- with user and expiry as they stand there, that has not expired; and the database answered.
pub require_auth_sound :
    (cookie : Option Text) (now : ℕ) (db : Db) (s : Session)
    → require_auth cookie now db ≡ granted s
    → (cookie ≡ some s.id) × Memᴰ s db.rows × (now < s.expires_at) × (db.answers ≡ true)
require_auth_sound none now db s h = unfold require_auth in cc
require_auth_sound (some id) now db s h = from_select id now db s (answered id now db s h)
  where
    answered :
        (id : Text) (now : ℕ) (db : Db) (s : Session)
        → require_auth (some id) now db ≡ granted s
        → (db.answers ≡ true) × (select id now db.rows ≡ found s)
    answered id now db s h = unfold require_auth in ground arith

    from_select :
        (id : Text) (now : ℕ) (db : Db) (s : Session)
        → (db.answers ≡ true) × (select id now db.rows ≡ found s)
        → (some id ≡ some s.id) × Memᴰ s db.rows × (now < s.expires_at) × (db.answers ≡ true)
    from_select id now db s (up, h) =
        let (row, same, live) = select_sound id now db.rows s h in
        (ap some (sym same), row, live, up)
