-- ===== src/Session.antt =====
-- internal/session/session.go, internal/middleware/auth.go and internal/handler/auth.go: sessions in
-- the table `sessions`, the check of the session cookie, login and logout. Times are Unix seconds.
pub mod Lifetime
use srouter.Base.{
  ℕ, ◌+◌, Bool, true, false, not, List, [], ◌∷◌, Option, none, some, if◌then◌else◌, Text, text_eq,
  codes, ltb, keep, ◌&&◌,
}

-- a row of the table `sessions`, and the Go type `Session`
pub record Session : Type 0 where
  pub id : Text
  pub username : Text
  pub expires_at : ℕ

-- The table, and whether the database answers: if not, each call is an error and changes nothing.
pub record Db : Type 0 where
  pub rows : List Session
  pub answers : Bool

-- `TTL`, in seconds
abbrev pub ttl : ℕ
ttl = 86400

unfoldable pub has_id : Text → List Session → Bool
has_id id [] = false
has_id id (s ∷ ss) = if text_eq s.id id then true else has_id id ss

-- `Create`; `id` is the new UUID. An id that is taken violates the primary key.
unfoldable pub create : Text → Text → ℕ → Db → Db × Option Session
unfolding has_id
create id username now db =
    if db.answers && not (has_id id db.rows)
    then (
      record db {
        rows = record { id = id; username = username; expires_at = now + ttl } ∷ db.rows;
      },
      some (record { id = id; username = username; expires_at = now + ttl }),
    )
    else (db, none)

-- what `Get` returns: a session, no such row, or an error
pub data Found : Type 0 where
  found : Session → Found
  missing failed : Found

unfoldable pub select : Text → ℕ → List Session → Found
select id now [] = missing
select id now (s ∷ ss) =
    let rest = select id now ss in if text_eq s.id id && ltb now s.expires_at then found s else rest

unfoldable pub get : Text → ℕ → Db → Found
unfolding select
get id now db = if db.answers then select id now db.rows else failed

-- `Delete`
unfoldable pub delete : Text → Db → Db × Bool
delete id db =
    if db.answers
    then (record db { rows = keep (λ s. not (text_eq s.id id)) db.rows }, true)
    else (db, false)

-- `Cleanup`
unfoldable pub cleanup : ℕ → Db → Db × Bool
cleanup now db =
    if db.answers
    then (record db { rows = keep (λ s. not (ltb s.expires_at now)) db.rows }, true)
    else (db, false)

-- what the middleware does with a request: the next handler with a session, or a redirect to /login
pub data Access : Type 0 where
  granted : Session → Access
  to_login : Access

unfoldable pub access_of : Found → Access
access_of (found s) = granted s
access_of missing = to_login
access_of failed = to_login

-- `RequireAuth`; the argument is the value of the session cookie, if the request has one
unfoldable pub require_auth : Option Text → ℕ → Db → Access
unfolding access_of get
require_auth none now db = to_login
require_auth (some id) now db = access_of (get id now db)

-- the answers of the login handler; `signed_in` sets the cookie and redirects to /dashboard
pub data LoginReply : Type 0 where
  username_required invalid_credentials internal_error : LoginReply
  signed_in : Session → LoginReply

unfoldable pub reply_of : Db × Option Session → Db × LoginReply
reply_of (db, none) = (db, internal_error)
reply_of (db, some s) = (db, signed_in s)

-- `handleLogin`; `authenticates` is the answer of PAM on a user name and a password
unfoldable pub handle_login :
    (Text → Text → Bool) → Bool → Text → Text → Text → ℕ → Db → Db × LoginReply
unfolding reply_of create
handle_login authenticates dev_mode username password id now db =
    if dev_mode
    then (if text_eq username []
        then (db, username_required)
        else reply_of (create id username now db))
    else if authenticates username password
    then reply_of (create id username now db)
    else (db, invalid_credentials)

-- `handleLogout`; the error of the deletion is ignored, and the cookie is taken away in any case
unfoldable pub handle_logout : Option Text → Db → Db
unfolding delete
handle_logout none db = db
handle_logout (some id) db = (delete id db).0
