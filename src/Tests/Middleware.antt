-- ===== src/Tests/Middleware.antt =====
-- internal/middleware and internal/session, on small inputs.
use srouter.Base.{
  ◌+◌, ◌-◌, ◌<◌, Bool, true, false, List, [], ◌∷◌, ◌≡◌, refl, arith, some, if◌then◌else◌, Text,
  codes, text_eq, ltb,
}
use srouter.RateLimit.{Limiter, Arrival, requests, admitted, allow, limited, too_many_requests}
use srouter.RateLimit.Quota.{admitted_in_window}
use srouter.Maps.{lookup, insert}
use Prim.Native.Nat.{min}
use mathlib.Core.List.{Memᴰ}
use srouter.Session.{
  Session, Db, require_auth, granted, to_login, handle_login, handle_logout, select, has_id,
}
use srouter.Origin.{Request, require_local_origin}
use srouter.Origin.Sound.{own_scheme, require_local_origin_sound}
use srouter.Session.Lifetime.{
  require_auth-handle_login, require_auth-handle_logout, require_auth_sound,
}

abbrev lan : Text
lan = codes "192.168.1.10"

abbrev wan : Text
wan = codes "203.0.113.9"

abbrev burst : List Arrival
burst =
    record { time = 101; ip = lan }
    ∷ record { time = 105; ip = wan }
    ∷ record { time = 105; ip = lan }
    ∷ record { time = 160; ip = lan }
    ∷ []

abbrev two_a_minute : Limiter
two_a_minute = record { limit = 2; window = 60; buckets = [] }

admitted_in_window_example :
    admitted lan (record { time = 100; ip = lan } ∷ burst) two_a_minute
    ≡ 1 + min (requests lan burst) (2 - 1)
unfolding lookup
admitted_in_window_example =
    admitted_in_window 100 lan burst two_a_minute tt
      (omega arith, (omega arith, (omega arith, (omega arith, tt))))

burst_run : admitted lan (record { time = 100; ip = lan } ∷ burst) two_a_minute ≡ 2
unfolding admitted text_eq allow lookup insert
burst_run = refl

limited_again :
    (limited
      (λ a. some a)
      1
      lan
      (record { limit = 0; window = 60; buckets = (lan, record { count = 1; reset = 9 }) ∷ [] })).1
    ≡ too_many_requests
unfolding limited text_eq allow lookup
limited_again = refl

abbrev admin : Session
admin = record { id = codes "1f"; username = codes "root"; expires_at = 86500 }

abbrev table : Db
table = record { rows = admin ∷ []; answers = true }

abbrev empty_table : Db
empty_table = record { rows = []; answers = true }

abbrev pam : Text → Text → Bool
pam user password = text_eq password (codes "secret")

require_auth-handle_login_example :
    (require_auth
        (some admin.id)
        500
        (handle_login pam false (codes "root") (codes "secret") (codes "1f") 100 empty_table).0
      ≡ (if ltb 500 admin.expires_at then granted admin else to_login))
    × (admin ≡ record { id = codes "1f"; username = codes "root"; expires_at = 100 + 86400 })
unfolding handle_login text_eq has_id
require_auth-handle_login_example =
    require_auth-handle_login pam false (codes "root") (codes "secret") (codes "1f") 100 500
      empty_table {s = admin} refl

require_auth-handle_logout_example :
    (require_auth (some (codes "1f")) 200 (handle_logout (some (codes "1f")) table) ≡ to_login)
    × (require_auth (some (codes "2e")) 200 (handle_logout (some (codes "1f")) table)
        ≡ require_auth (some (codes "2e")) 200 table)
unfolding text_eq
require_auth-handle_logout_example =
    require_auth-handle_logout (codes "1f") (codes "2e") 200 table refl refl

require_auth_sound_example :
    (some (codes "1f") ≡ some admin.id)
    × Memᴰ admin table.rows
    × (200 < admin.expires_at)
    × (table.answers ≡ true)
unfolding require_auth text_eq select
require_auth_sound_example = require_auth_sound (some (codes "1f")) 200 table admin refl

abbrev save_request : Request
save_request = record {
  method = codes "POST";
  origin = codes "https://router.lan";
  tls = true;
  forwarded_proto = [];
  host = codes "router.lan";
}

require_local_origin_sound_example :
    (codes "https" ≡ own_scheme save_request) × (codes "router.lan" ≡ save_request.host)
unfolding require_local_origin text_eq
require_local_origin_sound_example =
    require_local_origin_sound save_request (codes "https") (codes "router.lan") refl
      (Memᴰ.head refl) refl (omega arith)
