-- ===== src/Origin.antt =====
-- internal/middleware/csrf.go: the check of the Origin header of requests that change state.
pub mod Sound
use srouter.Base.{
  Bool, true, false, not, List, [], ◌∷◌, ◌++◌, if◌then◌else◌, Text, codes, text_eq, ◌||◌, ◌&&◌,
}

-- What the check reads of a request; a missing header is empty.
pub record Request : Type 0 where
  pub method : Text
  pub origin : Text
  pub tls : Bool
  pub forwarded_proto : Text
  pub host : Text

unfoldable pub changes_state : Text → Bool
changes_state method =
    text_eq method (codes "POST")
    || text_eq method (codes "PUT")
    || text_eq method (codes "DELETE")
    || text_eq method (codes "PATCH")

unfoldable pub scheme : Request → Text
scheme r =
    if r.tls || text_eq r.forwarded_proto (codes "https") then codes "https" else codes "http"

-- what the middleware does: the next handler runs, or status 403
pub data Answer : Type 0 where
  passed forbidden : Answer

unfoldable pub require_local_origin : Request → Answer
unfolding changes_state scheme
require_local_origin r =
    if changes_state r.method
    then if not (text_eq r.origin []) && not (text_eq r.origin (codes "null"))
      then if not (text_eq r.origin (scheme r ++ (codes "://" ++ r.host)))
        then forbidden
        else passed
      else passed
    else passed
