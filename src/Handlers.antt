-- ===== src/Handlers.antt =====
-- internal/handler: what the handlers of forms answer, and how they go on behind an operation.
-- A form is the value of each of its fields, empty if the field is absent.
pub mod PortForwards
pub mod FirewallRules
pub mod DnsRecords
pub mod Reservations
pub mod EncryptedDns
use srouter.Base.{◌≡◌, ℕ, Bool, List, [], Text}
use srouter.World.{World, Result, ok, err, M}
use srouter.Validate.{Invalid}

-- What the text of an answer says.
pub data Message : Type 0 where
  required failed duplicate invalid_rule_name invalid_index saved applied : Message
  not_valid : Invalid → Message

pub data Reply {ℓ} (A : Type ℓ) : Type ℓ where
  -- `http.Error` with a status
  http_error : ℕ → Message → Reply A
  -- `writeJSON` of internal/handler/util.go
  json : Bool → Message → Reply A
  -- what is rendered
  page : A → Reply A

abbrev pub Form : Type 0
Form = Text → Text

abbrev pub Handler : Type 0 → Type 0
Handler A = World → World × Reply A

unfoldable pub go_on :
    {A B : Type 0} → Reply B → (A → Handler B) → World → Result A → World × Reply B
go_on bad good w (ok a) = good a w
go_on bad good w (err e) = (w, bad)

-- an operation, the answer to its error, and what follows its success
unfoldable pub attempt : {A B : Type 0} → M A → Reply B → (A → Handler B) → Handler B
unfolding go_on
attempt m bad good w = go_on bad good (m w).0 (m w).1

-- a list that is read without a look at the error
unfoldable pub items : {A : Type 0} → Result (List A) → List A
items (ok xs) = xs
items (err e) = []

abbrev pub reply : {A : Type 0} → Reply A → Handler A
reply r w = (w, r)

pub attempt-ok :
    {A B : Type 0} (m : M A) (bad : Reply B) (good : A → Handler B) {w v : World} {a : A}
    → m w ≡ (v, ok a)
    → attempt m bad good w ≡ good a v
unfolding attempt go_on
attempt-ok m bad good h = rw h
