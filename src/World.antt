-- ===== src/World.antt =====
-- What the program touches outside itself: the files that it reads and writes by path, and the
-- commands that it runs. An operation takes the world and gives back a world and a result.
-- A write is all or nothing, and the commands leave the files as they are.
pub mod Laws
use srouter.Base.{
  ℕ, Bool, true, false, List, [], ◌∷◌, ◌++◌, ◌≡◌, Option, none, some, if◌then◌else◌, Text, text_eq,
}

-- The `error` values that the operations return, by where they come from.
pub data Fault : Type 0 where
  open_failed write_failed command_failed query_failed invalid_rule invalid_name invalid_url : Fault

pub data Result {ℓ} (A : Type ℓ) : Type ℓ where
  ok : A → Result A
  err : Fault → Result A

pub record World : Type 0 where
  -- the content of a path, if there is a file
  pub files : Text → Option Text
  pub readable : Text → Bool
  pub writable : Text → Bool
  -- whether a command succeeds, given the commands that ran before it
  pub succeeds : List (List Text) → List Text → Bool
  pub ran : List (List Text)
  -- whether a directory is there or can be made
  pub makes_dir : Text → Bool

abbrev pub M : Type 0 → Type 0
M A = World → World × Result A

abbrev pub pure : {A : Type 0} → A → M A
pure a w = (w, ok a)

abbrev pub fail : {A : Type 0} → Fault → M A
fail e w = (w, err e)

abbrev pub resume : {A B : Type 0} → (A → M B) → World → Result A → World × Result B
resume f w (ok a) = f a w
resume f w (err e) = (w, err e)

infixl 5 ◌>>=◌ ◌>>◌
abbrev pub ◌>>=◌ : {A B : Type 0} → M A → (A → M B) → M B
◌>>=◌ m f w = resume f (m w).0 (m w).1

abbrev pub ◌>>◌ : {B : Type 0} → M (Unit {0}) → M B → M B
m >> k = m >>= λ _. k

-- What `os.Open` or `os.ReadFile` gives: `absent` is the error of `os.IsNotExist`.
pub data Reading : Type 0 where
  absent denied : Reading
  content : Text → Reading

unfoldable pub reading : Bool → Option Text → Reading
reading r none = absent
reading true (some s) = content s
reading false (some s) = denied

unfoldable pub open_file : Text → M Reading
unfolding reading
open_file p w = (w, ok (reading (w.readable p) (w.files p)))

-- with every failure an error
unfoldable pub opened : Reading → M Text
opened (content s) = pure s
opened absent = fail open_failed
opened denied = fail open_failed

-- with an absent file read as `instead`
unfoldable pub opened_or : {A : Type 0} → A → (Text → A) → Reading → M A
opened_or instead f (content s) = pure (f s)
opened_or instead f absent = pure instead
opened_or instead f denied = fail open_failed

abbrev pub with_file : (Text → Option Text) → Text → Text → Text → Option Text
with_file files p s q = if text_eq p q then some s else files q

-- `os.WriteFile`
unfoldable pub write_file : Text → Text → M (Unit {0})
write_file p s w =
    if w.writable p
    then (record w { files = with_file w.files p s }, ok tt)
    else (w, err write_failed)

unfoldable pub extended : Bool → Text → Option Text → Option Text
extended create s none = if create then some s else none
extended create s (some old) = some (old ++ s)

unfoldable pub store : Text → Option Text → M (Unit {0})
store p none w = (w, err open_failed)
store p (some s) w =
    if w.writable p
    then (record w { files = with_file w.files p s }, ok tt)
    else (w, err open_failed)

-- `os.OpenFile` with `O_APPEND`, and with `O_CREATE` if the first argument says so, and one write
unfoldable pub append_file : Bool → Text → Text → M (Unit {0})
unfolding extended store
append_file create p s w = store p (extended create s (w.files p)) w

-- `exec.Command(…).Run()`
unfoldable pub run : List Text → M (Unit {0})
run argv w = (
  record w { ran = w.ran ++ argv ∷ [] },
  if w.succeeds w.ran argv then ok tt else err command_failed,
)

-- A file that can be read and written, with its content.
pub record Editable (w : World) (p s : Text) : Type 0 where
  pub present : w.files p ≡ some s
  pub can_read : w.readable p ≡ true
  pub can_write : w.writable p ≡ true

-- `os.MkdirAll`
unfoldable pub mkdir_all : Text → M (Unit {0})
mkdir_all p w = (w, if w.makes_dir p then ok tt else err write_failed)
