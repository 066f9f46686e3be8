-- ===== src/Tests/Worlds.antt =====
-- A world with one file, for the tests.
use srouter.Base.{true, refl, none, some, if◌then◌else◌, Text, text_eq, text_eq_refl, []}
use srouter.World.{World, Editable}

abbrev pub world_with : Text → Text → World
world_with p s = record {
  files = λ q. if text_eq p q then some s else none;
  readable = λ q. true;
  writable = λ q. true;
  succeeds = λ before argv. true;
  ran = [];
  makes_dir = λ q. true;
}

pub world_with-Editable : (p s : Text) → Editable (world_with p s) p s
world_with-Editable p s = record {
  present = rw (text_eq_refl p);
  can_read = refl;
  can_write = refl;
}
