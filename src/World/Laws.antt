-- ===== src/World/Laws.antt =====
-- Laws of the world: what is read behind a write, and what a write leaves alone.
use srouter.Base.{Bool, List, ◌++◌, ◌≡◌, Text, text_eq_refl}
use srouter.World.{World, ok, content, open_file, write_file, append_file, run, Editable, with_file}

-- Reading an editable file gives its content.
pub open_file-Editable :
    {w : World} {p s : Text} → Editable w p s → open_file p w ≡ (w, ok (content s))
unfolding open_file
open_file-Editable e = rw (e.present, e.can_read)

-- The world after a successful write.
abbrev pub written : World → Text → Text → World
written w p s = record w { files = with_file w.files p s }

pub write_file-Editable :
    {w : World} {p s : Text} (t : Text) → Editable w p s → write_file p t w ≡ (written w p t, ok tt)
unfolding write_file
write_file-Editable t e = rw e.can_write

pub append_file-Editable :
    {w : World} {p s : Text} (create : Bool) (t : Text)
    → Editable w p s
    → append_file create p t w ≡ (written w p (s ++ t), ok tt)
unfolding append_file
append_file-Editable create t e = rw (e.present, e.can_write)

pub written-Editable :
    {w : World} {p s : Text} (t : Text) → Editable w p s → Editable (written w p t) p t
written-Editable {p = p} t e = record {
  present = rw (text_eq_refl p);
  can_read = e.can_read;
  can_write = e.can_write;
}

-- A command changes nothing but the record of what ran.
pub run-Editable :
    {w : World} {p s : Text} (argv : List Text) → Editable w p s → Editable (run argv w).0 p s
unfolding run
run-Editable argv e = record { present = e.present; can_read = e.can_read; can_write = e.can_write }
