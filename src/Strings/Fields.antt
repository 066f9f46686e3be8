-- ===== src/Strings/Fields.antt =====
-- Laws of `Fields`: words behind single spaces are read back.
use srouter.Base.{List, [], ◌∷◌, ◌++◌, ◌≡◌, ◌≢◌, refl, Text, All, append_assoc, append-nil, ap, ◌∙◌}
use srouter.Strings.{fields_from, fields, trim_space}
use srouter.Strings.Trim.{Solid, Ends, Solid-Ends, append-Ends, trim_left-cons}

-- A word: solid and not empty.
abbrev pub IsWord : Text → Type 0
IsWord w = All Solid w × (w ≢ [])

-- each word behind a space
unfoldable pub spaced : List Text → Text
spaced [] = []
spaced (w ∷ ws) = b' ' ∷ (w ++ spaced ws)

fields_from-Solid :
    (w cur rest : Text) → All Solid w → fields_from cur (w ++ rest) ≡ fields_from (cur ++ w) rest
unfolding fields_from
fields_from-Solid [] cur rest _ = rw append-nil
fields_from-Solid (c ∷ w) cur rest (hc, hw) =
    rw (hc, fields_from) (fields_from-Solid w (cur ++ c ∷ []) rest hw ∙ rw append_assoc)

fields_from_space :
    (cur rest : Text) → cur ≢ [] → fields_from cur (b' ' ∷ rest) ≡ cur ∷ fields_from [] rest
unfolding fields_from
fields_from_space [] rest h = absurd (h refl)
fields_from_space (c ∷ cur) rest h = refl

fields_from_end : (cur : Text) → cur ≢ [] → fields_from cur [] ≡ cur ∷ []
unfolding fields_from
fields_from_end [] h = absurd (h refl)
fields_from_end (c ∷ cur) h = refl

fields_from-spaced :
    (cur : Text) (ws : List Text)
    → cur ≢ []
    → All IsWord ws
    → fields_from cur (spaced ws) ≡ cur ∷ ws
fields_from-spaced cur [] h _ = unfold spaced in fields_from_end cur h
fields_from-spaced cur (w ∷ ws) h (hw, hws) =
    spaced_cons cur w ws
    ∙ fields_from_space cur (w ++ spaced ws) h
    ∙ ap (λ t. cur ∷ t) (fields_from-Solid w [] (spaced ws) hw.0 ∙ fields_from-spaced w ws hw.1 hws)
  where
    spaced_cons :
        (cur w : Text) (ws : List Text)
        → fields_from cur (spaced (w ∷ ws)) ≡ fields_from cur (b' ' ∷ (w ++ spaced ws))
    spaced_cons cur w ws = unfold spaced in refl

-- The fields of a first word and of spaced words are those words.
pub fields-spaced :
    (w : Text) (ws : List Text) → IsWord w → All IsWord ws → fields (w ++ spaced ws) ≡ w ∷ ws
fields-spaced w ws hw hws =
    unfold fields in fields_from-Solid w [] (spaced ws) hw.0 ∙ fields_from-spaced w ws hw.1 hws

pub spaced-append : (us ws : List Text) → spaced (us ++ ws) ≡ spaced us ++ spaced ws
unfolding spaced
spaced-append [] ws = refl
spaced-append (u ∷ us) ws = rw (spaced-append us ws, append_assoc)

spaced-Ends : (w : Text) (ws : List Text) → IsWord w → All IsWord ws → Ends (w ++ spaced ws)
unfolding spaced
spaced-Ends w [] h _ = rw (append-nil w) (Solid-Ends w h.0 h.1)
spaced-Ends w (v ∷ ws) h (k, ks) =
    append-Ends w (b' ' ∷ (v ++ spaced ws))
      (append-Ends (b' ' ∷ []) (v ++ spaced ws) (spaced-Ends v ws k ks))

-- Words with single spaces between them have nothing to trim.
pub trim_space-spaced :
    (w : Text) (ws : List Text)
    → IsWord w
    → All IsWord ws
    → trim_space (w ++ spaced ws) ≡ w ++ spaced ws
trim_space-spaced [] ws h ks = absurd (h.1 refl)
trim_space-spaced (c ∷ w) ws h ks =
    unfold trim_space in
    rw ((spaced-Ends (c ∷ w) ws h ks).0) (trim_left-cons c (w ++ spaced ws) h.0.0)
