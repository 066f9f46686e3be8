-- ===== src/Wol/Packet.antt =====
-- A MAC that the form accepts can be sent to.
use srouter.Base.{
  ap, ℕ, zero, suc, ◌+◌, ◌-◌, ◌*◌, ◌/◌, ◌%◌, if◌then◌else◌, ltb, ◌<◌, Bool, true, ◌&&◌, List, [],
  ◌∷◌, ◌++◌, ◌≡◌, refl, ◌∙◌, arith, some, ◌==◌, Text, length, length-append, All,
}
use srouter.Strings.{byte_len, rune_len, to_lower, lower_rune}
use srouter.Validate.{is_hex, is_digit, mac_groups, mac_re, validate_mac}
use srouter.Wol.{strip_separators, decode_hex, put_byte, hex_value, copies, packet_of, magic_packet}

hex_kept : (c : ℕ) (s : Text) → is_hex c ≡ true → strip_separators (c ∷ s) ≡ c ∷ strip_separators s
unfolding strip_separators is_hex is_digit
hex_kept c s h = ground arith

hex_len : (c : ℕ) → is_hex c ≡ true → rune_len c ≡ 1
unfolding rune_len is_hex is_digit
hex_len c h = ground arith

hex_byte : (a b : ℕ) → is_hex a ≡ true → is_hex b ≡ true → hex_value a * 16 + hex_value b < 256
unfolding hex_value is_hex is_digit
hex_byte a b h k = ground arith

colon_dropped :
    (c : ℕ) (s : Text) → (c == b':') ≡ true → strip_separators (c ∷ s) ≡ strip_separators s
unfolding strip_separators
colon_dropped c s h = ground arith

abbrev pub hex_digit : ℕ → ℕ
hex_digit n = if ltb n 10 then b'0' + n else b'a' + (n - 10)

-- bytes as they are written in a MAC, two digits each, with colons between
abbrev pub mac_text : List ℕ → Text
mac_text [] = []
mac_text (b ∷ []) = hex_digit (b / 16) ∷ hex_digit (b % 16) ∷ []
mac_text (b ∷ c ∷ bs) = hex_digit (b / 16) ∷ hex_digit (b % 16) ∷ b':' ∷ mac_text (c ∷ bs)

hex_digit-high :
    (a b : ℕ)
    → is_hex a ≡ true
    → is_hex b ≡ true
    → hex_digit ((hex_value a * 16 + hex_value b) / 16) ≡ lower_rune (λ c. c) a
unfolding hex_value is_hex is_digit lower_rune
hex_digit-high a b h k = ground arith

hex_digit-low :
    (a b : ℕ)
    → is_hex a ≡ true
    → is_hex b ≡ true
    → hex_digit ((hex_value a * 16 + hex_value b) % 16) ≡ lower_rune (λ c. c) b
unfolding hex_value is_hex is_digit lower_rune
hex_digit-low a b h k = ground arith

-- What the stripped text of so many groups decodes to.
abbrev pub Decodes : ℕ → Text → Type 0
Decodes n s =
    (bytes : List ℕ) × (decode_hex (strip_separators s) ≡ some bytes)
    × (length bytes ≡ n)
    × All (λ b. b < 256) bytes
    × (byte_len (strip_separators s) ≡ 2 * n)
    × (mac_text bytes ≡ to_lower (λ c. c) s)

one_more :
    (n a b : ℕ) (s t : Text)
    → is_hex a ≡ true
    → is_hex b ≡ true
    → strip_separators t ≡ a ∷ b ∷ strip_separators s
    → ((bytes : List ℕ)
        → length bytes ≡ n
        → mac_text bytes ≡ to_lower (λ c. c) s
        → mac_text ((hex_value a * 16 + hex_value b) ∷ bytes) ≡ to_lower (λ c. c) t)
    → Decodes n s
    → Decodes (suc n) t
unfolding decode_hex put_byte byte_len
one_more n a b s t ha hb e text (bytes, k, len, small, width, same) = (
  (hex_value a * 16 + hex_value b) ∷ bytes,
  rw (e, ha, hb, k),
  omega (arith, len),
  (hex_byte a b ha hb, small),
  rw (e, hex_len a ha, hex_len b hb) (omega (arith, width)),
  text bytes len same,
)

last_text :
    (a b : ℕ)
    → is_hex a ≡ true
    → is_hex b ≡ true
    → (bytes : List ℕ) → length bytes ≡ 0
    → mac_text ((hex_value a * 16 + hex_value b) ∷ bytes) ≡ to_lower (λ c. c) (a ∷ b ∷ [])
unfolding to_lower
last_text a b ha hb [] len = rw (hex_digit-high a b ha hb, hex_digit-low a b ha hb) refl
last_text a b ha hb (x ∷ bytes) len = absurd (omega (arith, len))

group_text :
    (n a b c : ℕ) (s : Text)
    → is_hex a ≡ true
    → is_hex b ≡ true
    → (c == b':') ≡ true
    → (bytes : List ℕ) → length bytes ≡ suc n
    → mac_text bytes ≡ to_lower (λ c. c) s
    → mac_text ((hex_value a * 16 + hex_value b) ∷ bytes) ≡ to_lower (λ c. c) (a ∷ b ∷ c ∷ s)
unfolding to_lower
group_text n a b c s ha hb hc [] len same = absurd (omega (arith, len))
group_text n a b c s ha hb hc (x ∷ bytes) len same =
    rw (hex_digit-high a b ha hb, hex_digit-low a b ha hb, same, colon_itself c hc) refl
  where
    colon_itself : (c : ℕ) → (c == b':') ≡ true → lower_rune (λ d. d) c ≡ b':'
    colon_itself c hc = unfold lower_rune in ground arith

pair_stripped :
    (a b : ℕ) (s : Text)
    → is_hex a ≡ true
    → is_hex b ≡ true
    → strip_separators (a ∷ b ∷ s) ≡ a ∷ b ∷ strip_separators s
pair_stripped a b s ha hb = hex_kept a (b ∷ s) ha ∙ ap (λ t. a ∷ t) (hex_kept b s hb)

nothing-Decodes : Decodes 0 []
unfolding strip_separators decode_hex byte_len to_lower
nothing-Decodes = ([], refl, refl, tt, omega arith, refl)

groups-Decodes : (n : ℕ) (s : Text) → mac_groups n s ≡ true → Decodes (suc n) s
unfolding mac_groups
groups-Decodes zero [] h = absurd (cc h)
groups-Decodes zero (a ∷ []) h = absurd (cc h)
groups-Decodes zero (a ∷ b ∷ []) h =
    let (ha, hb) = both h in
    one_more 0 a b [] (a ∷ b ∷ []) ha hb (pair_stripped a b [] ha hb)
      (λ bytes len same. last_text a b ha hb bytes len) nothing-Decodes
  where
    both : {x y : Bool} → (x && y) ≡ true → (x ≡ true) × (y ≡ true)
    both k = ground arith
groups-Decodes zero (a ∷ b ∷ c ∷ s) h = absurd (cc h)
groups-Decodes (suc n) [] h = absurd (cc h)
groups-Decodes (suc n) (a ∷ []) h = absurd (cc h)
groups-Decodes (suc n) (a ∷ b ∷ []) h = absurd (cc h)
groups-Decodes (suc n) (a ∷ b ∷ c ∷ s) h =
    let (ha, hb, hc, hs) = four h in
    one_more (suc n) a b s (a ∷ b ∷ c ∷ s) ha hb
      (pair_stripped a b (c ∷ s) ha hb ∙ ap (λ t. a ∷ b ∷ t) (colon_dropped c s hc))
      (group_text n a b c s ha hb hc) (groups-Decodes n s hs)
  where
    four :
        {x y z v : Bool}
        → (x && y && z && v) ≡ true
        → (x ≡ true) × (y ≡ true) × (z ≡ true) × (v ≡ true)
    four k = ground arith

length-copies : (n : ℕ) (bytes : List ℕ) → length (copies n bytes) ≡ n * length bytes
unfolding copies
length-copies zero bytes = omega arith
length-copies (suc n) bytes =
    length-append bytes (copies n bytes) ∙ rw (length-copies n bytes) (times n (length bytes))
  where
    times : (n m : ℕ) → m + n * m ≡ suc n * m
    times n m = grind arith

-- For every MAC that the form accepts there is a packet: six bytes 255 and sixteen times the six
-- bytes of the address, which are written in hexadecimal in the MAC, in upper or lower case; 102
-- bytes in all.
pub magic_packet-validate_mac :
    (mac : Text)
    → validate_mac mac ≡ true
    → (bytes : List ℕ) × (packet : List ℕ) × (length bytes ≡ 6)
      × All (λ b. b < 256) bytes
      × (mac_text bytes ≡ to_lower (λ c. c) mac)
      × (magic_packet mac ≡ some packet)
      × (packet ≡ copies 6 (0xff ∷ []) ++ copies 16 bytes)
      × (length packet ≡ 102)
unfolding validate_mac mac_re magic_packet
magic_packet-validate_mac mac h =
    let (bytes, k, len, small, width, same) = groups-Decodes 5 mac h in
    (
      bytes,
      copies 6 (0xff ∷ []) ++ copies 16 bytes,
      len,
      small,
      same,
      rw (width, k) (unfold packet_of in refl),
      refl,
      omega (
        arith,
        len,
        length-append (copies 6 (0xff ∷ [])) (copies 16 bytes),
        length-copies 16 bytes,
        length-copies 6 (0xff ∷ []),
      ),
    )
