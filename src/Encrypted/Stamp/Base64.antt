-- ===== src/Encrypted/Stamp/Base64.antt =====
-- Base64 in the URL alphabet, decoded.
use srouter.Base.{
  ℕ, ◌+◌, ◌-◌, ◌*◌, ◌/◌, ◌%◌, ◌<◌, List, [], ◌∷◌, ◌≡◌, refl, arith, if◌then◌else◌, Text, ltb, ◌==◌,
  All,
}
use srouter.Encrypted.Stamp.{symbol, raw_url_encoding}

-- the number of a symbol
unfoldable pub number : ℕ → ℕ
number c =
    if c == b'-'
    then 62
    else if c == b'_'
    then 63
    else if ltb c b'A'
    then c - b'0' + 52
    else if ltb c b'a'
    then c - b'A'
    else c - b'a' + 26

unfoldable pub decode : Text → List ℕ
unfolding number
decode (p ∷ q ∷ r ∷ s ∷ rest) =
    (number p * 4 + number q / 16)
    ∷ (number q % 16 * 16 + number r / 4)
    ∷ (number r % 4 * 64 + number s)
    ∷ decode rest
decode (p ∷ q ∷ r ∷ []) = (number p * 4 + number q / 16) ∷ (number q % 16 * 16 + number r / 4) ∷ []
decode (p ∷ q ∷ []) = (number p * 4 + number q / 16) ∷ []
decode _ = []

number-symbol : (n : ℕ) → n < 64 → number (symbol n) ≡ n
unfolding number symbol
number-symbol n h = ground arith

one_byte : (a : ℕ) → a / 4 * 4 + a % 4 * 16 / 16 ≡ a
one_byte a = omega arith

first_byte : (a b : ℕ) → b < 256 → a / 4 * 4 + (a % 4 * 16 + b / 16) / 16 ≡ a
first_byte a b h = omega arith

last_byte : (a b : ℕ) → b < 256 → (a % 4 * 16 + b / 16) % 16 * 16 + b % 16 * 4 / 4 ≡ b
last_byte a b h = omega arith

second_byte :
    (a b c : ℕ)
    → b < 256
    → c < 256
    → (a % 4 * 16 + b / 16) % 16 * 16 + (b % 16 * 4 + c / 64) / 4 ≡ b
second_byte a b c hb hc = omega arith

third_byte : (b c : ℕ) → c < 256 → (b % 16 * 4 + c / 64) % 4 * 64 + c % 64 ≡ c
third_byte b c h = omega arith

pub decode-raw_url_encoding :
    (bytes : List ℕ) → All (λ b. b < 256) bytes → decode (raw_url_encoding bytes) ≡ bytes
unfolding decode raw_url_encoding
decode-raw_url_encoding [] _ = refl
decode-raw_url_encoding (a ∷ []) (ha, _) =
    rw (number-symbol (a / 4) (omega arith), number-symbol (a % 4 * 16) (omega arith))
      (rw (one_byte a) refl)
decode-raw_url_encoding (a ∷ b ∷ []) (ha, (hb, _)) =
    rw
      (
        number-symbol (a / 4) (omega arith),
        number-symbol (a % 4 * 16 + b / 16) (omega arith),
        number-symbol (b % 16 * 4) (omega arith),
      )
      (rw (first_byte a b hb, last_byte a b hb) refl)
decode-raw_url_encoding (a ∷ b ∷ c ∷ bytes) (ha, (hb, (hc, hs))) =
    rw
      (
        number-symbol (a / 4) (omega arith),
        number-symbol (a % 4 * 16 + b / 16) (omega arith),
        number-symbol (b % 16 * 4 + c / 64) (omega arith),
        number-symbol (c % 64) (omega arith),
        decode-raw_url_encoding bytes hs,
      )
      (rw (first_byte a b hb, second_byte a b c hb hc, third_byte b c hc) refl)
