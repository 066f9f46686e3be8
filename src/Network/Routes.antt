-- ===== src/Network/Routes.antt =====
-- A route as `ip route show` prints it is read back.
use srouter.Base.{
  ℕ, ◌<◌, ◌^◌, ◌≢◌, Bool, true, false, ◌||◌, List, [], ◌∷◌, ◌++◌, ◌≡◌, refl, arith, some, Text,
  codes, text_eq, All,
}
use srouter.Strings.Trim.{is_solid, is_solid_sound}
use srouter.Strings.Fields.{IsWord, spaced, fields-spaced, trim_space-spaced}
use srouter.Numbers.{decimal, pos, int_value, parse_uint, bad_syntax}
use srouter.Numbers.Decimal.{parse_int-decimal, parse_uint-decimal}
use srouter.Validate.Runes.{All-imp, PortRune-Token, Token-Solid, parse_uint-PortRune}
use srouter.Network.{Route, route_word, route_words, route_of_fields, route_of_line}

-- a word that the loop looks for
unfoldable pub is_keyword : Text → Bool
is_keyword w = text_eq w (codes "via") || text_eq w (codes "dev") || text_eq w (codes "metric")

-- a word that can stand as a value
abbrev pub IsPlace : Text → Type 0
IsPlace w = IsWord w × (is_keyword w ≡ false)

route_word_other : (w next : Text) (r : Route) → is_keyword w ≡ false → route_word w next r ≡ r
unfolding route_word is_keyword
route_word_other w next r h = ground arith

-- the words behind the destination, for a gateway, an interface and a metric
abbrev pub route_text : Text → Text → ℕ → List Text
route_text gateway iface metric =
    codes "via" ∷ gateway ∷ codes "dev" ∷ iface ∷ codes "metric" ∷ decimal metric ∷ []

route_words-route_text :
    (g i : Text) (m : ℕ) (r : Route)
    → is_keyword g ≡ false
    → is_keyword i ≡ false
    → m < 2 ^ 63
    → route_words (route_text g i m) r ≡ record r { gateway = g; iface = i; metric = pos m }
unfolding route_words
route_words-route_text g i m r hg hi small =
    rw
      (
        route_word_other g (codes "dev") (route_word (codes "via") g r) hg,
        route_word_other i (codes "metric") _ hi,
      )
      (unfold route_word text_eq in rw (parse_int-decimal m small) (unfold int_value in refl))

decimal-ne-nil : (n : ℕ) → n < 2 ^ 63 → decimal n ≢ []
decimal-ne-nil n small e = cc (rw e at (parse_uint-decimal n (omega (arith, small))), empty)
  where
    empty : parse_uint [] ≡ bad_syntax
    empty = unfold parse_uint in refl

decimal-IsWord : (n : ℕ) → n < 2 ^ 63 → IsWord (decimal n)
decimal-IsWord n small = (
  All-imp (λ c h. Token-Solid c (PortRune-Token c h)) (decimal n)
      (parse_uint-PortRune n (decimal n) (parse_uint-decimal n (omega (arith, small)))),
  decimal-ne-nil n small,
)

keyword-IsWord : (w : Text) → is_solid w ≡ true → w ≢ [] → IsWord w
keyword-IsWord w h ne = (is_solid_sound w h, ne)

-- A line with a destination, a gateway, an interface and a metric, each behind one space, is read as
-- that route; no value may hold white space or be one of the words `via`, `dev` and `metric`.
pub route_of_line-route_text :
    (destination gateway iface : Text) (metric : ℕ)
    → IsWord destination
    → IsPlace gateway
    → IsPlace iface
    → metric < 2 ^ 63
    → route_of_line (destination ++ spaced (route_text gateway iface metric))
      ≡ some (record {
        destination = destination;
        gateway = gateway;
        iface = iface;
        metric = pos metric;
      })
route_of_line-route_text [] g i m hd hg hi small = absurd (hd.1 refl)
route_of_line-route_text (c ∷ d) g i m hd hg hi small =
    unfold route_of_line route_of_fields in
    rw
      (
        trim_space-spaced (c ∷ d) (route_text g i m) hd (words g i m hg hi small),
        fields-spaced (c ∷ d) (route_text g i m) hd (words g i m hg hi small),
        route_words-route_text g i m _ hg.1 hi.1 small,
      )
      (unfold text_eq in refl)
  where
    words :
        (g i : Text) (m : ℕ) → IsPlace g → IsPlace i → m < 2 ^ 63 → All IsWord (route_text g i m)
    words g i m hg hi small =
        unfold is_solid in
        (
          keyword-IsWord (codes "via") refl (λ e. cc e),
          (
            hg.0,
            (
              keyword-IsWord (codes "dev") refl (λ e. cc e),
              (
                hi.0,
                (keyword-IsWord (codes "metric") refl (λ e. cc e), (decimal-IsWord m small, tt)),
              ),
            ),
          ),
        )
