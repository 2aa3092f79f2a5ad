-- ===== src/Tests/Ascii.antt =====
-- The Unicode parameter of the parsers, on ASCII text.
use Prim.Native.Char.{Char, code}
use market_replay.Prelude.{
  String, Bool, true, false, ◌&&◌, ◌||◌, ◌≡◌, refl, if◌then◌else◌, eqb, leb,
}
use market_replay.Parser.Text.{Unicode}

-- The letter that stands in `to` where `c` stands in `from`.
translate : String → String → Char → Char
translate String.[] to c = c
translate (String.◌∷◌ f from) String.[] c = c
translate (String.◌∷◌ f from) (String.◌∷◌ t to) c =
    if eqb (code f) (code c) then t else translate from to c

map_chars : (Char → Char) → String → String
map_chars f String.[] = String.[]
map_chars f (String.◌∷◌ c s) = String.◌∷◌ (f c) (map_chars f s)

is_blank : Char → Bool
is_blank c = eqb (code c) b' ' || (leb b'\t' (code c) && leb (code c) b'\r')

is_nil : String → Bool
is_nil String.[] = true
is_nil (String.◌∷◌ c s) = false

trim_left : String → String
trim_left String.[] = String.[]
trim_left (String.◌∷◌ c s) = if is_blank c then trim_left s else String.◌∷◌ c s

trim_right : String → String
trim_right String.[] = String.[]
trim_right (String.◌∷◌ c s) =
    let rest = trim_right s in if is_blank c && is_nil rest then String.[] else String.◌∷◌ c rest

abbrev lowers : String
lowers = "abcdefghijklmnopqrstuvwxyz"

abbrev uppers : String
uppers = "ABCDEFGHIJKLMNOPQRSTUVWXYZ"

unfoldable pub ascii : Unicode
unfolding translate map_chars trim_left trim_right is_blank is_nil
ascii = record {
  to_lower = map_chars (translate uppers lowers);
  to_upper = map_chars (translate lowers uppers);
  trim_space = λ s. trim_right (trim_left s);
}

ascii_tests :
    (ascii.to_upper "btcUsdt" ≡ "BTCUSDT")
    × (ascii.to_lower "AggTrade" ≡ "aggtrade")
    × (ascii.trim_space "  a b\t" ≡ "a b")
unfolding ascii
ascii_tests = (refl, refl, refl)
