-- ===== src/Parser/Text.antt =====
-- The parts of Go's `strings` and `strconv` that the parsers call. Case mapping and white space
-- follow the Unicode tables, which are a parameter; `ParseInt` and `ParseBool` are written out.
use Prim.Native.Char.{code}
use market_replay.Prelude.{
  ℕ, ◌+◌, ◌-◌, ◌*◌, ◌^◌, String, Bool, true, false, ◌||◌, List, [], ◌∷◌, Option, none, some, ◌≡◌,
  refl, arith, if◌then◌else◌, ◌==◌, ltb, leb, eqb,
}
use market_replay.Prelude.Int.{ℤ, pos, negsuc, IsInt64, sub_ℕ}
use market_replay.Prelude.Result.{Result, ok, err, ◌>>=◌}
use market_replay.Error.{NumError, syntax, range}

-- `strings.ToLower`, `strings.ToUpper`, `strings.TrimSpace`.
pub record Unicode : Type 0 where
  pub to_lower : String → String
  pub to_upper : String → String
  pub trim_space : String → String

-- The code points of a text: its bytes, where it is ASCII.
abbrev pub codes : String → List ℕ
codes String.[] = []
codes (String.◌∷◌ c s) = code c ∷ codes s

-- The loop of `strconv.ParseUint(s, 10, 64)`: a value that passes 2 ^ 64 is a range error at once.
unfoldable pub scan_digits : ℕ → List ℕ → Result NumError ℕ
scan_digits n [] = ok n
scan_digits n (c ∷ cs) =
    let d = c - b'0' in
    let rest = scan_digits (n * 10 + d) cs in
    if ltb c b'0' || ltb b'9' c
    then err syntax
    else if leb (2 ^ 64) (n * 10 + d)
    then err range
    else rest

unfoldable pub parse_uint : List ℕ → Result NumError ℕ
unfolding scan_digits
parse_uint [] = err syntax
parse_uint (c ∷ cs) = scan_digits 0 (c ∷ cs)

unfoldable pub signed_value : Bool → ℕ → Result NumError ℤ
signed_value true n = if ltb (2 ^ 63) n then err range else ok (sub_ℕ 0 n)
signed_value false n = if leb (2 ^ 63) n then err range else ok (pos n)

-- `strconv.ParseInt(s, 10, 64)`
unfoldable pub parse_int_codes : List ℕ → Result NumError ℤ
unfolding parse_uint signed_value
parse_int_codes [] = err syntax
parse_int_codes (c ∷ cs) =
    if eqb c b'-'
    then parse_uint cs >>= signed_value true
    else if eqb c b'+'
    then parse_uint cs >>= signed_value false
    else parse_uint (c ∷ cs) >>= signed_value false

unfoldable pub parse_int : String → Result NumError ℤ
unfolding parse_int_codes
parse_int s = parse_int_codes (codes s)

-- `strconv.ParseBool`
unfoldable pub parse_bool : String → Option Bool
parse_bool s =
    if s == "1" || s == "t" || s == "T" || s == "true" || s == "TRUE" || s == "True"
    then some true
    else if s == "0" || s == "f" || s == "F" || s == "false" || s == "FALSE" || s == "False"
    then some false
    else none

signed_value-IsInt64 : (b : Bool) (n : ℕ) {z : ℤ} → signed_value b n ≡ ok z → IsInt64 z
unfolding signed_value
signed_value-IsInt64 true n h = ground arith
signed_value-IsInt64 false n h = ground arith

signed-IsInt64 :
    (b : Bool) (m : Result NumError ℕ) {z : ℤ} → m >>= signed_value b ≡ ok z → IsInt64 z
signed-IsInt64 b (ok n) h = signed_value-IsInt64 b n h
signed-IsInt64 b (err e) h = cc

parse_int_codes-IsInt64 : (cs : List ℕ) {z : ℤ} → parse_int_codes cs ≡ ok z → IsInt64 z
unfolding parse_int_codes
parse_int_codes-IsInt64 [] h = cc
parse_int_codes-IsInt64 (c ∷ cs) h = ground (
  arith,
  signed-IsInt64 true (parse_uint cs),
  signed-IsInt64 false (parse_uint cs),
  signed-IsInt64 false (parse_uint (c ∷ cs)),
)

-- What `ParseInt` returns fits an int64.
pub parse_int-IsInt64 : (s : String) {z : ℤ} → parse_int s ≡ ok z → IsInt64 z
unfolding parse_int
parse_int-IsInt64 s = parse_int_codes-IsInt64 (codes s)

parse_int_tests :
    (parse_int "-9223372036854775808" ≡ ok (negsuc (2 ^ 63 - 1)))
    × (parse_int "9223372036854775808" ≡ err range)
    × (parse_int "+17" ≡ ok (pos 17))
    × (parse_int "1_0" ≡ err syntax)
    × (parse_int "" ≡ err syntax)
unfolding parse_int
parse_int_tests = (refl, refl, refl, refl, refl)
