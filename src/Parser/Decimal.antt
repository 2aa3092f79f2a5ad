-- ===== src/Parser/Decimal.antt =====
-- `strconv.FormatInt` in base 10, and that `ParseInt` reads it back.
use Prim.Native.Char.{Char, code}
use market_replay.Prelude.{
  false, ℕ, zero, suc, ◌+◌, ◌-◌, ◌*◌, ◌/◌, ◌%◌, ◌^◌, ◌<◌, String, List, ◌∷◌, ◌≡◌, refl, sym, ap,
  ◌∙◌, arith, if◌then◌else◌, ltb, subst, Bool-cases, inl, inr,
}
use market_replay.Prelude.Int.{ℤ, pos, negsuc, IsInt64}
use market_replay.Prelude.Result.{ok, ◌>>=◌}
use native.Mathlib.Omega.{pow_step}
use market_replay.Parser.Text.{
  codes, scan_digits, parse_uint, signed_value, parse_int_codes, parse_int,
}

unfoldable pub digit : ℕ → Char
digit zero = "0"
digit (suc zero) = "1"
digit (suc (suc zero)) = "2"
digit (suc (suc (suc zero))) = "3"
digit (suc (suc (suc (suc zero)))) = "4"
digit (suc (suc (suc (suc (suc zero))))) = "5"
digit (suc (suc (suc (suc (suc (suc zero)))))) = "6"
digit (suc (suc (suc (suc (suc (suc (suc zero))))))) = "7"
digit (suc (suc (suc (suc (suc (suc (suc (suc zero)))))))) = "8"
digit _ = "9"

-- The decimal digits of `n` in front of `out`, from the last one on.
unfoldable pub format_digits : ℕ → ℕ → String → String
format_digits zero n out = out
format_digits (suc fuel) n out =
    let rest = format_digits fuel (n / 10) (String.◌∷◌ (digit (n % 10)) out) in
    if ltb n 10 then String.◌∷◌ (digit n) out else rest

-- A magnitude of an int64 has at most 19 digits.
unfoldable pub format_int : ℤ → String
format_int (pos n) = format_digits 20 n String.[]
format_int (negsuc n) = String.◌∷◌ "-" (format_digits 20 (suc n) String.[])

code-digit : (d : ℕ) → d < 10 → code (digit d) ≡ b'0' + d
unfolding digit
code-digit zero h = refl
code-digit (suc zero) h = refl
code-digit (suc (suc zero)) h = refl
code-digit (suc (suc (suc zero))) h = refl
code-digit (suc (suc (suc (suc zero)))) h = refl
code-digit (suc (suc (suc (suc (suc zero))))) h = refl
code-digit (suc (suc (suc (suc (suc (suc zero)))))) h = refl
code-digit (suc (suc (suc (suc (suc (suc (suc zero))))))) h = refl
code-digit (suc (suc (suc (suc (suc (suc (suc (suc zero)))))))) h = refl
code-digit (suc (suc (suc (suc (suc (suc (suc (suc (suc zero))))))))) h = refl
code-digit (suc (suc (suc (suc (suc (suc (suc (suc (suc (suc d)))))))))) h = omega (arith, h)

stripped : (n d : ℕ) → n * 10 + (b'0' + d - b'0') ≡ n * 10 + d
stripped n d = omega arith

scan_digit :
    (n d : ℕ) (cs : List ℕ)
    → d < 10
    → n * 10 + d < 2 ^ 64
    → scan_digits n ((b'0' + d) ∷ cs) ≡ scan_digits (n * 10 + d) cs
unfolding scan_digits
scan_digit n d cs h small =
    subst (λ m. scan_digits n ((b'0' + d) ∷ cs) ≡ scan_digits m cs) (stripped n d)
      (ground (arith, h, small, stripped n d))

first_digit :
    (n : ℕ) (out : String)
    → n < 10
    → scan_digits 0 (codes (String.◌∷◌ (digit n) out)) ≡ scan_digits n (codes out)
first_digit n out h =
    ap (λ c. scan_digits 0 (c ∷ codes out)) (code-digit n h)
    ∙ (scan_digit 0 n (codes out) h (omega (arith, h))
        ∙ ap (λ m. scan_digits m (codes out)) (omega arith))

format_digits_small :
    (fuel n : ℕ) (out : String) → n < 10 → format_digits (suc fuel) n out ≡ String.◌∷◌ (digit n) out
unfolding format_digits
format_digits_small fuel n out h = ground (arith, h)

-- The first digits, and the last one.
scan-format_digits :
    (fuel n : ℕ) (out : String)
    → n < 10 ^ suc fuel
    → n < 2 ^ 64
    → scan_digits 0 (codes (format_digits (suc fuel) n out)) ≡ scan_digits n (codes out)
unfolding format_digits
scan-format_digits zero n out h small =
    ground (arith, h, first_digit n out, format_digits_small 0 n out)
scan-format_digits (suc fuel) n out h small = elim (Bool-cases (ltb n 10)) [
  | inl one ↦
      ap (λ text. scan_digits 0 (codes text))
        (format_digits_small (suc fuel) n out (ground (arith, one)))
      ∙ first_digit n out (ground (arith, one))
  | inr several ↦
      ap (λ text. scan_digits 0 (codes text)) (ground (arith, several))
      ∙ (scan-format_digits fuel (n / 10) (String.◌∷◌ (digit (n % 10)) out)
            (omega (arith, pow_step 10 (suc fuel), h)) (omega (arith, small))
          ∙ (ap (λ c. scan_digits (n / 10) (c ∷ codes out)) (code-digit (n % 10) (omega arith))
              ∙ (scan_digit (n / 10) (n % 10) (codes out) (omega arith) (omega (arith, small))
                  ∙ ap (λ m. scan_digits m (codes out)) (omega arith))))
]

-- A text that starts with a digit.
abbrev StartsWithDigit : String → Type 0
StartsWithDigit s = (d : ℕ) × (cs : List ℕ) × (d < 10) × (codes s ≡ (b'0' + d) ∷ cs)

digit-StartsWithDigit : (d : ℕ) (out : String) → d < 10 → StartsWithDigit (String.◌∷◌ (digit d) out)
digit-StartsWithDigit d out h = (d, codes out, h, ap (λ c. c ∷ codes out) (code-digit d h))

format_digits-StartsWithDigit :
    (fuel n : ℕ) (out : String) → StartsWithDigit out → StartsWithDigit (format_digits fuel n out)
unfolding format_digits
format_digits-StartsWithDigit zero n out s = s
format_digits-StartsWithDigit (suc fuel) n out s = elim (Bool-cases (ltb n 10)) [
  | inl one ↦ rw one (digit-StartsWithDigit n out (ground (arith, one)))
  | inr several ↦ rw several (
      format_digits-StartsWithDigit fuel (n / 10) _
        (digit-StartsWithDigit (n % 10) out (omega arith)))
]

format_digits_start : (fuel n : ℕ) (out : String) → StartsWithDigit (format_digits (suc fuel) n out)
unfolding format_digits
format_digits_start fuel n out = elim (Bool-cases (ltb n 10)) [
  | inl one ↦ rw one (digit-StartsWithDigit n out (ground (arith, one)))
  | inr several ↦ rw several (
      format_digits-StartsWithDigit fuel (n / 10) _
        (digit-StartsWithDigit (n % 10) out (omega arith)))
]

parse_uint-format_digits :
    (n : ℕ) → n < 2 ^ 64 → parse_uint (codes (format_digits 20 n String.[])) ≡ ok n
unfolding parse_uint scan_digits
parse_uint-format_digits n small =
    let scanned : scan_digits 0 (codes (format_digits 20 n String.[])) ≡ ok n =
      scan-format_digits 19 n String.[] (omega (arith, small)) small in
    let (d, cs, h, starts) = format_digits_start 19 n String.[] in
    ap parse_uint starts ∙ (ap (scan_digits 0) (sym starts) ∙ scanned)

parse_unsigned :
    (s : String) → StartsWithDigit s → parse_int s ≡ (parse_uint (codes s) >>= signed_value false)
unfolding parse_int parse_int_codes
parse_unsigned s (d, cs, h, starts) = ground (arith, h, starts)

-- FormatInt is read back by ParseInt, for every int64.
pub parse_int-format_int : (z : ℤ) → IsInt64 z → parse_int (format_int z) ≡ ok z
unfolding parse_int parse_int_codes format_int signed_value
parse_int-format_int (pos n) (small, low) =
    parse_unsigned (format_digits 20 n String.[]) (format_digits_start 19 n String.[])
    ∙ ground (arith, small, parse_uint-format_digits n)
parse_int-format_int (negsuc n) (small, low) = ground (arith, low, parse_uint-format_digits (suc n))
