-- ===== src/Workload/Shift.antt =====
-- internal/workload/generator.go: the arithmetic of a shifted row, and its fields.
use market_replay.Prelude.{
  ℕ, zero, suc, ◌+◌, ◌*◌, ◌/◌, ◌<◌, ◌^◌, String, Bool, true, false, List, [], ◌∷◌, Option, some,
  ◌≡◌, ◌≢◌, refl, ap, ◌∙◌, subst, arith, length, get_elem?, Option-elim,
}
use market_replay.Prelude.Int.{ℤ, pos, ◌-ℤ◌, add64, sub64, leb_ℤ, IsInt64, wrap64, wrap64_id}
use market_replay.Prelude.Result.{Result-elim}
use market_replay.Parser.Text.{parse_int, parse_int-IsInt64}
use market_replay.Parser.Decimal.{format_int, parse_int-format_int}
use market_replay.Workload.{mul64, quot64}
use market_replay.Workload.Csv.{CsvNormalizer, int_at, set_field, normalize_csv}
use native.Mathlib.Nat.{div-eq_of_lt, add-div_right, zero-div}

pub get_elem?-lt {ℓ} :
    {A : Type ℓ} (xs : List A) (i : ℕ) {x : A} → get_elem? xs i ≡ some x → i < length xs
get_elem?-lt [] i h = let wrong : ◌≡◌ {A = Bool} true false = cc in cc
get_elem?-lt (x ∷ xs) zero h = omega arith
get_elem?-lt (x ∷ xs) (suc i) h = omega (arith, get_elem?-lt xs i h)

pub pos-sub64 : (a b : ℕ) → a + b < 2 ^ 63 → sub64 (pos (a + b)) (pos a) ≡ pos b
unfolding sub64 ◌-ℤ◌
pos-sub64 a b small = wrap64_id (pos (a + b) -ℤ pos a) (ground (arith, small)) ∙ ground arith

pub pos-mul64 : (a b : ℕ) → a * b < 2 ^ 63 → mul64 (pos a) (pos b) ≡ pos (a * b)
unfolding mul64
pos-mul64 a b small = ap wrap64 (ground arith) ∙ wrap64_id (pos (a * b)) (ground (arith, small))

cycle-div : (c n i : ℕ) → i < n → (c * n + i) / n ≡ c
cycle-div zero n i h = ap (λ m. m / n) (omega arith) ∙ div-eq_of_lt h
cycle-div (suc c) n i h =
    ap (λ m. m / n) (omega arith)
    ∙ (add-div_right (c * n + i) (omega (arith, h))
        ∙ (ap (λ m. m + 1) (cycle-div c n i h) ∙ omega arith))

pub quot64-cycle : (c n i : ℕ) → i < n → quot64 (pos (c * n + i)) (pos n) ≡ pos c
unfolding quot64
quot64-cycle c n i h = ground (arith, cycle-div c n i h, zero-div n)

some_injective : {y z : ℤ} → ◌≡◌ {A = Option ℤ} (some y) (some z) → y ≡ z
some_injective h = cc

int_at-IsInt64 : (index : ℕ) (row : List String) {z : ℤ} → int_at index row ≡ some z → IsInt64 z
int_at-IsInt64 index row {z} h =
    Option-elim (λ (o : Option ℤ). o ≡ some z → IsInt64 z) (get_elem? row index)
      (λ _ g. let wrong : ◌≡◌ {A = Bool} true false = cc in cc)
      (λ field _.
        Result-elim (λ (o : Option ℤ). o ≡ some z → IsInt64 z) (parse_int field)
          (λ e _ g. let wrong : ◌≡◌ {A = Bool} true false = cc in cc)
          (λ y parsed g. subst IsInt64 (some_injective g) (parse_int-IsInt64 field parsed)))
      h

pub int_at-set_self :
    (index : ℕ) (row : List String) (z w : ℤ)
    → int_at index row ≡ some z
    → IsInt64 w
    → int_at index (set_field index (format_int w) row) ≡ some w
int_at-set_self index [] z w h fits = let wrong : ◌≡◌ {A = Bool} true false = cc in cc
int_at-set_self zero (old ∷ row) z w h fits = ground (arith, parse_int-format_int w fits)
int_at-set_self (suc index) (old ∷ row) z w h fits = int_at-set_self index row z w h fits

pub int_at-set_other :
    (index other : ℕ) (field : String) (row : List String)
    → index ≢ other
    → int_at index (set_field other field row) ≡ int_at index row
int_at-set_other index other field [] ne = refl
int_at-set_other zero zero field (old ∷ row) ne =
    let wrong : ◌≡◌ {A = Bool} true false = ground (arith, ne) in cc
int_at-set_other zero (suc other) field (old ∷ row) ne = refl
int_at-set_other (suc index) zero field (old ∷ row) ne = refl
int_at-set_other (suc index) (suc other) field (old ∷ row) ne =
    int_at-set_other index other field row (λ same. ne (ap suc same))

-- A row that an enabled normalizer shifts.
pub shift_lem :
    (n : CsvNormalizer) (row : List String) (k id time : ℤ)
    → n.enabled ≡ true
    → leb_ℤ n.row_count (pos 0) ≡ false
    → int_at n.trade_id_index row ≡ some id
    → int_at n.trade_time_index row ≡ some time
    → normalize_csv n row k
      ≡ set_field n.trade_time_index
          (format_int (
            add64 time (
              mul64
                (quot64 k n.row_count)
                (add64 (sub64 n.last_trade_time n.base_trade_time) (pos 1)))))
          (set_field n.trade_id_index
            (format_int (
              add64 id (
                mul64
                  (quot64 k n.row_count)
                  (add64 (sub64 n.last_trade_id n.base_trade_id) (pos 1)))))
            row)
unfolding normalize_csv
shift_lem n row k id time on counted has_id has_time = ground (arith, on, counted, has_id, has_time)
