-- ===== src/Workload/Normalized.antt =====
-- internal/workload/generator.go: the normalizer of trades with consecutive ids, and a row that it shifts.
use market_replay.Prelude.{
  ℕ, zero, suc, ◌+◌, ◌*◌, ◌<◌, ◌^◌, String, Bool, true, false, List, [], ◌∷◌, some, ◌≡◌, ◌≢◌, refl,
  ap, ap₂, ◌∙◌, subst, arith, length, get_elem?,
}
use market_replay.Prelude.Int.{ℤ, pos, add64, sub64, pos-add64, pos-inc64}
use market_replay.Prelude.Dict.{Dict, lookup}
use market_replay.Parser.Decimal.{format_int}
use market_replay.Workload.{mul64, quot64}
use market_replay.Workload.Csv.{
  CsvNormalizer, no_csv_normalizer, int_at, note_trade, note_trades, new_csv_normalizer, set_field,
  normalize_csv,
}
use market_replay.Workload.Shift.{
  pos-sub64, pos-mul64, quot64-cycle, int_at-set_self, int_at-set_other, shift_lem,
}

module _ (id_index time_index : ℕ) where
  -- The rows are trades whose ids count up from `next`.
  abbrev pub TradesFrom : ℕ → List (List String) → Type 0
  TradesFrom next [] = Unit
  TradesFrom next (row ∷ rows) =
      (int_at id_index row ≡ some (pos next))
      × ((time : ℤ) × (int_at time_index row ≡ some time))
      × TradesFrom (suc next) rows

  -- A normalizer of `c` rows and one more.
  pub record IsNoted (base c : ℕ) (n : CsvNormalizer) : Type 0 where
    on : n.enabled ≡ true
    at_id : n.trade_id_index ≡ id_index
    at_time : n.trade_time_index ≡ time_index
    first_id : n.base_trade_id ≡ pos base
    last_id : n.last_trade_id ≡ pos (base + c)
    counted : n.row_count ≡ pos (suc c)

  note_trade-first :
      (base : ℕ) (time : ℤ)
      → IsNoted base 0 (note_trade id_index time_index (pos base) time no_csv_normalizer)
  unfolding note_trade
  note_trade-first base time = record {
    on = refl;
    at_id = refl;
    at_time = refl;
    first_id = refl;
    last_id = ap pos (omega arith);
    counted = pos-inc64 0 (ground arith);
  }

  note_trade-next :
      (base c : ℕ) (time : ℤ) (n : CsvNormalizer)
      → suc (suc c) < 2 ^ 63
      → IsNoted base c n
      → IsNoted base (suc c) (note_trade id_index time_index (pos (base + suc c)) time n)
  unfolding note_trade
  note_trade-next base c time n small i = record {
    on = ground (arith, i.on);
    at_id = ground (arith, i.on, i.at_id);
    at_time = ground (arith, i.on, i.at_time);
    first_id = ground (arith, i.on, i.first_id);
    last_id = refl;
    counted = ground (arith, i.on, i.counted, pos-inc64 (suc c) (omega (arith, small)));
  }

  -- The rest of the rows.
  note_trades-IsNoted :
      (base c : ℕ) (rows : List (List String)) (n : CsvNormalizer)
      → suc (c + length rows) < 2 ^ 63
      → TradesFrom (base + suc c) rows
      → IsNoted base c n
      → IsNoted base (c + length rows) (note_trades id_index time_index rows n)
  unfolding note_trades
  note_trades-IsNoted base c [] n few trades i = subst (λ k. IsNoted base k n) (omega arith) i
  note_trades-IsNoted base c (row ∷ rows) n few (id, (time, at), trades) i =
      subst (λ k. IsNoted base k (note_trades id_index time_index (row ∷ rows) n)) (omega arith)
        (subst (IsNoted base (suc c + length rows)) (ground (arith, id, at)) (
          note_trades-IsNoted base (suc c) rows
            (note_trade id_index time_index (pos (base + suc c)) time n) (omega (arith, few))
            (subst (λ k. TradesFrom k rows) (omega arith) trades)
            (note_trade-next base c time n (omega (arith, few)) i)))

  pub new_csv_normalizer-IsNoted :
      (base : ℕ) (header : Dict ℕ) (row : List String) (rows : List (List String))
      → lookup "trade_id" header ≡ some id_index
      → lookup "trade_time" header ≡ some time_index
      → suc (length rows) < 2 ^ 63
      → TradesFrom base (row ∷ rows)
      → IsNoted base (length rows) (new_csv_normalizer header (row ∷ rows))
  unfolding new_csv_normalizer note_trades
  new_csv_normalizer-IsNoted base header row rows has_id has_time few (id, (time, at), trades) =
      let first : CsvNormalizer =
        note_trade id_index time_index (pos base) time no_csv_normalizer in
      subst (IsNoted base (length rows)) (ground (arith, has_id, has_time, id, at)) (
        subst (λ k. IsNoted base k (note_trades id_index time_index rows first)) (omega arith)
          (note_trades-IsNoted base 0 rows first (omega (arith, few))
            (subst (λ k. TradesFrom k rows) (omega arith) trades) (note_trade-first base time)))

  pub trade_at :
      (base i : ℕ) (rows : List (List String)) (row : List String)
      → TradesFrom base rows
      → get_elem? rows i ≡ some row
      → (int_at id_index row ≡ some (pos (base + i)))
        × ((time : ℤ) × (int_at time_index row ≡ some time))
  trade_at base i [] row trades here = let wrong : ◌≡◌ {A = Bool} true false = cc in cc
  trade_at base zero (first ∷ rows) row (id, timed, trades) here =
      subst
        (λ r.
          (int_at id_index r ≡ some (pos (base + 0)))
          × ((time : ℤ) × (int_at time_index r ≡ some time)))
        (ground (arith, here)) (id ∙ ap (λ k. some (pos k)) (omega arith), timed)
  trade_at base (suc i) (first ∷ rows) row (id, timed, trades) here =
      let (id_later, timed_later) = trade_at (suc base) i rows row trades here in
      (id_later ∙ ap (λ k. some (pos k)) (omega arith), timed_later)

  span_lem :
      (base c : ℕ) (n : CsvNormalizer)
      → base + c < 2 ^ 63
      → suc c < 2 ^ 63
      → IsNoted base c n
      → add64 (sub64 n.last_trade_id n.base_trade_id) (pos 1) ≡ pos (suc c)
  span_lem base c n small few i =
      ap₂ (λ a b. add64 (sub64 a b) (pos 1)) i.last_id i.first_id
      ∙ (ap (λ a. add64 a (pos 1)) (pos-sub64 base c small)
          ∙ (pos-add64 c 1 (omega (arith, few)) ∙ ap pos (omega arith)))

  shifted_lem :
      (base c cycle i : ℕ) (n : CsvNormalizer)
      → base + c < 2 ^ 63
      → suc c < 2 ^ 63
      → IsNoted base c n
      → i < suc c
      → base + (cycle * suc c + i) < 2 ^ 63
      → add64 (pos (base + i)) (
          mul64
            (quot64 (pos (cycle * suc c + i)) n.row_count)
            (add64 (sub64 n.last_trade_id n.base_trade_id) (pos 1)))
        ≡ pos (base + (cycle * suc c + i))
  shifted_lem base c cycle i n small few noted h fits =
      ap₂ (λ a b. add64 (pos (base + i)) (mul64 (quot64 (pos (cycle * suc c + i)) a) b))
        noted.counted (span_lem base c n small few noted)
      ∙ (ap (λ a. add64 (pos (base + i)) (mul64 a (pos (suc c)))) (quot64-cycle cycle (suc c) i h)
          ∙ (ap (add64 (pos (base + i))) (pos-mul64 cycle (suc c) (omega (arith, fits)))
              ∙ (pos-add64 (base + i) (cycle * suc c) (omega (arith, fits))
                  ∙ ap pos (omega arith))))

  pub normalized_id :
      (base c cycle i : ℕ) (n : CsvNormalizer) (row : List String) (time : ℤ)
      → base + c < 2 ^ 63
      → suc c < 2 ^ 63
      → IsNoted base c n
      → i < suc c
      → base + (cycle * suc c + i) < 2 ^ 63
      → id_index ≢ time_index
      → int_at id_index row ≡ some (pos (base + i))
      → int_at time_index row ≡ some time
      → int_at id_index (normalize_csv n row (pos (cycle * suc c + i)))
        ≡ some (pos (base + (cycle * suc c + i)))
  normalized_id base c cycle i n row time small few noted h fits apart id at =
      let k = cycle * suc c + i in
      let later : String = format_int (
        add64 time (
          mul64 (quot64 (pos k) n.row_count)
            (add64 (sub64 n.last_trade_time n.base_trade_time) (pos 1)))) in
      let shifted = shifted_lem base c cycle i n small few noted h fits in
      let new_id : String = format_int (
        add64 (pos (base + i)) (
          mul64 (quot64 (pos k) n.row_count)
            (add64 (sub64 n.last_trade_id n.base_trade_id) (pos 1)))) in
      let made : normalize_csv n row (pos k)
          ≡ set_field time_index later (set_field id_index new_id row) =
        shift_lem n row (pos k) (pos (base + i)) time noted.on (ground (arith, noted.counted))
          (ap (λ j. int_at j row) noted.at_id ∙ id) (ap (λ j. int_at j row) noted.at_time ∙ at)
        ∙ ap₂ (λ a b. set_field b later (set_field a new_id row)) noted.at_id noted.at_time in
      ap (int_at id_index) made
      ∙ (int_at-set_other id_index time_index later (set_field id_index new_id row) apart
          ∙ (ap (λ z. int_at id_index (set_field id_index (format_int z) row)) shifted
              ∙ int_at-set_self id_index row (pos (base + i)) (pos (base + k)) id
                  (ground (arith, fits))))
