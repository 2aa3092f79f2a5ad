-- ===== src/Workload/Csv.antt =====
-- internal/workload/generator.go: CSV workloads. `csv_bytes` is the length of what csv.Writer makes of a record.
use market_replay.Prelude.{
  ℕ, zero, suc, String, Bool, true, false, not, ◌||◌, List, [], ◌∷◌, Option, none, some,
  if◌then◌else◌, get_elem?,
}
use market_replay.Prelude.Int.{ℤ, pos, leb_ℤ, add64, sub64, inc64}
use market_replay.Prelude.Dict.{Dict, lookup, insert}
use market_replay.Prelude.Result.{Result, ok, err}
use market_replay.Parser.Text.{Unicode, parse_int}
use market_replay.Parser.Decimal.{format_int}
use market_replay.Workload.{GenerateOptions, new_result, mul64, quot64, Progress, write_passes}

pub record CsvNormalizer : Type 0 where
  pub enabled : Bool
  pub trade_id_index : ℕ
  pub trade_time_index : ℕ
  pub base_trade_id : ℤ
  pub last_trade_id : ℤ
  pub base_trade_time : ℤ
  pub last_trade_time : ℤ
  pub row_count : ℤ

-- `csvNormalizer{}`
abbrev pub no_csv_normalizer : CsvNormalizer
no_csv_normalizer = record {
  enabled = false;
  trade_id_index = 0;
  trade_time_index = 0;
  base_trade_id = pos 0;
  last_trade_id = pos 0;
  base_trade_time = pos 0;
  last_trade_time = pos 0;
  row_count = pos 0;
}

-- `ParseInt(row[index], 10, 64)`, where the row is long enough and the field is a number.
abbrev pub int_at : ℕ → List String → Option ℤ
int_at index row = elim (get_elem? row index) [
  | none ↦ none
  | some field ↦ elim (parse_int field) [ err e ↦ none | ok z ↦ some z ]
]

-- One round of the loop over the rows; `normalizer` is not enabled before the first row.
unfoldable pub note_trade : ℕ → ℕ → ℤ → ℤ → CsvNormalizer → CsvNormalizer
note_trade id_index time_index id trade_time n =
    record (if n.enabled then n else record n {
      enabled = true;
      trade_id_index = id_index;
      trade_time_index = time_index;
      base_trade_id = id;
      base_trade_time = trade_time;
    }) { last_trade_id = id; last_trade_time = trade_time; row_count = inc64 n.row_count }

unfoldable pub note_trades : ℕ → ℕ → List (List String) → CsvNormalizer → CsvNormalizer
note_trades id_index time_index [] n = n
note_trades id_index time_index (row ∷ rows) n = elim (int_at id_index row) [
  | none ↦ no_csv_normalizer
  | some id ↦ elim (int_at time_index row) [
    | none ↦ no_csv_normalizer
    | some trade_time ↦
        note_trades id_index time_index rows (note_trade id_index time_index id trade_time n)
  ]
]

unfoldable pub new_csv_normalizer : Dict ℕ → List (List String) → CsvNormalizer
new_csv_normalizer header rows = elim (lookup "trade_id" header) [
  | none ↦ no_csv_normalizer
  | some id_index ↦ elim (lookup "trade_time" header) [
    | none ↦ no_csv_normalizer
    | some time_index ↦ note_trades id_index time_index rows no_csv_normalizer
  ]
]

-- `row[index] = field`
abbrev pub set_field : ℕ → String → List String → List String
set_field index field [] = []
set_field zero field (old ∷ row) = field ∷ row
set_field (suc index) field (old ∷ row) = old ∷ set_field index field row

-- An enabled normalizer is made of these rows, which all have both fields as numbers.
unfoldable pub normalize_csv : CsvNormalizer → List String → ℤ → List String
normalize_csv n row emitted_rows =
    if not n.enabled || leb_ℤ n.row_count (pos 0) then row else elim (int_at n.trade_id_index row) [
      | none ↦ row
      | some id ↦ elim (int_at n.trade_time_index row) [
        | none ↦ row
        | some trade_time ↦
            let id_span = add64 (sub64 n.last_trade_id n.base_trade_id) (pos 1) in
            let time_span = add64 (sub64 n.last_trade_time n.base_trade_time) (pos 1) in
            let cycle = quot64 emitted_rows n.row_count in
            set_field n.trade_time_index (format_int (add64 trade_time (mul64 cycle time_span)))
              (set_field n.trade_id_index (format_int (add64 id (mul64 cycle id_span))) row)
      ]
    ]

-- What generateCSV fails with.
pub data CsvError : Type 0 where
  read_failed : String → CsvError
  no_rows : CsvError

module _ (u : Unicode) where
  -- `headerIndex`, from the field `i` on.
  unfoldable pub header_index : ℕ → List String → Dict ℕ → Dict ℕ
  header_index i [] index = index
  header_index i (name ∷ names) index =
      header_index (suc i) names (insert (u.to_lower (u.trim_space name)) i index)

module _ (u : Unicode) (csv_bytes : List String → ℕ) where
  -- After the header was written.
  unfoldable pub csv_start : GenerateOptions → List String → Progress (List String)
  csv_start opts header = record {
    written = [];
    result = record (new_result opts) { bytes_written = add64 (pos 0) (pos (csv_bytes header)) };
  }

  -- `records` is what ReadAll returns; the result is `none` when the fuel runs out.
  unfoldable pub generate_csv :
      ℕ
      → GenerateOptions
      → Result String (List (List String))
      → Result CsvError (Option (Progress (List String)))
  generate_csv fuel opts (err e) = err (read_failed e)
  generate_csv fuel opts (ok []) = err no_rows
  generate_csv fuel opts (ok (header ∷ [])) = err no_rows
  generate_csv fuel opts (ok (header ∷ row ∷ rows)) = ok (
      write_passes (normalize_csv (new_csv_normalizer (header_index u 0 header []) (row ∷ rows)))
        csv_bytes fuel (row ∷ rows) (csv_start opts header))
