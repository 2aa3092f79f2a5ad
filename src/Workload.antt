-- ===== src/Workload.antt =====
-- internal/workload/generator.go: a workload is repeated until it has the size that was asked for.
-- The files that are written take everything; what is written to them is kept in a list.
pub mod Csv
pub mod Jsonl
pub mod Written
pub mod Loop
pub mod Lines
pub mod Shift
pub mod Normalized
pub mod TradeIds
use market_replay.Prelude.{
  ℕ, zero, suc, ◌+◌, ◌*◌, ◌/◌, String, Bool, List, [], ◌∷◌, ◌++◌, Option, none, some, if◌then◌else◌,
  ltb, leb,
}
use market_replay.Prelude.Int.{
  ℤ, pos, negsuc, pos_part, neg_part, sub_ℕ, ltb_ℤ, leb_ℤ, add64, inc64, wrap64,
}

pub record GenerateOptions : Type 0 where
  pub source_path : String
  pub output_path : String
  pub target_bytes : ℤ

pub record GenerateResult : Type 0 where
  pub source_path : String
  pub output_path : String
  pub target_bytes : ℤ
  pub bytes_written : ℤ
  pub rows_written : ℤ

-- `GenerateResult{SourcePath: ..., OutputPath: ..., TargetBytes: ...}`
abbrev pub new_result : GenerateOptions → GenerateResult
new_result opts = record {
  source_path = opts.source_path;
  output_path = opts.output_path;
  target_bytes = opts.target_bytes;
  bytes_written = pos 0;
  rows_written = pos 0;
}

-- `a * b` on int64.
unfoldable pub mul64 : ℤ → ℤ → ℤ
mul64 a b = wrap64 (
    sub_ℕ (pos_part a * pos_part b + neg_part a * neg_part b)
      (pos_part a * neg_part b + neg_part a * pos_part b))

-- `a / b` on int64, which truncates, for a `b` above 0.
unfoldable pub quot64 : ℤ → ℤ → ℤ
quot64 a b = sub_ℕ (pos_part a / pos_part b) (neg_part a / pos_part b)

-- What was written, and the result so far.
pub record Progress (B : Type 0) : Type 0 where
  pub written : List B
  pub result : GenerateResult

-- The two loops of generateJSONL and of generateCSV. `normalize` makes the row to write of a source row and
-- the number of rows written, `size` is the number of bytes that it takes.
module _ {A B : Type 0} (normalize : A → ℤ → B) (size : B → ℕ) where
  -- The body of the inner loop, up to the `break`.
  unfoldable pub write_row : A → Progress B → Progress B
  write_row row p =
      let next = normalize row (p.result).rows_written in
      record {
        written = p.written ++ (next ∷ []);
        result = record (p.result) {
          bytes_written = add64 (p.result).bytes_written (pos (size next));
          rows_written = inc64 (p.result).rows_written;
        };
      }

  unfoldable pub write_rows : List A → Progress B → Progress B
  write_rows [] p = p
  write_rows (row ∷ rows) p =
      let q = write_row row p in
      let rest = write_rows rows q in
      if leb_ℤ (q.result).target_bytes (q.result).bytes_written then q else rest

  -- The outer loop, on fuel, one unit for each pass over the source.
  unfoldable pub write_passes : ℕ → List A → Progress B → Option (Progress B)
  write_passes zero rows p = none
  write_passes (suc fuel) rows p =
      let rest = write_passes fuel rows (write_rows rows p) in
      if ltb_ℤ (p.result).bytes_written (p.result).target_bytes then rest else some p
