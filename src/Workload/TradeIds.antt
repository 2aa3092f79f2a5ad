-- ===== src/Workload/TradeIds.antt =====
-- internal/workload/generator.go: repeated trades have consecutive ids.
use market_replay.Prelude.{
  ℕ, suc, ◌+◌, ◌*◌, ◌<◌, ◌≤◌, ◌^◌, String, List, [], ◌∷◌, some, ◌≡◌, ◌≢◌, refl, sym, ap, ◌∙◌, arith,
  length, get_elem?,
}
use market_replay.Prelude.Int.{pos, pos-add64}
use market_replay.Prelude.Dict.{lookup}
use market_replay.Prelude.Result.{ok}
use market_replay.Parser.Text.{Unicode}
use market_replay.Workload.{GenerateOptions, Progress}
use market_replay.Workload.Csv.{
  int_at, new_csv_normalizer, normalize_csv, header_index, csv_start, generate_csv,
}
use market_replay.Workload.Loop.{write_passes-IsProgress}
use market_replay.Workload.Written.{total_size}
use market_replay.Workload.Shift.{get_elem?-lt}
use market_replay.Workload.Normalized.{
  TradesFrom, new_csv_normalizer-IsNoted, trade_at, normalized_id,
}

module _ (id_index time_index : ℕ) where
  -- What a generated CSV workload is: it has the bytes that were asked for, counted with the header, less
  -- than the longest row too many, and its trades have the ids from `base` on.
  pub record IsWorkload (base start target most : ℕ) (csv_bytes : List String → ℕ)
      (q : Progress (List String)) : Type 0 where
    pub counted_bytes : (q.result).bytes_written ≡ pos (start + total_size csv_bytes q.written)
    pub counted_rows : (q.result).rows_written ≡ pos (length q.written)
    pub enough : target ≤ start + total_size csv_bytes q.written
    pub not_too_many : start + total_size csv_bytes q.written < target + most
    pub ids :
        (k : ℕ) (row : List String)
        → get_elem? q.written k ≡ some row
        → int_at id_index row ≡ some (pos (base + k))

  -- A CSV workload whose header names trade_id and trade_time and whose rows are trades with ids that count up
  -- from `base`: with more fuel than bytes are asked for it is generated, and however often the source is
  -- repeated the ids count up from `base` on, while they fit an int64. It has the bytes asked for,
  -- counted exactly, and less than the longest row too many.
  pub generate_csv-IsWorkload :
      (u : Unicode) (csv_bytes : List String → ℕ) (fuel target most base : ℕ)
      (opts : GenerateOptions) (header row : List String) (rows : List (List String))
      → lookup "trade_id" (header_index u 0 header []) ≡ some id_index
      → lookup "trade_time" (header_index u 0 header []) ≡ some time_index
      → id_index ≢ time_index
      → TradesFrom id_index time_index base (row ∷ rows)
      → opts.target_bytes ≡ pos target
      → csv_bytes header < target + most
      → base + length rows + target + most < 2 ^ 63
      → ((i k : ℕ) (source : List String)
          → get_elem? (row ∷ rows) i ≡ some source
          → let made = csv_bytes (
              normalize_csv
                (new_csv_normalizer (header_index u 0 header []) (row ∷ rows))
                source
                (pos k)) in
            (1 ≤ made) × (made ≤ most))
      → target < fuel
      → (q : Progress (List String)) × (generate_csv u csv_bytes fuel opts
            (ok (header ∷ row ∷ rows))
          ≡ ok (some q))
        × IsWorkload base (csv_bytes header) target most csv_bytes q
  unfolding generate_csv csv_start
  generate_csv-IsWorkload u csv_bytes fuel target most base opts header row rows has_id has_time
        apart trades aim low fits sized fuelled =
      let index = header_index u 0 header [] in
      let n = new_csv_normalizer index (row ∷ rows) in
      let noted =
        new_csv_normalizer-IsNoted id_index time_index base index row rows has_id has_time
          (omega (arith, fits, low)) trades in
      let (q, ran, progress, enough) =
        write_passes-IsProgress (normalize_csv n) csv_bytes (csv_bytes header) target most
          (row ∷ rows) (omega (arith, fits)) sized fuel row rows (csv_start u csv_bytes opts header)
          refl refl aim
          (pos-add64 0 (csv_bytes header) (omega (arith, low, fits)) ∙ ap pos (omega arith)) refl
          low fuelled in
      (
        q,
        ap (λ p. ok p) ran,
        record {
          counted_bytes = progress.bytes;
          counted_rows = progress.rows;
          enough = enough;
          not_too_many = progress.below;
          ids = λ k made found.
              let (cycle, i, source, place, here, is_made) = progress.repeated k made found in
              let (id, (time, at)) =
                trade_at id_index time_index base i (row ∷ rows) source trades here in
              let inside = get_elem?-lt (row ∷ rows) i here in
              let written = get_elem?-lt q.written k found in
              let room : base + (cycle * suc (length rows) + i) < 2 ^ 63 =
                omega (arith, fits, written, place, progress.each, progress.below) in
              ap (int_at id_index) (is_made ∙ ap (λ j. normalize_csv n source (pos j)) place)
              ∙ (normalized_id id_index time_index base (length rows) cycle i n source time
                    (omega (arith, fits)) (omega (arith, fits, low)) noted inside room apart id at
                  ∙ ap (λ j. some (pos (base + j))) (sym place));
        },
      )
