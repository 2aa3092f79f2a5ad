-- ===== src/Parser/Stream.antt =====
-- internal/parser/parser.go: the stream of records of one input.
-- What the standard library's readers deliver is data: the lines that `bufio.Scanner` splits off and
-- the error that it ends with, and the outcomes of the calls of `csv.Reader.Read` before `io.EOF`.
use market_replay.Prelude.{
  ℕ, String, List, [], ◌∷◌, Option, none, some, ◌⊎◌, inl, inr, eq_iff, Bool-cases, subst, ◌≢◌, ◌≡◌,
  refl, arith, if◌then◌else◌, ◌==◌, ◌&&◌, ◌||◌, not,
}
use market_replay.Prelude.Int.{ℤ, pos, inc64}
use market_replay.Prelude.Dict.{Dict}
use market_replay.Prelude.Result.{Result, ok, err, ◌>>=◌, ok-injective, chosen_ok}
use market_replay.Error.{Error, unsupported_format, unknown_extension, read_csv_header, read_failed}
use market_replay.Parser.Record.{Record, zero_event}
use market_replay.Parser.Text.{Unicode}
use market_replay.Parser.Jsonl.{JsonEvent, parse_json_line}
use market_replay.Parser.Csv.{index_header, parse_csv}

abbrev pub format_auto : String
format_auto = "auto"

abbrev pub format_jsonl : String
format_jsonl = "jsonl"

abbrev pub format_csv : String
format_csv = "csv"

formats_ne : format_jsonl ≢ format_csv
formats_ne = ground (arith, eq_iff format_jsonl format_csv)

pub record Input : Type 0 where
  pub lines : List String
  pub scan_error : Option String
  pub csv_rows : List (Result String (List String))

-- What is left to read, and the number of the last line.
pub record Stream : Type 0 where
  pub format : String
  pub lines : List String
  pub scan_error : Option String
  pub csv_rows : List (Result String (List String))
  pub header : Dict ℕ
  pub line : ℤ

pub data Next : Type 0 where
  eof : Next
  failed : Error → Next
  got : Record → Next

module _ (u : Unicode) (decode : String → Result String JsonEvent) where
  abbrev pub jsonl_stream : Input → Stream
  jsonl_stream input = record {
    format = format_jsonl;
    lines = input.lines;
    scan_error = input.scan_error;
    csv_rows = [];
    header = [];
    line = pos 0;
  }

  abbrev pub csv_stream : List String → List (Result String (List String)) → Stream
  csv_stream header rows = record {
    format = format_csv;
    lines = [];
    scan_error = none;
    csv_rows = rows;
    header = index_header u header;
    line = pos 1;
  }

  -- Reading the header of a CSV input.
  unfoldable pub header_stream : List (Result String (List String)) → Result Error Stream
  header_stream [] = err (read_csv_header "EOF")
  header_stream (err e ∷ rows) = err (read_csv_header e)
  header_stream (ok header ∷ rows) = ok (csv_stream header rows)

  unfoldable pub new_stream : Input → String → Result Error Stream
  unfolding header_stream
  new_stream input format =
      if format == format_jsonl
      then ok (jsonl_stream input)
      else if format == format_csv
      then header_stream input.csv_rows
      else err (unsupported_format format)

  -- `ext` is `filepath.Ext(path)`.
  unfoldable pub resolve_format : String → String → Result Error String
  resolve_format ext format =
      let lowered = u.to_lower ext in
      if not (format == "") && not (format == format_auto)
      then (if format == format_jsonl || format == format_csv
          then ok format
          else err (unsupported_format format))
      else if lowered == ".jsonl" || lowered == ".ndjson"
      then ok format_jsonl
      else if lowered == ".csv"
      then ok format_csv
      else err (unknown_extension ext)

  -- `Open`; `file` is what `os.Open(path)` and the readers over it give.
  unfoldable pub open_stream : Result Error Input → String → String → Result Error Stream
  unfolding new_stream resolve_format
  open_stream file ext format = do
    input ← file
    resolved ← resolve_format ext format
    new_stream input resolved

  unfoldable pub json_record : String → ℤ → Record
  json_record raw line = elim (parse_json_line u decode raw line) [
    | ok ev ↦ record { line = line; event = ev; raw = some raw; err = none }
    | err e ↦ record { line = line; event = zero_event; raw = some raw; err = some e }
  ]

  unfoldable pub csv_record : Dict ℕ → Result String (List String) → ℤ → Record
  csv_record header (err e) line = record {
    line = line;
    event = zero_event;
    raw = none;
    err = some (read_failed e);
  }
  csv_record header (ok fields) line = elim (parse_csv u fields header line) [
    | ok ev ↦ record { line = line; event = ev; raw = none; err = none }
    | err e ↦ record { line = line; event = zero_event; raw = none; err = some e }
  ]

  unfoldable pub next_jsonl : Stream → List String → Next × Stream
  unfolding json_record
  next_jsonl s [] = (elim s.scan_error [ some e ↦ failed (read_failed e) | none ↦ eof ], s)
  next_jsonl s (raw ∷ rest) =
      let line = inc64 s.line in
      (got (json_record raw line), record s { lines = rest; line = line })

  unfoldable pub next_csv : Stream → List (Result String (List String)) → Next × Stream
  unfolding csv_record
  next_csv s [] = (eof, s)
  next_csv s (row ∷ rest) =
      let line = inc64 s.line in
      (got (csv_record s.header row line), record s { csv_rows = rest; line = line })

  unfoldable pub next : Stream → Next × Stream
  unfolding next_jsonl next_csv
  next s =
      if s.format == format_jsonl
      then next_jsonl s s.lines
      else if s.format == format_csv
      then next_csv s s.csv_rows
      else (failed (unsupported_format s.format), s)

  -- The records that a stream still has, and the error, if any, that it ends with: what a loop over
  -- `Next` sees.
  pub data Contents : Stream → List Record → Option Error → Type 0 where
    at_eof : {s : Stream} → next s ≡ (eof, s) → Contents s [] none
    at_error : {s : Stream} {e : Error} → next s ≡ (failed e, s) → Contents s [] (some e)
    more :
        {s t : Stream} {r : Record} {rs : List Record} {e : Option Error}
        → next s ≡ (got r, t)
        → Contents t rs e
        → Contents s (r ∷ rs) e

  abbrev pub json_records : ℤ → List String → List Record
  json_records line [] = []
  json_records line (raw ∷ rest) = json_record raw (inc64 line) ∷ json_records (inc64 line) rest

  abbrev pub csv_records : Dict ℕ → ℤ → List (Result String (List String)) → List Record
  csv_records header line [] = []
  csv_records header line (row ∷ rest) =
      csv_record header row (inc64 line) ∷ csv_records header (inc64 line) rest

  -- The error that a scanner ends with, as `Next` returns it.
  abbrev pub scan_failure : Option String → Option Error
  scan_failure none = none
  scan_failure (some e) = some (read_failed e)

  pub json_Contents :
      (lines : List String) (e : Option String) (s : Stream)
      → s.format ≡ format_jsonl
      → s.lines ≡ lines
      → s.scan_error ≡ e
      → Contents s (json_records s.line lines) (scan_failure e)
  unfolding next
  json_Contents [] none s f l e = at_eof (ground (arith, eq_iff s.format format_jsonl))
  json_Contents [] (some x) s f l e = at_error (ground (arith, eq_iff s.format format_jsonl))
  json_Contents (raw ∷ lines) x s f l e =
      more {t = record s { lines = lines; line = inc64 s.line }}
        (ground (arith, eq_iff s.format format_jsonl)) (json_Contents lines x _ f refl e)

  csv_Contents :
      (rows : List (Result String (List String))) (s : Stream)
      → s.format ≡ format_csv
      → s.csv_rows ≡ rows
      → Contents s (csv_records s.header s.line rows) none
  unfolding next
  csv_Contents [] s f l =
      at_eof (ground (arith, formats_ne, eq_iff s.format format_jsonl, eq_iff s.format format_csv))
  csv_Contents (row ∷ rows) s f l =
      more {t = record s { csv_rows = rows; line = inc64 s.line }}
        (ground (arith, formats_ne, eq_iff s.format format_jsonl, eq_iff s.format format_csv))
        (csv_Contents rows _ f refl)

  -- A stream over JSONL input has a record for each line, numbered from 1, and ends with the
  -- scanner's error.
  pub JsonContents : Input → Stream → Type 0
  JsonContents input s =
      Contents s (json_records (pos 0) input.lines) (scan_failure input.scan_error)

  -- One over CSV input takes the first row for the header, has a record for each other row, numbered
  -- from 2, and ends without an error.
  pub CsvContents : Input → Stream → Type 0
  CsvContents input s =
      (header : List String) × (rows : List (Result String (List String))) × (input.csv_rows
        ≡ ok header ∷ rows)
      × Contents s (csv_records (index_header u header) (pos 1) rows) none

  header_stream-CsvContents :
      (rows : List (Result String (List String))) (input : Input) (s : Stream)
      → input.csv_rows ≡ rows
      → header_stream rows ≡ ok s
      → CsvContents input s
  unfolding header_stream CsvContents
  header_stream-CsvContents [] input s e h = cc
  header_stream-CsvContents (err x ∷ rows) input s e h = cc
  header_stream-CsvContents (ok header ∷ rows) input s e h = (
    header,
    rows,
    e,
    subst (λ t. Contents t (csv_records (index_header u header) (pos 1) rows) none) (ok-injective h)
        (csv_Contents rows (csv_stream header rows) refl refl),
  )

  -- `NewStream` opens JSONL and CSV inputs only. The stream of a JSONL input has a record for each
  -- line, numbered from 1, and ends with the scanner's error; that of a CSV input takes the first row
  -- for the header, has a record for each other row, numbered from 2, and ends without an error.
  pub new_stream-Contents :
      (input : Input) (s : Stream) (format : String)
      → new_stream input format ≡ ok s
      → ((format ≡ format_jsonl) × JsonContents input s)
        ⊎ ((format ≡ format_csv) × CsvContents input s)
  unfolding new_stream JsonContents
  new_stream-Contents input s format h = elim (Bool-cases (format == format_jsonl)) [
    | inl e ↦ inl (
      (eq_iff format format_jsonl).0 e,
      subst (λ t. Contents t (json_records (pos 0) input.lines) (scan_failure input.scan_error))
          (ok-injective (rw e at h))
          (json_Contents input.lines input.scan_error (jsonl_stream input) refl refl refl),
    )
    | inr e ↦
        let (chosen, opened) =
          chosen_ok (format == format_csv) (unsupported_format format) _ s (rw e at h) in
        inr (
          (eq_iff format format_csv).0 chosen,
          header_stream-CsvContents input.csv_rows input s refl opened,
        )
  ]
