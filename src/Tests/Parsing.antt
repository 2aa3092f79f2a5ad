-- ===== src/Tests/Parsing.antt =====
-- internal/parser on single lines and rows.
use market_replay.Prelude.{
  String, Bool, true, false, List, [], ◌∷◌, none, some, ◌≡◌, refl, ◌⊎◌, ◌≢◌, ◌↔◌,
}
use market_replay.Prelude.Int.{pos, inc64}
use market_replay.Prelude.Dict.{lookup, insert}
use market_replay.Prelude.Result.{Result, ok}
use market_replay.Event.{MarketEvent}
use market_replay.Parser.Record.{zero_event}
use market_replay.Parser.Text.{parse_int, parse_bool}
use market_replay.Parser.Shape.{
  validate_event_shape, validate_event_shape-none, IsDepthEvent, IsTradeEvent, shaped,
}
use market_replay.Parser.Jsonl.{JsonEvent, json_event, parse_json_line, normalize_event_type}
use market_replay.Parser.JsonLines.{IsJsonEvent, IsComplete, parse_json_line_iff}
use market_replay.Parser.Csv.{
  index_header, parse_csv, IsCsvEvent, parse_csv-IsCsvEvent, csv_value, csv_int,
}
use market_replay.Parser.Stream.{
  Input, new_stream, jsonl_stream, new_stream-Contents, JsonContents, CsvContents, format_jsonl,
  format_csv,
}
use market_replay.Tests.Ascii.{ascii}
use market_replay.Tests.Validation.{depth}

-- testdata/solusdt_aggtrade.csv
abbrev trade_header : List String
trade_header =
    "event_type" ∷ "symbol" ∷ "trade_id" ∷ "price" ∷ "quantity" ∷ "trade_time" ∷ "is_buyer_maker"
    ∷ []

abbrev trade_fields : List String
trade_fields =
    "aggTrade" ∷ "solusdt" ∷ "9001" ∷ "148.1200" ∷ "12.50" ∷ "1710000001000" ∷ "true" ∷ []

abbrev trade : MarketEvent
trade = record zero_event {
  type = "aggTrade";
  symbol = "SOLUSDT";
  trade_time_ms = pos 1710000001000;
  trade_id = pos 9001;
  price = "148.1200";
  quantity = "12.50";
  is_buyer_maker = some true;
  line = pos 2;
}

trade_row : parse_csv ascii trade_fields (index_header ascii trade_header) (pos 2) ≡ ok trade
unfolding parse_csv csv_int csv_value lookup index_header insert ascii parse_int
    normalize_event_type parse_bool shaped validate_event_shape
trade_row = refl

parse_csv-IsCsvEvent_example :
    IsCsvEvent ascii trade_fields (index_header ascii trade_header) (pos 2) trade
parse_csv-IsCsvEvent_example =
    parse_csv-IsCsvEvent ascii trade_fields (index_header ascii trade_header) (pos 2) trade
      trade_row

validate_event_shape-none_example : (validate_event_shape trade false false true ≡ none) ↔ (
    (IsDepthEvent trade × (◌≡◌ {A = Bool} false true) × (◌≡◌ {A = Bool} false true))
    ⊎ (IsTradeEvent trade × (◌≡◌ {A = Bool} true true)))
validate_event_shape-none_example = validate_event_shape-none trade false false true

-- A decoded line in the legacy spelling, with `prev_sequence` and `sequence`.
abbrev legacy : JsonEvent
legacy = record {
  type = "";
  legacy_type = "Depth";
  symbol = " btcusdt ";
  event_time_ms = pos 1000;
  trade_time_ms = pos 0;
  first_update_id = none;
  final_update_id = none;
  legacy_seq = some (pos 12);
  legacy_prev_seq = some (pos 10);
  trade_id = none;
  price = "";
  quantity = "";
  is_buyer_maker = none;
  bids = record { price = "1"; quantity = "2" } ∷ [];
  asks = [];
}

abbrev pub decode : String → Result String JsonEvent
decode line = ok legacy

abbrev legacy_event : MarketEvent
legacy_event = record (depth "BTCUSDT" 1000 (pos 11) (pos 12)) {
  bids = record { price = "1"; quantity = "2" } ∷ [];
  line = pos 7;
}

legacy_line : parse_json_line ascii decode "{}" (pos 7) ≡ ok legacy_event
unfolding parse_json_line ascii shaped validate_event_shape json_event normalize_event_type inc64
legacy_line = refl

parse_json_line_iff_example : (parse_json_line ascii decode "{}" (pos 7) ≡ ok legacy_event) ↔ (
    (ascii.trim_space "{}" ≢ "")
    × ((raw : JsonEvent) × (decode "{}" ≡ ok raw)
        × IsJsonEvent ascii raw (pos 7) legacy_event
        × IsComplete ascii raw legacy_event))
parse_json_line_iff_example = parse_json_line_iff ascii decode "{}" (pos 7) legacy_event

abbrev pub two_lines : Input
two_lines = record { lines = "{}" ∷ "" ∷ []; scan_error = none; csv_rows = [] }

new_stream-Contents_example :
    ((format_jsonl ≡ format_jsonl)
      × JsonContents ascii decode two_lines (jsonl_stream ascii decode two_lines))
    ⊎ ((format_jsonl ≡ format_csv)
        × CsvContents ascii decode two_lines (jsonl_stream ascii decode two_lines))
unfolding new_stream
new_stream-Contents_example =
    new_stream-Contents ascii decode two_lines (jsonl_stream ascii decode two_lines) format_jsonl
      refl
