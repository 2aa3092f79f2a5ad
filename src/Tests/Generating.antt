-- ===== src/Tests/Generating.antt =====
-- internal/workload: a small workload of trades.
use Prim.Native.String.{len}
use market_replay.Prelude.{
  zero, suc, ap, sym, none, get_elem?, Bool, true, false, ℕ, ◌+◌, ◌≤◌, String, List, [], ◌∷◌, some,
  ◌≡◌, refl, arith,
}
use market_replay.Prelude.Int.{ℤ, pos, add64, sub64, inc64}
use market_replay.Parser.Text.{parse_int}
use market_replay.Parser.Decimal.{format_int, format_digits, digit}
use market_replay.Prelude.Dict.{lookup, insert}
use market_replay.Prelude.Result.{ok}
use market_replay.Workload.{GenerateOptions, mul64, quot64, Progress}
use market_replay.Workload.Csv.{
  header_index, new_csv_normalizer, note_trade, note_trades, normalize_csv, generate_csv,
}
use market_replay.Workload.Loop.{IsProgress}
use market_replay.Workload.Written.{total_size}
use market_replay.Workload.Normalized.{TradesFrom}
use market_replay.Workload.TradeIds.{IsWorkload, generate_csv-IsWorkload}
use market_replay.Workload.Jsonl.{
  JsonObjects, new_jsonl_normalizer, note_lines, normalize_jsonl, generate_jsonl,
}
use market_replay.Workload.Lines.{generate_jsonl-IsProgress}
use market_replay.Tests.Working.{plain}

abbrev options : GenerateOptions
options = record { source_path = "a.csv"; output_path = "b.csv"; target_bytes = pos 60 }

-- Each record takes 10 bytes.
abbrev ten : List String → ℕ
ten row = 10

abbrev header : List String
header = "trade_id" ∷ "trade_time" ∷ []

abbrev first_trade : List String
first_trade = "7" ∷ "100" ∷ []

abbrev later_trades : List (List String)
later_trades = ("8" ∷ "105" ∷ []) ∷ []

has_id : lookup "trade_id" (header_index plain 0 header []) ≡ some 0
unfolding lookup header_index insert
has_id = refl

has_time : lookup "trade_time" (header_index plain 0 header []) ≡ some 1
unfolding lookup header_index insert
has_time = refl

trades : TradesFrom 0 1 7 (first_trade ∷ later_trades)
unfolding parse_int
trades = (refl, (pos 100, refl), (refl, (pos 105, refl), tt))

generate_csv-IsWorkload_example :
    (q : Progress (List String)) × (generate_csv plain ten 61 options
        (ok (header ∷ first_trade ∷ later_trades))
      ≡ ok (some q))
    × IsWorkload 0 1 7 10 60 10 ten q
generate_csv-IsWorkload_example =
    generate_csv-IsWorkload 0 1 plain ten 61 60 10 7 options header first_trade later_trades has_id
      has_time (λ h. omega (arith, h)) trades refl (omega arith) (omega arith)
      (λ i k source here. (omega arith, omega arith)) (omega arith)

-- The fifth row that is written, in the third cycle: both id and time are shifted.
fifth_row :
    normalize_csv
      (new_csv_normalizer (header_index plain 0 header []) (first_trade ∷ later_trades))
      first_trade
      (pos 4)
    ≡ "11" ∷ "112" ∷ []
unfolding lookup header_index insert new_csv_normalizer normalize_csv note_trade note_trades add64
    sub64 inc64 mul64 quot64 format_int format_digits digit parse_int
fifth_row = refl

-- Objects that no text is decoded to: the lines are repeated as they are.
abbrev no_objects : JsonObjects String
no_objects = record {
  unmarshal = λ line. none;
  event_type = λ obj. none;
  int_field = λ name obj. none;
  marshal_with = λ first final time obj. none;
}

as_they_are :
    (line : String) (k : ℤ)
    → normalize_jsonl no_objects (new_jsonl_normalizer no_objects ("{}\n" ∷ [])) line k ≡ line
unfolding normalize_jsonl new_jsonl_normalizer note_lines
as_they_are line k = refl

three_bytes : (i : ℕ) (line : String) → get_elem? ("{}\n" ∷ []) i ≡ some line → len line ≡ 3
three_bytes zero line h = ap (λ o. elim o [ none ↦ 3 | some l ↦ len l ]) (sym h)
three_bytes (suc i) line h = let wrong : ◌≡◌ {A = Bool} true false = cc in cc

generate_jsonl-IsProgress_example :
    (q : Progress String) × (generate_jsonl no_objects 61 options (ok ("{}\n" ∷ [])) ≡ ok (some q))
    × IsProgress
        (normalize_jsonl no_objects (new_jsonl_normalizer no_objects ("{}\n" ∷ [])))
        len
        0
        60
        3
        ("{}\n" ∷ [])
        q
    × (60 ≤ 0 + total_size len q.written)
generate_jsonl-IsProgress_example =
    generate_jsonl-IsProgress no_objects 61 60 3 options "{}\n" [] refl (omega arith) (omega arith)
      (λ i k line here. (
        omega (arith, three_bytes i line here, ap len (as_they_are line (pos k))),
        omega (arith, three_bytes i line here, ap len (as_they_are line (pos k))),
      ))
      (omega arith)
