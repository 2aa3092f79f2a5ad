-- ===== src/Tests/Replaying.antt =====
-- internal/validate and internal/replay over whole streams.
use market_replay.Prelude.{◌*◌, List, [], ◌∷◌, none, some, ◌≡◌, refl, arith}
use market_replay.Prelude.Int.{pos, sub64}
use market_replay.Prelude.Result.{ok}
use market_replay.Event.{MarketEvent, event_time_millis}
use market_replay.Parser.Record.{Record}
use market_replay.Parser.Stream.{Stream, jsonl_stream, Contents, json_Contents, json_records}
use market_replay.Validate.{new_validator, process_all, result}
use market_replay.Validate.Drive.{validate_stream, validate_stream-Contents}
use market_replay.Replay.{speed_10x, speed_1x, pause, sleep_for_event}
use market_replay.Replay.Loop.{
  replay_stream, replay_stream-Contents, replay_all, start, summary, replay_record,
}
use market_replay.Replay.Pace.{total, replay_sleeps}
use market_replay.Tests.Ascii.{ascii}
use market_replay.Tests.Validation.{depth, parsed}
use market_replay.Tests.Parsing.{decode, two_lines}

abbrev stream : Stream
stream = jsonl_stream ascii decode two_lines

abbrev records : List Record
records = json_records ascii decode (pos 0) two_lines.lines

contents : Contents ascii decode stream records none
contents = json_Contents ascii decode two_lines.lines none stream refl refl refl

validate_stream-Contents_example :
    validate_stream ascii decode (pos 9) 3 (pos 1) "" stream
    ≡ some (ok (result (process_all (new_validator "" (pos 1)) records) (pos 9)))
validate_stream-Contents_example =
    validate_stream-Contents ascii decode (pos 9) contents 3 (pos 1) "" (omega arith)

replay_stream-Contents_example :
    replay_stream ascii decode "" speed_1x 3 (pos 1) stream
    ≡ some (
      ok (summary (process_all (new_validator "" (pos 1)) records)),
      (replay_all "" speed_1x (start "" (pos 1)) records).sleeps,
    )
replay_stream-Contents_example =
    replay_stream-Contents ascii decode "" speed_1x contents 3 (pos 1) (omega arith)

-- Two events of BTCUSDT half a second apart, with one of ETHUSDT between them.
abbrev first : MarketEvent
first = depth "BTCUSDT" 1000 (pos 1) (pos 2)

abbrev second : MarketEvent
second = depth "BTCUSDT" 1500 (pos 3) (pos 4)

abbrev paced : List Record
paced = parsed first ∷ parsed (depth "ETHUSDT" 9000 (pos 1) (pos 2)) ∷ parsed second ∷ []

replay_sleeps_example :
    total (replay_all "BTCUSDT" speed_10x (start "BTCUSDT" (pos 0)) paced).sleeps ≡ 100000 * 500
unfolding event_time_millis
replay_sleeps_example =
    replay_sleeps "BTCUSDT" speed_10x (pos 0) paced first (second ∷ []) refl (omega arith)
      (omega arith, omega arith, omega arith, tt)

paced_sleeps :
    (replay_all "BTCUSDT" speed_10x (start "BTCUSDT" (pos 0)) paced).sleeps ≡ pos 50000000 ∷ []
unfolding replay_all replay_record sleep_for_event pause event_time_millis sub64
paced_sleeps = refl
