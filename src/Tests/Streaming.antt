-- ===== src/Tests/Streaming.antt =====
-- internal/kafkastream: two lines are published, and a message that does not parse is routed.
use market_replay.Prelude.{List, Option, [], ◌∷◌, none, refl, true, ◌≡◌, ◌↔◌, length, arith}
use market_replay.Prelude.Int.{pos, tally}
use market_replay.Prelude.Result.{ok}
use market_replay.Parser.Record.{zero_event}
use market_replay.Kafka.{Message}
use market_replay.Kafka.Publish.{PublishError, publish_stream_with_topics}
use market_replay.Kafka.Sending.{Sends, publish_stream-Contents}
use market_replay.Parser.Stream.{Contents, jsonl_stream, json_records, json_Contents}
use market_replay.Tests.Ascii.{ascii}
use market_replay.Tests.Parsing.{decode, two_lines}
use market_replay.Kafka.Routing.{route, route_validated_iff, validated, IsAccepted}
use market_replay.Kafka.Polling.{ValidatorOptions, run_validator, Answers, run_validator-Answers}
use market_replay.Validate.{new_validator}
use market_replay.Tests.Working.{plain, no_json}

-- A depth event in the old spelling, and an empty line.
two_Contents :
    Contents ascii decode
      (jsonl_stream ascii decode two_lines)
      (json_records ascii decode (pos 0) two_lines.lines)
      none
two_Contents =
    json_Contents ascii decode two_lines.lines none (jsonl_stream ascii decode two_lines) refl refl
      refl

-- The first is sent, and publishing stops at the second.
publish_stream-Contents_example :
    (ms : List Message) × (x : Option PublishError) × (publish_stream_with_topics ascii decode
        (λ ev. ok "{}")
        (λ m. none)
        "d"
        "t"
        3
        (jsonl_stream ascii decode two_lines)
      ≡ record { sent = ms; produced = tally (length ms); failure = x })
    × Sends
        (λ ev. ok "{}")
        (λ m. none)
        "d"
        "t"
        (json_records ascii decode (pos 0) two_lines.lines)
        none
        ms
        x
publish_stream-Contents_example =
    publish_stream-Contents (λ ev. ok "{}") (λ m. none) "d" "t" ascii decode two_Contents 3
      (omega arith)

abbrev a_message : Message
a_message = record {
  topic = "market.depth.raw";
  key = "BTCUSDT";
  value = "{";
  partition = pos 0;
  offset = pos 4;
  lag = pos 0;
}

route_validated_iff_example :
    ((route plain no_json (λ ev. ok "{}") (λ e. ok "{}") a_message (new_validator "" (pos 1))).1
      ≡ validated zero_event)
    ↔ IsAccepted plain no_json
        (λ ev. ok "{}")
        (λ e. ok "{}")
        a_message
        (new_validator "" (pos 1))
        zero_event
route_validated_iff_example =
    route_validated_iff plain no_json (λ ev. ok "{}") (λ e. ok "{}") a_message
      (new_validator "" (pos 1)) zero_event

abbrev watching : ValidatorOptions
watching = record { group = ""; observes_lag = true }

run_validator-Answers_example :
    Answers plain no_json
      (λ ev. ok "{}")
      (λ e. ok "{}")
      (λ m. none)
      watching
      (a_message ∷ a_message ∷ [])
      "closed"
      (new_validator "" (pos 1))
      (run_validator plain no_json
        (λ ev. ok "{}")
        (λ e. ok "{}")
        (λ m. none)
        watching
        (a_message ∷ a_message ∷ [])
        "closed"
        (new_validator "" (pos 1)))
run_validator-Answers_example =
    run_validator-Answers plain no_json (λ ev. ok "{}") (λ e. ok "{}") (λ m. none) watching
      (λ ev. ("{}", refl)) (λ e. ("{}", refl)) (λ m. refl) (a_message ∷ a_message ∷ []) "closed"
      (new_validator "" (pos 1))
