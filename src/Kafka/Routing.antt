-- ===== src/Kafka/Routing.antt =====
-- internal/kafkastream/validator.go: the validator that reads raw topics and routes each message.
-- `encode` and `encode_error` are json.Marshal on an event and on an error envelope.
use market_replay.Prelude.{
  String, Bool, true, false, not, ◌&&◌, List, [], ◌∷◌, none, some, if◌then◌else◌, ◌==◌, ◌≡◌, ◌↔◌,
  ◌⊎◌, inl, inr, eq_iff, arith, length, ltb,
}
use market_replay.Prelude.Int.{ℤ, pos, inc64}
use market_replay.Prelude.Result.{Result, ok, err, Result-cases}
use market_replay.Error.{Error}
use market_replay.Event
use market_replay.Event.{MarketEvent, ValidationFailure}
use market_replay.Parser.Record.{Record}
use market_replay.Parser.Text.{Unicode}
use market_replay.Parser.Jsonl.{JsonEvent, parse_json_line}
use market_replay.Validate.{Validator, process}
use market_replay.Kafka.{
  Message, topic_market_replay_validated, topic_market_replay_errors, raw_topic_for_event_type,
}

-- What an error envelope says.
pub data Cause : Type 0 where
  not_parsed : Error → Cause
  unsupported : String → Cause
  wrong_topic : String → String → Cause
  invalid : Event.Message → Cause

pub record ErrorEnvelope : Type 0 where
  pub source_topic : String
  pub symbol : String
  pub partition : ℤ
  pub offset : ℤ
  pub error : Cause
  pub payload : String

-- Where a message goes: to the validated events, or to the errors with a symbol and a cause.
pub data Route : Type 0 where
  validated : MarketEvent → Route
  rejected : String → Cause → Route

-- The message of the last failure.
unfoldable pub last_failure : List ValidationFailure → Event.Message
last_failure [] = Event.text ""
last_failure (f ∷ []) = f.message
last_failure (f ∷ g ∷ fs) = last_failure (g ∷ fs)

abbrev pub outgoing : String → String → String → Message
outgoing topic key value = record {
  topic = topic;
  key = key;
  value = value;
  partition = pos 0;
  offset = pos 0;
  lag = pos 0;
}

-- The record that an event of a message is validated as.
abbrev pub message_record : Message → MarketEvent → Record
message_record msg ev = record {
  line = inc64 msg.offset;
  event = ev;
  raw = some msg.value;
  err = none;
}

module _ (u : Unicode) (decode : String → Result String JsonEvent)
    (encode : MarketEvent → Result String String)
    (encode_error : ErrorEnvelope → Result String String) where
  -- `msg.Topic != "" && msg.Topic != expectedTopic`
  abbrev pub misplaced : Message → String → Bool
  misplaced msg expected = not (msg.topic == "") && not (msg.topic == expected)

  -- `Process` from `before := len(...)` on.
  unfoldable pub route_valid : MarketEvent → Validator → Validator → Validator × Route
  route_valid ev v v' = (
    v',
    if ltb (length v.result.failures) (length v'.result.failures)
        then rejected ev.symbol (invalid (last_failure v'.result.failures))
        else validated ev,
  )

  unfoldable pub route_event : Message → MarketEvent → Validator → Validator × Route
  route_event msg ev v = elim (raw_topic_for_event_type ev.type) [
    | err e ↦ (v, rejected ev.symbol (unsupported e))
    | ok expected ↦
        if misplaced msg expected
        then (v, rejected ev.symbol (wrong_topic msg.topic expected))
        else route_valid ev v (process v (message_record msg ev))
  ]

  unfoldable pub route : Message → Validator → Validator × Route
  route msg v = elim (parse_json_line u decode msg.value (inc64 msg.offset)) [
    | err e ↦ (v, rejected "" (not_parsed e))
    | ok ev ↦ route_event msg ev v
  ]

  unfoldable pub envelope : Message → String → Cause → ErrorEnvelope
  envelope msg symbol cause = record {
    source_topic = msg.topic;
    symbol = if symbol == "" then msg.key else symbol;
    partition = msg.partition;
    offset = msg.offset;
    error = cause;
    payload = msg.value;
  }

  -- The message that is produced; an error is one of the encoding.
  unfoldable pub routed_message : Message → Route → Result String Message
  routed_message msg (validated ev) = elim (encode ev) [
    | err e ↦ err e
    | ok value ↦ ok (outgoing topic_market_replay_validated ev.symbol value)
  ]
  routed_message msg (rejected symbol cause) = elim (encode_error (envelope msg symbol cause)) [
    | err e ↦ err e
    | ok value ↦
        ok (outgoing topic_market_replay_errors (if symbol == "" then msg.key else symbol) value)
  ]

  -- `Process`: the new state, and the message for the producer.
  unfoldable pub process_message : Message → Validator → Validator × Result String Message
  process_message msg v = ((route msg v).0, routed_message msg (route msg v).1)

  -- What a message must be to count as validated.
  pub record IsAccepted (msg : Message) (v : Validator) (ev : MarketEvent) : Type 0 where
    pub parsed : parse_json_line u decode msg.value (inc64 msg.offset) ≡ ok ev
    pub placed : (msg.topic ≡ "") ⊎ (raw_topic_for_event_type ev.type ≡ ok msg.topic)
    pub known : (topic : String) × (raw_topic_for_event_type ev.type ≡ ok topic)
    pub no_failure :
        ltb (length v.result.failures) (length (process v (message_record msg ev)).result.failures)
        ≡ false

  route-IsAccepted :
      (msg : Message) (v : Validator) (ev : MarketEvent)
      → IsAccepted msg v ev
      → (route msg v).1 ≡ validated ev
  unfolding route route_event route_valid
  route-IsAccepted msg v ev a = ground (
    arith,
    a.parsed,
    a.known,
    a.placed,
    a.no_failure,
    eq_iff msg.topic "",
    eq_iff msg.topic a.known.0,
  )

  IsAccepted-route :
      (msg : Message) (v : Validator) (ev : MarketEvent)
      → (route msg v).1 ≡ validated ev
      → IsAccepted msg v ev
  unfolding route route_event route_valid
  IsAccepted-route msg v ev h =
      let parsed : parse_json_line u decode msg.value (inc64 msg.offset) ≡ ok ev =
        ground (arith, h) in
      elim (Result-cases (raw_topic_for_event_type ev.type)) [
        | inl (x, t) ↦ let wrong : ◌≡◌ {A = Bool} false true = ground (arith, h, parsed, t) in cc
        | inr (topic, t) ↦ record {
          parsed = parsed;
          placed = ground (arith, h, parsed, t, eq_iff msg.topic "", eq_iff msg.topic topic);
          known = (topic, t);
          no_failure = ground (arith, h, parsed, t);
        }
      ]

  -- A message is routed to the validated events, with the event that it holds, exactly when its value
  -- parses to that event, of a known type, its topic is the raw topic of that type or missing, and
  -- validating the event adds no failure.
  pub route_validated_iff :
      (msg : Message) (v : Validator) (ev : MarketEvent)
      → ((route msg v).1 ≡ validated ev) ↔ IsAccepted msg v ev
  route_validated_iff msg v ev = (IsAccepted-route msg v ev, route-IsAccepted msg v ev)
