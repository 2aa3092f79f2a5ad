-- ===== src/Kafka/Polling.antt =====
-- internal/kafkastream/validator.go: the loop of Run. What Poll delivers is a list of messages with an error at
-- its end; `produce` is the producer, with the error that it returns for a message.
use market_replay.Prelude.{
  suc, String, Bool, List, [], ◌∷◌, ◌++◌, Option, none, some, if◌then◌else◌, ◌==◌, ◌≡◌, ◌⊎◌, inl,
  inr, refl, ap, ◌∙◌, subst, sym, All, length, arith,
}
use market_replay.Prelude.Int.{ℤ, pos, leb_ℤ}
use market_replay.Prelude.Result.{Result, ok, err}
use market_replay.Event.{MarketEvent}
use market_replay.Parser.Text.{Unicode}
use market_replay.Parser.Jsonl.{JsonEvent}
use market_replay.Validate.{Validator}
use market_replay.Kafka.{Message, topic_market_replay_validated, topic_market_replay_errors}
use market_replay.Kafka.Routing.{
  ErrorEnvelope, Route, validated, rejected, outgoing, envelope, route, routed_message,
  process_message,
}

abbrev pub group_replay_validator : String
group_replay_validator = "replay-validator"

pub record ValidatorOptions : Type 0 where
  pub group : String
  pub observes_lag : Bool

-- The options in NewValidatorWithOptions.
unfoldable pub with_default_group : ValidatorOptions → ValidatorOptions
with_default_group opts = record opts {
  group = if opts.group == "" then group_replay_validator else opts.group;
}

-- A call of the LagObserver.
pub record LagReport : Type 0 where
  pub group : String
  pub topic : String
  pub partition : ℤ
  pub lag : ℤ

-- What Run ends with.
pub data RunError : Type 0 where
  poll_failed marshal_failed produce_failed : String → RunError

-- The state at the end, the messages that the producer took or refused, the lags that were observed.
pub record Polled : Type 0 where
  pub state : Validator
  pub sent : List Message
  pub lags : List LagReport
  pub error : RunError

-- `if v.opts.LagObserver != nil && msg.Lag >= 0`
unfoldable pub lag_reports : ValidatorOptions → Message → List LagReport
lag_reports opts msg =
    if opts.observes_lag
    then if leb_ℤ (pos 0) msg.lag
      then (record {
        group = opts.group;
        topic = msg.topic;
        partition = msg.partition;
        lag = msg.lag;
      })
        ∷ []
      else []
    else []

module _ (u : Unicode) (decode : String → Result String JsonEvent)
    (encode : MarketEvent → Result String String)
    (encode_error : ErrorEnvelope → Result String String) (produce : Message → Option String)
    (opts : ValidatorOptions) where
  -- What a round adds in front of the rounds behind it.
  abbrev before : List Message → List LagReport → Polled → Polled
  before sent lags rest = record rest { sent = sent ++ rest.sent; lags = lags ++ rest.lags }

  -- A round, from the message's processing on, with the rounds behind it.
  unfoldable pub poll_round : List LagReport → Validator → Result String Message → Polled → Polled
  poll_round lags v (err e) rest = record {
    state = v;
    sent = [];
    lags = lags;
    error = marshal_failed e;
  }
  poll_round lags v (ok out) rest = elim (produce out) [
    | some e ↦ record { state = v; sent = out ∷ []; lags = lags; error = produce_failed e }
    | none ↦ before (out ∷ []) lags rest
  ]

  unfoldable pub run_validator : List Message → String → Validator → Polled
  run_validator [] e v = record { state = v; sent = []; lags = []; error = poll_failed e }
  run_validator (msg ∷ msgs) e v =
      let done = process_message u decode encode encode_error msg v in
      let rest = run_validator msgs e done.0 in
      poll_round (lag_reports (with_default_group opts) msg) done.0 done.1 rest

  -- The validator after the messages, and the observed lags.
  abbrev state_after : List Message → Validator → Validator
  state_after [] v = v
  state_after (msg ∷ msgs) v = state_after msgs (route u decode encode encode_error msg v).0

  abbrev lags_of : List Message → List LagReport
  lags_of [] = []
  lags_of (msg ∷ msgs) = lag_reports (with_default_group opts) msg ++ lags_of msgs

  abbrev IsOutput : Message → Type 0
  IsOutput m = (m.topic ≡ topic_market_replay_validated) ⊎ (m.topic ≡ topic_market_replay_errors)

  -- Each message that was sent is what its message was routed to; the lists are as long as each other.
  abbrev AreRouted : List Message → Validator → List Message → Type 0
  AreRouted (msg ∷ msgs) v (m ∷ sent) =
      let routed = route u decode encode encode_error msg v in
      (routed_message u decode encode encode_error msg routed.1 ≡ ok m)
      × AreRouted msgs routed.0 sent
  AreRouted msgs v sent = Unit

  -- What Run does with messages when nothing fails but the consumer.
  pub record Answers (msgs : List Message) (e : String) (v : Validator) (out : Polled)
      : Type 0 where
    pub ended : out.error ≡ poll_failed e
    pub one_each : length out.sent ≡ length msgs
    pub routed_each : AreRouted msgs v out.sent
    pub to_outputs : All IsOutput out.sent
    pub kept_state : out.state ≡ state_after msgs v
    pub observed : out.lags ≡ lags_of msgs

  -- A message that is routed gives one for the producer.
  routed-IsOutput :
      ((ev : MarketEvent) → (value : String) × (encode ev ≡ ok value))
      → ((envelope : ErrorEnvelope) → (value : String) × (encode_error envelope ≡ ok value))
      → (msg : Message) (r : Route)
      → (m : Message) × (routed_message u decode encode encode_error msg r ≡ ok m) × IsOutput m
  unfolding routed_message
  routed-IsOutput encodes encodes_error msg (validated ev) =
      let (value, made) = encodes ev in
      (outgoing topic_market_replay_validated ev.symbol value, ground (arith, made), inl refl)
  routed-IsOutput encodes encodes_error msg (rejected symbol cause) =
      let (value, made) = encodes_error (envelope u decode encode encode_error msg symbol cause) in
      (
        outgoing topic_market_replay_errors (if symbol == "" then msg.key else symbol) value,
        ground (arith, made),
        inr refl,
      )

  sent_round :
      (lags : List LagReport) (v : Validator) (m : Message) (rest : Polled)
      → produce m ≡ none
      → poll_round lags v (ok m) rest ≡ before (m ∷ []) lags rest
  unfolding poll_round
  sent_round lags v m rest taken = ground (arith, taken)

  -- When the encodings and the producer do not fail, Run ends with the consumer's error only: every message that
  -- was polled has been answered by exactly one, in the order of polling, the one it is routed to after the messages
  -- before it, on the topic of validated events or on that of errors; and where lags are observed, each lag
  -- that is known was observed, under the default group where none was given.
  pub run_validator-Answers :
      ((ev : MarketEvent) → (value : String) × (encode ev ≡ ok value))
      → ((envelope : ErrorEnvelope) → (value : String) × (encode_error envelope ≡ ok value))
      → ((m : Message) → produce m ≡ none)
      → (msgs : List Message) (e : String) (v : Validator)
      → Answers msgs e v (run_validator msgs e v)
  unfolding run_validator process_message
  run_validator-Answers encodes encodes_error produces [] e v = record {
    ended = refl;
    one_each = refl;
    routed_each = tt;
    to_outputs = tt;
    kept_state = refl;
    observed = refl;
  }
  run_validator-Answers encodes encodes_error produces (msg ∷ msgs) e v =
      let routed = route u decode encode encode_error msg v in
      let (m, made, output) = routed-IsOutput encodes encodes_error msg routed.1 in
      let rest = run_validator msgs e routed.0 in
      let done = run_validator-Answers encodes encodes_error produces msgs e routed.0 in
      subst (Answers (msg ∷ msgs) e v)
        (sym (
          ap (λ out. poll_round (lag_reports (with_default_group opts) msg) routed.0 out rest) made
          ∙ sent_round (lag_reports (with_default_group opts) msg) routed.0 m rest (produces m)))
        (record {
          ended = done.ended;
          one_each = ap suc done.one_each;
          routed_each = (made, done.routed_each);
          to_outputs = (output, done.to_outputs);
          kept_state = done.kept_state;
          observed = ap (λ lags. lag_reports (with_default_group opts) msg ++ lags) done.observed;
        })
