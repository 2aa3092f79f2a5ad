-- ===== src/Kafka/Publish.antt =====
-- internal/kafkastream/publish.go: publishing the events of a stream to the raw topics.
use market_replay.Prelude.{
  ℕ, zero, suc, ◌<◌, String, List, [], ◌∷◌, ◌++◌, Option, none, some, if◌then◌else◌, ◌==◌, ◌≡◌,
  arith, length, append_assoc, append-nil, ap, sym, ◌∙◌, length-append,
}
use market_replay.Prelude.Int.{ℤ, pos, inc64, tally, tally-zero, inc64-tally}
use market_replay.Prelude.Result.{Result, ok, err}
use market_replay.Error.{Error}
use market_replay.Event.{MarketEvent}
use market_replay.Parser.Record.{Record}
use market_replay.Parser.Text.{Unicode}
use market_replay.Parser.Jsonl.{JsonEvent}
use market_replay.Parser.Stream.{
  Stream, Next, eof, failed, got, next, Contents, at_eof, at_error, more,
}
use market_replay.Kafka.{
  Message, topic_market_depth_raw, topic_market_trade_raw, raw_topic_for_event_type,
}

-- The errors but the first have the line of their record.
pub data PublishError : Type 0 where
  stream_failed : Error → PublishError
  record_failed : ℤ → Error → PublishError
  unsupported_type marshal_failed produce_failed : ℤ → String → PublishError
  out_of_fuel : PublishError

-- `rawTopicForEventType`, with the topics of the caller.
unfoldable pub topic_for : String → String → String → Result String String
unfolding raw_topic_for_event_type
topic_for type depth_topic trade_topic = elim (raw_topic_for_event_type type) [
  | err e ↦ err e
  | ok topic ↦
      if topic == topic_market_depth_raw
      then ok depth_topic
      else if topic == topic_market_trade_raw
      then ok trade_topic
      else ok topic
]

-- The messages that were produced, the number of them as the code counts it, and the error.
pub record Published : Type 0 where
  pub sent : List Message
  pub produced : ℤ
  pub failure : Option PublishError

abbrev pub stopped : List Message → ℤ → PublishError → Published
stopped sent produced e = record { sent = sent; produced = produced; failure = some e }

module _ (u : Unicode) (decode : String → Result String JsonEvent)
    (marshal : MarketEvent → Result String String) (produce : Message → Option String)
    (depth_topic trade_topic : String) where
  -- The message for a record, or the reason that there is none.
  unfoldable pub record_message : Record → Result PublishError Message
  record_message r = elim r.err [
    | some e ↦ err (record_failed r.line e)
    | none ↦ elim (topic_for r.event.type depth_topic trade_topic) [
      | err e ↦ err (unsupported_type r.line e)
      | ok topic ↦ elim (marshal r.event) [
        | err e ↦ err (marshal_failed r.line e)
        | ok value ↦ ok (record {
          topic = topic;
          key = r.event.symbol;
          value = value;
          partition = pos 0;
          offset = pos 0;
          lag = pos 0;
        })
      ]
    ]
  ]

  -- One record: its message is sent, or the reason that it is not.
  unfoldable pub publish_record : Record → Result PublishError Message
  publish_record r = elim (record_message r) [
    | err e ↦ err e
    | ok message ↦ elim (produce message) [
      | some e ↦ err (produce_failed r.line e)
      | none ↦ ok message
    ]
  ]

  -- The rest of a round, with the rounds that follow it as `go`.
  unfoldable pub publish_round :
      (List Message → ℤ → Stream → Published) → List Message → ℤ → Next → Stream → Published
  publish_round go sent produced eof t = record { sent = sent; produced = produced; failure = none }
  publish_round go sent produced (failed e) t = stopped sent produced (stream_failed e)
  publish_round go sent produced (got r) t = elim (publish_record r) [
    | err e ↦ stopped sent produced e
    | ok message ↦ go (sent ++ (message ∷ [])) (inc64 produced) t
  ]

  unfoldable pub publish_loop : ℕ → List Message → ℤ → Stream → Published
  publish_loop zero sent produced s = stopped sent produced out_of_fuel
  publish_loop (suc n) sent produced s =
      publish_round (publish_loop n) sent produced (next u decode s).0 (next u decode s).1

  -- `PublishStreamWithTopics`
  unfoldable pub publish_stream_with_topics : ℕ → Stream → Published
  publish_stream_with_topics fuel s = publish_loop fuel [] (pos 0) s

  -- What is to be sent for the records, up to the first that cannot be sent.
  unfoldable pub sendable : List Record → Option Error → List Message × Option PublishError
  sendable [] none = ([], none)
  sendable [] (some e) = ([], some (stream_failed e))
  sendable (r ∷ rs) e =
      let rest = sendable rs e in
      elim (publish_record r) [ err x ↦ ([], some x) | ok message ↦ (message ∷ rest.0, rest.1) ]

  -- What is published when `rest` is still to be sent.
  abbrev published : List Message → List Message × Option PublishError → Published
  published sent rest = record {
    sent = sent ++ rest.0;
    produced = tally (length (sent ++ rest.0));
    failure = rest.1;
  }

  sent_one_more :
      (sent : List Message) (message : Message)
      → tally (length (sent ++ (message ∷ []))) ≡ inc64 (tally (length sent))
  sent_one_more sent message =
      ap tally (length-append sent (message ∷ [])) ∙ sym (inc64-tally (length sent))

  after_record :
      (o : Result PublishError Message) (go : List Message → ℤ → Stream → Published)
      (sent : List Message) (t : Stream) (rest : List Message × Option PublishError)
      → ((sent' : List Message) → go sent' (tally (length sent')) t ≡ published sent' rest)
      → (elim o [
        | err e ↦ stopped sent (tally (length sent)) e
        | ok message ↦ go (sent ++ (message ∷ [])) (inc64 (tally (length sent))) t
      ])
        ≡ published sent (elim o [ err x ↦ ([], some x) | ok message ↦ (message ∷ rest.0, rest.1) ])
  after_record (err e) go sent t rest ih = rw (append-nil sent)
  after_record (ok message) go sent t rest ih =
      ap (λ n. go (sent ++ (message ∷ [])) n t) (sym (sent_one_more sent message))
      ∙ ih (sent ++ (message ∷ []))
      ∙ ap (λ l. record { sent = l; produced = tally (length l); failure = rest.1 })
          (append_assoc sent (message ∷ []) rest.0)

  publish_loop-Contents :
      {s : Stream} {rs : List Record} {e : Option Error}
      → Contents u decode s rs e
      → (n : ℕ) (sent : List Message) → length rs < n
      → publish_loop n sent (tally (length sent)) s ≡ record {
        sent = sent ++ (sendable rs e).0;
        produced = tally (length (sent ++ (sendable rs e).0));
        failure = (sendable rs e).1;
      }
  unfolding publish_loop publish_round sendable
  publish_loop-Contents c zero sent h = elim h [ ]
  publish_loop-Contents (at_eof p) (suc n) sent h = rw (p, append-nil sent)
  publish_loop-Contents (at_error p) (suc n) sent h = rw (p, append-nil sent)
  publish_loop-Contents {e} (more {t} {r} {rs = rest} p c) (suc n) sent h = rw p (
      after_record (publish_record r) (publish_loop n) sent t (sendable rest e)
        (λ sent'. publish_loop-Contents c n sent' (omega (arith, h))))

  pub publish_stream-sendable :
      {s : Stream} {rs : List Record} {e : Option Error}
      → Contents u decode s rs e
      → (fuel : ℕ) → length rs < fuel
      → publish_stream_with_topics fuel s ≡ record {
        sent = (sendable rs e).0;
        produced = tally (length (sendable rs e).0);
        failure = (sendable rs e).1;
      }
  unfolding publish_stream_with_topics
  publish_stream-sendable {s = s} c fuel h =
      ap (λ n. publish_loop fuel [] n s) (sym tally-zero) ∙ publish_loop-Contents c fuel [] h
