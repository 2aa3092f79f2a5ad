-- ===== src/Kafka/Sending.antt =====
-- internal/kafkastream/publish.go: what is sent for the records of a stream.
use market_replay.Prelude.{
  ℕ, ◌<◌, String, List, [], ◌∷◌, Option, none, some, ◌==◌, sym, subst, ◌≡◌, ◌≢◌, refl, ◌⊎◌, inl,
  inr, arith, length, eq_iff, Bool-cases, Option-cases,
}
use market_replay.Prelude.Int.{pos, tally}
use market_replay.Prelude.Result.{Result, ok, err, Result-cases}
use market_replay.Error.{Error}
use market_replay.Event.{MarketEvent, event_type_depth, event_type_agg_trade}
use market_replay.Parser.Record.{Record}
use market_replay.Parser.Text.{Unicode}
use market_replay.Parser.Jsonl.{JsonEvent}
use market_replay.Parser.Stream.{Stream, Contents}
use market_replay.Kafka.{
  Message, topic_market_depth_raw, topic_market_trade_raw, topics_ne, raw_topic_for_event_type,
}
use market_replay.Kafka.Publish.{
  PublishError, stream_failed, record_failed, unsupported_type, marshal_failed, produce_failed,
  topic_for, record_message, publish_record, publish_stream_with_topics, sendable,
  publish_stream-sendable,
}

module _ (marshal : MarketEvent → Result String String) (produce : Message → Option String)
    (depth_topic trade_topic : String) where
  -- The topic for events of a type.
  pub data IsTopic : String → String → Type 0 where
    for_depth : IsTopic event_type_depth depth_topic
    for_trades : IsTopic event_type_agg_trade trade_topic

  -- The message carries the record's event, to the topic of its type, under its symbol.
  pub record IsMessageOf (r : Record) (m : Message) : Type 0 where
    pub parsed : r.err ≡ none
    pub to_topic : IsTopic r.event.type m.topic
    pub by_symbol : m.key ≡ r.event.symbol
    pub encoded : marshal r.event ≡ ok m.value
    pub unread : (m.partition ≡ pos 0) × (m.offset ≡ pos 0) × (m.lag ≡ pos 0)

  -- Why publishing stops at a record; each reason has the record's line.
  pub data StopsAt (r : Record) : PublishError → Type 0 where
    malformed : (e : Error) → r.err ≡ some e → StopsAt r (record_failed r.line e)
    no_topic :
        r.err ≡ none
        → r.event.type ≢ event_type_depth
        → r.event.type ≢ event_type_agg_trade
        → StopsAt r (unsupported_type r.line r.event.type)
    not_encoded :
        (e : String) → r.err ≡ none → marshal r.event ≡ err e → StopsAt r (marshal_failed r.line e)
    refused :
        (m : Message) (e : String)
        → IsMessageOf r m
        → produce m ≡ some e
        → StopsAt r (produce_failed r.line e)

  -- The messages for the records of a stream that ends with the error, and the error of publishing.
  pub data Sends : List Record → Option Error → List Message → Option PublishError → Type 0 where
    at_end : Sends [] none [] none
    at_failure : (e : Error) → Sends [] (some e) [] (some (stream_failed e))
    sent :
        {r : Record} {rs : List Record} {e : Option Error} {m : Message} {ms : List Message}
        {x : Option PublishError}
        → IsMessageOf r m
        → produce m ≡ none
        → Sends rs e ms x
        → Sends (r ∷ rs) e (m ∷ ms) x
    stopped_at :
        {r : Record} {rs : List Record} {e : Option Error} {x : PublishError}
        → StopsAt r x
        → Sends (r ∷ rs) e [] (some x)

  -- The two ways that a topic is looked up.
  Looked : String → Result String String → Type 0
  Looked type out =
      ((topic : String) × (out ≡ ok topic) × IsTopic type topic)
      ⊎ ((out ≡ err type) × (type ≢ event_type_depth) × (type ≢ event_type_agg_trade))

  topic_for-Looked : (type : String) → Looked type (topic_for type depth_topic trade_topic)
  unfolding Looked topic_for raw_topic_for_event_type
  topic_for-Looked type = elim (Bool-cases (type == event_type_depth)) [
    | inl h ↦ inl (
      depth_topic,
      ground (arith, h, eq_iff topic_market_depth_raw topic_market_depth_raw),
      subst (λ t. IsTopic t depth_topic) (sym ((eq_iff type event_type_depth).0 h)) for_depth,
    )
    | inr h ↦ elim (Bool-cases (type == event_type_agg_trade)) [
      | inl k ↦ inl (
        trade_topic,
        ground (
          arith,
          h,
          k,
          topics_ne,
          eq_iff topic_market_trade_raw topic_market_depth_raw,
          eq_iff topic_market_trade_raw topic_market_trade_raw,
        ),
        subst (λ t. IsTopic t trade_topic) (sym ((eq_iff type event_type_agg_trade).0 k))
            for_trades,
      )
      | inr k ↦ inr (
        ground (arith, h, k),
        λ e. ground (arith, h, e, eq_iff type event_type_depth),
        λ e. ground (arith, k, e, eq_iff type event_type_agg_trade),
      )
    ]
  ]

  module _ (u : Unicode) (decode : String → Result String JsonEvent) where
    abbrev Made : Record → Result PublishError Message → Type 0
    Made r out =
        ((m : Message) × (out ≡ ok m) × IsMessageOf r m)
        ⊎ ((x : PublishError) × (out ≡ err x) × StopsAt r x)

    record_message-Made :
        (r : Record) → Made r (record_message u decode marshal produce depth_topic trade_topic r)
    unfolding record_message Looked
    record_message-Made r = elim (Option-cases r.err) [
      | inr (e, found) ↦ inr (record_failed r.line e, ground (arith, found), malformed e found)
      | inl fine ↦ elim (topic_for-Looked r.event.type) [
        | inr (unknown, d, t) ↦
            inr (
              unsupported_type r.line r.event.type,
              ground (arith, fine, unknown),
              no_topic fine d t,
            )
        | inl (topic, known, right) ↦ elim (Result-cases (marshal r.event)) [
          | inl (e, bad) ↦
              inr
                (marshal_failed r.line e, ground (arith, fine, known, bad), not_encoded e fine bad)
          | inr (value, good) ↦
              let m : Message = record {
                topic = topic;
                key = r.event.symbol;
                value = value;
                partition = pos 0;
                offset = pos 0;
                lag = pos 0;
              } in
              let right : IsMessageOf r m = record {
                parsed = fine;
                to_topic = right;
                by_symbol = refl;
                encoded = good;
                unread = (refl, refl, refl);
              } in
              inl (m, ground (arith, fine, known, good), right)
        ]
      ]
    ]

    abbrev Sent : Record → Result PublishError Message → Type 0
    Sent r out =
        ((m : Message) × (out ≡ ok m) × IsMessageOf r m × (produce m ≡ none))
        ⊎ ((x : PublishError) × (out ≡ err x) × StopsAt r x)

    publish_record-Sent :
        (r : Record) → Sent r (publish_record u decode marshal produce depth_topic trade_topic r)
    unfolding publish_record
    publish_record-Sent r = elim (record_message-Made r) [
      | inr (x, bad, why) ↦ inr (x, ground (arith, bad), why)
      | inl (m, good, right) ↦ elim (Option-cases (produce m)) [
        | inl taken ↦ inl (m, ground (arith, good, taken), right, taken)
        | inr (e, bad) ↦
            inr (produce_failed r.line e, ground (arith, good, bad), refused m e right bad)
      ]
    ]

    sendable-Sends :
        (rs : List Record) (e : Option Error)
        → Sends rs e
            (sendable u decode marshal produce depth_topic trade_topic rs e).0
            (sendable u decode marshal produce depth_topic trade_topic rs e).1
    unfolding sendable
    sendable-Sends [] none = at_end
    sendable-Sends [] (some e) = at_failure e
    sendable-Sends (r ∷ rs) e =
        let rest = sendable u decode marshal produce depth_topic trade_topic rs e in
        let P : Result PublishError Message → Type 0 = λ o.
          let out : List Message × Option PublishError = elim o [
            | err x ↦ ([], some x)
            | ok message ↦ (message ∷ rest.0, rest.1)
          ] in
          Sends (r ∷ rs) e out.0 out.1 in
        elim (publish_record-Sent r) [
          | inr (x, bad, why) ↦ subst P (sym bad) (stopped_at why)
          | inl (m, good, right, taken) ↦
              subst P (sym good) (sent right taken (sendable-Sends rs e))
        ]

    -- With more fuel than the stream has records, publishing ends. The messages that it sent are, in
    -- order, one for each record up to the first that it stops at: to the topic of the event's type,
    -- with the event's symbol for the key and its encoding for the value, all taken by the producer.
    -- Their number is returned, and the error is the one of that record with its line (it is
    -- malformed, its type has no topic, it cannot be encoded, or the producer refuses its message),
    -- or else the one that the stream ends with.
    pub publish_stream-Contents :
        {s : Stream} {rs : List Record} {e : Option Error}
        → Contents u decode s rs e
        → (fuel : ℕ) → length rs < fuel
        → (ms : List Message) × (x : Option PublishError) × (publish_stream_with_topics u decode
              marshal produce depth_topic trade_topic fuel s
            ≡ record { sent = ms; produced = tally (length ms); failure = x })
          × Sends rs e ms x
    publish_stream-Contents {rs = rs} {e = e} c fuel h = (
      _,
      _,
      publish_stream-sendable u decode marshal produce depth_topic trade_topic c fuel h,
      sendable-Sends rs e,
    )
