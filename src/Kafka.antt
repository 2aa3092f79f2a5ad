-- ===== src/Kafka.antt =====
-- internal/kafkastream: events on Kafka topics. A message's key and value are texts, `produce` is
-- the producer's Produce, and `marshal` encodes an event; what is produced is collected in a list.
pub mod Publish
pub mod Sending
pub mod Routing
pub mod Polling
use market_replay.Prelude.{
  String, Bool, Option, none, some, if◌then◌else◌, ◌==◌, eq_iff, ◌≢◌, arith,
}
use market_replay.Prelude.Int.{ℤ}
use market_replay.Prelude.Result.{Result, ok, err}
use market_replay.Error.{Error}
use market_replay.Event.{event_type_depth, event_type_agg_trade}

abbrev pub topic_market_depth_raw : String
topic_market_depth_raw = "market.depth.raw"

abbrev pub topic_market_trade_raw : String
topic_market_trade_raw = "market.trade.raw"

abbrev pub topic_market_replay_validated : String
topic_market_replay_validated = "market.replay.validated"

abbrev pub topic_market_replay_errors : String
topic_market_replay_errors = "market.replay.errors"

pub record Message : Type 0 where
  pub topic : String
  pub key : String
  pub value : String
  pub partition : ℤ
  pub offset : ℤ
  pub lag : ℤ

-- The error has the type that is not supported.
unfoldable pub raw_topic_for_event_type : String → Result String String
raw_topic_for_event_type type =
    if type == event_type_depth
    then ok topic_market_depth_raw
    else if type == event_type_agg_trade
    then ok topic_market_trade_raw
    else err type

pub topics_ne : topic_market_depth_raw ≢ topic_market_trade_raw
topics_ne = ground (arith, eq_iff topic_market_depth_raw topic_market_trade_raw)
