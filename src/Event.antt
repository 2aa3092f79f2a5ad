-- ===== src/Event.antt =====
-- internal/event/types.go: market events, and the outcome of a validation.
-- A timestamp is an int64 of milliseconds, a `time.Time` an integer.
use market_replay.Prelude.{String, Bool, List, Option, if◌then◌else◌, ◌≢◌, arith, eq_iff}
use market_replay.Prelude.Int.{ℤ, pos, ltb_ℤ}
use market_replay.Prelude.Dict.{Dict}
use market_replay.Error.{Error}

-- `EventType` is a string type with two named values; the parsers pass others on.
abbrev pub event_type_depth : String
event_type_depth = "depth"

abbrev pub event_type_agg_trade : String
event_type_agg_trade = "aggTrade"

pub record PriceLevel : Type 0 where
  pub price : String
  pub quantity : String

pub record MarketEvent : Type 0 where
  pub type : String
  pub symbol : String
  pub event_time_ms : ℤ
  pub trade_time_ms : ℤ
  pub first_update_id : ℤ
  pub final_update_id : ℤ
  pub trade_id : ℤ
  pub price : String
  pub quantity : String
  pub is_buyer_maker : Option Bool
  pub bids : List PriceLevel
  pub asks : List PriceLevel
  pub line : ℤ

unfoldable pub event_time_millis : MarketEvent → ℤ
event_time_millis e = if ltb_ℤ (pos 0) e.event_time_ms then e.event_time_ms else e.trade_time_ms

-- What a failure says: a fixed text, or the text of a parser's error.
pub data Message : Type 0 where
  text : String → Message
  of_error : Error → Message

pub record ValidationFailure : Type 0 where
  pub line : ℤ
  pub symbol : String
  pub type : String
  pub message : Message

pub record ValidationResult : Type 0 where
  pub rows : ℤ
  pub events : ℤ
  pub malformed_events : ℤ
  pub sequence_gaps : ℤ
  pub ordering_failures : ℤ
  pub symbol_event_counts : Dict ℤ
  pub failures : List ValidationFailure
  pub started_at : ℤ
  pub completed_at : ℤ

pub event_types_ne : event_type_depth ≢ event_type_agg_trade
event_types_ne = ground (arith, eq_iff event_type_depth event_type_agg_trade)
