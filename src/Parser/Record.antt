-- ===== src/Parser/Record.antt =====
-- `Record` of internal/parser/parser.go: what one input row gives, an event or an error.
use market_replay.Prelude.{String, [], Option, none}
use market_replay.Prelude.Int.{ℤ, pos}
use market_replay.Error.{Error}
use market_replay.Event.{MarketEvent}

-- `event.MarketEvent{}`
abbrev pub zero_event : MarketEvent
zero_event = record {
  type = "";
  symbol = "";
  event_time_ms = pos 0;
  trade_time_ms = pos 0;
  first_update_id = pos 0;
  final_update_id = pos 0;
  trade_id = pos 0;
  price = "";
  quantity = "";
  is_buyer_maker = none;
  bids = [];
  asks = [];
  line = pos 0;
}

pub record Record : Type 0 where
  pub line : ℤ
  pub event : MarketEvent
  pub raw : Option String
  pub err : Option Error
