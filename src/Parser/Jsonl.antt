-- ===== src/Parser/Jsonl.antt =====
-- internal/parser/jsonl.go, and `PriceLevel.UnmarshalJSON` of internal/event/types.go.
-- encoding/json is a parameter: `decode` is `json.Unmarshal` of a line into a `jsonEvent`.
use market_replay.Prelude.{
  String, Bool, not, ◌||◌, List, [], ◌∷◌, Option, none, some, if◌then◌else◌, ◌==◌,
}
use market_replay.Prelude.Int.{ℤ, pos, inc64}
use market_replay.Prelude.Result.{Result, ok, err}
use market_replay.Error.{Error, empty_line, decode_json, level_pair_expected, level_fields_missing}
use market_replay.Event.{MarketEvent, PriceLevel, event_type_depth, event_type_agg_trade}
use market_replay.Parser.Text.{Unicode}
use market_replay.Parser.Shape.{is_none, shaped}

pub record JsonEvent : Type 0 where
  pub type : String
  pub legacy_type : String
  pub symbol : String
  pub event_time_ms : ℤ
  pub trade_time_ms : ℤ
  pub first_update_id : Option ℤ
  pub final_update_id : Option ℤ
  pub legacy_seq : Option ℤ
  pub legacy_prev_seq : Option ℤ
  pub trade_id : Option ℤ
  pub price : String
  pub quantity : String
  pub is_buyer_maker : Option Bool
  pub bids : List PriceLevel
  pub asks : List PriceLevel

-- `pair` is what decoding the text as a list of strings gives, `object` what decoding it as an
-- object gives, with "" for a missing field.
unfoldable pub unmarshal_price_level :
    Option (List String) → Result String PriceLevel → Result Error PriceLevel
unmarshal_price_level (some (price ∷ quantity ∷ [])) object =
    ok (record { price = price; quantity = quantity })
unmarshal_price_level (some pair) object = err level_pair_expected
unmarshal_price_level none (err e) = err (decode_json e)
unmarshal_price_level none (ok level) =
    if level.price == "" || level.quantity == "" then err level_fields_missing else ok level

abbrev pub or_else {ℓ} : {A : Type ℓ} → Option A → A → A
or_else none d = d
or_else (some x) d = x

module _ (u : Unicode) where
  unfoldable pub normalize_event_type : String → String
  normalize_event_type raw =
      let k = u.to_lower (u.trim_space raw) in
      if k == "depth"
      then event_type_depth
      else if k == "aggtrade" || k == "trade"
      then event_type_agg_trade
      else raw

  -- The event that a decoded line describes, before the shape check.
  unfoldable pub json_event : JsonEvent → ℤ → MarketEvent
  json_event raw line_no = record {
    type = normalize_event_type (if raw.type == "" then raw.legacy_type else raw.type);
    symbol = u.to_upper (u.trim_space raw.symbol);
    event_time_ms = raw.event_time_ms;
    trade_time_ms = raw.trade_time_ms;
    first_update_id = elim raw.legacy_prev_seq [
      | some s ↦ inc64 s
      | none ↦ or_else raw.first_update_id (pos 0)
    ];
    final_update_id = or_else raw.legacy_seq (or_else raw.final_update_id (pos 0));
    trade_id = or_else raw.trade_id (pos 0);
    price = raw.price;
    quantity = raw.quantity;
    is_buyer_maker = raw.is_buyer_maker;
    bids = raw.bids;
    asks = raw.asks;
    line = line_no;
  }

  abbrev pub has_first : JsonEvent → Bool
  has_first raw = not (is_none raw.first_update_id) || not (is_none raw.legacy_prev_seq)

  abbrev pub has_final : JsonEvent → Bool
  has_final raw = not (is_none raw.final_update_id) || not (is_none raw.legacy_seq)

  -- What follows `json.Unmarshal`.
  unfoldable pub decoded_event : Result String JsonEvent → ℤ → Result Error MarketEvent
  decoded_event (err e) line_no = err (decode_json e)
  decoded_event (ok raw) line_no =
      shaped (json_event raw line_no) (has_first raw) (has_final raw) (not (is_none raw.trade_id))

  unfoldable pub parse_json_line :
      (String → Result String JsonEvent) → String → ℤ → Result Error MarketEvent
  unfolding decoded_event
  parse_json_line decode line line_no =
      if u.trim_space line == "" then err empty_line else decoded_event (decode line) line_no
