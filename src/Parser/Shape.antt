-- ===== src/Parser/Shape.antt =====
-- `validateEventShape` of internal/parser/jsonl.go, and the events that it lets through.
use market_replay.Prelude.{
  Bool, true, false, not, ◌&&◌, ◌||◌, List, [], ◌∷◌, Option, none, some, ◌≡◌, refl, ◌≢◌, ◌↔◌, ◌⊎◌,
  inl, inr, arith, if◌then◌else◌, ◌==◌, eq_iff, Option-cases,
}
use market_replay.Prelude.Int.{pos, leb_ℤ, ltb_ℤ, ◌<ℤ◌, ◌≤ℤ◌}
use market_replay.Prelude.Result.{Result, ok, err}
use market_replay.Error.{
  Error, unknown_event_type, missing_symbol, event_time_not_positive, update_ids_missing,
  update_ids_reversed, levels_missing, trade_time_not_positive, trade_id_missing,
  trade_id_not_positive, price_or_quantity_missing, is_buyer_maker_missing,
}
use market_replay.Event.{MarketEvent, event_type_depth, event_type_agg_trade, event_types_ne}

abbrev pub is_empty {ℓ} : {A : Type ℓ} → List A → Bool
is_empty [] = true
is_empty (x ∷ xs) = false

abbrev pub is_none {ℓ} : {A : Type ℓ} → Option A → Bool
is_none none = true
is_none (some x) = false

-- `case event.EventTypeDepth`
unfoldable pub depth_shape : MarketEvent → Bool → Bool → Option Error
depth_shape ev has_sequence has_prev_sequence =
    if leb_ℤ ev.event_time_ms (pos 0)
    then some event_time_not_positive
    else if not has_sequence || not has_prev_sequence
    then some update_ids_missing
    else if ltb_ℤ ev.final_update_id ev.first_update_id
    then some update_ids_reversed
    else if is_empty ev.bids && is_empty ev.asks
    then some levels_missing
    else none

-- `case event.EventTypeAggTrade`
unfoldable pub trade_shape : MarketEvent → Bool → Option Error
trade_shape ev has_trade_id =
    if leb_ℤ ev.trade_time_ms (pos 0)
    then some trade_time_not_positive
    else if not has_trade_id
    then some trade_id_missing
    else if leb_ℤ ev.trade_id (pos 0)
    then some trade_id_not_positive
    else if ev.price == "" || ev.quantity == ""
    then some price_or_quantity_missing
    else if is_none ev.is_buyer_maker
    then some is_buyer_maker_missing
    else none

unfoldable pub validate_event_shape : MarketEvent → Bool → Bool → Bool → Option Error
unfolding depth_shape trade_shape
validate_event_shape ev has_sequence has_prev_sequence has_trade_id =
    if not (ev.type == event_type_depth) && not (ev.type == event_type_agg_trade)
    then some (unknown_event_type ev.type)
    else if ev.symbol == ""
    then some missing_symbol
    else if ev.type == event_type_depth
    then depth_shape ev has_sequence has_prev_sequence
    else trade_shape ev has_trade_id

-- What is required of a depth event: its ids may have any sign, and one side of the book may be empty.
pub record IsDepthEvent (ev : MarketEvent) : Type 0 where
  pub kind : ev.type ≡ event_type_depth
  pub has_symbol : ev.symbol ≢ ""
  pub has_time : pos 0 <ℤ ev.event_time_ms
  pub ordered : ev.first_update_id ≤ℤ ev.final_update_id
  pub has_level : (ev.bids ≢ []) ⊎ (ev.asks ≢ [])

-- What is required of a trade: its price and quantity may be any texts that are not empty.
pub record IsTradeEvent (ev : MarketEvent) : Type 0 where
  pub kind : ev.type ≡ event_type_agg_trade
  pub has_symbol : ev.symbol ≢ ""
  pub has_time : pos 0 <ℤ ev.trade_time_ms
  pub has_id : pos 0 <ℤ ev.trade_id
  pub has_price : ev.price ≢ ""
  pub has_quantity : ev.quantity ≢ ""
  pub has_maker : ev.is_buyer_maker ≢ none

abbrev pub IsMarketEvent : MarketEvent → Type 0
IsMarketEvent ev = IsDepthEvent ev ⊎ IsTradeEvent ev

is_empty_iff {ℓ} : {A : Type ℓ} (xs : List A) → (is_empty xs ≡ true) ↔ (xs ≡ [])
is_empty_iff [] = (λ _. refl, λ _. refl)
is_empty_iff (x ∷ xs) = (λ h. cc, λ h. cc)

depth_shape-none :
    (ev : MarketEvent) (hs hp : Bool)
    → ev.type ≡ event_type_depth
    → ev.symbol ≢ ""
    → (depth_shape ev hs hp ≡ none) ↔ (IsDepthEvent ev × (hs ≡ true) × (hp ≡ true))
unfolding depth_shape
depth_shape-none ev hs hp k s = (
  λ h. ground (arith, is_empty_iff ev.bids, is_empty_iff ev.asks),
  λ h. ground (arith, is_empty_iff ev.bids, is_empty_iff ev.asks),
)

trade_shape-none :
    (ev : MarketEvent) (ht : Bool)
    → ev.type ≡ event_type_agg_trade
    → ev.symbol ≢ ""
    → (trade_shape ev ht ≡ none) ↔ (IsTradeEvent ev × (ht ≡ true))
unfolding trade_shape
trade_shape-none ev ht k s = (
  λ h. ground (arith, eq_iff ev.price "", eq_iff ev.quantity ""),
  λ h. ground (arith, eq_iff ev.price "", eq_iff ev.quantity ""),
)

-- The shape check passes exactly two kinds of events: depth events with a symbol, a positive event
-- time, both update ids given, the final one not below the first, and bids or asks that are not
-- empty; and trades with a symbol, a positive trade time, an id that is given and positive, texts for
-- price and quantity that are not empty, and a maker flag.
pub validate_event_shape-none :
    (ev : MarketEvent) (has_sequence has_prev_sequence has_trade_id : Bool)
    → (validate_event_shape ev has_sequence has_prev_sequence has_trade_id ≡ none) ↔ (
        (IsDepthEvent ev × (has_sequence ≡ true) × (has_prev_sequence ≡ true))
        ⊎ (IsTradeEvent ev × (has_trade_id ≡ true)))
unfolding validate_event_shape
validate_event_shape-none ev hs hp ht = (
  λ h. ground (
    arith,
    depth_shape-none ev hs hp,
    trade_shape-none ev ht,
    eq_iff ev.type event_type_depth,
    eq_iff ev.type event_type_agg_trade,
    eq_iff ev.symbol "",
    event_types_ne,
  ),
  elim [
    | inl d ↦ ground (
      arith,
      depth_shape-none ev hs hp d.0.kind d.0.has_symbol,
      d.0.kind,
      d.0.has_symbol,
      eq_iff ev.type event_type_depth,
      eq_iff ev.symbol "",
    )
    | inr d ↦ ground (
      arith,
      trade_shape-none ev ht d.0.kind d.0.has_symbol,
      d.0.kind,
      d.0.has_symbol,
      eq_iff ev.type event_type_depth,
      eq_iff ev.type event_type_agg_trade,
      eq_iff ev.symbol "",
      event_types_ne,
    )
  ],
)

-- The events that may pass with these flags.
abbrev pub Passes : MarketEvent → Bool → Bool → Bool → Type 0
Passes ev has_sequence has_prev_sequence has_trade_id =
    (IsDepthEvent ev × (has_sequence ≡ true) × (has_prev_sequence ≡ true))
    ⊎ (IsTradeEvent ev × (has_trade_id ≡ true))

-- `if err := validateEventShape(…); err != nil { return event.MarketEvent{}, err }; return ev, nil`
unfoldable pub shaped : MarketEvent → Bool → Bool → Bool → Result Error MarketEvent
shaped ev has_sequence has_prev_sequence has_trade_id =
    elim (validate_event_shape ev has_sequence has_prev_sequence has_trade_id) [
      | some e ↦ err e
      | none ↦ ok ev
    ]

pub shaped-ok :
    (ev : MarketEvent) (hs hp ht : Bool) {ev' : MarketEvent}
    → shaped ev hs hp ht ≡ ok ev'
    → (ev' ≡ ev) × Passes ev hs hp ht
unfolding shaped
shaped-ok ev hs hp ht h = elim (Option-cases (validate_event_shape ev hs hp ht)) [
  | inl e ↦ (ground (arith, e), (validate_event_shape-none ev hs hp ht).0 e)
  | inr (x, e) ↦ absurd (ground (arith, e))
]

pub shaped-Passes :
    (ev : MarketEvent) (hs hp ht : Bool) → Passes ev hs hp ht → shaped ev hs hp ht ≡ ok ev
unfolding shaped
shaped-Passes ev hs hp ht p = rw ((validate_event_shape-none ev hs hp ht).1 p, shaped)

pub Passes-IsMarketEvent :
    (ev : MarketEvent) (hs hp ht : Bool) → Passes ev hs hp ht → IsMarketEvent ev
Passes-IsMarketEvent ev hs hp ht (inl d) = inl d.0
Passes-IsMarketEvent ev hs hp ht (inr t) = inr t.0
