-- ===== src/Validate/Effects.antt =====
-- What one record does to each part of the validator: the failures that it adds, described from
-- the marks before it, and the marks after it.
use market_replay.Prelude.{
  String, Bool, true, false, not, List, [], ◌∷◌, ◌++◌, append_assoc, append-nil, Option, none, some,
  ◌≡◌, refl, arith, if◌then◌else◌, ◌==◌, Bool-cases, inl, inr,
}
use market_replay.Prelude.Int.{ℤ, ltb_ℤ, leb_ℤ, eqb_ℤ, inc64}
use market_replay.Prelude.Dict.{Dict, lookup, insert}
use market_replay.Event.{
  MarketEvent, text, of_error, ValidationFailure, event_type_depth, event_type_agg_trade,
  event_time_millis,
}
use market_replay.Parser.Record.{Record}
use market_replay.Validate.{
  Validator, check_time, check_depth_sequence, check_trade_sequence, check_sequence, filtered_out,
  process, note_gap, note_misorder, check_time_after, check_depth_after, check_trade_after,
  count_event,
}

-- The rows that a validator for `wanted` counts as events.
abbrev pub accepted : String → Record → Bool
accepted wanted r = elim r.err [ some e ↦ false | none ↦ not (filtered_out wanted r.event) ]

abbrev pub failure : MarketEvent → String → String → ValidationFailure
failure ev type message = record {
  line = ev.line;
  symbol = ev.symbol;
  type = type;
  message = text message;
}

abbrev pub when : Bool → ValidationFailure → List ValidationFailure
when true f = f ∷ []
when false f = []

abbrev pub time_failures : Option ℤ → MarketEvent → List ValidationFailure
time_failures none ev = []
time_failures (some last) ev =
    when (ltb_ℤ (event_time_millis ev) last)
      (failure ev "ordering" "event_time moved backwards for symbol")

abbrev pub depth_failures : Option ℤ → MarketEvent → List ValidationFailure
depth_failures none ev = []
depth_failures (some last) ev =
    when (not (eqb_ℤ ev.first_update_id (inc64 last))) (
      failure ev "sequence_gap"
        "depth first_update_id does not continue after prior final_update_id")
    ++ when (leb_ℤ ev.final_update_id last)
        (failure ev "ordering" "depth final_update_id did not increase")

abbrev pub trade_failures : Option ℤ → MarketEvent → List ValidationFailure
trade_failures none ev = []
trade_failures (some last) ev =
    when (not (eqb_ℤ ev.trade_id (inc64 last)))
      (failure ev "sequence_gap" "trade_id is not contiguous")
    ++ when (leb_ℤ ev.trade_id last) (failure ev "ordering" "trade_id did not increase")

-- A mark after an id: the larger of the two.
abbrev pub raise_after : Option ℤ → String → ℤ → Dict ℤ → Dict ℤ
raise_after none k x m = insert k x m
raise_after (some last) k x m = if ltb_ℤ last x then insert k x m else m

abbrev pub raise : String → ℤ → Dict ℤ → Dict ℤ
raise k x m = raise_after (lookup k m) k x m

-- Two validators that differ in their results alone.
abbrev pub SameMarks : Validator → Validator → Type 0
SameMarks v w =
    (v.last_time_ms ≡ w.last_time_ms)
    × (v.last_depth ≡ w.last_depth)
    × (v.last_trade ≡ w.last_trade)
    × (v.opts_symbol ≡ w.opts_symbol)

note_gap-SameMarks :
    (b : Bool) (ev : MarketEvent) (m : String) (v : Validator) → SameMarks (note_gap b ev m v) v
unfolding note_gap
note_gap-SameMarks true ev m v = (refl, refl, refl, refl)
note_gap-SameMarks false ev m v = (refl, refl, refl, refl)

note_misorder-SameMarks :
    (b : Bool) (ev : MarketEvent) (m : String) (v : Validator)
    → SameMarks (note_misorder b ev m v) v
unfolding note_misorder
note_misorder-SameMarks true ev m v = (refl, refl, refl, refl)
note_misorder-SameMarks false ev m v = (refl, refl, refl, refl)

note_gap-failures :
    (b : Bool) (ev : MarketEvent) (m : String) (v : Validator)
    → (note_gap b ev m v).result.failures
      ≡ v.result.failures ++ when b (failure ev "sequence_gap" m)
unfolding note_gap
note_gap-failures true ev m v = refl
note_gap-failures false ev m v = rw append-nil

note_misorder-failures :
    (b : Bool) (ev : MarketEvent) (m : String) (v : Validator)
    → (note_misorder b ev m v).result.failures
      ≡ v.result.failures ++ when b (failure ev "ordering" m)
unfolding note_misorder
note_misorder-failures true ev m v = refl
note_misorder-failures false ev m v = rw append-nil

check_time_after-failures :
    (v : Validator) (ev : MarketEvent) (last : Option ℤ)
    → (check_time_after v ev last).result.failures ≡ v.result.failures ++ time_failures last ev
unfolding check_time_after
check_time_after-failures v ev none = rw append-nil
check_time_after-failures v ev (some last) = ground (
  arith,
  note_misorder-failures (ltb_ℤ (event_time_millis ev) last) ev
      "event_time moved backwards for symbol" v,
)

check_depth_after-failures :
    (v : Validator) (ev : MarketEvent) (last : Option ℤ)
    → (check_depth_after v ev last).result.failures ≡ v.result.failures ++ depth_failures last ev
unfolding check_depth_after
check_depth_after-failures v ev none = rw append-nil
check_depth_after-failures v ev (some last) = elim (Bool-cases (ltb_ℤ last ev.final_update_id)) [
  | inl e ↦ rw (e, check_depth_after, note_misorder-failures, note_gap-failures, append_assoc)
  | inr e ↦ rw (e, check_depth_after, note_misorder-failures, note_gap-failures, append_assoc)
]

check_trade_after-failures :
    (v : Validator) (ev : MarketEvent) (last : Option ℤ)
    → (check_trade_after v ev last).result.failures ≡ v.result.failures ++ trade_failures last ev
unfolding check_trade_after
check_trade_after-failures v ev none = rw append-nil
check_trade_after-failures v ev (some last) = elim (Bool-cases (ltb_ℤ last ev.trade_id)) [
  | inl e ↦ rw (e, check_trade_after, note_misorder-failures, note_gap-failures, append_assoc)
  | inr e ↦ rw (e, check_trade_after, note_misorder-failures, note_gap-failures, append_assoc)
]

-- What the sequence check adds for an accepted event.
unfoldable pub sequence_failures : Validator → MarketEvent → List ValidationFailure
sequence_failures v ev =
    if ev.type == event_type_depth
    then depth_failures (lookup ev.symbol v.last_depth) ev
    else if ev.type == event_type_agg_trade
    then trade_failures (lookup ev.symbol v.last_trade) ev
    else []

unfoldable pub record_failures : Validator → Record → List ValidationFailure
record_failures v r = elim r.err [
  | some e ↦ record { line = r.line; symbol = ""; type = "malformed"; message = of_error e } ∷ []
  | none ↦
      if filtered_out v.opts_symbol r.event
      then []
      else time_failures (lookup r.event.symbol v.last_time_ms) r.event
        ++ sequence_failures v r.event
]

check_time-SameSequence :
    (v : Validator) (ev : MarketEvent) (last : Option ℤ)
    → ((check_time_after v ev last).last_depth ≡ v.last_depth)
      × ((check_time_after v ev last).last_trade ≡ v.last_trade)
      × ((check_time_after v ev last).opts_symbol ≡ v.opts_symbol)
      × ((check_time_after v ev last).last_time_ms
          ≡ raise_after last ev.symbol (event_time_millis ev) v.last_time_ms)
unfolding check_time_after
check_time-SameSequence v ev none = (refl, refl, refl, refl)
check_time-SameSequence v ev (some last) = ground (
  arith,
  note_misorder-SameMarks (ltb_ℤ (event_time_millis ev) last) ev
      "event_time moved backwards for symbol" v,
)

check_depth-SameOthers :
    (v : Validator) (ev : MarketEvent) (last : Option ℤ)
    → ((check_depth_after v ev last).last_time_ms ≡ v.last_time_ms)
      × ((check_depth_after v ev last).last_trade ≡ v.last_trade)
      × ((check_depth_after v ev last).opts_symbol ≡ v.opts_symbol)
      × ((check_depth_after v ev last).last_depth
          ≡ raise_after last ev.symbol ev.final_update_id v.last_depth)
unfolding check_depth_after
check_depth-SameOthers v ev none = (refl, refl, refl, refl)
check_depth-SameOthers v ev (some last) =
    let v1 =
      note_gap (not (eqb_ℤ ev.first_update_id (inc64 last))) ev
        "depth first_update_id does not continue after prior final_update_id" v in
    ground (
      arith,
      note_gap-SameMarks (not (eqb_ℤ ev.first_update_id (inc64 last))) ev
          "depth first_update_id does not continue after prior final_update_id" v,
      note_misorder-SameMarks (leb_ℤ ev.final_update_id last) ev
          "depth final_update_id did not increase" v1,
    )

check_trade-SameOthers :
    (v : Validator) (ev : MarketEvent) (last : Option ℤ)
    → ((check_trade_after v ev last).last_time_ms ≡ v.last_time_ms)
      × ((check_trade_after v ev last).last_depth ≡ v.last_depth)
      × ((check_trade_after v ev last).opts_symbol ≡ v.opts_symbol)
      × ((check_trade_after v ev last).last_trade
          ≡ raise_after last ev.symbol ev.trade_id v.last_trade)
unfolding check_trade_after
check_trade-SameOthers v ev none = (refl, refl, refl, refl)
check_trade-SameOthers v ev (some last) =
    let v1 = note_gap (not (eqb_ℤ ev.trade_id (inc64 last))) ev "trade_id is not contiguous" v in
    ground (
      arith,
      note_gap-SameMarks (not (eqb_ℤ ev.trade_id (inc64 last))) ev "trade_id is not contiguous" v,
      note_misorder-SameMarks (leb_ℤ ev.trade_id last) ev "trade_id did not increase" v1,
    )

-- The marks after an accepted event.
abbrev pub depth_mark : MarketEvent → Dict ℤ → Dict ℤ
depth_mark ev m = if ev.type == event_type_depth then raise ev.symbol ev.final_update_id m else m

abbrev pub trade_mark : MarketEvent → Dict ℤ → Dict ℤ
trade_mark ev m =
    if ev.type == event_type_depth
    then m
    else if ev.type == event_type_agg_trade
    then raise ev.symbol ev.trade_id m
    else m

check_sequence-marks :
    (v : Validator) (ev : MarketEvent)
    → ((check_sequence v ev).last_time_ms ≡ v.last_time_ms)
      × ((check_sequence v ev).last_depth ≡ depth_mark ev v.last_depth)
      × ((check_sequence v ev).last_trade ≡ trade_mark ev v.last_trade)
      × ((check_sequence v ev).opts_symbol ≡ v.opts_symbol)
unfolding check_sequence check_depth_sequence check_trade_sequence
check_sequence-marks v ev = ground (
  arith,
  check_depth-SameOthers v ev (lookup ev.symbol v.last_depth),
  check_trade-SameOthers v ev (lookup ev.symbol v.last_trade),
)

check_sequence-failures :
    (v : Validator) (ev : MarketEvent)
    → (check_sequence v ev).result.failures ≡ v.result.failures ++ sequence_failures v ev
unfolding check_sequence check_depth_sequence check_trade_sequence sequence_failures
check_sequence-failures v ev = ground (
  arith,
  check_depth_after-failures v ev (lookup ev.symbol v.last_depth),
  check_trade_after-failures v ev (lookup ev.symbol v.last_trade),
  append-nil v.result.failures,
)

-- An accepted event after `count_event`.
abbrev checked : Validator → MarketEvent → Validator
checked v ev = check_sequence (check_time v ev) ev

checked-failures :
    (v : Validator) (ev : MarketEvent)
    → (checked v ev).result.failures
      ≡ v.result.failures
        ++ (time_failures (lookup ev.symbol v.last_time_ms) ev ++ sequence_failures v ev)
unfolding check_time sequence_failures
checked-failures v ev = ground (
  arith,
  check_sequence-failures (check_time v ev) ev,
  check_time_after-failures v ev (lookup ev.symbol v.last_time_ms),
  check_time-SameSequence v ev (lookup ev.symbol v.last_time_ms),
  append_assoc v.result.failures (time_failures (lookup ev.symbol v.last_time_ms) ev)
      (sequence_failures v ev),
)

-- The validator that the checks of an accepted event start from.
abbrev pub entered : Validator → MarketEvent → Validator
entered v ev =
    count_event (record v { result = record (v.result) { rows = inc64 v.result.rows } }) ev

-- A record appends its failures to those found before.
pub process-failures :
    (v : Validator) (r : Record)
    → (process v r).result.failures ≡ v.result.failures ++ record_failures v r
unfolding process record_failures sequence_failures
process-failures v r =
    ground (arith, checked-failures (entered v r.event) r.event, append-nil v.result.failures)

-- The marks after a record: those of its event, if it is accepted.
pub process-marks :
    (v : Validator) (r : Record)
    → ((process v r).last_time_ms ≡ (
        if accepted v.opts_symbol r
        then raise r.event.symbol (event_time_millis r.event) v.last_time_ms
        else v.last_time_ms))
      × ((process v r).last_depth
          ≡ (if accepted v.opts_symbol r then depth_mark r.event v.last_depth else v.last_depth))
      × ((process v r).last_trade
          ≡ (if accepted v.opts_symbol r then trade_mark r.event v.last_trade else v.last_trade))
      × ((process v r).opts_symbol ≡ v.opts_symbol)
unfolding process check_time
process-marks v r = ground (
  arith,
  check_time-SameSequence (entered v r.event) r.event (lookup r.event.symbol v.last_time_ms),
  check_sequence-marks (check_time (entered v r.event) r.event) r.event,
)
