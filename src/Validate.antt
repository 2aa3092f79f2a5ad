-- ===== src/Validate.antt =====
-- internal/validate/validator.go: the validator that every replay path feeds its records to.
-- A map entry `m[k]` of a missing key is the zero value; `v, ok := m[k]` is an `Option`.
pub mod Effects
pub mod Counts
pub mod Rows
pub mod Runs
pub mod Resume
pub mod Forgets
pub mod Chains
pub mod Clean
pub mod Filter
pub mod Drive
use market_replay.Prelude.{
  String, Bool, true, false, not, ◌&&◌, List, [], ◌∷◌, ◌++◌, Option, none, some, if◌then◌else◌,
  ◌==◌,
}
use market_replay.Prelude.Int.{ℤ, pos, ltb_ℤ, leb_ℤ, eqb_ℤ, inc64}
use market_replay.Prelude.Dict.{Dict, lookup, insert, get_or}
use market_replay.Event.{
  MarketEvent, Message, text, of_error, ValidationResult, event_type_depth, event_type_agg_trade,
  event_time_millis,
}
use market_replay.Parser.Record.{Record}

pub record Validator : Type 0 where
  pub opts_symbol : String
  pub result : ValidationResult
  pub last_depth : Dict ℤ
  pub last_trade : Dict ℤ
  pub last_time_ms : Dict ℤ

-- `now` is what `time.Now` returns.
unfoldable pub new_validator : String → ℤ → Validator
new_validator symbol now = record {
  opts_symbol = symbol;
  result = record {
    rows = pos 0;
    events = pos 0;
    malformed_events = pos 0;
    sequence_gaps = pos 0;
    ordering_failures = pos 0;
    symbol_event_counts = [];
    failures = [];
    started_at = now;
    completed_at = pos 0;
  };
  last_depth = [];
  last_trade = [];
  last_time_ms = [];
}

unfoldable pub add_failure : Validator → ℤ → String → String → Message → Validator
add_failure v line symbol type message = record v {
  result = record (v.result) {
    failures =
        v.result.failures
        ++ (record { line = line; symbol = symbol; type = type; message = message } ∷ []);
  };
}

-- `if gap { SequenceGaps++; addFailure(...) }`
unfoldable pub note_gap : Bool → MarketEvent → String → Validator → Validator
unfolding add_failure
note_gap true ev message v =
    add_failure
      (record v { result = record (v.result) { sequence_gaps = inc64 v.result.sequence_gaps } })
      ev.line ev.symbol "sequence_gap" (text message)
note_gap false ev message v = v

-- `if back { OrderingFailures++; addFailure(...) }`
unfoldable pub note_misorder : Bool → MarketEvent → String → Validator → Validator
unfolding add_failure
note_misorder true ev message v =
    add_failure
      (record v {
        result = record (v.result) { ordering_failures = inc64 v.result.ordering_failures };
      })
      ev.line ev.symbol "ordering" (text message)
note_misorder false ev message v = v

-- The last argument of each check below is `last, ok := m[ev.Symbol]`.
unfoldable pub check_time_after : Validator → MarketEvent → Option ℤ → Validator
check_time_after v ev none = record v {
  last_time_ms = insert ev.symbol (event_time_millis ev) v.last_time_ms;
}
check_time_after v ev (some last) =
    let v' =
      note_misorder (ltb_ℤ (event_time_millis ev) last) ev "event_time moved backwards for symbol"
        v in
    if ltb_ℤ last (event_time_millis ev)
    then record v' { last_time_ms = insert ev.symbol (event_time_millis ev) v'.last_time_ms }
    else v'

unfoldable pub check_time : Validator → MarketEvent → Validator
unfolding check_time_after
check_time v ev = check_time_after v ev (lookup ev.symbol v.last_time_ms)

unfoldable pub check_depth_after : Validator → MarketEvent → Option ℤ → Validator
check_depth_after v ev none = record v {
  last_depth = insert ev.symbol ev.final_update_id v.last_depth;
}
check_depth_after v ev (some last) =
    let v' =
      note_misorder (leb_ℤ ev.final_update_id last) ev "depth final_update_id did not increase" (
        note_gap (not (eqb_ℤ ev.first_update_id (inc64 last))) ev
          "depth first_update_id does not continue after prior final_update_id" v) in
    if ltb_ℤ last ev.final_update_id
    then record v' { last_depth = insert ev.symbol ev.final_update_id v'.last_depth }
    else v'

unfoldable pub check_depth_sequence : Validator → MarketEvent → Validator
unfolding check_depth_after
check_depth_sequence v ev = check_depth_after v ev (lookup ev.symbol v.last_depth)

unfoldable pub check_trade_after : Validator → MarketEvent → Option ℤ → Validator
check_trade_after v ev none = record v { last_trade = insert ev.symbol ev.trade_id v.last_trade }
check_trade_after v ev (some last) =
    let v' =
      note_misorder (leb_ℤ ev.trade_id last) ev "trade_id did not increase"
        (note_gap (not (eqb_ℤ ev.trade_id (inc64 last))) ev "trade_id is not contiguous" v) in
    if ltb_ℤ last ev.trade_id
    then record v' { last_trade = insert ev.symbol ev.trade_id v'.last_trade }
    else v'

unfoldable pub check_trade_sequence : Validator → MarketEvent → Validator
unfolding check_trade_after
check_trade_sequence v ev = check_trade_after v ev (lookup ev.symbol v.last_trade)

-- `v.opts.Symbol != "" && ev.Symbol != v.opts.Symbol`
abbrev pub filtered_out : String → MarketEvent → Bool
filtered_out wanted ev = not (wanted == "") && not (ev.symbol == wanted)

-- The `switch ev.Type` of `Process`.
unfoldable pub check_sequence : Validator → MarketEvent → Validator
check_sequence v ev =
    if ev.type == event_type_depth
    then check_depth_sequence v ev
    else if ev.type == event_type_agg_trade
    then check_trade_sequence v ev
    else v

abbrev pub count_event : Validator → MarketEvent → Validator
count_event v ev = record v {
  result = record (v.result) {
    events = inc64 v.result.events;
    symbol_event_counts =
        insert ev.symbol (inc64 (get_or ev.symbol (pos 0) v.result.symbol_event_counts))
          v.result.symbol_event_counts;
  };
}

unfoldable pub process : Validator → Record → Validator
unfolding add_failure
process v r =
    let v' = record v { result = record (v.result) { rows = inc64 v.result.rows } } in
    elim r.err [
      | some e ↦
          add_failure
            (record v' {
              result = record (v'.result) { malformed_events = inc64 v'.result.malformed_events };
            })
            r.line "" "malformed" (of_error e)
      | none ↦
          if filtered_out v'.opts_symbol r.event
          then v'
          else check_sequence (check_time (count_event v' r.event) r.event) r.event
    ]

-- `if x > m[k] { m[k] = x }`
abbrev pub prime_mark : String → ℤ → Dict ℤ → Dict ℤ
prime_mark k x m = if ltb_ℤ (get_or k (pos 0) m) x then insert k x m else m

unfoldable pub prime : Validator → Record → Validator
prime v r = elim r.err [
  | some e ↦ v
  | none ↦
      let ev = r.event in
      if filtered_out v.opts_symbol ev
      then v
      else let v' = record v {
        last_time_ms = prime_mark ev.symbol (event_time_millis ev) v.last_time_ms;
      } in
        if ev.type == event_type_depth
        then record v' { last_depth = prime_mark ev.symbol ev.final_update_id v'.last_depth }
        else if ev.type == event_type_agg_trade
        then record v' { last_trade = prime_mark ev.symbol ev.trade_id v'.last_trade }
        else v'
]

unfoldable pub result : Validator → ℤ → ValidationResult
result v now = record (v.result) { completed_at = now }

-- The rows of a file, in order.
unfoldable pub process_all : Validator → List Record → Validator
process_all v [] = v
process_all v (r ∷ rs) = process_all (process v r) rs

-- The rows up to a checkpoint, as the worker primes them.
unfoldable pub prime_all : Validator → List Record → Validator
prime_all v [] = v
prime_all v (r ∷ rs) = prime_all (prime v r) rs
