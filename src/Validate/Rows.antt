-- ===== src/Validate/Rows.antt =====
-- The counters of rows and events, against the rows that were read.
use market_replay.Prelude.{
  ℕ, ◌+◌, String, Bool, true, false, not, List, [], ◌∷◌, none, some, Option, ◌≡◌, refl, arith, ◌&&◌,
  ◌==◌, if◌then◌else◌, if-elim, length, count, eq_iff, ◌∙◌, ap, sym,
}
use native.Mathlib.Nat.{add-zero}
use market_replay.Prelude.Int.{ℤ, pos, inc64, ltb_ℤ, leb_ℤ, eqb_ℤ, tally, inc64-tally, tally-zero}
use market_replay.Prelude.Dict.{Dict, lookup, insert, get_or, lookup-insert}
use market_replay.Event.{MarketEvent, event_time_millis, event_type_depth, event_type_agg_trade}
use market_replay.Parser.Record.{Record}
use market_replay.Validate.{
  Validator, new_validator, add_failure, note_gap, note_misorder, check_time_after, check_time,
  check_depth_after, check_depth_sequence, check_trade_after, check_trade_sequence, check_sequence,
  process, process_all,
}
use market_replay.Validate.Effects.{accepted, entered, process-marks}

-- The counters that the checks of an event leave alone.
abbrev SameCounts : Validator → Validator → Type 0
SameCounts v w =
    (w.result.rows ≡ v.result.rows)
    × (w.result.events ≡ v.result.events)
    × (w.result.malformed_events ≡ v.result.malformed_events)
    × (w.result.symbol_event_counts ≡ v.result.symbol_event_counts)

module _ (v : Validator) (ev : MarketEvent) where
  noted-SameCounts :
      (b c : Bool) (m n : String) → SameCounts v (note_misorder b ev m (note_gap c ev n v))
  unfolding note_gap note_misorder add_failure
  noted-SameCounts true true m n = (refl, refl, refl, refl)
  noted-SameCounts true false m n = (refl, refl, refl, refl)
  noted-SameCounts false true m n = (refl, refl, refl, refl)
  noted-SameCounts false false m n = (refl, refl, refl, refl)

  note_misorder-SameCounts : (b : Bool) (m : String) → SameCounts v (note_misorder b ev m v)
  unfolding note_misorder add_failure
  note_misorder-SameCounts true m = (refl, refl, refl, refl)
  note_misorder-SameCounts false m = (refl, refl, refl, refl)

  check_time_after-SameCounts : (last : Option ℤ) → SameCounts v (check_time_after v ev last)
  unfolding check_time_after
  check_time_after-SameCounts none = (refl, refl, refl, refl)
  check_time_after-SameCounts (some last) = if-elim (SameCounts v) _ same same
    where
      same : SameCounts v (
          note_misorder
            (ltb_ℤ (event_time_millis ev) last)
            ev
            "event_time moved backwards for symbol"
            v)
      same = note_misorder-SameCounts _ _

  check_depth_after-SameCounts : (last : Option ℤ) → SameCounts v (check_depth_after v ev last)
  unfolding check_depth_after
  check_depth_after-SameCounts none = (refl, refl, refl, refl)
  check_depth_after-SameCounts (some last) = if-elim (SameCounts v) _ same same
    where
      same : SameCounts v (
          note_misorder
            (leb_ℤ ev.final_update_id last)
            ev
            "depth final_update_id did not increase"
            (note_gap
              (not (eqb_ℤ ev.first_update_id (inc64 last)))
              ev
              "depth first_update_id does not continue after prior final_update_id"
              v))
      same = noted-SameCounts _ _ _ _

  check_trade_after-SameCounts : (last : Option ℤ) → SameCounts v (check_trade_after v ev last)
  unfolding check_trade_after
  check_trade_after-SameCounts none = (refl, refl, refl, refl)
  check_trade_after-SameCounts (some last) = if-elim (SameCounts v) _ same same
    where
      same : SameCounts v (
          note_misorder
            (leb_ℤ ev.trade_id last)
            ev
            "trade_id did not increase"
            (note_gap (not (eqb_ℤ ev.trade_id (inc64 last))) ev "trade_id is not contiguous" v))
      same = noted-SameCounts _ _ _ _

  check_sequence-SameCounts : SameCounts v (check_sequence v ev)
  unfolding check_sequence check_depth_sequence check_trade_sequence
  check_sequence-SameCounts =
      if-elim (SameCounts v) (ev.type == event_type_depth) (check_depth_after-SameCounts _) (
        if-elim (SameCounts v) (ev.type == event_type_agg_trade) (check_trade_after-SameCounts _)
          (refl, refl, refl, refl))

abbrev pub is_malformed : Record → Bool
is_malformed r = elim r.err [ some e ↦ true | none ↦ false ]

-- The accepted rows of one symbol.
abbrev pub accepted_for : String → String → Record → Bool
accepted_for wanted s r = accepted wanted r && (r.event.symbol == s)

process-counts :
    (v : Validator) (r : Record)
    → ((process v r).result.rows ≡ inc64 v.result.rows)
      × ((process v r).result.events
          ≡ (if accepted v.opts_symbol r then inc64 v.result.events else v.result.events))
      × ((process v r).result.malformed_events
          ≡ (if is_malformed r then inc64 v.result.malformed_events else v.result.malformed_events))
      × ((process v r).result.symbol_event_counts ≡ (
          if accepted v.opts_symbol r
          then insert r.event.symbol
              (inc64 (get_or r.event.symbol (pos 0) v.result.symbol_event_counts))
              v.result.symbol_event_counts
          else v.result.symbol_event_counts))
unfolding process check_time add_failure
process-counts v r = ground (
  arith,
  check_sequence-SameCounts (check_time (entered v r.event) r.event) r.event,
  check_time_after-SameCounts (entered v r.event) r.event (lookup r.event.symbol v.last_time_ms),
)

abbrev one_if : Bool → ℕ
one_if b = elim b [ true ↦ 1 | false ↦ 0 ]

-- What a validator for `wanted` has counted: `n` rows, `e` events, `m` malformed rows, and `c s`
-- events of each symbol `s`.
pub record Counted (wanted : String) (n e m : ℕ) (c : String → ℕ) (v : Validator) : Type 0 where
  pub wanted_symbol : v.opts_symbol ≡ wanted
  pub rows_tally : v.result.rows ≡ tally n
  pub events_tally : v.result.events ≡ tally e
  pub malformed_tally : v.result.malformed_events ≡ tally m
  pub symbols_tally : (s : String) → get_or s (pos 0) v.result.symbol_event_counts ≡ tally (c s)

inc64-tally_if :
    (b : Bool) (n : ℕ) (z : ℤ) → z ≡ tally n → (if b then inc64 z else z) ≡ tally (n + one_if b)
inc64-tally_if true n z h = rw h (inc64-tally n)
inc64-tally_if false n z h = ground arith

get_or-insert :
    (k s : String) (x d : ℤ) (m : Dict ℤ)
    → get_or s d (insert k x m) ≡ (if k == s then x else get_or s d m)
get_or-insert k s x d m = ground (arith, lookup-insert k s x m)

symbol_step :
    (a : Bool) (k s : String) (m : Dict ℤ)
    → get_or s (pos 0) (if a then insert k (inc64 (get_or k (pos 0) m)) m else m)
      ≡ (if a && (k == s) then inc64 (get_or s (pos 0) m) else get_or s (pos 0) m)
symbol_step false k s m = refl
symbol_step true k s m =
    ground (arith, get_or-insert k s (inc64 (get_or k (pos 0) m)) (pos 0) m, eq_iff k s)

module _ {wanted : String} {n e m : ℕ} {c : String → ℕ} (v : Validator)
    (k : Counted wanted n e m c v) (r : Record) where
  accepted_here : accepted v.opts_symbol r ≡ accepted wanted r
  accepted_here = ap (λ s. accepted s r) k.wanted_symbol

  process-symbols :
      (s : String)
      → get_or s (pos 0) (process v r).result.symbol_event_counts
        ≡ tally (c s + one_if (accepted_for wanted s r))
  process-symbols s =
      ap (get_or s (pos 0)) (process-counts v r).3
      ∙ rw accepted_here (symbol_step (accepted wanted r) r.event.symbol s _)
      ∙ inc64-tally_if (accepted_for wanted s r) (c s) _ (k.symbols_tally s)

  process-Counted :
      Counted wanted
        (n + 1)
        (e + one_if (accepted wanted r))
        (m + one_if (is_malformed r))
        (λ s. c s + one_if (accepted_for wanted s r))
        (process v r)
  process-Counted = record {
    wanted_symbol = (process-marks v r).3 ∙ k.wanted_symbol;
    rows_tally = (process-counts v r).0 ∙ ap inc64 k.rows_tally ∙ inc64-tally n;
    events_tally =
        (process-counts v r).1
        ∙ rw accepted_here (inc64-tally_if (accepted wanted r) e _ k.events_tally);
    malformed_tally =
        (process-counts v r).2 ∙ inc64-tally_if (is_malformed r) m _ k.malformed_tally;
    symbols_tally = process-symbols;
  }

-- The sums over the rows, in the order in which a validator forms them.
process_all-Counted :
    (rs : List Record) (v : Validator) {wanted : String} {n e m : ℕ} {c : String → ℕ}
    → Counted wanted n e m c v
    → Counted wanted
        (n + length rs)
        (e + count (accepted wanted) rs)
        (m + count is_malformed rs)
        (λ s. c s + count (accepted_for wanted s) rs)
        (process_all v rs)
unfolding process_all
process_all-Counted [] v k = record {
  wanted_symbol = k.wanted_symbol;
  rows_tally = rw add-zero k.rows_tally;
  events_tally = rw add-zero k.events_tally;
  malformed_tally = rw add-zero k.malformed_tally;
  symbols_tally = λ s. rw add-zero (k.symbols_tally s);
}
process_all-Counted (r ∷ rs) v k =
    let k' = process_all-Counted rs (process v r) (process-Counted v k r) in
    record {
      wanted_symbol = k'.wanted_symbol;
      rows_tally = k'.rows_tally ∙ ap tally (omega arith);
      events_tally = k'.events_tally ∙ ap tally (omega arith);
      malformed_tally = k'.malformed_tally ∙ ap tally (omega arith);
      symbols_tally = λ s. k'.symbols_tally s ∙ ap tally (omega arith);
    }

new_validator-Counted :
    (symbol : String) (now : ℤ) → Counted symbol 0 0 0 (λ _. 0) (new_validator symbol now)
unfolding new_validator lookup
new_validator-Counted symbol now = record {
  wanted_symbol = refl;
  rows_tally = sym tally-zero;
  events_tally = sym tally-zero;
  malformed_tally = sym tally-zero;
  symbols_tally = λ s. sym tally-zero;
}

-- After any rows, a new validator with symbol filter `symbol` has counted (as int64 counters) every
-- row, as events the rows that parsed and pass the filter, as malformed the rows that did not parse,
-- and for each symbol its events.
pub validation-Counted :
    (symbol : String) (now : ℤ) (rs : List Record)
    → Counted symbol
        (length rs)
        (count (accepted symbol) rs)
        (count is_malformed rs)
        (λ s. count (accepted_for symbol s) rs)
        (process_all (new_validator symbol now) rs)
validation-Counted symbol now rs =
    let k = process_all-Counted rs _ (new_validator-Counted symbol now) in
    record {
      wanted_symbol = k.wanted_symbol;
      rows_tally = k.rows_tally ∙ ap tally (omega arith);
      events_tally = k.events_tally ∙ ap tally (omega arith);
      malformed_tally = k.malformed_tally ∙ ap tally (omega arith);
      symbols_tally = λ s. k.symbols_tally s ∙ ap tally (omega arith);
    }
