-- ===== src/Validate/Clean.antt =====
-- When a run reports nothing: a description of clean input that does not speak of the validator.
use market_replay.Prelude.{
  String, Bool, true, false, ◌&&◌, List, [], ◌∷◌, Option, none, some, ◌≡◌, refl, sym, ap, ◌∙◌,
  subst, arith, ◌↔◌, if◌then◌else◌, ◌==◌, eq_iff, All, append-eq-nil,
}
use market_replay.Prelude.Int.{ℤ, ◌<ℤ◌, ◌≤ℤ◌, inc64, eqb_ℤ_iff}
use market_replay.Prelude.Dict.{Dict, lookup, lookup-nil}
use market_replay.Event.{
  MarketEvent, event_type_depth, event_type_agg_trade, event_time_millis, event_types_ne,
}
use market_replay.Parser.Record.{Record}
use market_replay.Validate.{Validator, new_validator, process, process_all}
use market_replay.Validate.Effects.{
  accepted, raise, record_failures, sequence_failures, time_failures, depth_failures,
  trade_failures, process-marks,
}
use market_replay.Validate.Runs.{run_failures, process_all-failures}
use market_replay.Validate.Chains.{
  select, Consecutive, From, ChainsFrom, Moved, lookup-raise, chains_add, chains_head, chains_tail,
  ChainFrom-Consecutive, Consecutive-ChainFrom,
}

abbrev pub is_depth : String → Record → Bool
is_depth wanted r = accepted wanted r && (r.event.type == event_type_depth)

abbrev pub is_trade : String → Record → Bool
is_trade wanted r = accepted wanted r && (r.event.type == event_type_agg_trade)

-- What must hold between the last mark of a symbol and its next event.
abbrev pub TimeLink : ℤ → MarketEvent → Type 0
TimeLink last ev = last ≤ℤ event_time_millis ev

abbrev pub DepthLink : ℤ → MarketEvent → Type 0
DepthLink last ev = (ev.first_update_id ≡ inc64 last) × (last <ℤ ev.final_update_id)

abbrev pub TradeLink : ℤ → MarketEvent → Type 0
TradeLink last ev = (ev.trade_id ≡ inc64 last) × (last <ℤ ev.trade_id)

-- Every row parses, and for each symbol, among the rows that pass the filter, the times do not fall,
-- each depth event starts behind the final id of the one before it and ends later, and the trade ids
-- are contiguous.
pub record IsClean (wanted : String) (rs : List Record) : Type 0 where
  pub parsed : All (λ r. r.err ≡ none) rs
  pub times :
      (s : String)
      → Consecutive (λ a b. TimeLink (event_time_millis a) b) (select (accepted wanted) s rs)
  pub depths :
      (s : String)
      → Consecutive
          (λ (a : MarketEvent) b. DepthLink a.final_update_id b)
          (select (is_depth wanted) s rs)
  pub trades :
      (s : String)
      → Consecutive (λ (a : MarketEvent) b. TradeLink a.trade_id b) (select (is_trade wanted) s rs)

-- The same, from the marks of a validator.
record CleanFrom (wanted : String) (v : Validator) (rs : List Record) : Type 0 where
  parsed : All (λ r. r.err ≡ none) rs
  times : ChainsFrom TimeLink event_time_millis (accepted wanted) v.last_time_ms rs
  depths : ChainsFrom DepthLink (λ e. e.final_update_id) (is_depth wanted) v.last_depth rs
  trades : ChainsFrom TradeLink (λ e. e.trade_id) (is_trade wanted) v.last_trade rs

-- The same for one row.
record CleanRow (wanted : String) (v : Validator) (r : Record) : Type 0 where
  parsed : r.err ≡ none
  time : accepted wanted r ≡ true → From TimeLink (lookup r.event.symbol v.last_time_ms) r.event
  depth : is_depth wanted r ≡ true → From DepthLink (lookup r.event.symbol v.last_depth) r.event
  trade : is_trade wanted r ≡ true → From TradeLink (lookup r.event.symbol v.last_trade) r.event

time_failures_nil :
    (o : Option ℤ) (ev : MarketEvent) → (time_failures o ev ≡ []) ↔ From TimeLink o ev
time_failures_nil none ev = (λ _. tt, λ _. refl)
time_failures_nil (some l) ev = ground arith

depth_failures_nil :
    (o : Option ℤ) (ev : MarketEvent) → (depth_failures o ev ≡ []) ↔ From DepthLink o ev
depth_failures_nil none ev = (λ _. tt, λ _. refl)
depth_failures_nil (some l) ev = ground (arith, eqb_ℤ_iff ev.first_update_id (inc64 l))

trade_failures_nil :
    (o : Option ℤ) (ev : MarketEvent) → (trade_failures o ev ≡ []) ↔ From TradeLink o ev
trade_failures_nil none ev = (λ _. tt, λ _. refl)
trade_failures_nil (some l) ev = ground (arith, eqb_ℤ_iff ev.trade_id (inc64 l))

record_failures_nil :
    (v : Validator) (r : Record) → (record_failures v r ≡ []) ↔ CleanRow v.opts_symbol v r
unfolding record_failures sequence_failures
record_failures_nil v r = (
  λ h. ground (
    arith,
    time_failures_nil (lookup r.event.symbol v.last_time_ms) r.event,
    depth_failures_nil (lookup r.event.symbol v.last_depth) r.event,
    trade_failures_nil (lookup r.event.symbol v.last_trade) r.event,
    append-eq-nil (time_failures (lookup r.event.symbol v.last_time_ms) r.event)
        (sequence_failures v r.event),
    eq_iff r.event.type event_type_depth,
    eq_iff r.event.type event_type_agg_trade,
    event_types_ne,
  ),
  λ c. ground (
    arith,
    time_failures_nil (lookup r.event.symbol v.last_time_ms) r.event,
    depth_failures_nil (lookup r.event.symbol v.last_depth) r.event,
    trade_failures_nil (lookup r.event.symbol v.last_trade) r.event,
    eq_iff r.event.type event_type_depth,
    eq_iff r.event.type event_type_agg_trade,
    event_types_ne,
  ),
)

moved_by :
    (a : Bool) (k s : String) (x : ℤ) (m : Dict ℤ)
    → (a ≡ true → (last : ℤ) → lookup k m ≡ some last → last ≤ℤ x)
    → lookup s (if a then raise k x m else m) ≡ (if a && (k == s) then some x else lookup s m)
moved_by true k s x m h = lookup-raise k s x m (h refl)
moved_by false k s x m h = refl

-- The marks after a clean row: its event's key under its symbol, for the kind of the event.
module _ (v : Validator) (r : Record) (clean : CleanRow v.opts_symbol v r) where
  times-Moved :
      Moved TimeLink event_time_millis
        (accepted v.opts_symbol)
        v.last_time_ms
        (process v r).last_time_ms
        r
  times-Moved s =
      ap (lookup s) (process-marks v r).0
      ∙ moved_by (accepted v.opts_symbol r) r.event.symbol s (event_time_millis r.event)
          v.last_time_ms (λ a last e. subst (λ o. From TimeLink o r.event) e (clean.time a))

  depths-Moved :
      Moved DepthLink
        (λ e. e.final_update_id)
        (is_depth v.opts_symbol)
        v.last_depth
        (process v r).last_depth
        r
  depths-Moved s =
      ap (lookup s) ((process-marks v r).1 ∙ ground arith)
      ∙ moved_by (is_depth v.opts_symbol r) r.event.symbol s r.event.final_update_id v.last_depth
          (λ a last e. omega (arith, (subst (λ o. From DepthLink o r.event) e (clean.depth a)).1))

  trades-Moved :
      Moved TradeLink
        (λ e. e.trade_id)
        (is_trade v.opts_symbol)
        v.last_trade
        (process v r).last_trade
        r
  trades-Moved s =
      ap (lookup s) (
        (process-marks v r).2
        ∙ ground (
          arith,
          eq_iff r.event.type event_type_depth,
          eq_iff r.event.type event_type_agg_trade,
          event_types_ne,
        ))
      ∙ moved_by (is_trade v.opts_symbol r) r.event.symbol s r.event.trade_id v.last_trade
          (λ a last e. omega (arith, (subst (λ o. From TradeLink o r.event) e (clean.trade a)).1))

CleanFrom-cons :
    (v : Validator) (r : Record) (rs : List Record)
    → CleanRow v.opts_symbol v r
    → CleanFrom v.opts_symbol (process v r) rs
    → CleanFrom v.opts_symbol v (r ∷ rs)
CleanFrom-cons v r rs row rest = record {
  parsed = (row.parsed, rest.parsed);
  times =
      chains_add TimeLink event_time_millis (accepted v.opts_symbol) v.last_time_ms _ r rs row.time
        (times-Moved v r row) rest.times;
  depths =
      chains_add DepthLink (λ e. e.final_update_id) (is_depth v.opts_symbol) v.last_depth _ r rs
        row.depth (depths-Moved v r row) rest.depths;
  trades =
      chains_add TradeLink (λ e. e.trade_id) (is_trade v.opts_symbol) v.last_trade _ r rs row.trade
        (trades-Moved v r row) rest.trades;
}

CleanFrom-head :
    (v : Validator) (r : Record) (rs : List Record)
    → CleanFrom v.opts_symbol v (r ∷ rs)
    → CleanRow v.opts_symbol v r
CleanFrom-head v r rs c = record {
  parsed = c.parsed.0;
  time =
      chains_head TimeLink event_time_millis (accepted v.opts_symbol) v.last_time_ms r rs c.times;
  depth =
      chains_head DepthLink (λ e. e.final_update_id) (is_depth v.opts_symbol) v.last_depth r rs
        c.depths;
  trade =
      chains_head TradeLink (λ e. e.trade_id) (is_trade v.opts_symbol) v.last_trade r rs c.trades;
}

CleanFrom-tail :
    (v : Validator) (r : Record) (rs : List Record)
    → CleanFrom v.opts_symbol v (r ∷ rs)
    → CleanFrom v.opts_symbol (process v r) rs
CleanFrom-tail v r rs c =
    let row = CleanFrom-head v r rs c in
    record {
      parsed = c.parsed.1;
      times =
          chains_tail TimeLink event_time_millis (accepted v.opts_symbol) v.last_time_ms _ r rs
            c.times (times-Moved v r row);
      depths =
          chains_tail DepthLink (λ e. e.final_update_id) (is_depth v.opts_symbol) v.last_depth _ r
            rs c.depths (depths-Moved v r row);
      trades =
          chains_tail TradeLink (λ e. e.trade_id) (is_trade v.opts_symbol) v.last_trade _ r rs
            c.trades (trades-Moved v r row);
    }

run_failures_nil→CleanFrom :
    (wanted : String) (rs : List Record) (v : Validator)
    → v.opts_symbol ≡ wanted
    → run_failures v rs ≡ []
    → CleanFrom wanted v rs
unfolding run_failures
run_failures_nil→CleanFrom wanted [] v o h = record {
  parsed = tt;
  times = λ s. tt;
  depths = λ s. tt;
  trades = λ s. tt;
}
run_failures_nil→CleanFrom wanted (r ∷ rs) v o h =
    let (now, later) = append-eq-nil (record_failures v r) (run_failures (process v r) rs) h in
    subst (λ w. CleanFrom w v (r ∷ rs)) o
      (CleanFrom-cons v r rs ((record_failures_nil v r).0 now)
        (run_failures_nil→CleanFrom v.opts_symbol rs (process v r) (process-marks v r).3 later))

CleanFrom→run_failures_nil :
    (wanted : String) (rs : List Record) (v : Validator)
    → v.opts_symbol ≡ wanted
    → CleanFrom wanted v rs
    → run_failures v rs ≡ []
unfolding run_failures
CleanFrom→run_failures_nil wanted [] v o c = refl
CleanFrom→run_failures_nil wanted (r ∷ rs) v o c =
    let c' = subst (λ w. CleanFrom w v (r ∷ rs)) (sym o) c in
    rw ((record_failures_nil v r).1 (CleanFrom-head v r rs c')) (
      CleanFrom→run_failures_nil v.opts_symbol rs (process v r) (process-marks v r).3
        (CleanFrom-tail v r rs c'))

-- A validation with symbol filter `wanted` reports no failure exactly when its input is clean.
pub failures-IsClean :
    (wanted : String) (now : ℤ) (rs : List Record)
    → ((process_all (new_validator wanted now) rs).result.failures ≡ []) ↔ IsClean wanted rs
unfolding new_validator
failures-IsClean wanted now rs =
    let start = new_validator wanted now in
    let listed = process_all-failures start rs in
    (
      λ h.
          let c = run_failures_nil→CleanFrom wanted rs start refl (sym listed ∙ h) in
          record {
            parsed = c.parsed;
            times = λ s.
                ChainFrom-Consecutive TimeLink event_time_millis (accepted wanted) _
                  (rw (lookup-nil {0} s) at (c.times s));
            depths = λ s.
                ChainFrom-Consecutive DepthLink (λ e. e.final_update_id) (is_depth wanted) _
                  (rw (lookup-nil {0} s) at (c.depths s));
            trades = λ s.
                ChainFrom-Consecutive TradeLink (λ e. e.trade_id) (is_trade wanted) _
                  (rw (lookup-nil {0} s) at (c.trades s));
          },
      λ c.
          listed
          ∙ CleanFrom→run_failures_nil wanted rs start refl (record {
            parsed = c.parsed;
            times = λ s.
                rw (lookup-nil {0} s) (
                  Consecutive-ChainFrom TimeLink event_time_millis (accepted wanted) _ (c.times s));
            depths = λ s. rw (lookup-nil {0} s) (
                Consecutive-ChainFrom DepthLink (λ e. e.final_update_id) (is_depth wanted) _
                  (c.depths s));
            trades = λ s. rw (lookup-nil {0} s) (
                Consecutive-ChainFrom TradeLink (λ e. e.trade_id) (is_trade wanted) _ (c.trades s));
          }),
    )
