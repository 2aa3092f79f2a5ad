-- ===== src/Parser/Csv.antt =====
-- internal/parser/csv.go, and the header index and field access of internal/parser/parser.go.
use market_replay.Prelude.{
  ℕ, suc, String, Bool, not, List, [], ◌∷◌, Option, none, some, ◌≡◌, refl, ◌≢◌, sym, subst, ◌∙◌,
  arith, if◌then◌else◌, if-elim, ◌==◌, get_elem?, inl, inr,
}
use market_replay.Prelude.Int.{ℤ, pos, inc64, eqb_ℤ, IsInt64, inc64-IsInt64, eqb_ℤ_iff}
use market_replay.Prelude.Dict.{Dict, lookup, insert}
use market_replay.Prelude.Result.{Result, ok, err, ◌>>=◌, >>=-eq-ok, guarded_ok}
use market_replay.Error.{
  Error, NumError, missing, parse_int_failed, parse_is_buyer_maker, unknown_event_type,
}
use market_replay.Event.{MarketEvent, event_type_depth, event_type_agg_trade, event_types_ne}
use market_replay.Parser.Record.{zero_event}
use market_replay.Parser.Text.{Unicode, parse_int, parse_bool, parse_int-IsInt64}
use market_replay.Parser.Shape.{Passes, shaped, shaped-ok, IsMarketEvent, Passes-IsMarketEvent}
use market_replay.Parser.Jsonl.{normalize_event_type}

module _ (u : Unicode) where
  -- The loop of `indexHeader`; `i` is the index of the next name.
  unfoldable pub index_from : ℕ → Dict ℕ → List String → Dict ℕ
  index_from i index [] = index
  index_from i index (name ∷ names) =
      index_from (suc i) (insert (u.to_lower (u.trim_space name)) i index) names

  unfoldable pub index_header : List String → Dict ℕ
  unfolding index_from
  index_header header = index_from 0 [] header

  module _ (fields : List String) (header : Dict ℕ) where
    unfoldable pub csv_value : String → String
    csv_value key = elim (lookup key header) [
      | none ↦ ""
      | some i ↦ elim (get_elem? fields i) [ none ↦ "" | some field ↦ u.trim_space field ]
    ]

    unfoldable pub parsed_int : String → Result NumError ℤ → Result Error ℤ
    parsed_int key (ok n) = ok n
    parsed_int key (err e) = err (parse_int_failed key e)

    unfoldable pub csv_int : String → Result Error ℤ
    unfolding parsed_int
    csv_int key =
        if csv_value key == ""
        then err (missing key)
        else parsed_int key (parse_int (csv_value key))

    -- `key := wanted; if csvValue(fields, header, key) == "" { key = other }`
    abbrev pub key_or : String → String → String
    key_or wanted other = if csv_value wanted == "" then other else wanted

    unfoldable pub csv_event_type : String
    csv_event_type =
        let lowered = u.to_lower (csv_value "type") in
        normalize_event_type u (if lowered == "" then csv_value "event_type" else lowered)

    unfoldable pub csv_event : ℤ → MarketEvent
    unfolding csv_event_type
    csv_event line_no = record zero_event {
      type = csv_event_type;
      symbol = u.to_upper (csv_value "symbol");
      price = csv_value "price";
      quantity = csv_value "quantity";
      line = line_no;
    }

    -- `validateEventShape(ev, ev.FirstUpdateID != 0, ev.Type == event.EventTypeDepth, ev.TradeID != 0)`
    abbrev pub csv_shaped : MarketEvent → Result Error MarketEvent
    csv_shaped ev =
        shaped ev (not (eqb_ℤ ev.first_update_id (pos 0))) (ev.type == event_type_depth)
          (not (eqb_ℤ ev.trade_id (pos 0)))

    unfoldable pub csv_depth : MarketEvent → ℤ → Result Error MarketEvent
    csv_depth ev event_time = do
      seq ← csv_int (key_or "final_update_id" "sequence")
      first_seq ← csv_int (key_or "first_update_id" "prev_sequence")
      csv_shaped (record ev {
        event_time_ms = event_time;
        first_update_id =
            if key_or "first_update_id" "prev_sequence" == "prev_sequence"
            then inc64 first_seq
            else first_seq;
        final_update_id = seq;
        bids = record { price = ev.price; quantity = ev.quantity } ∷ [];
      })

    unfoldable pub parsed_bool : Option Bool → Result Error Bool
    parsed_bool none = err (parse_is_buyer_maker (csv_value "is_buyer_maker"))
    parsed_bool (some b) = ok b

    unfoldable pub csv_trade : MarketEvent → ℤ → Result Error MarketEvent
    unfolding parsed_bool
    csv_trade ev event_time = do
      trade_id ← csv_int "trade_id"
      is_buyer_maker ← parsed_bool (parse_bool (csv_value "is_buyer_maker"))
      csv_shaped (record ev {
        trade_time_ms = event_time;
        trade_id = trade_id;
        is_buyer_maker = some is_buyer_maker;
      })

    -- `switch ev.Type`
    unfoldable pub csv_row : MarketEvent → ℤ → Result Error MarketEvent
    unfolding csv_depth csv_trade
    csv_row ev event_time =
        if ev.type == event_type_depth
        then csv_depth ev event_time
        else if ev.type == event_type_agg_trade
        then csv_trade ev event_time
        else err (unknown_event_type ev.type)

    unfoldable pub parse_csv : ℤ → Result Error MarketEvent
    unfolding csv_event csv_row
    parse_csv line_no = do
      event_time ← csv_int (key_or "event_time" "trade_time")
      csv_row (csv_event line_no) event_time

    parsed_int-IsInt64 :
        (key : String) (m : Result NumError ℤ)
        → ((z : ℤ) → m ≡ ok z → IsInt64 z)
        → (z : ℤ) → parsed_int key m ≡ ok z
        → IsInt64 z
    unfolding parsed_int
    parsed_int-IsInt64 key (ok n) in_range z h = in_range z (ground arith)
    parsed_int-IsInt64 key (err e) in_range z h = cc

    csv_int-IsInt64 : (key : String) (z : ℤ) → csv_int key ≡ ok z → IsInt64 z
    unfolding csv_int
    csv_int-IsInt64 key z h =
        parsed_int-IsInt64 key (parse_int (csv_value key))
          (λ z e. parse_int-IsInt64 (csv_value key) e) z
          ((guarded_ok (csv_value key == "") (missing key) _ z).0 h).1

    -- What a parsed row has, whatever its kind.
    pub record IsCsvEvent (line_no : ℤ) (ev : MarketEvent) : Type 0 where
      pub well_formed : IsMarketEvent ev
      pub numbered : ev.line ≡ line_no
      pub symbol_upper : ev.symbol ≡ u.to_upper (csv_value "symbol")
      pub first_in_range : IsInt64 ev.first_update_id
      pub final_in_range : IsInt64 ev.final_update_id
      pub trade_in_range : IsInt64 ev.trade_id
      pub first_ne_zero : ev.type ≡ event_type_depth → ev.first_update_id ≢ pos 0

    shaped_first :
        (ev : MarketEvent)
        → Passes ev
            (not (eqb_ℤ ev.first_update_id (pos 0)))
            (ev.type == event_type_depth)
            (not (eqb_ℤ ev.trade_id (pos 0)))
        → ev.type ≡ event_type_depth
        → ev.first_update_id ≢ pos 0
    shaped_first ev (inl p) k e =
        let q = p.1 in ground (arith, eqb_ℤ_iff ev.first_update_id (pos 0))
    shaped_first ev (inr p) k e = absurd (event_types_ne (sym k ∙ p.0.kind))

    csv_shaped-IsCsvEvent :
        (line_no : ℤ) (ev ev' : MarketEvent)
        → ev.line ≡ line_no
        → ev.symbol ≡ u.to_upper (csv_value "symbol")
        → IsInt64 ev.first_update_id
        → IsInt64 ev.final_update_id
        → IsInt64 ev.trade_id
        → csv_shaped ev ≡ ok ev'
        → IsCsvEvent line_no ev'
    csv_shaped-IsCsvEvent line_no ev ev' l s f g t h =
        let (same, p) = shaped-ok ev _ _ _ h in
        subst (IsCsvEvent line_no) (sym same) (record {
          well_formed = Passes-IsMarketEvent ev _ _ _ p;
          numbered = l;
          symbol_upper = s;
          first_in_range = f;
          final_in_range = g;
          trade_in_range = t;
          first_ne_zero = shaped_first ev p;
        })

    csv_depth-IsCsvEvent :
        (line_no event_time : ℤ) (ev : MarketEvent)
        → csv_depth (csv_event line_no) event_time ≡ ok ev
        → IsCsvEvent line_no ev
    unfolding csv_depth csv_event
    csv_depth-IsCsvEvent line_no event_time ev h =
        let (seq, seq_read, h') = >>=-eq-ok (csv_int (key_or "final_update_id" "sequence")) _ h in
        let (first_seq, first_read, h'') =
          >>=-eq-ok (csv_int (key_or "first_update_id" "prev_sequence")) _ h' in
        csv_shaped-IsCsvEvent line_no _ ev refl refl
          (if-elim IsInt64 (key_or "first_update_id" "prev_sequence" == "prev_sequence")
            (inc64-IsInt64 first_seq) (csv_int-IsInt64 _ first_seq first_read))
          (csv_int-IsInt64 _ seq seq_read) (omega arith) h''

    csv_trade-IsCsvEvent :
        (line_no event_time : ℤ) (ev : MarketEvent)
        → csv_trade (csv_event line_no) event_time ≡ ok ev
        → IsCsvEvent line_no ev
    unfolding csv_trade csv_event
    csv_trade-IsCsvEvent line_no event_time ev h =
        let (trade_id, id_read, h') = >>=-eq-ok (csv_int "trade_id") _ h in
        let (maker, maker_read, h'') =
          >>=-eq-ok (parsed_bool (parse_bool (csv_value "is_buyer_maker"))) _ h' in
        csv_shaped-IsCsvEvent line_no _ ev refl refl (omega arith) (omega arith)
          (csv_int-IsInt64 _ trade_id id_read) h''

    -- What `parseCSV` returns is a well-formed event of the line with ids that fit an int64, its
    -- symbol trimmed and in upper case; a depth event never has first update id 0, which the shape
    -- check of a CSV row takes for a missing one.
    pub parse_csv-IsCsvEvent :
        (line_no : ℤ) (ev : MarketEvent) → parse_csv line_no ≡ ok ev → IsCsvEvent line_no ev
    unfolding parse_csv csv_row
    parse_csv-IsCsvEvent line_no ev h =
        let (event_time, time_read, h') =
          >>=-eq-ok (csv_int (key_or "event_time" "trade_time")) _ h in
        ground (
          arith,
          csv_depth-IsCsvEvent line_no event_time ev,
          csv_trade-IsCsvEvent line_no event_time ev,
        )
