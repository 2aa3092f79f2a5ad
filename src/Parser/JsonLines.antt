-- ===== src/Parser/JsonLines.antt =====
-- internal/parser/jsonl.go: which lines are parsed, and to which events, field by field.
use market_replay.Prelude.{
  String, true, not, ◌||◌, Option, none, some, ◌≡◌, refl, ◌≢◌, ◌↔◌, ◌⊎◌, inl, inr, subst, sym, ap,
  ◌∙◌, str_ne, if◌then◌else◌, ◌==◌, eq_iff, arith, Bool-cases, Option-cases,
}
use market_replay.Prelude.Int.{ℤ, pos, inc64}
use market_replay.Prelude.Result.{Result, ok, guarded_ok, Result-cases}
use market_replay.Error.{empty_line}
use market_replay.Event.{MarketEvent, event_type_depth, event_type_agg_trade}
use market_replay.Parser.Text.{Unicode}
use market_replay.Parser.Shape.{
  is_none, Passes, IsDepthEvent, IsTradeEvent, shaped, shaped-ok, shaped-Passes,
}
use market_replay.Parser.Jsonl.{
  JsonEvent, normalize_event_type, json_event, has_first, has_final, decoded_event, parse_json_line,
}

-- One of the two spellings of an id is there.
abbrev pub AnyGiven : Option ℤ → Option ℤ → Type 0
AnyGiven a b = (a ≢ none) ⊎ (b ≢ none)

given_iff : (a b : Option ℤ) → ((not (is_none a) || not (is_none b)) ≡ true) ↔ AnyGiven a b
given_iff none none = (λ h. cc, elim [ inl h ↦ absurd (h refl) | inr h ↦ absurd (h refl) ])
given_iff none (some y) = (λ h. inr (λ e. cc), λ h. refl)
given_iff (some x) none = (λ h. inl (λ e. cc), λ h. refl)
given_iff (some x) (some y) = (λ h. inl (λ e. cc), λ h. refl)

one_given_iff : (a : Option ℤ) → (not (is_none a) ≡ true) ↔ (a ≢ none)
one_given_iff none = (λ h. cc, λ h. absurd (h refl))
one_given_iff (some x) = (λ h e. cc, λ h. refl)

-- An id by its spelling now, or 0 where that is missing.
abbrev pub IsIdOr : Option ℤ → ℤ → Type 0
IsIdOr given id = (given ≡ some id) ⊎ ((given ≡ none) × (id ≡ pos 0))

module _ (u : Unicode) where
  -- The type of an event, by how a line spells it.
  pub data IsKind (raw : String) (type : String) : Type 0 where
    spells_depth :
        u.to_lower (u.trim_space raw) ≡ "depth" → type ≡ event_type_depth → IsKind raw type
    spells_agg_trade :
        u.to_lower (u.trim_space raw) ≡ "aggtrade" → type ≡ event_type_agg_trade → IsKind raw type
    spells_trade :
        u.to_lower (u.trim_space raw) ≡ "trade" → type ≡ event_type_agg_trade → IsKind raw type
    spells_other :
        u.to_lower (u.trim_space raw) ≢ "depth"
        → u.to_lower (u.trim_space raw) ≢ "aggtrade"
        → u.to_lower (u.trim_space raw) ≢ "trade"
        → type ≡ raw
        → IsKind raw type

  -- The event that a decoded line stands for. The type is read from its old spelling only where the
  -- new one is empty; the old spellings of the two update ids go before the new ones, and the first
  -- id is one more than `prev_sequence`.
  pub record IsJsonEvent (raw : JsonEvent) (line_no : ℤ) (ev : MarketEvent) : Type 0 where
    pub kind :
        ((raw.type ≢ "") × IsKind raw.type ev.type)
        ⊎ ((raw.type ≡ "") × IsKind raw.legacy_type ev.type)
    pub symbol : ev.symbol ≡ u.to_upper (u.trim_space raw.symbol)
    pub event_time : ev.event_time_ms ≡ raw.event_time_ms
    pub trade_time : ev.trade_time_ms ≡ raw.trade_time_ms
    pub first :
        ((before : ℤ) × (raw.legacy_prev_seq ≡ some before) × (ev.first_update_id ≡ inc64 before))
        ⊎ ((raw.legacy_prev_seq ≡ none) × IsIdOr raw.first_update_id ev.first_update_id)
    pub final :
        (raw.legacy_seq ≡ some ev.final_update_id)
        ⊎ ((raw.legacy_seq ≡ none) × IsIdOr raw.final_update_id ev.final_update_id)
    pub trade : IsIdOr raw.trade_id ev.trade_id
    pub price : ev.price ≡ raw.price
    pub quantity : ev.quantity ≡ raw.quantity
    pub maker : ev.is_buyer_maker ≡ raw.is_buyer_maker
    pub bids : ev.bids ≡ raw.bids
    pub asks : ev.asks ≡ raw.asks
    pub line : ev.line ≡ line_no

  -- The event is accepted, and the line gave its ids.
  abbrev pub IsComplete : JsonEvent → MarketEvent → Type 0
  IsComplete raw ev =
      (IsDepthEvent ev
        × AnyGiven raw.first_update_id raw.legacy_prev_seq
        × AnyGiven raw.final_update_id raw.legacy_seq)
      ⊎ (IsTradeEvent ev × (raw.trade_id ≢ none))

  abbrev type_of_text : String → String → String
  type_of_text k raw =
      if k == "depth"
      then event_type_depth
      else if k == "aggtrade" || k == "trade"
      then event_type_agg_trade
      else raw

  IsKind-normalize : (raw type : String) → IsKind raw type → normalize_event_type u raw ≡ type
  unfolding normalize_event_type
  IsKind-normalize raw type (spells_depth h e) = ap (λ k. type_of_text k raw) h ∙ sym e
  IsKind-normalize raw type (spells_agg_trade h e) = ap (λ k. type_of_text k raw) h ∙ sym e
  IsKind-normalize raw type (spells_trade h e) = ap (λ k. type_of_text k raw) h ∙ sym e
  IsKind-normalize raw type (spells_other d a t e) =
      let k = u.to_lower (u.trim_space raw) in
      let other : type_of_text k raw ≡ raw =
        rw ((str_ne k "depth").1 d, (str_ne k "aggtrade").1 a, (str_ne k "trade").1 t) refl in
      other ∙ sym e

  normalize-IsKind : (raw : String) → IsKind raw (normalize_event_type u raw)
  unfolding normalize_event_type
  normalize-IsKind raw =
      let k = u.to_lower (u.trim_space raw) in
      elim (Bool-cases (k == "depth")) [
        | inl h ↦ spells_depth ((eq_iff k "depth").0 h) (ground (arith, h))
        | inr h ↦ elim (Bool-cases (k == "aggtrade")) [
          | inl a ↦ spells_agg_trade ((eq_iff k "aggtrade").0 a) (ground (arith, h, a))
          | inr a ↦ elim (Bool-cases (k == "trade")) [
            | inl t ↦ spells_trade ((eq_iff k "trade").0 t) (ground (arith, h, a, t))
            | inr t ↦
                spells_other ((str_ne k "depth").0 h) ((str_ne k "aggtrade").0 a)
                  ((str_ne k "trade").0 t) (ground (arith, h, a, t))
          ]
        ]
      ]

  json_event-IsJsonEvent :
      (raw : JsonEvent) (line_no : ℤ) → IsJsonEvent raw line_no (json_event u raw line_no)
  unfolding json_event
  json_event-IsJsonEvent raw line_no = record {
    kind = elim (Bool-cases (raw.type == "")) [
      | inl h ↦ inr (
        (eq_iff raw.type "").0 h,
        subst (λ t. IsKind raw.legacy_type (normalize_event_type u t)) (ground (arith, h))
            (normalize-IsKind raw.legacy_type),
      )
      | inr h ↦ inl (
        (str_ne raw.type "").0 h,
        subst (λ t. IsKind raw.type (normalize_event_type u t)) (ground (arith, h))
            (normalize-IsKind raw.type),
      )
    ];
    symbol = refl;
    event_time = refl;
    trade_time = refl;
    first = elim (Option-cases raw.legacy_prev_seq) [
      | inl e ↦ inr (e, ground (arith, e))
      | inr (before, e) ↦ inl (before, e, ground (arith, e))
    ];
    final = elim (Option-cases raw.legacy_seq) [
      | inl e ↦ inr (e, ground (arith, e))
      | inr (after, e) ↦ inl (ground (arith, e))
    ];
    trade = ground arith;
    price = refl;
    quantity = refl;
    maker = refl;
    bids = refl;
    asks = refl;
    line = refl;
  }

  IsJsonEvent-json_event :
      (raw : JsonEvent) (line_no : ℤ) (ev : MarketEvent)
      → IsJsonEvent raw line_no ev
      → ev ≡ json_event u raw line_no
  unfolding json_event
  IsJsonEvent-json_event raw line_no ev d =
      let spelled : String = if raw.type == "" then raw.legacy_type else raw.type in
      let kind : ev.type ≡ normalize_event_type u spelled = elim d.kind [
        | inl (h, k) ↦ ground (arith, (str_ne raw.type "").1 h, IsKind-normalize raw.type ev.type k)
        | inr (h, k) ↦
            ground (arith, (eq_iff raw.type "").1 h, IsKind-normalize raw.legacy_type ev.type k)
      ] in
      ground (
        arith, kind, d.symbol, d.event_time, d.trade_time, d.first, d.final, d.trade, d.price,
        d.quantity, d.maker, d.bids, d.asks, d.line,
      )

  decoded_event_iff :
      (raw : JsonEvent) (line_no : ℤ) (ev : MarketEvent)
      → (decoded_event u (ok raw) line_no ≡ ok ev)
        ↔ (IsJsonEvent raw line_no ev × IsComplete raw ev)
  unfolding decoded_event
  decoded_event_iff raw line_no ev =
      let made = json_event u raw line_no in
      let firsts = given_iff raw.first_update_id raw.legacy_prev_seq in
      let finals = given_iff raw.final_update_id raw.legacy_seq in
      let id = one_given_iff raw.trade_id in
      (
        λ h.
            let (same, p) =
              shaped-ok made (has_first u raw) (has_final u raw) (not (is_none raw.trade_id)) h in
            subst (λ e. IsJsonEvent raw line_no e × IsComplete raw e) (sym same)
              (
                json_event-IsJsonEvent raw line_no,
                elim p [
                  | inl (d, a, b) ↦ inl (d, firsts.0 a, finals.0 b)
                  | inr (t, a) ↦ inr (t, id.0 a)
                ],
              ),
        λ (d, complete).
            let same : ev ≡ made = IsJsonEvent-json_event raw line_no ev d in
            let p : Passes ev (has_first u raw) (has_final u raw) (not (is_none raw.trade_id)) =
              elim complete [
                | inl (e, a, b) ↦ inl (e, firsts.1 a, finals.1 b)
                | inr (e, a) ↦ inr (e, id.1 a)
              ] in
            subst
              (λ e.
                shaped e (has_first u raw) (has_final u raw) (not (is_none raw.trade_id)) ≡ ok ev)
              same (shaped-Passes ev _ _ _ p),
      )

  -- A line is parsed exactly when it is not blank, decodes, and gives an accepted event with its ids
  -- given. The record is then the event of the decoded line under the line's number: the type as it
  -- is spelled, the symbol trimmed and in upper case, the first id one more than `prev_sequence` or
  -- else `first_update_id`, the final id `sequence` or else `final_update_id`, an id that is missing 0,
  -- and the other fields as they are.
  pub parse_json_line_iff :
      (decode : String → Result String JsonEvent) (line : String) (line_no : ℤ) (ev : MarketEvent)
      → (parse_json_line u decode line line_no ≡ ok ev) ↔ (
          (u.trim_space line ≢ "")
          × ((raw : JsonEvent) × (decode line ≡ ok raw)
              × IsJsonEvent raw line_no ev
              × IsComplete raw ev))
  unfolding parse_json_line decoded_event
  parse_json_line_iff decode line line_no ev =
      let blank = u.trim_space line == "" in
      let rest = decoded_event u (decode line) line_no in
      (
        λ h.
            let (nonblank, found) = (guarded_ok blank empty_line rest ev).0 h in
            (
              (str_ne (u.trim_space line) "").0 nonblank,
              elim (Result-cases (decode line)) [
                | inl (e, bad) ↦ absurd (ground (arith, bad, found))
                | inr (raw, good) ↦
                    let (described, complete) =
                      (decoded_event_iff raw line_no ev).0
                        (subst (λ m. decoded_event u m line_no ≡ ok ev) good found) in
                    (raw, good, described, complete)
              ],
            ),
        λ (nonblank, (raw, good, described, complete)). (guarded_ok blank empty_line rest ev).1 (
          (str_ne (u.trim_space line) "").1 nonblank,
          subst (λ m. decoded_event u m line_no ≡ ok ev) (sym good)
              ((decoded_event_iff raw line_no ev).1 (described, complete)),
        ),
      )
