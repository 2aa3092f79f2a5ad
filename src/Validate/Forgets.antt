-- ===== src/Validate/Forgets.antt =====
-- internal/validate/validator.go: an update id that `Prime` does not remember.
use market_replay.Prelude.{
  String, Bool, true, false, not, Option, none, some, ◌≡◌, ◌≢◌, refl, ◌∙◌, arith, if◌then◌else◌,
  eq_iff,
}
use market_replay.Prelude.Int.{ℤ, pos, inc64, eqb_ℤ, ltb_ℤ, leb_ℤ, ◌≤ℤ◌}
use market_replay.Prelude.Dict.{lookup, lookup-insert_self}
use market_replay.Event.{MarketEvent, event_type_depth, event_time_millis}
use market_replay.Parser.Record.{Record}
use market_replay.Validate.{
  Validator, process, prime, check_time, check_time_after, check_depth_sequence, check_depth_after,
  check_sequence, count_event, note_gap, note_misorder,
}
use market_replay.Validate.Effects.{accepted, process-marks}

note_misorder-sequence_gaps :
    (b : Bool) (ev : MarketEvent) (m : String) (v : Validator)
    → ((note_misorder b ev m v).result.sequence_gaps ≡ v.result.sequence_gaps)
      × ((note_misorder b ev m v).last_depth ≡ v.last_depth)
unfolding note_misorder
note_misorder-sequence_gaps true ev m v = (refl, refl)
note_misorder-sequence_gaps false ev m v = (refl, refl)

note_gap-sequence_gaps :
    (b : Bool) (ev : MarketEvent) (m : String) (v : Validator)
    → (note_gap b ev m v).result.sequence_gaps
      ≡ (if b then inc64 v.result.sequence_gaps else v.result.sequence_gaps)
unfolding note_gap
note_gap-sequence_gaps true ev m v = refl
note_gap-sequence_gaps false ev m v = refl

check_time-sequence_gaps :
    (v : Validator) (ev : MarketEvent) (last : Option ℤ)
    → ((check_time_after v ev last).result.sequence_gaps ≡ v.result.sequence_gaps)
      × ((check_time_after v ev last).last_depth ≡ v.last_depth)
unfolding check_time_after
check_time-sequence_gaps v ev none = (refl, refl)
check_time-sequence_gaps v ev (some last) = ground (
  arith,
  note_misorder-sequence_gaps (ltb_ℤ (event_time_millis ev) last) ev
      "event_time moved backwards for symbol" v,
)

-- The count of gaps behind a depth event, by the last final id of its symbol.
gaps_behind : Option ℤ → MarketEvent → ℤ → ℤ
gaps_behind none ev gaps = gaps
gaps_behind (some last) ev gaps = if eqb_ℤ ev.first_update_id (inc64 last) then gaps else inc64 gaps

check_depth-sequence_gaps :
    (v : Validator) (ev : MarketEvent) (last : Option ℤ)
    → (check_depth_after v ev last).result.sequence_gaps
      ≡ gaps_behind last ev v.result.sequence_gaps
unfolding check_depth_after gaps_behind
check_depth-sequence_gaps v ev none = refl
check_depth-sequence_gaps v ev (some last) =
    let gap = not (eqb_ℤ ev.first_update_id (inc64 last)) in
    let noted =
      note_gap gap ev "depth first_update_id does not continue after prior final_update_id" v in
    ground (
      arith,
      note_misorder-sequence_gaps (leb_ℤ ev.final_update_id last) ev
          "depth final_update_id did not increase" noted,
      note_gap-sequence_gaps gap ev
          "depth first_update_id does not continue after prior final_update_id" v,
    )

process-sequence_gaps :
    (v : Validator) (r : Record)
    → accepted v.opts_symbol r ≡ true
    → r.event.type ≡ event_type_depth
    → (process v r).result.sequence_gaps
      ≡ gaps_behind (lookup r.event.symbol v.last_depth) r.event v.result.sequence_gaps
unfolding process check_sequence check_time check_depth_sequence
process-sequence_gaps v r a d =
    let counted = record v { result = record (v.result) { rows = inc64 v.result.rows } } in
    let v' = count_event counted r.event in
    let timed = check_time v' r.event in
    ground (
      arith,
      eq_iff r.event.type event_type_depth,
      check_time-sequence_gaps v' r.event (lookup r.event.symbol v.last_time_ms),
      check_depth-sequence_gaps timed r.event (lookup r.event.symbol v.last_depth),
    )

prime-forgets :
    (v : Validator) (r : Record)
    → accepted v.opts_symbol r ≡ true
    → r.event.type ≡ event_type_depth
    → r.event.final_update_id ≤ℤ pos 0
    → lookup r.event.symbol v.last_depth ≡ none
    → ((prime v r).last_depth ≡ v.last_depth)
      × ((prime v r).result.sequence_gaps ≡ v.result.sequence_gaps)
      × ((prime v r).opts_symbol ≡ v.opts_symbol)
unfolding prime
prime-forgets v r a d h unmarked = ground (arith, eq_iff r.event.type event_type_depth)

process-remembers :
    (v : Validator) (r : Record)
    → accepted v.opts_symbol r ≡ true
    → r.event.type ≡ event_type_depth
    → lookup r.event.symbol v.last_depth ≡ none
    → (lookup r.event.symbol (process v r).last_depth ≡ some r.event.final_update_id)
      × ((process v r).result.sequence_gaps ≡ v.result.sequence_gaps)
      × ((process v r).opts_symbol ≡ v.opts_symbol)
unfolding gaps_behind
process-remembers v r a d unmarked = ground (
  arith,
  process-marks v r,
  process-sequence_gaps v r a d,
  eq_iff r.event.type event_type_depth,
  lookup-insert_self r.event.symbol r.event.final_update_id v.last_depth,
)

-- A validator that has no depth mark of a symbol primes an accepted depth event of it whose final id
-- is not positive, and next processes an accepted depth event of the symbol that does not continue
-- there: it counts no gap. When it processes the first event too, it counts one gap.
pub resume_forgets :
    (v : Validator) (r after : Record)
    → accepted v.opts_symbol r ≡ true
    → r.event.type ≡ event_type_depth
    → r.event.final_update_id ≤ℤ pos 0
    → lookup r.event.symbol v.last_depth ≡ none
    → accepted v.opts_symbol after ≡ true
    → after.event.type ≡ event_type_depth
    → after.event.symbol ≡ r.event.symbol
    → after.event.first_update_id ≢ inc64 r.event.final_update_id
    → ((process (prime v r) after).result.sequence_gaps ≡ v.result.sequence_gaps)
      × ((process (process v r) after).result.sequence_gaps ≡ inc64 v.result.sequence_gaps)
unfolding gaps_behind
resume_forgets v r after a d h unmarked a' d' same gap =
    let (depth, gaps, opts) = prime-forgets v r a d h unmarked in
    let (marked, gaps', opts') = process-remembers v r a d unmarked in
    (
      process-sequence_gaps (prime v r) after (rw opts a') d'
          ∙ rw (depth, same, unmarked, gaps) refl,
      process-sequence_gaps (process v r) after (rw opts' a') d'
          ∙ rw (same, marked, gaps') (ground (arith, gap)),
    )
