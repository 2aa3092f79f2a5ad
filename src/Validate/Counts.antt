-- ===== src/Validate/Counts.antt =====
-- The counters of a validation, against the rows that were read and the failures listed.
use market_replay.Prelude.{
  ℕ, ◌+◌, String, Bool, true, false, not, Option-cases, List, [], ◌∷◌, ◌++◌, none, some, ◌≡◌, arith,
  ◌==◌, length, count, length-append, count-append, Option, if-elim, inl, inr,
}
use market_replay.Prelude.Int.{ℤ, inc64, ltb_ℤ, leb_ℤ, eqb_ℤ, tally, inc64-tally, tally-zero}
use market_replay.Prelude.Dict.{lookup}
use market_replay.Event.{MarketEvent, Message, ValidationFailure, event_time_millis}
use market_replay.Parser.Record.{Record}
use market_replay.Validate.{
  Validator, new_validator, add_failure, note_gap, note_misorder, check_time_after, check_time,
  check_depth_after, check_depth_sequence, check_trade_after, check_trade_sequence, check_sequence,
  process, process_all, filtered_out,
}
use market_replay.Validate.Effects.{entered}

-- The number of listed failures of a kind.
abbrev pub of_kind : String → List ValidationFailure → ℕ
of_kind kind = count (λ f. f.type == kind)

-- Counters of malformed rows, gaps and misorders that agree with a list of failures: each is the
-- number listed under its kind, and there is no other kind.
pub record Tally (malformed gaps misorders : ℤ) (fs : List ValidationFailure) : Type 0 where
  pub malformed_tally : malformed ≡ tally (of_kind "malformed" fs)
  pub gaps_tally : gaps ≡ tally (of_kind "sequence_gap" fs)
  pub misorders_tally : misorders ≡ tally (of_kind "ordering" fs)
  pub total : length fs ≡ of_kind "malformed" fs + of_kind "sequence_gap" fs + of_kind "ordering" fs

of_kind-concat :
    (kind : String) (fs : List ValidationFailure) (f : ValidationFailure)
    → of_kind kind (fs ++ f ∷ [])
      ≡ of_kind kind fs + (elim (f.type == kind) [ true ↦ 1 | false ↦ 0 ])
of_kind-concat kind fs f = omega (arith, count-append (λ f. f.type == kind) fs (f ∷ []))

module _ {m g o : ℤ} {fs : List ValidationFailure} (t : Tally m g o fs) (at_line : ℤ) (s : String)
    (msg : Message) where
  abbrev one : String → ValidationFailure
  one kind = record { line = at_line; symbol = s; type = kind; message = msg }

  pub Tally-malformed : Tally (inc64 m) g o (fs ++ one "malformed" ∷ [])
  Tally-malformed = ground (
    arith,
    inc64-tally (of_kind "malformed" fs),
    of_kind-concat "malformed" fs (one "malformed"),
    of_kind-concat "sequence_gap" fs (one "malformed"),
    of_kind-concat "ordering" fs (one "malformed"),
    length-append fs (one "malformed" ∷ []),
  )

  pub Tally-gap : Tally m (inc64 g) o (fs ++ one "sequence_gap" ∷ [])
  Tally-gap = ground (
    arith,
    inc64-tally (of_kind "sequence_gap" fs),
    of_kind-concat "malformed" fs (one "sequence_gap"),
    of_kind-concat "sequence_gap" fs (one "sequence_gap"),
    of_kind-concat "ordering" fs (one "sequence_gap"),
    length-append fs (one "sequence_gap" ∷ []),
  )

  pub Tally-misorder : Tally m g (inc64 o) (fs ++ one "ordering" ∷ [])
  Tally-misorder = ground (
    arith,
    inc64-tally (of_kind "ordering" fs),
    of_kind-concat "malformed" fs (one "ordering"),
    of_kind-concat "sequence_gap" fs (one "ordering"),
    of_kind-concat "ordering" fs (one "ordering"),
    length-append fs (one "ordering" ∷ []),
  )

abbrev pub Tallied : Validator → Type 0
Tallied v =
    Tally v.result.malformed_events v.result.sequence_gaps v.result.ordering_failures
      v.result.failures

pub new_validator-Tallied : (s : String) (now : ℤ) → Tallied (new_validator s now)
unfolding new_validator
new_validator-Tallied s now = ground (arith, tally-zero)

note_gap-Tallied :
    (b : Bool) (ev : MarketEvent) (m : String) (v : Validator)
    → Tallied v
    → Tallied (note_gap b ev m v)
unfolding note_gap
note_gap-Tallied true ev m v t = Tally-gap t _ _ _
note_gap-Tallied false ev m v t = t

note_misorder-Tallied :
    (b : Bool) (ev : MarketEvent) (m : String) (v : Validator)
    → Tallied v
    → Tallied (note_misorder b ev m v)
unfolding note_misorder
note_misorder-Tallied true ev m v t = Tally-misorder t _ _ _
note_misorder-Tallied false ev m v t = t

check_time_after-Tallied :
    (v : Validator) (ev : MarketEvent) (last : Option ℤ)
    → Tallied v
    → Tallied (check_time_after v ev last)
unfolding check_time_after
check_time_after-Tallied v ev none t = t
check_time_after-Tallied v ev (some last) t = if-elim Tallied _ noted noted
  where
    noted : Tallied (
        note_misorder
          (ltb_ℤ (event_time_millis ev) last)
          ev
          "event_time moved backwards for symbol"
          v)
    noted = note_misorder-Tallied _ ev _ v t

check_depth_after-Tallied :
    (v : Validator) (ev : MarketEvent) (last : Option ℤ)
    → Tallied v
    → Tallied (check_depth_after v ev last)
unfolding check_depth_after
check_depth_after-Tallied v ev none t = t
check_depth_after-Tallied v ev (some last) t = if-elim Tallied _ noted noted
  where
    gapped : Validator
    gapped =
        note_gap (not (eqb_ℤ ev.first_update_id (inc64 last))) ev
          "depth first_update_id does not continue after prior final_update_id" v

    noted : Tallied (
        note_misorder
          (leb_ℤ ev.final_update_id last)
          ev
          "depth final_update_id did not increase"
          gapped)
    noted = note_misorder-Tallied _ ev _ gapped (note_gap-Tallied _ ev _ v t)

check_trade_after-Tallied :
    (v : Validator) (ev : MarketEvent) (last : Option ℤ)
    → Tallied v
    → Tallied (check_trade_after v ev last)
unfolding check_trade_after
check_trade_after-Tallied v ev none t = t
check_trade_after-Tallied v ev (some last) t = if-elim Tallied _ noted noted
  where
    gapped : Validator
    gapped = note_gap (not (eqb_ℤ ev.trade_id (inc64 last))) ev "trade_id is not contiguous" v

    noted : Tallied (note_misorder (leb_ℤ ev.trade_id last) ev "trade_id did not increase" gapped)
    noted = note_misorder-Tallied _ ev _ gapped (note_gap-Tallied _ ev _ v t)

check_sequence-Tallied :
    (v : Validator) (ev : MarketEvent) → Tallied v → Tallied (check_sequence v ev)
unfolding check_sequence check_depth_sequence check_trade_sequence
check_sequence-Tallied v ev t = ground (
  arith,
  check_depth_after-Tallied v ev (lookup ev.symbol v.last_depth) t,
  check_trade_after-Tallied v ev (lookup ev.symbol v.last_trade) t,
)

process-Tallied : (v : Validator) (r : Record) → Tallied v → Tallied (process v r)
unfolding process check_time add_failure
process-Tallied v r t = elim (Option-cases r.err) [
  | inl e ↦
      rw (e, process)
        (if-elim Tallied (filtered_out v.opts_symbol r.event) {x = read} t (
          check_sequence-Tallied (check_time (entered v r.event) r.event) r.event
            (check_time_after-Tallied (entered v r.event) r.event _ t)))
  | inr (x, e) ↦ rw (e, process) (Tally-malformed t _ _ _)
]
  where
    read : Validator
    read = record v { result = record (v.result) { rows = inc64 v.result.rows } }

process_all-Tallied : (v : Validator) (rs : List Record) → Tallied v → Tallied (process_all v rs)
unfolding process_all
process_all-Tallied v [] t = t
process_all-Tallied v (r ∷ rs) t = process_all-Tallied (process v r) rs (process-Tallied v r t)

-- After any rows, a new validator's counters of malformed rows, sequence gaps and ordering failures
-- are (as int64 counters) the numbers of failures listed under those kinds, and every listed failure
-- is of one of the three kinds.
pub validation-Tallied :
    (symbol : String) (now : ℤ) (rs : List Record)
    → Tallied (process_all (new_validator symbol now) rs)
validation-Tallied symbol now rs = process_all-Tallied _ rs (new_validator-Tallied symbol now)
