-- ===== src/Validate/Resume.antt =====
-- Checkpoint and resume: rows that were checked before are primed, and the rest are processed.
use market_replay.Prelude.{
  String, true, List, [], ◌∷◌, ◌++◌, ◌≡◌, refl, sym, ap, ◌∙◌, arith, if◌then◌else◌, All, eq_iff,
}
use market_replay.Prelude.Int.{ℤ, pos, ◌<ℤ◌}
use market_replay.Prelude.Dict.{Dict}
use market_replay.Event.{
  ValidationResult, event_type_depth, event_type_agg_trade, event_time_millis,
}
use market_replay.Parser.Record.{Record}
use market_replay.Validate.{
  Validator, new_validator, process, process_all, prime, prime_all, prime_mark,
}
use market_replay.Validate.Effects.{
  SameMarks, accepted, raise, depth_mark, trade_mark, process-marks,
}
use market_replay.Validate.Runs.{
  run_failures, process_all-failures, process_all-append, run_failures_same,
}

-- What `Prime` needs to remember an event: a positive time, and a positive id of its kind.
abbrev pub IsPositive : String → Record → Type 0
IsPositive wanted r =
    accepted wanted r ≡ true
    → (pos 0 <ℤ event_time_millis r.event)
      × (r.event.type ≡ event_type_depth → pos 0 <ℤ r.event.final_update_id)
      × (r.event.type ≡ event_type_agg_trade → pos 0 <ℤ r.event.trade_id)

prime_mark-raise : (k : String) (x : ℤ) (m : Dict ℤ) → pos 0 <ℤ x → prime_mark k x m ≡ raise k x m
prime_mark-raise k x m h = ground arith

prime-marks :
    (v : Validator) (r : Record)
    → IsPositive v.opts_symbol r
    → ((prime v r).last_time_ms ≡ (
        if accepted v.opts_symbol r
        then raise r.event.symbol (event_time_millis r.event) v.last_time_ms
        else v.last_time_ms))
      × ((prime v r).last_depth
          ≡ (if accepted v.opts_symbol r then depth_mark r.event v.last_depth else v.last_depth))
      × ((prime v r).last_trade
          ≡ (if accepted v.opts_symbol r then trade_mark r.event v.last_trade else v.last_trade))
      × ((prime v r).opts_symbol ≡ v.opts_symbol)
      × ((prime v r).result ≡ v.result)
unfolding prime
prime-marks v r h = ground (
  arith,
  eq_iff r.event.type event_type_depth,
  eq_iff r.event.type event_type_agg_trade,
  prime_mark-raise r.event.symbol (event_time_millis r.event) v.last_time_ms,
  prime_mark-raise r.event.symbol r.event.final_update_id v.last_depth,
  prime_mark-raise r.event.symbol r.event.trade_id v.last_trade,
)

prime-SameMarks :
    (v w : Validator) (r : Record)
    → SameMarks v w
    → IsPositive v.opts_symbol r
    → SameMarks (prime v r) (process w r)
prime-SameMarks v w r same h =
    let a = prime-marks v r h in
    let b = process-marks w r in
    (
      a.0 ∙ rw (same.0, same.3) (sym b.0),
      a.1 ∙ rw (same.1, same.3) (sym b.1),
      a.2 ∙ rw (same.2, same.3) (sym b.2),
      a.3 ∙ same.3 ∙ sym b.3,
    )

prime_all-SameMarks :
    (wanted : String) (rs : List Record) (v w : Validator)
    → v.opts_symbol ≡ wanted
    → SameMarks v w
    → All (IsPositive wanted) rs
    → SameMarks (prime_all v rs) (process_all w rs)
unfolding prime_all process_all
prime_all-SameMarks wanted [] v w e same h = same
prime_all-SameMarks wanted (r ∷ rs) v w e same (p, ps) =
    let p' : IsPositive v.opts_symbol r = rw e p in
    prime_all-SameMarks wanted rs (prime v r) (process w r) ((prime-marks v r p').3 ∙ e)
      (prime-SameMarks v w r same p') ps

prime-result : (v : Validator) (r : Record) → (prime v r).result ≡ v.result
unfolding prime
prime-result v r = ground arith

prime_all-result : (v : Validator) (rs : List Record) → (prime_all v rs).result ≡ v.result
unfolding prime_all
prime_all-result v [] = refl
prime_all-result v (r ∷ rs) = prime_all-result (prime v r) rs ∙ prime-result v r

-- A run that primes the rows up to a checkpoint and processes the rest reports exactly the failures
-- that an uninterrupted run reports for the rest, provided that the accepted rows before the
-- checkpoint have positive times and positive ids.
pub resume-failures :
    (wanted : String) (now later : ℤ) (before after : List Record)
    → All (IsPositive wanted) before
    → (process_all (new_validator wanted now) (before ++ after)).result.failures
      ≡ (process_all (new_validator wanted now) before).result.failures
        ++ (process_all (prime_all (new_validator wanted later) before) after).result.failures
unfolding new_validator
resume-failures wanted now later before after h =
    let fresh = new_validator wanted now in
    let again = new_validator wanted later in
    let same = prime_all-SameMarks wanted before again fresh refl (refl, refl, refl, refl) h in
    ap (λ (v : Validator). v.result.failures) (process_all-append fresh before after)
    ∙ process_all-failures (process_all fresh before) after
    ∙ ap (λ fs. (process_all fresh before).result.failures ++ fs)
        (sym (run_failures_same (prime_all again before) (process_all fresh before) after same)
          ∙ sym (
              process_all-failures (prime_all again before) after
              ∙ ap (λ fs. fs ++ run_failures (prime_all again before) after)
                  (ap (λ (res : ValidationResult). res.failures) (prime_all-result again before))))
