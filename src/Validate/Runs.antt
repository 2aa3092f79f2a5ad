-- ===== src/Validate/Runs.antt =====
-- The failures of a whole run, which depend on the marks that it starts from alone.
use market_replay.Prelude.{List, [], ◌∷◌, ◌++◌, append_assoc, append-nil, ◌≡◌, refl, sym, ap, ◌∙◌}
use market_replay.Event.{ValidationFailure}
use market_replay.Parser.Record.{Record}
use market_replay.Validate.{Validator, process, process_all}
use market_replay.Validate.Effects.{
  SameMarks, record_failures, sequence_failures, process-failures, process-marks,
}

-- The failures that the rows `rs` add to those of `v`.
unfoldable pub run_failures : Validator → List Record → List ValidationFailure
run_failures v [] = []
run_failures v (r ∷ rs) = record_failures v r ++ run_failures (process v r) rs

pub process_all-failures :
    (v : Validator) (rs : List Record)
    → (process_all v rs).result.failures ≡ v.result.failures ++ run_failures v rs
unfolding process_all run_failures
process_all-failures v [] = rw append-nil
process_all-failures v (r ∷ rs) =
    process_all-failures (process v r) rs
    ∙ ap (λ fs. fs ++ run_failures (process v r) rs) (process-failures v r)
    ∙ append_assoc v.result.failures (record_failures v r) (run_failures (process v r) rs)

pub process_all-append :
    (v : Validator) (rs ss : List Record)
    → process_all v (rs ++ ss) ≡ process_all (process_all v rs) ss
unfolding process_all
process_all-append v [] ss = refl
process_all-append v (r ∷ rs) ss = process_all-append (process v r) rs ss

module _ (v w : Validator) (r : Record) (same : SameMarks v w) where
  pub record_failures_same : record_failures v r ≡ record_failures w r
  unfolding record_failures sequence_failures
  record_failures_same = rw (same.0, same.1, same.2, same.3)

  pub process-SameMarks : SameMarks (process v r) (process w r)
  process-SameMarks =
      let a = process-marks v r in
      let b = process-marks w r in
      (
        a.0 ∙ rw (same.0, same.3) (sym b.0),
        a.1 ∙ rw (same.1, same.3) (sym b.1),
        a.2 ∙ rw (same.2, same.3) (sym b.2),
        a.3 ∙ same.3 ∙ sym b.3,
      )

pub run_failures_same :
    (v w : Validator) (rs : List Record) → SameMarks v w → run_failures v rs ≡ run_failures w rs
unfolding run_failures
run_failures_same v w [] same = refl
run_failures_same v w (r ∷ rs) same = cc (
  record_failures_same v w r same,
  run_failures_same (process v r) (process w r) rs (process-SameMarks v w r same),
)
