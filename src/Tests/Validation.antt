-- ===== src/Tests/Validation.antt =====
-- internal/validate on the records of small files.
use market_replay.Prelude.{
  ℕ, String, List, [], ◌∷◌, ◌++◌, none, some, ◌≡◌, refl, count, map, ◌↔◌, arith,
}
use market_replay.Prelude.Int.{ℤ, pos, inc64}
use market_replay.Prelude.Dict.{lookup, insert}
use market_replay.Error.{empty_line}
use market_replay.Event.{MarketEvent, ValidationFailure, event_types_ne, event_time_millis}
use market_replay.Parser.Record.{Record, zero_event}
use market_replay.Validate.{
  new_validator, process_all, prime_all, prime, process, check_sequence, check_depth_sequence,
  check_time, note_misorder, note_gap,
}
use market_replay.Validate.Counts.{Tallied, validation-Tallied}
use market_replay.Validate.Rows.{Counted, validation-Counted, accepted_for}
use market_replay.Validate.Clean.{IsClean, failures-IsClean}
use market_replay.Validate.Resume.{resume-failures}
use market_replay.Validate.Forgets.{resume_forgets}

-- A depth event at a time, with its first and final update ids.
abbrev pub depth : String → ℕ → ℤ → ℤ → MarketEvent
depth symbol time first final = record zero_event {
  type = "depth";
  symbol = symbol;
  event_time_ms = pos time;
  first_update_id = first;
  final_update_id = final;
}

abbrev pub parsed : MarketEvent → Record
parsed ev = record { line = ev.line; event = ev; raw = none; err = none }

abbrev blank_row : Record
blank_row = record { line = pos 3; event = zero_event; raw = some ""; err = some empty_line }

-- A gap of BTCUSDT, an event of ETHUSDT, a blank line, and an event that goes back in time.
abbrev rows : List Record
rows =
    parsed (depth "BTCUSDT" 1000 (pos 1) (pos 2))
    ∷ parsed (depth "ETHUSDT" 1001 (pos 7) (pos 9))
    ∷ blank_row
    ∷ parsed (depth "BTCUSDT" 1002 (pos 5) (pos 6))
    ∷ parsed (depth "BTCUSDT" 990 (pos 7) (pos 7))
    ∷ []

kinds :
    map
      (λ (f : ValidationFailure). f.type)
      (process_all (new_validator "" (pos 0)) rows).result.failures
    ≡ "malformed" ∷ "sequence_gap" ∷ "ordering" ∷ []
unfolding process_all process new_validator check_sequence check_depth_sequence lookup check_time
    insert event_time_millis note_misorder note_gap inc64
kinds = refl

validation-Tallied_example : Tallied (process_all (new_validator "" (pos 0)) rows)
validation-Tallied_example = validation-Tallied "" (pos 0) rows

validation-Counted_example :
    Counted "BTCUSDT" 5 3 1
      (λ s. count (accepted_for "BTCUSDT" s) rows)
      (process_all (new_validator "BTCUSDT" (pos 0)) rows)
validation-Counted_example = validation-Counted "BTCUSDT" (pos 0) rows

failures-IsClean_example :
    ((process_all (new_validator "ETHUSDT" (pos 0)) rows).result.failures ≡ [])
    ↔ IsClean "ETHUSDT" rows
failures-IsClean_example = failures-IsClean "ETHUSDT" (pos 0) rows

abbrev head_rows : List Record
head_rows =
    parsed (depth "BTCUSDT" 1000 (pos 1) (pos 2))
    ∷ parsed (depth "ETHUSDT" 1001 (pos 7) (pos 9))
    ∷ []

abbrev tail_rows : List Record
tail_rows = parsed (depth "BTCUSDT" 1002 (pos 5) (pos 6)) ∷ []

resume-failures_example :
    (process_all (new_validator "" (pos 0)) (head_rows ++ tail_rows)).result.failures
    ≡ (process_all (new_validator "" (pos 0)) head_rows).result.failures
      ++ (process_all (prime_all (new_validator "" (pos 50)) head_rows) tail_rows).result.failures
unfolding event_time_millis
resume-failures_example = resume-failures "" (pos 0) (pos 50) head_rows tail_rows (
  (λ _. (omega arith, λ _. omega arith, λ e. absurd (event_types_ne e))),
  ((λ _. (omega arith, λ _. omega arith, λ e. absurd (event_types_ne e))), tt),
)

abbrev zero_final : Record
zero_final = parsed (depth "BTCUSDT" 1000 (pos 0) (pos 0))

-- The ids 1 to 39 are missing.
abbrev behind_zero : Record
behind_zero = parsed (depth "BTCUSDT" 1001 (pos 40) (pos 41))

resume_forgets_example :
    ((process (prime (new_validator "" (pos 0)) zero_final) behind_zero).result.sequence_gaps
      ≡ pos 0)
    × ((process (process (new_validator "" (pos 0)) zero_final) behind_zero).result.sequence_gaps
        ≡ inc64 (pos 0))
unfolding new_validator inc64 lookup
resume_forgets_example =
    resume_forgets (new_validator "" (pos 0)) zero_final behind_zero refl refl (omega arith) refl
      refl refl refl (λ h. ground (arith, h))
