-- ===== src/Validate/Drive.antt =====
-- `File`, `Reader` and `Stream` of internal/validate/validator.go: a validator over a whole stream.
-- The loop runs on fuel; `none` means that the fuel ran out.
use market_replay.Prelude.{ℕ, zero, suc, ◌<◌, String, List, Option, none, some, ◌≡◌, arith, length}
use market_replay.Prelude.Int.{ℤ}
use market_replay.Prelude.Result.{Result, ok, err}
use market_replay.Error.{Error}
use market_replay.Event.{ValidationResult}
use market_replay.Parser.Record.{Record}
use market_replay.Parser.Text.{Unicode}
use market_replay.Parser.Jsonl.{JsonEvent}
use market_replay.Parser.Stream.{
  Stream, Input, Next, eof, failed, got, next, Contents, at_eof, at_error, more, new_stream,
  open_stream,
}
use market_replay.Validate.{Validator, new_validator, process, process_all, result}

module _ (u : Unicode) (decode : String → Result String JsonEvent) (now : ℤ) where
  abbrev Outcome : Type 0
  Outcome = Option (Result Error ValidationResult)

  -- One round of the loop, with the rounds that follow it as `go`.
  unfoldable pub validate_round :
      (Validator → Stream → Outcome) → Validator → Next → Stream → Outcome
  validate_round go v eof t = some (ok (result v now))
  validate_round go v (failed e) t = some (err e)
  validate_round go v (got r) t = go (process v r) t

  unfoldable pub validate_loop : ℕ → Validator → Stream → Outcome
  unfolding validate_round
  validate_loop zero v s = none
  validate_loop (suc fuel) v s =
      validate_round (validate_loop fuel) v (next u decode s).0 (next u decode s).1

  -- `Stream`; `started` is the time that `NewValidator` reads.
  unfoldable pub validate_stream : ℕ → ℤ → String → Stream → Outcome
  unfolding validate_loop
  validate_stream fuel started symbol s = validate_loop fuel (new_validator symbol started) s

  -- `Reader`
  unfoldable pub validate_reader : ℕ → ℤ → String → Input → String → Outcome
  unfolding validate_stream
  validate_reader fuel started symbol input format = elim (new_stream u decode input format) [
    | err e ↦ some (err e)
    | ok s ↦ validate_stream fuel started symbol s
  ]

  -- `File`
  unfoldable pub validate_file : ℕ → ℤ → String → Result Error Input → String → String → Outcome
  unfolding validate_stream
  validate_file fuel started symbol file ext format = elim (open_stream u decode file ext format) [
    | err e ↦ some (err e)
    | ok s ↦ validate_stream fuel started symbol s
  ]

  -- What a loop over a stream with these contents comes to.
  abbrev pub closing : Validator → List Record → Option Error → Result Error ValidationResult
  closing v rs none = ok (result (process_all v rs) now)
  closing v rs (some e) = err e

  validate_loop-Contents :
      {s : Stream} {rs : List Record} {e : Option Error}
      → Contents u decode s rs e
      → (fuel : ℕ) (v : Validator) → length rs < fuel
      → validate_loop fuel v s ≡ some (closing v rs e)
  unfolding validate_loop process_all
  validate_loop-Contents c zero v h = elim h [ ]
  validate_loop-Contents (at_eof p) (suc fuel) v h = rw p
  validate_loop-Contents (at_error p) (suc fuel) v h = rw p
  validate_loop-Contents (more {r} p c) (suc fuel) v h =
      rw p (validate_loop-Contents c fuel (process v r) (omega arith))

  -- With more fuel than the stream has records the loop of `Stream` ends: with the error that the
  -- stream ends with, or with the result of a new validator after all its records.
  pub validate_stream-Contents :
      {s : Stream} {rs : List Record} {e : Option Error}
      → Contents u decode s rs e
      → (fuel : ℕ) (started : ℤ) (symbol : String) → length rs < fuel
      → validate_stream fuel started symbol s ≡ some (closing (new_validator symbol started) rs e)
  unfolding validate_stream
  validate_stream-Contents c fuel started symbol h =
      validate_loop-Contents c fuel (new_validator symbol started) h
