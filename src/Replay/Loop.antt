-- ===== src/Replay/Loop.antt =====
-- `Runner.Stream` and `File` of internal/replay/replay.go, and the outcome of the loop.
-- The loop runs on fuel; `none` means that the fuel ran out.
use market_replay.Prelude.{
  ℕ, zero, suc, ◌<◌, String, List, [], ◌∷◌, ◌++◌, Option, none, some, ◌≡◌, refl, arith, length, ◌∙◌,
  ap, if◌then◌else◌,
}
use market_replay.Prelude.Int.{ℤ, pos}
use market_replay.Prelude.Result.{Result, ok, err}
use market_replay.Error.{Error}
use market_replay.Parser.Record.{Record}
use market_replay.Parser.Text.{Unicode}
use market_replay.Parser.Jsonl.{JsonEvent}
use market_replay.Parser.Stream.{
  Stream, Input, Next, eof, failed, got, next, Contents, at_eof, at_error, more, open_stream,
}
use market_replay.Validate.{Validator, new_validator, process, process_all, filtered_out}
use market_replay.Replay.{sleep_for_event}

-- Without its duration, which is the clock's.
pub record Summary : Type 0 where
  pub rows : ℤ
  pub events : ℤ
  pub malformed_events : ℤ
  pub sequence_gaps : ℤ

-- The variables of the loop, with the sleeps so far.
pub record Run : Type 0 where
  pub validator : Validator
  pub previous : ℤ
  pub sleeps : List ℤ

-- The body of the loop for one record.
unfoldable pub replay_record : String → String → Run → Record → Run
replay_record symbol speed run r =
    let v = process run.validator r in
    let (previous, sleeps) = sleep_for_event r.event speed run.previous in
    elim r.err [
      | some e ↦ record run { validator = v }
      | none ↦
          if filtered_out symbol r.event
          then record run { validator = v }
          else record { validator = v; previous = previous; sleeps = run.sleeps ++ sleeps }
    ]

abbrev pub summary : Validator → Summary
summary v = record {
  rows = v.result.rows;
  events = v.result.events;
  malformed_events = v.result.malformed_events;
  sequence_gaps = v.result.sequence_gaps;
}

abbrev pub Outcome : Type 0
Outcome = Option (Result Error Summary × List ℤ)

unfoldable pub replay_round :
    String → String → (Run → Stream → Outcome) → Run → Next → Stream → Outcome
unfolding replay_record
replay_round symbol speed go run eof t = some (ok (summary run.validator), run.sleeps)
replay_round symbol speed go run (failed e) t = some (err e, run.sleeps)
replay_round symbol speed go run (got r) t = go (replay_record symbol speed run r) t

-- The rows in order.
unfoldable pub replay_all : String → String → Run → List Record → Run
replay_all symbol speed run [] = run
replay_all symbol speed run (r ∷ rs) = replay_all symbol speed (replay_record symbol speed run r) rs

abbrev pub start : String → ℤ → Run
start symbol now = record { validator = new_validator symbol now; previous = pos 0; sleeps = [] }

module _ (u : Unicode) (decode : String → Result String JsonEvent) (symbol speed : String) where
  unfoldable pub replay_loop : ℕ → Run → Stream → Outcome
  unfolding replay_round
  replay_loop zero run s = none
  replay_loop (suc fuel) run s =
      replay_round symbol speed (replay_loop fuel) run (next u decode s).0 (next u decode s).1

  unfoldable pub replay_stream : ℕ → ℤ → Stream → Outcome
  unfolding replay_loop
  replay_stream fuel now s = replay_loop fuel (start symbol now) s

  unfoldable pub replay_file : ℕ → ℤ → Result Error Input → String → String → Outcome
  unfolding replay_stream
  replay_file fuel now file ext format = elim (open_stream u decode file ext format) [
    | err e ↦ some (err e, [])
    | ok s ↦ replay_stream fuel now s
  ]

  -- What a loop over a stream with these contents comes to.
  abbrev pub closing : Run → List Record → Option Error → Result Error Summary × List ℤ
  closing run rs none = (
    ok (summary (replay_all symbol speed run rs).validator),
    (replay_all symbol speed run rs).sleeps,
  )
  closing run rs (some e) = (err e, (replay_all symbol speed run rs).sleeps)

  replay_loop-Contents :
      {s : Stream} {rs : List Record} {e : Option Error}
      → Contents u decode s rs e
      → (fuel : ℕ) (run : Run) → length rs < fuel
      → replay_loop fuel run s ≡ some (closing run rs e)
  unfolding replay_loop replay_all
  replay_loop-Contents c zero run h = elim h [ ]
  replay_loop-Contents (at_eof p) (suc fuel) run h = rw p
  replay_loop-Contents (at_error p) (suc fuel) run h = rw p
  replay_loop-Contents (more {r} p c) (suc fuel) run h =
      rw p (replay_loop-Contents c fuel (replay_record symbol speed run r) (omega arith))

  replay_record-validator :
      (run : Run) (r : Record)
      → (replay_record symbol speed run r).validator ≡ process run.validator r
  unfolding replay_record
  replay_record-validator run r = ground arith

  replay_all-validator :
      (run : Run) (rs : List Record)
      → (replay_all symbol speed run rs).validator ≡ process_all run.validator rs
  unfolding replay_all process_all
  replay_all-validator run [] = refl
  replay_all-validator run (r ∷ rs) =
      replay_all-validator (replay_record symbol speed run r) rs
      ∙ ap (λ v. process_all v rs) (replay_record-validator run r)

  abbrev pub outcome : Validator → Option Error → Result Error Summary
  outcome v none = ok (summary v)
  outcome v (some e) = err e

  -- Whatever the speed, and with more fuel than the stream has records, a replay ends with the error
  -- that the stream ends with, or with the counts that a validation of its records gives.
  pub replay_stream-Contents :
      {s : Stream} {rs : List Record} {e : Option Error}
      → Contents u decode s rs e
      → (fuel : ℕ) (now : ℤ) → length rs < fuel
      → replay_stream fuel now s
        ≡ some (
          outcome (process_all (new_validator symbol now) rs) e,
          (replay_all symbol speed (start symbol now) rs).sleeps,
        )
  unfolding replay_stream
  replay_stream-Contents {rs} {e} c fuel now h =
      replay_loop-Contents c fuel (start symbol now) h ∙ closing-outcome e
    where
      closing-outcome :
          (e : Option Error)
          → some (closing (start symbol now) rs e)
            ≡ some (
              outcome (process_all (new_validator symbol now) rs) e,
              (replay_all symbol speed (start symbol now) rs).sleeps,
            )
      closing-outcome none = rw (replay_all-validator (start symbol now) rs)
      closing-outcome (some x) = refl
