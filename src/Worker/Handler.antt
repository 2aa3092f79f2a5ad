-- ===== src/Worker/Handler.antt =====
-- internal/worker/handler.go: ProcessTask, and the replay of a job's file behind it.
-- Metrics and log lines are left out; what is measured of time and memory is in a `Meter`.
use market_replay.Prelude.{ℕ, zero, suc, ◌+◌, ◌%◌, String, Bool, if◌then◌else◌, ◌==◌, eqb}
use market_replay.Prelude.Int.{ℤ, pos, pos_part, neg_part, leb_ℤ}
use market_replay.Prelude.Result.{Result, ok, err}
use market_replay.Error.{Error}
use market_replay.Parser.Stream.{Stream, Next, eof, failed, got, next, new_stream, resolve_format}
use market_replay.Validate.{Validator, new_validator, process, prime}
use market_replay.Store.{JobStatus, running, completed, canceled, dlq, ReplayJob, EventFile}
use market_replay.Queue.{Task, decode_replay_payload, type_replay_job}
use market_replay.Worker.{
  Failure, parser_failed, os_failed, context_canceled, context_failed, out_of_fuel, OpenFile,
  Setting, World, Work, ◌>>=◌, pure, fail,
}
use market_replay.Worker.Outcome.{
  Attempt, unsupported_type, invalid_payload, dropped, Reply, success, failure, no_retry,
  final_status, failure_reply, validation_errors, Replayed, replayed, new_manifest,
}
use market_replay.Worker.Actions.{
  poll, read_job, read_file, set_status, set_checkpoint, set_stats, set_manifest, complete,
}

-- `record.Line%h.cfg.CheckpointEvery == 0`
abbrev pub divides : ℕ → ℤ → Bool
divides every line = eqb ((pos_part line + neg_part line) % every) 0

module _ (g : Setting) where
  abbrev pub stop_if_canceled : JobStatus → Work (Unit {0})
  stop_if_canceled canceled = fail (context_failed context_canceled)
  stop_if_canceled status = pure tt

  unfoldable pub at_checkpoint : String → ℤ → Work (Unit {0})
  at_checkpoint id line =
      if divides g.every line
      then set_checkpoint g id line
        >>= (λ _. read_job g id >>= (λ current. stop_if_canceled current.status))
      else pure tt

  -- One round of the loop, with the rounds that follow it as `go`.
  unfoldable pub file_round :
      (Validator → ℤ → Stream → Work (Validator × ℤ))
      → String
      → ℤ
      → Validator
      → ℤ
      → Next
      → Stream
      → Work (Validator × ℤ)
  file_round go id checkpoint v last eof t = pure (v, last)
  file_round go id checkpoint v last (failed e) t = fail (parser_failed e)
  file_round go id checkpoint v last (got r) t =
      if leb_ℤ r.line checkpoint
      then go (prime v r) r.line t
      else at_checkpoint id r.line >>= (λ _. go (process v r) r.line t)

  unfoldable pub file_loop : ℕ → String → ℤ → Validator → ℤ → Stream → Work (Validator × ℤ)
  file_loop zero id checkpoint v last s = fail out_of_fuel
  file_loop (suc n) id checkpoint v last s = poll g >>= (λ _.
      file_round (file_loop n id checkpoint) id checkpoint v last (next g.unicode g.decode s).0
        (next g.unicode g.decode s).1)

  -- `processFile` with what NewStream returns.
  unfoldable pub process_stream :
      ReplayJob → String → OpenFile → Result Error Stream → Work Replayed
  process_stream job symbol file (err e) = fail (parser_failed e)
  process_stream job symbol file (ok s) =
      file_loop g.fuel job.id job.checkpoint_line (new_validator symbol g.meter.started) (pos 0) s
      >>= (λ done. pure (replayed g.meter file done.0 done.1))

  -- `processFile` with what os.Open and Stat return.
  unfoldable pub process_opened :
      ReplayJob → String → String → Result String OpenFile → Work Replayed
  unfolding process_stream
  process_opened job format symbol (err e) = fail (os_failed e)
  process_opened job format symbol (ok file) =
      process_stream job symbol file (new_stream g.unicode g.decode file.input format)

  unfoldable pub process_file : ReplayJob → String → String → String → Work Replayed
  unfolding process_opened
  process_file job path format symbol = process_opened job format symbol (g.files path)

  -- `run` after `processFile`.
  unfoldable pub record_run :
      ReplayJob → ReplayJob → EventFile → String → String → Replayed → Work (Unit {0})
  record_run job latest file format symbol (metric, failures, stats) =
      set_checkpoint g job.id metric.rows >>= (λ _.
        set_stats g file.id
          (record { sha256 = stats.sha256; rows = stats.rows; bytes = stats.bytes })
        >>= (λ _.
            set_manifest g job.id
              (new_manifest file format symbol stats metric latest.checkpoint_line failures)
            >>= (λ _.
                complete g job.id
                  (record { metric = metric; errors = validation_errors job.id failures })
                >>= (λ _. pure tt))))

  -- `run` after the checks of the latest job.
  unfoldable pub run_latest : ReplayJob → ReplayJob → Work (Unit {0})
  run_latest job latest = read_file g job.event_file_id >>= (λ file.
      elim (resolve_format g.unicode g.decode (g.ext file.path) file.format) [
        | err e ↦ fail (parser_failed e)
        | ok format ↦
            let symbol = if job.symbol == "" then file.symbol else job.symbol in
            process_file latest file.path format symbol
            >>= (λ done. record_run job latest file format symbol done)
      ])

  abbrev pub unless_canceled : JobStatus → Work (Unit {0}) → Work (Unit {0})
  unless_canceled canceled m = pure tt
  unless_canceled status m = m

  unfoldable pub run : ReplayJob → Work (Unit {0})
  run job = read_job g job.id >>= (λ latest. unless_canceled latest.status (run_latest job latest))

  unfoldable pub fail_job : Attempt → String → Failure → World → World × Reply
  fail_job attempt id cause w =
      let out = set_status g id (final_status attempt) (g.error_text cause) w in
      (
        out.0,
        elim out.1 [ err e ↦ failure e | ok job ↦ failure_reply (final_status attempt) cause ],
      )

  -- `ProcessTask` after the job was read and its status checked.
  unfoldable pub start : Attempt → ReplayJob → World → World × Reply
  start attempt job w =
      let marked = set_status g job.id running "" w in
      elim marked.1 [
        | err e ↦ (marked.0, failure e)
        | ok _ ↦
            let out = run job marked.0 in
            elim out.1 [ ok _ ↦ (out.0, success) | err cause ↦ fail_job attempt job.id cause out.0 ]
      ]

  -- `ProcessTask` with the job that GetReplayJob returns.
  unfoldable pub unless_terminal : JobStatus → Attempt → ReplayJob → World → World × Reply
  unless_terminal canceled attempt job w = (w, success)
  unless_terminal completed attempt job w = (w, success)
  unless_terminal dlq attempt job w = (w, success)
  unless_terminal status attempt job w = start attempt job w

  unfoldable pub process_task : Attempt → Task → World → World × Reply
  process_task attempt task w =
      if task.type == type_replay_job
      then elim (decode_replay_payload g.unicode g.unmarshal task.payload) [
        | err e ↦ (w, no_retry (invalid_payload e))
        | ok payload ↦
            let found = read_job g payload.job_id w in
            elim found.1 [
              | err e ↦ (found.0, no_retry (dropped e))
              | ok job ↦ unless_terminal job.status attempt job found.0
            ]
      ]
      else (w, no_retry (unsupported_type task.type))
