-- ===== src/Worker/Running.antt =====
-- internal/worker/handler.go: what a task may change, however it ends.
use market_replay.Prelude.{ℕ, zero, suc, String, if◌then◌else◌, ◌==◌, ◌≡◌, sym, subst, if-elim}
use market_replay.Prelude.Int.{ℤ, pos, leb_ℤ}
use market_replay.Prelude.Result.{Result, ok, err, Result-elim}
use market_replay.Error.{Error}
use market_replay.Parser.Stream.{Stream, Next, eof, failed, got, resolve_format}
use market_replay.Validate.{Validator, new_validator, process, prime}
use market_replay.Store
use market_replay.Store.{
  JobStatus, running, completed, canceled, dlq, queued, unset, ReplayJob, EventFile, StoreError,
}
use market_replay.Worker.{Setting, OpenFile, parser_failed, os_failed, World, Work, ◌>>=◌, pure}
use market_replay.Worker.Outcome.{
  Attempt, Reply, success, failure, Replayed, replayed, final_status,
}
use market_replay.Worker.Actions.{
  poll, read_job, read_file, set_status, set_checkpoint, set_stats, set_manifest, complete,
}
use market_replay.Worker.Triples.{IsQuiet}
use market_replay.Worker.Framing.{
  Stays, Stays-trans, KeepsOthers, pure-KeepsOthers, fail-KeepsOthers, >>=-KeepsOthers,
  poll-KeepsOthers, read_job-KeepsOthers, read_file-KeepsOthers, set_status-KeepsOthers,
  set_checkpoint-KeepsOthers, set_stats-KeepsOthers, set_manifest-KeepsOthers, complete-KeepsOthers,
  read_own-KeepsOthers,
}
use market_replay.Worker.Handler.{
  stop_if_canceled, at_checkpoint, file_round, file_loop, process_file, process_opened,
  process_stream, record_run, run_latest, unless_canceled, run, fail_job, start, divides,
}

module _ (g : Setting) (quiet : IsQuiet g) (own : String) where
  stop_if_canceled-KeepsOthers :
      (status : JobStatus) → KeepsOthers g own (stop_if_canceled g status)
  stop_if_canceled-KeepsOthers queued = pure-KeepsOthers g own tt
  stop_if_canceled-KeepsOthers running = pure-KeepsOthers g own tt
  stop_if_canceled-KeepsOthers completed = pure-KeepsOthers g own tt
  stop_if_canceled-KeepsOthers Store.failed = pure-KeepsOthers g own tt
  stop_if_canceled-KeepsOthers canceled = fail-KeepsOthers g own _ _
  stop_if_canceled-KeepsOthers dlq = pure-KeepsOthers g own tt
  stop_if_canceled-KeepsOthers unset = pure-KeepsOthers g own tt

  at_checkpoint-KeepsOthers : (line : ℤ) → KeepsOthers g own (at_checkpoint g own line)
  unfolding at_checkpoint
  at_checkpoint-KeepsOthers line =
      if-elim (KeepsOthers g own) (divides g.every line)
        (>>=-KeepsOthers g own (set_checkpoint g own line) _
          (set_checkpoint-KeepsOthers g own quiet line)
          (λ _.
            >>=-KeepsOthers g own (read_job g own) _ (read_job-KeepsOthers g own quiet own)
              (λ current. stop_if_canceled-KeepsOthers current.status)))
        (pure-KeepsOthers g own tt)

  file_round-KeepsOthers :
      (go : Validator → ℤ → Stream → Work (Validator × ℤ))
      → ((v : Validator) (last : ℤ) (s : Stream) → KeepsOthers g own (go v last s))
      → (checkpoint : ℤ) (v : Validator) (last : ℤ) (n : Next) (t : Stream)
      → KeepsOthers g own (file_round g go own checkpoint v last n t)
  unfolding file_round
  file_round-KeepsOthers go p checkpoint v last eof t = pure-KeepsOthers g own (v, last)
  file_round-KeepsOthers go p checkpoint v last (failed e) t =
      fail-KeepsOthers g own _ (parser_failed e)
  file_round-KeepsOthers go p checkpoint v last (got r) t =
      if-elim (KeepsOthers g own) (leb_ℤ r.line checkpoint) (p (prime v r) r.line t) (
        >>=-KeepsOthers g own (at_checkpoint g own r.line) _ (at_checkpoint-KeepsOthers r.line)
          (λ _. p (process v r) r.line t))

  file_loop-KeepsOthers :
      (n : ℕ) (checkpoint : ℤ) (v : Validator) (last : ℤ) (s : Stream)
      → KeepsOthers g own (file_loop g n own checkpoint v last s)
  unfolding file_loop
  file_loop-KeepsOthers zero checkpoint v last s = fail-KeepsOthers g own _ _
  file_loop-KeepsOthers (suc n) checkpoint v last s =
      >>=-KeepsOthers g own (poll g) _ (poll-KeepsOthers g own) (λ _.
        file_round-KeepsOthers (file_loop g n own checkpoint) (file_loop-KeepsOthers n checkpoint)
          checkpoint v last _ _)

  process_stream-KeepsOthers :
      (job : ReplayJob) (symbol : String) (file : OpenFile) (o : Result Error Stream)
      → job.id ≡ own
      → KeepsOthers g own (process_stream g job symbol file o)
  unfolding process_stream
  process_stream-KeepsOthers job symbol file (err e) named =
      fail-KeepsOthers g own _ (parser_failed e)
  process_stream-KeepsOthers job symbol file (ok s) named =
      let v = new_validator symbol g.meter.started in
      subst
        (λ id. KeepsOthers g own (
          file_loop g g.fuel id job.checkpoint_line v (pos 0) s
          >>= (λ done. pure (replayed g.meter file done.0 done.1))))
        (sym named)
        (>>=-KeepsOthers g own (file_loop g g.fuel own job.checkpoint_line v (pos 0) s) _
          (file_loop-KeepsOthers g.fuel job.checkpoint_line v (pos 0) s)
          (λ done. pure-KeepsOthers g own _))

  process_opened-KeepsOthers :
      (job : ReplayJob) (format symbol : String) (o : Result String OpenFile)
      → job.id ≡ own
      → KeepsOthers g own (process_opened g job format symbol o)
  unfolding process_opened
  process_opened-KeepsOthers job format symbol (err e) named =
      fail-KeepsOthers g own _ (os_failed e)
  process_opened-KeepsOthers job format symbol (ok file) named =
      process_stream-KeepsOthers job symbol file _ named

  process_file-KeepsOthers :
      (job : ReplayJob) (path format symbol : String)
      → job.id ≡ own
      → KeepsOthers g own (process_file g job path format symbol)
  unfolding process_file
  process_file-KeepsOthers job path format symbol named =
      process_opened-KeepsOthers job format symbol (g.files path) named

  record_run-KeepsOthers :
      (job latest : ReplayJob) (file : EventFile) (format symbol : String) (done : Replayed)
      → job.id ≡ own
      → KeepsOthers g own (record_run g job latest file format symbol done)
  unfolding record_run
  record_run-KeepsOthers job latest file format symbol (metric, failures, stats) named = rw named (
      >>=-KeepsOthers g own (set_checkpoint g own metric.rows) _
        (set_checkpoint-KeepsOthers g own quiet metric.rows)
        (λ _.
          >>=-KeepsOthers g own (set_stats g file.id _) _
            (set_stats-KeepsOthers g own quiet file.id _)
            (λ _.
              >>=-KeepsOthers g own (set_manifest g own _) _
                (set_manifest-KeepsOthers g own quiet _)
                (λ _.
                  >>=-KeepsOthers g own (complete g own _) _ (complete-KeepsOthers g own quiet _)
                    (λ _. pure-KeepsOthers g own tt)))))

  run_latest-KeepsOthers :
      (job latest : ReplayJob)
      → job.id ≡ own
      → latest.id ≡ own
      → KeepsOthers g own (run_latest g job latest)
  unfolding run_latest
  run_latest-KeepsOthers job latest named latest_named =
      >>=-KeepsOthers g own (read_file g job.event_file_id) _
        (read_file-KeepsOthers g own quiet job.event_file_id)
        (λ file.
          Result-elim (KeepsOthers g own)
            (resolve_format g.unicode g.decode (g.ext file.path) file.format)
            (λ e _. fail-KeepsOthers g own _ (parser_failed e))
            (λ format _.
              let symbol = if job.symbol == "" then file.symbol else job.symbol in
              >>=-KeepsOthers g own (process_file g latest file.path format symbol) _
                (process_file-KeepsOthers latest file.path format symbol latest_named)
                (λ done. record_run-KeepsOthers job latest file format symbol done named)))

  unless_canceled-KeepsOthers :
      (status : JobStatus) (m : Work (Unit {0}))
      → KeepsOthers g own m
      → KeepsOthers g own (unless_canceled g status m)
  unless_canceled-KeepsOthers queued m p = p
  unless_canceled-KeepsOthers running m p = p
  unless_canceled-KeepsOthers completed m p = p
  unless_canceled-KeepsOthers Store.failed m p = p
  unless_canceled-KeepsOthers canceled m p = pure-KeepsOthers g own tt
  unless_canceled-KeepsOthers dlq m p = p
  unless_canceled-KeepsOthers unset m p = p

  run-KeepsOthers : (job : ReplayJob) → job.id ≡ own → KeepsOthers g own (run g job)
  unfolding run
  run-KeepsOthers job named =
      let rest : ReplayJob → Work (Unit {0}) =
        λ latest. unless_canceled g latest.status (run_latest g job latest) in
      subst (λ id. KeepsOthers g own (read_job g id >>= rest)) (sym named)
        (read_own-KeepsOthers g own quiet rest (λ latest latest_named.
          unless_canceled-KeepsOthers latest.status (run_latest g job latest)
            (run_latest-KeepsOthers job latest named latest_named)))

  pub start-Stays :
      (attempt : Attempt) (job : ReplayJob) (w : World)
      → job.id ≡ own
      → Stays own w.repo (start g attempt job w).0.repo
  unfolding start fail_job
  start-Stays attempt job w named =
      let marked = (set_status-KeepsOthers g own quiet running "").stays w in
      let after : World × Reply → Type 0 = λ out. Stays own w.repo out.0.repo in
      subst
        (λ id.
          let m = set_status g id running "" w in
          after (elim m.1 [
            | err e ↦ (m.0, failure e)
            | ok _ ↦
                let out = run g job m.0 in
                elim out.1 [
                  | ok _ ↦ (out.0, success)
                  | err cause ↦ fail_job g attempt id cause out.0
                ]
          ]))
        (sym named)
        (Result-elim after (set_status g own running "" w).1 (λ _ _. marked)
          (λ _ _.
            let w' = (set_status g own running "" w).0 in
            let ran =
              Stays-trans own w.repo w'.repo (run g job w').0.repo marked
                ((run-KeepsOthers job named).stays w') in
            Result-elim after (run g job w').1
              (λ cause _. Stays-trans own w.repo (run g job w').0.repo _ ran (
                (set_status-KeepsOthers g own quiet (final_status attempt)
                    (g.error_text cause)).stays
                  (run g job w').0))
              (λ _ _. ran)))
