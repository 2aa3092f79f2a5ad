-- ===== src/Worker/Finishing.antt =====
-- internal/worker/handler.go: from the task to the completed job, when the handler is left alone.
use market_replay.Prelude.{
  ◌<◌, length, List, String, Bool, true, false, none, some, if◌then◌else◌, ◌==◌, ◌≡◌, refl, sym, ap,
  ◌∙◌, subst, arith,
}
use market_replay.Prelude.Int.{ℤ, pos}
use market_replay.Prelude.Dict.{lookup}
use market_replay.Prelude.Result.{Result, ok, err, ok-injective}
use market_replay.Error.{Error}
use market_replay.Parser.Record.{Record}
use market_replay.Parser.Stream.{Stream, Contents, new_stream, resolve_format}
use market_replay.Validate.{Validator, new_validator}
use market_replay.Store.{running, ReplayJob, EventFile}
use market_replay.Store.Memory.{
  MemoryRepository, get_replay_job, get_event_file, with_status, stamped,
}
use market_replay.Store.History.{IsLater-refl}
use market_replay.Worker.{Setting, OpenFile, ◌>>=◌, fail, parser_failed}
use market_replay.Worker.Outcome.{Replayed, replayed}
use market_replay.Worker.Actions.{read_job, read_file}
use market_replay.Worker.Handler.{
  file_loop, process_file, process_opened, process_stream, record_run, run_latest, run,
}
use market_replay.Worker.Reading.{feed_all, last_line}
use market_replay.Worker.Triples.{
  IsQuiet, Does, >>=-Does, pure-Does, perform-Does, Does-weaken, Does-at,
}
use market_replay.Worker.Undisturbed.{IsDuring, file_loop-Does}
use market_replay.Worker.Completes.{Finished}
use market_replay.Worker.Recording.{record_run-Does}

-- The file of a job can be read: the store knows it, it opens, and its stream ends without an error.
pub record IsReadable (g : Setting) (r : MemoryRepository) (job : ReplayJob) : Type 0 where
  pub file : EventFile
  pub format : String
  pub opened : OpenFile
  pub stream : Stream
  pub records : List Record
  pub known : lookup job.event_file_id r.event_files ≡ some file
  pub resolved : resolve_format g.unicode g.decode (g.ext file.path) file.format ≡ ok format
  pub opens : g.files file.path ≡ ok opened
  pub streams : new_stream g.unicode g.decode opened.input format ≡ ok stream
  pub contents : Contents g.unicode g.decode stream records none
  pub enough_fuel : length records < g.fuel

-- The symbol that a replay is filtered by.
abbrev pub symbol_of : ReplayJob → EventFile → String
symbol_of job file = if job.symbol == "" then file.symbol else job.symbol

-- What the replay of a job makes of its file.
abbrev pub replay_of :
    (g : Setting) (r : MemoryRepository) (job : ReplayJob) → IsReadable g r job → Replayed
replay_of g r job i =
    replayed g.meter i.opened
      (feed_all job.checkpoint_line (new_validator (symbol_of job i.file) g.meter.started)
        i.records)
      (last_line (pos 0) i.records)

module _ (g : Setting) (quiet : IsQuiet g) (r1 : MemoryRepository) (id : String) (job : ReplayJob)
    (now : ℤ) (named : job.id ≡ id) (i : IsReadable g r1 job)
    (again : lookup i.file.id r1.event_files ≡ some i.file) where
  -- The job as its start leaves it.
  abbrev latest : ReplayJob
  latest = with_status running "" now job

  abbrev During : MemoryRepository → Type 0
  During = IsDuring r1 id latest

  process_file-Does :
      Does During
        (λ done r. (done ≡ replay_of g r1 job i) × During r)
        (process_file g latest i.file.path i.format (symbol_of job i.file))
  unfolding process_file process_opened process_stream with_status stamped
  process_file-Does =
      let Q : Replayed → MemoryRepository → Type 0 =
        λ done r. (done ≡ replay_of g r1 job i) × During r in
      let v = new_validator (symbol_of job i.file) g.meter.started in
      subst (λ o. Does During Q (process_opened g latest i.format (symbol_of job i.file) o))
        (sym i.opens)
        (subst (λ o. Does During Q (process_stream g latest (symbol_of job i.file) i.opened o))
          (sym i.streams)
          (>>=-Does (file_loop g g.fuel job.id job.checkpoint_line v (pos 0) i.stream) _
            (subst
              (λ key.
                Does During
                  (λ done r.
                    (done ≡ (feed_all job.checkpoint_line v i.records, last_line (pos 0) i.records))
                    × During r)
                  (file_loop g g.fuel key job.checkpoint_line v (pos 0) i.stream))
              (sym named)
              (file_loop-Does g quiet r1 id latest i.contents g.fuel job.checkpoint_line v (pos 0)
                i.enough_fuel))
            (λ done.
              pure-Does (replayed g.meter i.opened done.0 done.1)
                (λ r p. (ap (λ (d : Validator × ℤ). replayed g.meter i.opened d.0 d.1) p.0, p.1)))))

  read_file-Does :
      Does During (λ file r. (file ≡ i.file) × During r) (read_file g job.event_file_id)
  unfolding read_file get_event_file
  read_file-Does =
      perform-Does g quiet (λ k r. (r, get_event_file job.event_file_id r))
        (λ k r d.
          (i.file, ground (arith, ap (lookup job.event_file_id) d.same_files, i.known), (refl, d)))

  abbrev Done : MemoryRepository → Type 0
  Done = Finished g r1 id latest i.file i.format (symbol_of job i.file) (replay_of g r1 job i)

  -- `run_latest` with what is resolved as the format.
  resolved-Does :
      (o : Result Error String)
      → o ≡ ok i.format
      → Does {A = Unit {0}} During
          (λ _ r. Done r)
          (elim o [
            | err e ↦ fail (parser_failed e)
            | ok format ↦
                process_file g latest i.file.path format (symbol_of job i.file)
                >>= (λ done. record_run g job latest i.file format (symbol_of job i.file) done)
          ])
  unfolding with_status stamped
  resolved-Does (err e) h = let wrong : ◌≡◌ {A = Bool} false true = cc in cc
  resolved-Does (ok format) h =
      subst
        (λ f.
          Does During (λ _ r. Done r)
            (process_file g latest i.file.path f (symbol_of job i.file)
              >>= (λ done. record_run g job latest i.file f (symbol_of job i.file) done)))
        (sym (ok-injective h))
        (>>=-Does (process_file g latest i.file.path i.format (symbol_of job i.file)) _
          process_file-Does
          (Does-at _ (replay_of g r1 job i) (
            record_run-Does g quiet r1 id latest job i.file i.format (symbol_of job i.file)
              (replay_of g r1 job i) named again)))

  run_latest-Does : Does During (λ _ r. Done r) (run_latest g job latest)
  unfolding run_latest
  run_latest-Does =
      >>=-Does (read_file g job.event_file_id) _ read_file-Does
        (Does-at _ i.file (resolved-Does _ i.resolved))

  read_latest-Does :
      lookup id r1.jobs ≡ some latest
      → Does (λ r. r ≡ r1) (λ j r. (j ≡ latest) × (r ≡ r1)) (read_job g job.id)
  unfolding read_job get_replay_job
  read_latest-Does there =
      perform-Does g quiet (λ k r. (r, get_replay_job job.id r))
        (λ k r same. (latest, ground (arith, same, named, there), (refl, same)))

  begins : lookup id r1.jobs ≡ some latest → (r : MemoryRepository) → r ≡ r1 → During r
  unfolding with_status stamped
  begins there r same = record {
    same_files = ap (λ x. x.event_files) same;
    same_metrics = ap (λ x. x.metrics) same;
    same_errors = ap (λ x. x.errors) same;
    current = latest;
    there = ap (λ (x : MemoryRepository). lookup id x.jobs) same ∙ there;
    is_running = refl;
    later = IsLater-refl latest;
  }

  pub run-Does : lookup id r1.jobs ≡ some latest → Does (λ r. r ≡ r1) (λ _ r. Done r) (run g job)
  unfolding run with_status stamped
  run-Does there =
      >>=-Does (read_job g job.id) _ (read_latest-Does there)
        (Does-at _ latest (Does-weaken (begins there) (λ _ r d. d) run_latest-Does))
