-- ===== src/Worker/Recording.antt =====
-- internal/worker/handler.go: what the actions at the end of a replay leave, when the handler is left alone.
use market_replay.Prelude.{List, [], ◌∷◌, ◌++◌, String, some, ◌≡◌, refl, sym, ap, ◌∙◌, subst}
use market_replay.Prelude.Dict.{lookup, get_or, lookup-insert_self}
use market_replay.Prelude.Result.{ok}
use market_replay.Store.{
  ReplayJob, EventFile, ReplayManifest, ReplayMetric, ValidationError, UpdateEventFileStatsParams,
}
use market_replay.Store.Memory.{
  MemoryRepository, Returns, update_event_file_stats, with_stats, update_replay_manifest,
  complete_replay_job, completed_job, stamped_metric, stamped_errors,
}
use market_replay.Store.History.{IsLater-trans}
use market_replay.Store.Growth.{manifest-IsLater, completed_job-IsLater}
use market_replay.Worker.{Setting, ◌>>=◌, pure}
use market_replay.Worker.Outcome.{Replayed, new_manifest, validation_errors}
use market_replay.Worker.Actions.{set_checkpoint, set_stats, set_manifest, complete}
use market_replay.Worker.Handler.{record_run}
use market_replay.Worker.Triples.{IsQuiet, Does, >>=-Does, pure-Does, perform-Does}
use market_replay.Worker.Undisturbed.{IsDuring, set_checkpoint-Does}
use market_replay.Worker.Completes.{
  IsRecording, IsDone, update_event_file_stats_found, change_job_found, complete_replay_job_found,
  get_or-insert_self, errors_appended, Finished,
}

module _ (g : Setting) (quiet : IsQuiet g) (r0 : MemoryRepository) (id : String)
    (job : ReplayJob) where
  set_stats-Does :
      (file_id : String) (params : UpdateEventFileStatsParams) (file : EventFile)
      → lookup file_id r0.event_files ≡ some file
      → Does
          (IsDuring r0 id job)
          (λ _ r. IsRecording r0 id job (λ _. Unit) r)
          (set_stats g file_id params)
  unfolding set_stats
  set_stats-Does file_id params file known =
      perform-Does g quiet (λ k r. update_event_file_stats file_id params r)
        (λ k r d.
          subst
            (λ (out : Returns EventFile).
              (a : EventFile) × (out.1 ≡ ok a) × IsRecording r0 id job (λ _. Unit) out.0)
            (sym (
              update_event_file_stats_found file_id params r file
                (ap (lookup file_id) d.same_files ∙ known)))
            (
              with_stats params file,
              refl,
              record {
                same_metrics = d.same_metrics;
                same_errors = d.same_errors;
                current = d.current;
                there = d.there;
                later = d.later;
                has = tt;
              },
            ))

  set_manifest-Does :
      (manifest : ReplayManifest)
      → Does
          (IsRecording r0 id job (λ _. Unit))
          (λ _ r. IsRecording r0 id job (λ j. j.manifest ≡ manifest) r)
          (set_manifest g id manifest)
  unfolding set_manifest update_replay_manifest
  set_manifest-Does manifest =
      perform-Does g quiet (λ k r. update_replay_manifest id manifest r)
        (λ k r d.
          subst
            (λ (out : Returns ReplayJob).
              (a : ReplayJob) × (out.1 ≡ ok a)
              × IsRecording r0 id job (λ j. j.manifest ≡ manifest) out.0)
            (sym (change_job_found (λ j. record j { manifest = manifest }) id r d.current d.there))
            (
              record (d.current) { manifest = manifest },
              refl,
              record {
                same_metrics = d.same_metrics;
                same_errors = d.same_errors;
                current = record (d.current) { manifest = manifest };
                there = lookup-insert_self id _ r.jobs;
                later = IsLater-trans job d.current _ d.later (manifest-IsLater manifest d.current);
                has = refl;
              },
            ))

  complete-Does :
      (manifest : ReplayManifest) (metric : ReplayMetric) (errors : List ValidationError)
      → Does
          (IsRecording r0 id job (λ j. j.manifest ≡ manifest))
          (λ _ r. IsDone g r0 id job manifest metric errors r)
          (complete g id (record { metric = metric; errors = errors }))
  unfolding complete
  complete-Does manifest metric errors =
      perform-Does g quiet
        (λ k r.
          complete_replay_job (g.new_id k) (g.clock k) id
            (record { metric = metric; errors = errors }) r)
        (λ k r d.
          subst
            (λ (out : Returns ReplayJob).
              (a : ReplayJob) × (out.1 ≡ ok a) × IsDone g r0 id job manifest metric errors out.0)
            (sym (
              complete_replay_job_found (g.new_id k) (g.clock k) id metric errors r d.current
                d.there))
            (
              completed_job (g.clock k) d.current,
              refl,
              record {
                step = k;
                job_after = completed_job (g.clock k) d.current;
                there = lookup-insert_self id _ r.jobs;
                is_completed = refl;
                at_time = refl;
                has_manifest = d.has;
                later =
                    IsLater-trans job d.current _ d.later
                      (completed_job-IsLater (g.clock k) d.current);
                metrics_after =
                    get_or-insert_self id [] _ r.metrics
                    ∙ ap
                        (λ m.
                          get_or id [] m
                          ++ (stamped_metric (g.new_id k 0) id (g.clock k) metric ∷ []))
                        d.same_metrics;
                errors_after =
                    errors_appended id (stamped_errors (g.new_id k) 1 id (g.clock k) errors)
                      r.errors
                    ∙ ap
                        (λ m. get_or id [] m ++ stamped_errors (g.new_id k) 1 id (g.clock k) errors)
                        d.same_errors;
              },
            ))

  pub record_run-Does :
      (started : ReplayJob) (file : EventFile) (format symbol : String) (done : Replayed)
      → started.id ≡ id
      → lookup file.id r0.event_files ≡ some file
      → Does
          (IsDuring r0 id job)
          (λ _ r. Finished g r0 id job file format symbol done r)
          (record_run g started job file format symbol done)
  unfolding record_run
  record_run-Does started file format symbol (metric, failures, stats) named known =
      subst
        (λ key.
          Does (IsDuring r0 id job)
            (λ _ r. Finished g r0 id job file format symbol (metric, failures, stats) r)
            (set_checkpoint g key metric.rows >>= (λ _.
              set_stats g file.id
                (record { sha256 = stats.sha256; rows = stats.rows; bytes = stats.bytes })
              >>= (λ _.
                  set_manifest g key
                    (new_manifest file format symbol stats metric job.checkpoint_line failures)
                  >>= (λ _.
                      complete g key
                        (record { metric = metric; errors = validation_errors key failures })
                      >>= (λ _. pure tt))))))
        (sym named)
        (>>=-Does (set_checkpoint g id metric.rows) _
          (set_checkpoint-Does g quiet r0 id job metric.rows)
          (λ _. >>=-Does (set_stats g file.id _) _ (set_stats-Does file.id _ file known) (λ _.
            >>=-Does (set_manifest g id _) _ (set_manifest-Does _) (λ _.
              >>=-Does (complete g id _) _ (complete-Does _ metric (validation_errors id failures))
                (λ _. pure-Does tt (λ r d. d))))))
