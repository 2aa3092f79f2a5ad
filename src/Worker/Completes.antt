-- ===== src/Worker/Completes.antt =====
-- internal/worker/handler.go: a task that is left alone completes its job.
use market_replay.Prelude.{
  ℕ, List, [], ◌∷◌, ◌++◌, String, some, if◌then◌else◌, ◌≡◌, ap, ◌∙◌, eq_refl, arith,
}
use market_replay.Prelude.Int.{ℤ}
use market_replay.Prelude.Dict.{Dict, lookup, insert, get_or, lookup-insert_self}
use market_replay.Prelude.Result.{ok}
use market_replay.Store.{
  completed, ReplayJob, EventFile, ReplayManifest, ReplayMetric, ValidationError,
  UpdateEventFileStatsParams,
}
use market_replay.Store.Memory.{
  MemoryRepository, update_event_file_stats, with_stats, change_job, complete_replay_job,
  completed_job, stamped_metric, stamped_errors, append_errors,
}
use market_replay.Store.Completion.{append_errors_lem}
use market_replay.Store.History.{IsLater}
use market_replay.Worker.{Setting}
use market_replay.Worker.Outcome.{Replayed, new_manifest, validation_errors}

-- The repository while the end of the replay is recorded: files may differ from those of `r0`, and the
-- job has `M`.
pub record IsRecording (r0 : MemoryRepository) (id : String) (job : ReplayJob)
    (M : ReplayJob → Type 0) (r : MemoryRepository) : Type 0 where
  pub same_metrics : r.metrics ≡ r0.metrics
  pub same_errors : r.errors ≡ r0.errors
  pub current : ReplayJob
  pub there : lookup id r.jobs ≡ some current
  pub later : IsLater job current
  pub has : M current

-- What a completed replay leaves: the job `id` is completed, a later state of `job` with this manifest,
-- and its metrics and errors are those of `r0` with the new ones behind them.
pub record IsDone (g : Setting) (r0 : MemoryRepository) (id : String) (job : ReplayJob)
    (manifest : ReplayManifest) (metric : ReplayMetric) (errors : List ValidationError)
    (r : MemoryRepository) : Type 0 where
  -- The action that completed the job.
  pub step : ℕ
  pub job_after : ReplayJob
  pub there : lookup id r.jobs ≡ some job_after
  pub is_completed : job_after.status ≡ completed
  pub at_time : job_after.completed_at ≡ some (g.clock step)
  pub has_manifest : job_after.manifest ≡ manifest
  pub later : IsLater job job_after
  pub metrics_after :
      get_or id [] r.metrics
      ≡ get_or id [] r0.metrics ++ (stamped_metric (g.new_id step 0) id (g.clock step) metric ∷ [])
  pub errors_after :
      get_or id [] r.errors
      ≡ get_or id [] r0.errors ++ stamped_errors (g.new_id step) 1 id (g.clock step) errors

pub update_event_file_stats_found :
    (id : String) (params : UpdateEventFileStatsParams) (r : MemoryRepository) (file : EventFile)
    → lookup id r.event_files ≡ some file
    → update_event_file_stats id params r ≡ (
      record r { event_files = insert id (with_stats params file) r.event_files },
      ok (with_stats params file),
    )
unfolding update_event_file_stats
update_event_file_stats_found id params r file h = ground (arith, h)

pub change_job_found :
    (change : ReplayJob → ReplayJob) (id : String) (r : MemoryRepository) (job : ReplayJob)
    → lookup id r.jobs ≡ some job
    → change_job change id r ≡ (record r { jobs = insert id (change job) r.jobs }, ok (change job))
change_job_found change id r job h = ground (arith, h)

abbrev recorded :
    (ℕ → String)
    → ℤ
    → String
    → ReplayMetric
    → List ValidationError
    → ReplayJob
    → MemoryRepository
    → MemoryRepository
recorded new_id now id metric errors job r = record r {
  jobs = insert id (completed_job now job) r.jobs;
  metrics =
      insert id (get_or id [] r.metrics ++ (stamped_metric (new_id 0) id now metric ∷ []))
        r.metrics;
  errors = append_errors id (stamped_errors new_id 1 id now errors) r.errors;
}

pub complete_replay_job_found :
    (new_id : ℕ → String) (now : ℤ) (id : String) (metric : ReplayMetric)
    (errors : List ValidationError) (r : MemoryRepository) (job : ReplayJob)
    → lookup id r.jobs ≡ some job
    → complete_replay_job new_id now id (record { metric = metric; errors = errors }) r
      ≡ (recorded new_id now id metric errors job r, ok (completed_job now job))
unfolding complete_replay_job
complete_replay_job_found new_id now id metric errors r job h = ground (arith, h)

pub get_or-insert_self {ℓ} :
    {A : Type ℓ} (key : String) (zero_value new : A) (m : Dict A)
    → get_or key zero_value (insert key new m) ≡ new
get_or-insert_self key zero_value new m = ground (arith, lookup-insert_self key new m)

pub errors_appended :
    (id : String) (es : List ValidationError) (m : Dict (List ValidationError))
    → get_or id [] (append_errors id es m) ≡ get_or id [] m ++ es
errors_appended id es m =
    append_errors_lem id id es m
    ∙ ap (λ b. if b then get_or id [] m ++ es else get_or id [] m) (eq_refl id)

-- What is recorded when the file gave `done`.
abbrev pub Finished :
    Setting
    → MemoryRepository
    → String
    → ReplayJob
    → EventFile
    → String
    → String
    → Replayed
    → MemoryRepository
    → Type 0
Finished g r0 id job file format symbol done r =
    IsDone g r0 id job (new_manifest file format symbol done.2 done.0 job.checkpoint_line done.1)
      done.0 (validation_errors id done.1) r
