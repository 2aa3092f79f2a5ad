-- ===== src/Store/Reports.antt =====
-- internal/store/reports.go: the quality report of a job, with its errors summed up.
-- `day` formats a time as a date; the order of the summaries, which the code sorts, is left to `sort`.
use Prim.Native.String.{◌++◌}
use market_replay.Prelude.{
  String, ◌||◌, List, [], ◌∷◌, Option, none, some, if◌then◌else◌, ◌≡◌, refl, arith,
}
use market_replay.Prelude.Int.{ℤ, pos, ltb_ℤ, eqb_ℤ, inc64}
use market_replay.Prelude.Dict.{Dict, lookup, insert, get_or, HasKey}
use market_replay.Prelude.Result.{Result, ok, err}
use market_replay.Store.{Dataset, EventFile, ReplayJob, ReplayMetric, ValidationError, StoreError}
use market_replay.Store.Memory.{
  MemoryRepository, get_replay_job, get_dataset, get_event_file, list_replay_metrics,
  list_validation_errors,
}
use market_replay.Store.Integrity.{IsConsistent, JobIsLinked}
use market_replay.Store.Listing.{values}

pub record ValidationErrorSummary : Type 0 where
  pub type : String
  pub symbol : String
  pub dataset_id : String
  pub dataset_name : String
  pub event_file_id : String
  pub file_path : String
  pub day : String
  pub count : ℤ
  pub first_line : ℤ
  pub last_line : ℤ
  pub first_seen_at : ℤ
  pub last_seen_at : ℤ

pub record ReplayQualityReport : Type 0 where
  pub dataset : Dataset
  pub event_file : EventFile
  pub job : ReplayJob
  pub metrics : List ReplayMetric
  pub errors : List ValidationError
  pub error_summary : List ValidationErrorSummary
  pub generated_at : ℤ

module _ (day : ℤ → String) (sort : List ValidationErrorSummary → List ValidationErrorSummary) where
  abbrev pub day_of : ValidationError → String
  day_of e = if eqb_ℤ e.created_at (pos 0) then "" else day e.created_at

  -- `summaries[key]` of a kind, symbol and day that is new.
  unfoldable pub first_summary : Dataset → EventFile → ValidationError → ValidationErrorSummary
  first_summary dataset file e = record {
    type = e.type;
    symbol = e.symbol;
    dataset_id = dataset.id;
    dataset_name = dataset.name;
    event_file_id = file.id;
    file_path = file.path;
    day = day_of e;
    count = pos 0;
    first_line = e.line;
    last_line = e.line;
    first_seen_at = e.created_at;
    last_seen_at = e.created_at;
  }

  -- From `summary.Count++` on.
  unfoldable pub add_error : ValidationError → ValidationErrorSummary → ValidationErrorSummary
  add_error e s = record s {
    count = inc64 s.count;
    first_line =
        if ltb_ℤ e.line s.first_line || eqb_ℤ s.first_line (pos 0) then e.line else s.first_line;
    last_line = if ltb_ℤ s.last_line e.line then e.line else s.last_line;
    first_seen_at =
        if eqb_ℤ s.first_seen_at (pos 0) || ltb_ℤ e.created_at s.first_seen_at
        then e.created_at
        else s.first_seen_at;
    last_seen_at = if ltb_ℤ s.last_seen_at e.created_at then e.created_at else s.last_seen_at;
  }

  abbrev pub summary_key : ValidationError → String
  summary_key e = e.type ++ ("\0" ++ (e.symbol ++ ("\0" ++ day_of e)))

  -- The summary of a key, a new one where its count is 0.
  unfoldable pub current_summary :
      Dataset → EventFile → ValidationError → Option ValidationErrorSummary → ValidationErrorSummary
  current_summary dataset file e none = first_summary dataset file e
  current_summary dataset file e (some s) =
      if eqb_ℤ s.count (pos 0) then first_summary dataset file e else s

  unfoldable pub summaries_of :
      Dataset
      → EventFile
      → List ValidationError
      → Dict ValidationErrorSummary
      → Dict ValidationErrorSummary
  summaries_of dataset file [] m = m
  summaries_of dataset file (e ∷ es) m = summaries_of dataset file es (
      insert (summary_key e)
        (add_error e (current_summary dataset file e (lookup (summary_key e) m))) m)

  unfoldable pub summarize_validation_errors :
      Dataset → EventFile → List ValidationError → List ValidationErrorSummary
  summarize_validation_errors dataset file es = sort (values (summaries_of dataset file es []))

  -- The report of a job that was found.
  unfoldable pub job_report :
      ℤ → MemoryRepository → ReplayJob → Result StoreError ReplayQualityReport
  job_report now r job = elim (get_dataset job.dataset_id r) [
    | err e ↦ err e
    | ok dataset ↦ elim (get_event_file job.event_file_id r) [
      | err e ↦ err e
      | ok file ↦ elim (list_replay_metrics job.id r) [
        | err e ↦ err e
        | ok metrics ↦ elim (list_validation_errors job.id r) [
          | err e ↦ err e
          | ok errors ↦ ok (record {
            dataset = dataset;
            event_file = file;
            job = job;
            metrics = metrics;
            errors = errors;
            error_summary = summarize_validation_errors dataset file errors;
            generated_at = now;
          })
        ]
      ]
    ]
  ]

  unfoldable pub build_replay_quality_report :
      ℤ → String → MemoryRepository → Result StoreError ReplayQualityReport
  build_replay_quality_report now job_id r = elim (get_replay_job job_id r) [
    | err e ↦ err e
    | ok job ↦ job_report now r job
  ]

  linked_report :
      (now : ℤ) (job : ReplayJob) (r : MemoryRepository)
      → HasKey job.dataset_id r.datasets
      → HasKey job.event_file_id r.event_files
      → (report : ReplayQualityReport) × (job_report now r job ≡ ok report)
        × (report.job ≡ job)
        × (lookup job.dataset_id r.datasets ≡ some report.dataset)
        × (lookup job.event_file_id r.event_files ≡ some report.event_file)
        × (report.metrics ≡ get_or job.id [] r.metrics)
        × (report.errors ≡ get_or job.id [] r.errors)
        × (report.error_summary
            ≡ summarize_validation_errors report.dataset report.event_file report.errors)
  unfolding job_report get_dataset get_event_file list_replay_metrics list_validation_errors HasKey
  linked_report now job r (dataset, d) (file, f) = (
    record {
      dataset = dataset;
      event_file = file;
      job = job;
      metrics = get_or job.id [] r.metrics;
      errors = get_or job.id [] r.errors;
      error_summary = summarize_validation_errors dataset file (get_or job.id [] r.errors);
      generated_at = now;
    },
    ground (arith, d, f),
    refl,
    d,
    f,
    refl,
    refl,
    refl,
  )

  -- On a consistent repository the quality report of a job that is there always succeeds: it has the
  -- job, its own dataset and file, what is recorded under the job's id, and the summary of those errors.
  pub build_replay_quality_report_lem :
      (now : ℤ) (job_id : String) (job : ReplayJob) (r : MemoryRepository)
      → IsConsistent r
      → lookup job_id r.jobs ≡ some job
      → (report : ReplayQualityReport) × (build_replay_quality_report now job_id r ≡ ok report)
        × (report.job ≡ job)
        × (lookup job.dataset_id r.datasets ≡ some report.dataset)
        × (lookup job.event_file_id r.event_files ≡ some report.event_file)
        × (report.metrics ≡ get_or job_id [] r.metrics)
        × (report.errors ≡ get_or job_id [] r.errors)
        × (report.error_summary
            ≡ summarize_validation_errors report.dataset report.event_file report.errors)
  unfolding build_replay_quality_report get_replay_job JobIsLinked
  build_replay_quality_report_lem now job_id job r c there =
      let (named, dataset, file, linked) = c.jobs_linked job_id job there in
      let (report, made, its_job, d, f, ms, es, summed) = linked_report now job r dataset file in
      (
        report,
        ground (arith, there, made),
        its_job,
        d,
        f,
        ground (arith, ms, named),
        ground (arith, es, named),
        summed,
      )
