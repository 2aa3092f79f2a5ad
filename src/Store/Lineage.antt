-- ===== src/Store/Lineage.antt =====
-- internal/store/reports.go: the lineage of a dataset, its files with the jobs that replayed them.
use text.Mathlib.Text.{is_lt}
use Prim.Native.String.{compare}
use market_replay.Prelude.{ℕ, String, List, [], ◌∷◌, ◌++◌, none, some, if◌then◌else◌, ◌==◌, length}
use market_replay.Prelude.Int.{ℤ}
use market_replay.Prelude.Dict.{Dict, lookup, insert, get_or}
use market_replay.Prelude.Result.{Result, ok, ◌>>=◌}
use market_replay.Store.{Dataset, EventFile, ReplayJob, ValidationError, StoreError}
use market_replay.Store.Memory.{
  MemoryRepository, get_dataset, list_replay_metrics, list_validation_errors,
}
use market_replay.Store.Listing.{list_event_files, list_replay_jobs, sort_by_creation}

pub record ReplayJobLineage : Type 0 where
  pub job : ReplayJob
  pub metric_count : ℕ
  pub error_count : ℕ
  pub error_types : List String

pub record EventFileLineage : Type 0 where
  pub event_file : EventFile
  pub jobs : List ReplayJobLineage

pub record DatasetLineage : Type 0 where
  pub dataset : Dataset
  pub event_files : List EventFileLineage
  pub generated_at : ℤ

-- `sort.Strings`
abbrev pub sorted_text : String → List String → List String
sorted_text s [] = s ∷ []
sorted_text s (t ∷ ts) =
    let rest = sorted_text s ts in if is_lt (compare t s) then t ∷ rest else s ∷ t ∷ ts

abbrev pub sort_strings : List String → List String
sort_strings [] = []
sort_strings (s ∷ ss) = sorted_text s (sort_strings ss)

-- One round of the loop of validationErrorTypes, on `seen` and `types`.
unfoldable pub note_type : String → Dict (Unit {0}) × List String → Dict (Unit {0}) × List String
note_type type (seen, types) = if type == "" then (seen, types) else elim (lookup type seen) [
  | some _ ↦ (seen, types)
  | none ↦ (insert type tt seen, types ++ (type ∷ []))
]

unfoldable pub note_types : List ValidationError → Dict (Unit {0}) × List String → List String
note_types [] (seen, types) = types
note_types (e ∷ es) noted = note_types es (note_type e.type noted)

unfoldable pub validation_error_types : List ValidationError → List String
validation_error_types es = sort_strings (note_types es ([], []))

-- The loop that fills `byFile`.
unfoldable pub jobs_by_file :
    String → List ReplayJob → Dict (List ReplayJob) → Dict (List ReplayJob)
jobs_by_file dataset_id [] by_file = by_file
jobs_by_file dataset_id (job ∷ jobs) by_file = jobs_by_file dataset_id jobs (
    if job.dataset_id == dataset_id
    then insert job.event_file_id (get_or job.event_file_id [] by_file ++ (job ∷ [])) by_file
    else by_file)

unfoldable pub job_lineage : MemoryRepository → ReplayJob → Result StoreError ReplayJobLineage
job_lineage r job = list_replay_metrics job.id r >>= λ metrics.
    list_validation_errors job.id r >>= λ errs. ok (record {
      job = job;
      metric_count = length metrics;
      error_count = length errs;
      error_types = validation_error_types errs;
    })

unfoldable pub job_lineages :
    MemoryRepository → List ReplayJob → Result StoreError (List ReplayJobLineage)
job_lineages r [] = ok []
job_lineages r (job ∷ jobs) =
    job_lineage r job >>= λ row. job_lineages r jobs >>= λ rows. ok (row ∷ rows)

unfoldable pub file_lineage :
    MemoryRepository → Dict (List ReplayJob) → EventFile → Result StoreError EventFileLineage
file_lineage r by_file file = job_lineages r (get_or file.id [] by_file) >>= λ rows.
    ok (record { event_file = file; jobs = sort_by_creation (λ row. row.job.created_at) rows })

unfoldable pub file_lineages :
    MemoryRepository
    → Dict (List ReplayJob)
    → List EventFile
    → Result StoreError (List EventFileLineage)
file_lineages r by_file [] = ok []
file_lineages r by_file (file ∷ files) =
    file_lineage r by_file file >>= λ row. file_lineages r by_file files >>= λ rows. ok (row ∷ rows)

unfoldable pub build_dataset_lineage :
    ℤ → String → MemoryRepository → Result StoreError DatasetLineage
build_dataset_lineage now dataset_id r = get_dataset dataset_id r >>= λ dataset.
    list_event_files dataset_id r >>= λ files. list_replay_jobs r >>= λ jobs.
    file_lineages r (jobs_by_file dataset_id jobs []) files >>= λ rows. ok (record {
      dataset = dataset;
      event_files = sort_by_creation (λ row. row.event_file.created_at) rows;
      generated_at = now;
    })
