-- ===== src/Store/LineageRows.antt =====
-- internal/store/reports.go: what the lineage of a dataset has, and in which order.
use market_replay.Prelude.{
  not, String, ◌&&◌, List, [], ◌∷◌, ◌++◌, Option, none, some, if◌then◌else◌, ◌==◌, ◌≡◌, refl, sym,
  ap, ap₂, subst, All, length, map, arith, if-elim₂, Option-cases, append_assoc, append-nil, eq_iff,
  ◌⊎◌, inl, inr,
}
use market_replay.Prelude.Int.{ℤ}
use market_replay.Prelude.Dict.{Dict, lookup, insert, get_or, lookup-insert, lookup-nil}
use market_replay.Prelude.Result.{ok, err}
use market_replay.Store.{EventFile, ReplayJob, not_found}
use market_replay.Store.Memory.{
  MemoryRepository, get_dataset, list_replay_metrics, list_validation_errors,
}
use market_replay.Store.Listing.{
  values, files_of, list_event_files, list_replay_jobs, sort_by_creation, IsByCreation,
  sort_by_creation-IsByCreation, sort_by_creation-Perm, sort_by_creation-All,
}
use mathlib.Core.List.{Perm, filter_map}
use mathlib.Core.Option
use mathlib.Core.List.Perm
use market_replay.Store.ErrorTypes.{has_type, times, times-validation_error_types}
use market_replay.Store.Lineage.{
  ReplayJobLineage, EventFileLineage, DatasetLineage, validation_error_types, jobs_by_file,
  job_lineage, job_lineages, file_lineage, file_lineages, build_dataset_lineage,
}

-- The jobs of a dataset that replay a file.
abbrev pub jobs_on : String → String → List ReplayJob → List ReplayJob
jobs_on dataset_id file_id [] = []
jobs_on dataset_id file_id (job ∷ jobs) =
    let rest = jobs_on dataset_id file_id jobs in
    if job.dataset_id == dataset_id && job.event_file_id == file_id then job ∷ rest else rest

by_file_lem :
    (dataset_id file_id : String) (jobs : List ReplayJob) (m : Dict (List ReplayJob))
    → get_or file_id [] (jobs_by_file dataset_id jobs m)
      ≡ get_or file_id [] m ++ jobs_on dataset_id file_id jobs
unfolding jobs_by_file
by_file_lem dataset_id file_id [] m = sym (append-nil (get_or file_id [] m))
by_file_lem dataset_id file_id (job ∷ jobs) m = ground (
  arith,
  by_file_lem dataset_id file_id jobs m,
  by_file_lem dataset_id file_id jobs
      (insert job.event_file_id (get_or job.event_file_id [] m ++ (job ∷ [])) m),
  lookup-insert job.event_file_id file_id (get_or job.event_file_id [] m ++ (job ∷ [])) m,
  append_assoc (get_or job.event_file_id [] m) (job ∷ []) (jobs_on dataset_id file_id jobs),
  eq_iff job.event_file_id file_id,
)

chosen : String → String → ReplayJob → Option ReplayJob
chosen dataset_id file_id job =
    if job.dataset_id == dataset_id && job.event_file_id == file_id then some job else none

jobs_on-filter_map :
    (dataset_id file_id : String) (jobs : List ReplayJob)
    → jobs_on dataset_id file_id jobs ≡ filter_map (chosen dataset_id file_id) jobs
unfolding filter_map chosen
jobs_on-filter_map dataset_id file_id [] = refl
jobs_on-filter_map dataset_id file_id (job ∷ jobs) =
    if-elim₂
      (λ (kept : List ReplayJob) (o : Option ReplayJob).
        kept
        ≡ Option.Option-elim o (filter_map (chosen dataset_id file_id) jobs)
            (λ b. b ∷ filter_map (chosen dataset_id file_id) jobs))
      (job.dataset_id == dataset_id && job.event_file_id == file_id)
      (ap (λ rest. job ∷ rest) (jobs_on-filter_map dataset_id file_id jobs))
      (jobs_on-filter_map dataset_id file_id jobs)

jobs_on-Perm :
    (dataset_id file_id : String) (xs ys : List ReplayJob)
    → Perm xs ys
    → Perm (jobs_on dataset_id file_id xs) (jobs_on dataset_id file_id ys)
jobs_on-Perm dataset_id file_id xs ys p =
    subst (λ (out : List ReplayJob × List ReplayJob). Perm out.0 out.1)
      (sym (
        ap₂ (λ a b. (a, b)) (jobs_on-filter_map dataset_id file_id xs)
          (jobs_on-filter_map dataset_id file_id ys)))
      (Perm.filter_map (chosen dataset_id file_id) p)

abbrev job_row : MemoryRepository → ReplayJob → ReplayJobLineage
job_row r job = record {
  job = job;
  metric_count = length (get_or job.id [] r.metrics);
  error_count = length (get_or job.id [] r.errors);
  error_types = validation_error_types (get_or job.id [] r.errors);
}

job_lineages_lem :
    (r : MemoryRepository) (jobs : List ReplayJob) → job_lineages r jobs ≡ ok (map (job_row r) jobs)
unfolding job_lineages job_lineage list_replay_metrics list_validation_errors
job_lineages_lem r [] = refl
job_lineages_lem r (job ∷ jobs) = ground (arith, job_lineages_lem r jobs)

-- The row of a file.
abbrev file_row : MemoryRepository → String → List ReplayJob → EventFile → EventFileLineage
file_row r dataset_id jobs file = record {
  event_file = file;
  jobs =
      sort_by_creation (λ row. row.job.created_at)
        (map (job_row r) (jobs_on dataset_id file.id jobs));
}

file_lineages_lem :
    (r : MemoryRepository) (dataset_id : String) (jobs : List ReplayJob) (files : List EventFile)
    → file_lineages r (jobs_by_file dataset_id jobs []) files
      ≡ ok (map (file_row r dataset_id jobs) files)
unfolding file_lineages file_lineage
file_lineages_lem r dataset_id jobs [] = refl
file_lineages_lem r dataset_id jobs (file ∷ files) = ground (
  arith,
  file_lineages_lem r dataset_id jobs files,
  by_file_lem dataset_id file.id jobs [],
  lookup-nil {V = List ReplayJob} file.id,
  job_lineages_lem r (get_or file.id [] (jobs_by_file dataset_id jobs [])),
)

-- A job with what is recorded under its id.
pub record IsJobRow (r : MemoryRepository) (row : ReplayJobLineage) : Type 0 where
  pub metrics_counted : row.metric_count ≡ length (get_or row.job.id [] r.metrics)
  pub errors_counted : row.error_count ≡ length (get_or row.job.id [] r.errors)
  pub types_listed :
      (type : String)
      → times type row.error_types
        ≡ (if not (type == "") && has_type type (get_or row.job.id [] r.errors) then 1 else 0)

-- A file with the jobs of the dataset that replay it, each once, in the order of creation.
pub record IsFileRow (r : MemoryRepository) (dataset_id : String) (row : EventFileLineage)
    : Type 0 where
  pub jobs_listed :
      Perm
        (map (λ (l : ReplayJobLineage). l.job) row.jobs)
        (jobs_on dataset_id row.event_file.id (values r.jobs))
  pub jobs_sorted : IsByCreation (λ (l : ReplayJobLineage). l.job.created_at) row.jobs
  pub jobs_described : All (IsJobRow r) row.jobs

-- The lineage of a dataset: each of its files once, in the order of creation.
pub record IsLineage (r : MemoryRepository) (id : String) (lineage : DatasetLineage) : Type 0 where
  pub of_dataset : lookup id r.datasets ≡ some lineage.dataset
  pub files_listed :
      Perm
        (map (λ (l : EventFileLineage). l.event_file) lineage.event_files)
        (files_of id (values r.event_files))
  pub files_sorted :
      IsByCreation (λ (l : EventFileLineage). l.event_file.created_at) lineage.event_files
  pub files_described : All (IsFileRow r id) lineage.event_files

All-map {ℓ κ μ} :
    {A : Type ℓ} {B : Type κ} (P : B → Type μ) (f : A → B) (xs : List A)
    → ((a : A) → P (f a))
    → All P (map f xs)
All-map P f [] all = tt
All-map P f (x ∷ xs) all = (all x, All-map P f xs all)

map-map_id {ℓ κ} :
    {A : Type ℓ} {B : Type κ} (f : A → B) (g : B → A) (xs : List A)
    → ((a : A) → g (f a) ≡ a)
    → map g (map f xs) ≡ xs
map-map_id f g [] inverse = refl
map-map_id f g (x ∷ xs) inverse = ap₂ (λ y ys. y ∷ ys) (inverse x) (map-map_id f g xs inverse)

-- Sorting rows that were made of `xs` keeps `xs`.
sorted_rows-Perm :
    {A B : Type 0} (created : B → ℤ) (f : A → B) (g : B → A) (xs : List A)
    → ((a : A) → g (f a) ≡ a)
    → Perm (map g (sort_by_creation created (map f xs))) xs
sorted_rows-Perm created f g xs inverse =
    subst (Perm (map g (sort_by_creation created (map f xs)))) (map-map_id f g xs inverse)
      (Perm.map g (sort_by_creation-Perm created (map f xs)))

file_row-IsFileRow :
    (r : MemoryRepository) (id : String) (jobs : List ReplayJob) (file : EventFile)
    → Perm jobs (values r.jobs)
    → IsFileRow r id (file_row r id jobs file)
file_row-IsFileRow r id jobs file p = record {
  jobs_listed =
      Perm.trans
        (sorted_rows-Perm (λ row. row.job.created_at) (job_row r) (λ row. row.job)
          (jobs_on id file.id jobs) (λ j. refl))
        (jobs_on-Perm id file.id jobs (values r.jobs) p);
  jobs_sorted =
      sort_by_creation-IsByCreation (λ row. row.job.created_at)
        (map (job_row r) (jobs_on id file.id jobs));
  jobs_described =
      sort_by_creation-All (λ row. row.job.created_at) (IsJobRow r)
        (map (job_row r) (jobs_on id file.id jobs))
        (All-map (IsJobRow r) (job_row r) (jobs_on id file.id jobs) (λ job. record {
          metrics_counted = refl;
          errors_counted = refl;
          types_listed = λ type. times-validation_error_types type (get_or job.id [] r.errors);
        }));
}

-- A dataset that is there has a lineage: each of its files once, each with exactly the jobs of the dataset
-- that replay it, all in the order of creation, and for each job the numbers of its metrics and errors and
-- each of its kinds of error once. For a dataset that is missing it is ErrNotFound.
pub build_dataset_lineage-IsLineage :
    (now : ℤ) (id : String) (r : MemoryRepository)
    → ((lookup id r.datasets ≡ none) × (build_dataset_lineage now id r ≡ err not_found))
      ⊎ ((lineage : DatasetLineage) × (build_dataset_lineage now id r ≡ ok lineage)
          × IsLineage r id lineage)
unfolding build_dataset_lineage get_dataset list_event_files list_replay_jobs
build_dataset_lineage-IsLineage now id r = elim (Option-cases (lookup id r.datasets)) [
  | inl missing ↦ inl (missing, ground (arith, missing))
  | inr (dataset, there) ↦
      let files =
        sort_by_creation (λ (file : EventFile). file.created_at)
          (files_of id (values r.event_files)) in
      let jobs = sort_by_creation (λ (job : ReplayJob). job.created_at) (values r.jobs) in
      let rows = map (file_row r id jobs) files in
      let created = λ (row : EventFileLineage). row.event_file.created_at in
      inr (
        record {
          dataset = dataset;
          event_files = sort_by_creation created rows;
          generated_at = now;
        },
        ground (arith, there, file_lineages_lem r id jobs files),
        record {
          of_dataset = there;
          files_listed =
              Perm.trans
                (sorted_rows-Perm created (file_row r id jobs) (λ row. row.event_file) files
                  (λ f. refl))
                (sort_by_creation-Perm (λ file. file.created_at)
                  (files_of id (values r.event_files)));
          files_sorted = sort_by_creation-IsByCreation created rows;
          files_described = sort_by_creation-All created (IsFileRow r id) rows (
              All-map (IsFileRow r id) (file_row r id jobs) files (λ file.
                file_row-IsFileRow r id jobs file
                  (sort_by_creation-Perm (λ job. job.created_at) (values r.jobs))));
        },
      )
]
