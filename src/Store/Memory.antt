-- ===== src/Store/Memory.antt =====
-- internal/store/memory.go: the repository in memory. An operation returns the new repository and its result;
-- `id` is what uuid.NewString returns, `now` what time.Now returns. The lock makes each operation one step.
use market_replay.Prelude.{
  ℕ, suc, String, not, List, [], ◌∷◌, ◌++◌, Option, none, some, if◌then◌else◌, ◌==◌,
}
use market_replay.Prelude.Int.{ℤ, pos, ltb_ℤ, leb_ℤ, eqb_ℤ, inc64}
use market_replay.Prelude.Dict.{Dict, lookup, insert, get_or}
use market_replay.Prelude.Result.{Result, ok, err}
use market_replay.Store.{
  Dataset, EventFile, JobStatus, queued, running, completed, failed, canceled, dlq, unset,
  ReplayManifest, ReplayJob, ValidationError, ReplayMetric, CreateDatasetParams,
  CreateEventFileParams, CreateReplayJobParams, CompleteReplayJobParams, UpdateEventFileStatsParams,
  StoreError, not_found, already_exists, zero_job,
}

pub record MemoryRepository : Type 0 where
  pub datasets : Dict Dataset
  pub event_files : Dict EventFile
  pub jobs : Dict ReplayJob
  pub idempotency_map : Dict String
  pub metrics : Dict (List ReplayMetric)
  pub errors : Dict (List ValidationError)

abbrev pub Returns : Type 0 → Type 0
Returns A = MemoryRepository × Result StoreError A

unfoldable pub new_memory_repository : MemoryRepository
new_memory_repository = record {
  datasets = [];
  event_files = [];
  jobs = [];
  idempotency_map = [];
  metrics = [];
  errors = [];
}

-- `value, ok := m[id]; if !ok { return ErrNotFound }`
abbrev pub found {ℓ} : {A : Type ℓ} → Option A → Result StoreError A
found none = err not_found
found (some value) = ok value

unfoldable pub create_dataset :
    String → ℤ → CreateDatasetParams → MemoryRepository → Returns Dataset
create_dataset id now params r =
    let dataset : Dataset = record {
      id = id;
      name = params.name;
      description = params.description;
      created_at = now;
    } in
    (record r { datasets = insert id dataset r.datasets }, ok dataset)

unfoldable pub get_dataset : String → MemoryRepository → Result StoreError Dataset
get_dataset id r = found (lookup id r.datasets)

abbrev pub new_event_file : String → ℤ → CreateEventFileParams → EventFile
new_event_file id now params = record {
  id = id;
  dataset_id = params.dataset_id;
  path = params.path;
  format = params.format;
  symbol = params.symbol;
  bytes = params.bytes;
  sha256 = params.sha256;
  rows = params.rows;
  created_at = now;
}

unfoldable pub create_event_file :
    String → ℤ → CreateEventFileParams → MemoryRepository → Returns EventFile
create_event_file id now params r = elim (lookup params.dataset_id r.datasets) [
  | none ↦ (r, err not_found)
  | some dataset ↦ (
    record r { event_files = insert id (new_event_file id now params) r.event_files },
    ok (new_event_file id now params),
  )
]

unfoldable pub get_event_file : String → MemoryRepository → Result StoreError EventFile
get_event_file id r = found (lookup id r.event_files)

abbrev pub with_stats : UpdateEventFileStatsParams → EventFile → EventFile
with_stats params file = record file {
  sha256 = if not (params.sha256 == "") then params.sha256 else file.sha256;
  rows = if leb_ℤ (pos 0) params.rows then params.rows else file.rows;
  bytes = if leb_ℤ (pos 0) params.bytes then params.bytes else file.bytes;
}

unfoldable pub update_event_file_stats :
    String → UpdateEventFileStatsParams → MemoryRepository → Returns EventFile
update_event_file_stats id params r = elim (lookup id r.event_files) [
  | none ↦ (r, err not_found)
  | some file ↦ (
    record r { event_files = insert id (with_stats params file) r.event_files },
    ok (with_stats params file),
  )
]

abbrev pub new_job : String → ℤ → CreateReplayJobParams → ReplayJob
new_job id now params = record zero_job {
  id = id;
  dataset_id = params.dataset_id;
  event_file_id = params.event_file_id;
  idempotency_key = params.idempotency_key;
  symbol = params.symbol;
  speed = params.speed;
  status = queued;
  created_at = now;
}

-- The job that `params.IdempotencyKey` already names.
abbrev pub idempotent_id : String → MemoryRepository → Option String
idempotent_id key r = if key == "" then none else lookup key r.idempotency_map

-- From `job := ReplayJob{` on.
unfoldable pub add_job : String → ℤ → CreateReplayJobParams → MemoryRepository → MemoryRepository
add_job id now params r = record r {
  jobs = insert id (new_job id now params) r.jobs;
  idempotency_map =
      if params.idempotency_key == ""
      then r.idempotency_map
      else insert params.idempotency_key id r.idempotency_map;
}

unfoldable pub create_replay_job :
    String → ℤ → CreateReplayJobParams → MemoryRepository → Returns ReplayJob
create_replay_job id now params r = elim (lookup params.dataset_id r.datasets) [
  | none ↦ (r, err not_found)
  | some dataset ↦ elim (lookup params.event_file_id r.event_files) [
    | none ↦ (r, err not_found)
    | some file ↦ elim (idempotent_id params.idempotency_key r) [
      | some old ↦ (r, err (already_exists (get_or old zero_job r.jobs)))
      | none ↦ (add_job id now params r, ok (new_job id now params))
    ]
  ]
]

unfoldable pub get_replay_job : String → MemoryRepository → Result StoreError ReplayJob
get_replay_job id r = found (lookup id r.jobs)

unfoldable pub get_replay_job_by_idempotency_key :
    String → MemoryRepository → Result StoreError ReplayJob
get_replay_job_by_idempotency_key key r = elim (lookup key r.idempotency_map) [
  | none ↦ err not_found
  | some id ↦ ok (get_or id zero_job r.jobs)
]

-- `job, ok := r.jobs[id]`, a change of the job, `r.jobs[id] = job`
abbrev pub change_job : (ReplayJob → ReplayJob) → String → MemoryRepository → Returns ReplayJob
change_job change id r = elim (lookup id r.jobs) [
  | none ↦ (r, err not_found)
  | some job ↦ (record r { jobs = insert id (change job) r.jobs }, ok (change job))
]

-- The `switch` on the new status.
unfoldable pub stamped : JobStatus → ℤ → ReplayJob → ReplayJob
stamped running now job = record job { started_at = some now }
stamped completed now job = record job { completed_at = some now }
stamped failed now job = record job { completed_at = some now }
stamped dlq now job = record job { completed_at = some now }
stamped canceled now job = record job { canceled_at = some now }
stamped queued now job = job
stamped unset now job = job

unfoldable pub with_status : JobStatus → String → ℤ → ReplayJob → ReplayJob
with_status status last_error now job =
    stamped status now
      (record job { status = status; last_error = last_error; attempts = inc64 job.attempts })

unfoldable pub update_replay_job_status :
    String → JobStatus → String → ℤ → MemoryRepository → Returns ReplayJob
update_replay_job_status id status last_error now r =
    change_job (with_status status last_error now) id r

unfoldable pub with_checkpoint : ℤ → ReplayJob → ReplayJob
with_checkpoint line job =
    if ltb_ℤ job.checkpoint_line line then record job { checkpoint_line = line } else job

unfoldable pub update_replay_checkpoint : String → ℤ → MemoryRepository → Returns (Unit {0})
update_replay_checkpoint id line r = elim (lookup id r.jobs) [
  | none ↦ (r, err not_found)
  | some job ↦ (record r { jobs = insert id (with_checkpoint line job) r.jobs }, ok tt)
]

unfoldable pub update_replay_manifest :
    String → ReplayManifest → MemoryRepository → Returns ReplayJob
update_replay_manifest id manifest r = change_job (λ job. record job { manifest = manifest }) id r

unfoldable pub stamped_metric : String → String → ℤ → ReplayMetric → ReplayMetric
stamped_metric id job_id now m = record m {
  id = if m.id == "" then id else m.id;
  job_id = job_id;
  created_at = if eqb_ℤ m.created_at (pos 0) then now else m.created_at;
}

-- The loop over `params.Errors`; `new_id k` is the identifier drawn for the error `k`.
unfoldable pub stamped_errors :
    (ℕ → String) → ℕ → String → ℤ → List ValidationError → List ValidationError
stamped_errors new_id k job_id now [] = []
stamped_errors new_id k job_id now (e ∷ es) =
    record e {
      id = if e.id == "" then new_id k else e.id;
      job_id = job_id;
      created_at = if eqb_ℤ e.created_at (pos 0) then now else e.created_at;
    }
    ∷ stamped_errors new_id (suc k) job_id now es

abbrev pub completed_job : ℤ → ReplayJob → ReplayJob
completed_job now job = record job { status = completed; completed_at = some now }

-- `r.errors[jobID] = append(r.errors[jobID], validationError)` runs once for each error.
abbrev pub append_errors :
    String → List ValidationError → Dict (List ValidationError) → Dict (List ValidationError)
append_errors job_id [] m = m
append_errors job_id (e ∷ es) m =
    append_errors job_id es (insert job_id (get_or job_id [] m ++ (e ∷ [])) m)

-- `new_id 0` is for the metric.
unfoldable pub complete_replay_job :
    (ℕ → String) → ℤ → String → CompleteReplayJobParams → MemoryRepository → Returns ReplayJob
complete_replay_job new_id now job_id params r = elim (lookup job_id r.jobs) [
  | none ↦ (r, err not_found)
  | some job ↦ (
    record r {
      jobs = insert job_id (completed_job now job) r.jobs;
      metrics =
          insert job_id
            (get_or job_id [] r.metrics
              ++ (stamped_metric (new_id 0) job_id now params.metric ∷ []))
            r.metrics;
      errors = append_errors job_id (stamped_errors new_id 1 job_id now params.errors) r.errors;
    },
    ok (completed_job now job),
  )
]

unfoldable pub list_replay_metrics :
    String → MemoryRepository → Result StoreError (List ReplayMetric)
list_replay_metrics job_id r = ok (get_or job_id [] r.metrics)

unfoldable pub list_validation_errors :
    String → MemoryRepository → Result StoreError (List ValidationError)
list_validation_errors job_id r = ok (get_or job_id [] r.errors)

unfoldable pub cancel_replay_job : String → ℤ → MemoryRepository → Returns ReplayJob
cancel_replay_job job_id now r = update_replay_job_status job_id canceled "" now r
