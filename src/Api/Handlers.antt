-- ===== src/Api/Handlers.antt =====
-- internal/api/server.go: the handlers over the repository in memory. `id` and `now` are what uuid.NewString and
-- time.Now return, `now'` the time that a report is made at. A response is written to a client that takes it.
use Prim.Native.String.{◌++◌}
use market_replay.Prelude.{ℕ, String, List, [], ◌∷◌, Option, none, some, if◌then◌else◌, ◌==◌, map}
use market_replay.Prelude.Int.{ℤ, pos, ltb_ℤ}
use market_replay.Prelude.Result.{Result, ok, err}
use market_replay.Event.{Message}
use market_replay.Parser.Text.{Unicode}
use market_replay.Parser.Decimal.{format_int}
use market_replay.Store.{
  ReplayJob, ValidationError, StoreError, not_found, already_exists, zero_job, CreateDatasetParams,
  CreateEventFileParams, CreateReplayJobParams,
}
use market_replay.Store.Memory.{
  MemoryRepository, Returns, create_dataset, create_event_file, create_replay_job, get_replay_job,
  list_replay_metrics, list_validation_errors, cancel_replay_job,
}
use market_replay.Store.Listing.{list_datasets}
use market_replay.Store.Lineage.{build_dataset_lineage}
use market_replay.Store.Reports.{ReplayQualityReport, build_replay_quality_report}
use market_replay.Store.ErrorSummary.{sort_slice, report_before, build_validation_error_summary}
use market_replay.Api.{
  Request, healthz_request, create_dataset_request, list_datasets_request, dataset_lineage_request,
  create_event_file_request, create_replay_job_request, report_request, report_csv_request,
  replay_job_request, metrics_request, errors_request, cancel_request, error_summary_request, Body,
  health_body, dataset_body, datasets_body, lineage_body, event_file_body, replay_job_body,
  report_body, csv_body, metrics_body, errors_body, error_summary_body, Response, SubmitFailure,
  store_failure, other_failure, json, write_error, bad_json, write_failure, write_store_error,
}

-- Texts that the server formats with the libraries of Go: a time as a date, a time in RFC 3339, a message.
pub record Texts : Type 0 where
  pub day : ℤ → String
  pub rfc3339 : ℤ → String
  pub message_text : Message → String

-- What a handler leaves: the repository and the response.
abbrev pub Served : Type 0
Served = MemoryRepository × Response

-- `if err != nil { writeStoreError(c, err); return }; c.JSON(status, value)`
abbrev pub respond : {A : Type 0} → ℕ → (A → Body) → Result StoreError A → Response
respond status body (err e) = write_store_error e
respond status body (ok a) = json status (body a)

abbrev pub served : {A : Type 0} → ℕ → (A → Body) → Returns A → Served
served status body out = (out.0, respond status body out.1)

-- `job, err := submit(...)`: Go returns a job beside an error too.
pub record Submitted : Type 0 where
  pub repo : MemoryRepository
  pub job : ReplayJob
  pub failure : Option SubmitFailure

-- `s.repo.CreateReplayJob`, called directly.
unfoldable pub from_store : Returns ReplayJob → Submitted
from_store (r, ok job) = record { repo = r; job = job; failure = none }
from_store (r, err not_found) = record {
  repo = r;
  job = zero_job;
  failure = some (store_failure not_found);
}
from_store (r, err (already_exists job)) = record {
  repo = r;
  job = job;
  failure = some (store_failure (already_exists job));
}

unfoldable pub healthz : Response
healthz = json 200 (health_body "ok")

unfoldable pub create_dataset_handler :
    Unicode → String → ℤ → Option CreateDatasetParams → MemoryRepository → Served
create_dataset_handler u id now none r = (r, bad_json)
create_dataset_handler u id now (some req) r =
    let name = u.trim_space req.name in
    if name == ""
    then (r, write_error 400 "invalid_request" "name is required")
    else served 201 dataset_body (
        create_dataset id now (record { name = name; description = u.trim_space req.description })
          r)

-- The request with its texts trimmed.
abbrev pub trimmed_file : Unicode → CreateEventFileParams → CreateEventFileParams
trimmed_file u req = record req {
  dataset_id = u.trim_space req.dataset_id;
  path = u.trim_space req.path;
  format = u.trim_space req.format;
  symbol = u.trim_space req.symbol;
  sha256 = u.trim_space req.sha256;
}

unfoldable pub event_file_fault : CreateEventFileParams → Option String
event_file_fault req =
    if req.dataset_id == ""
    then some "dataset_id is required"
    else if req.path == ""
    then some "path is required"
    else if req.format == ""
    then some "format is required"
    else if ltb_ℤ req.bytes (pos 0)
    then some "bytes must be greater than or equal to zero"
    else if ltb_ℤ req.rows (pos 0)
    then some "rows must be greater than or equal to zero"
    else none

unfoldable pub create_event_file_handler :
    Unicode → String → ℤ → Option CreateEventFileParams → MemoryRepository → Served
create_event_file_handler u id now none r = (r, bad_json)
create_event_file_handler u id now (some req) r = elim (event_file_fault (trimmed_file u req)) [
  | some fault ↦ (r, write_error 400 "invalid_request" fault)
  | none ↦ served 201 event_file_body (create_event_file id now (trimmed_file u req) r)
]

abbrev pub trimmed_job : Unicode → CreateReplayJobParams → CreateReplayJobParams
trimmed_job u req = record {
  dataset_id = u.trim_space req.dataset_id;
  event_file_id = u.trim_space req.event_file_id;
  idempotency_key = u.trim_space req.idempotency_key;
  symbol = u.trim_space req.symbol;
  speed = u.trim_space req.speed;
}

unfoldable pub replay_job_fault : CreateReplayJobParams → Option String
replay_job_fault req =
    if req.dataset_id == ""
    then some "dataset_id is required"
    else if req.event_file_id == ""
    then some "event_file_id is required"
    else if req.speed == ""
    then some "speed is required"
    else none

-- From `if errors.Is(err, store.ErrAlreadyExists)` on.
unfoldable pub job_response : ReplayJob → Option SubmitFailure → Response
job_response job none = json 201 (replay_job_body job)
job_response job (some (store_failure not_found)) = write_failure (store_failure not_found)
job_response job (some (store_failure (already_exists old))) = json 200 (replay_job_body job)
job_response job (some other_failure) = write_failure other_failure

-- `submit` is `s.submitReplay`, or `s.repo.CreateReplayJob` where that is nil.
unfoldable pub create_replay_job_handler :
    Unicode
    → (CreateReplayJobParams → MemoryRepository → Submitted)
    → Option CreateReplayJobParams
    → MemoryRepository
    → Served
create_replay_job_handler u submit none r = (r, bad_json)
create_replay_job_handler u submit (some req) r = elim (replay_job_fault (trimmed_job u req)) [
  | some fault ↦ (r, write_error 400 "invalid_request" fault)
  | none ↦ let out = submit (trimmed_job u req) r in (out.repo, job_response out.job out.failure)
]

-- A row of the CSV report.
unfoldable pub csv_fields : Texts → ValidationError → List String
csv_fields t e =
    e.job_id
    ∷ format_int e.line
    ∷ e.symbol
    ∷ e.type
    ∷ t.message_text e.message
    ∷ t.rfc3339 e.created_at
    ∷ []

unfoldable pub csv_report : Texts → ReplayQualityReport → Body
csv_report t report =
    csv_body ("attachment; filename=\"" ++ (report.job.id ++ "-quality-report.csv\"")) (
      ("job_id" ∷ "line" ∷ "symbol" ∷ "type" ∷ "message" ∷ "created_at" ∷ [])
      ∷ map (csv_fields t) report.errors)

abbrev pub report_of : Texts → ℤ → String → MemoryRepository → Result StoreError ReplayQualityReport
report_of t now id r = build_replay_quality_report t.day (sort_slice report_before) now id r

-- `ensureJobExists`, then the rest of the handler.
abbrev pub of_existing :
    {A : Type 0} → String → MemoryRepository → Result StoreError A → Result StoreError A
of_existing id r rest = elim (get_replay_job id r) [ err e ↦ err e | ok job ↦ rest ]

abbrev pub list_datasets_handler : MemoryRepository → Response
list_datasets_handler r = respond 200 datasets_body (list_datasets r)

abbrev pub get_dataset_lineage_handler : ℤ → String → MemoryRepository → Response
get_dataset_lineage_handler now id r = respond 200 lineage_body (build_dataset_lineage now id r)

abbrev pub get_replay_job_handler : String → MemoryRepository → Response
get_replay_job_handler id r = respond 200 replay_job_body (get_replay_job id r)

abbrev pub get_replay_quality_report_handler : Texts → ℤ → String → MemoryRepository → Response
get_replay_quality_report_handler t now id r = respond 200 report_body (report_of t now id r)

abbrev pub get_replay_quality_report_csv_handler : Texts → ℤ → String → MemoryRepository → Response
get_replay_quality_report_csv_handler t now id r = respond 200 (csv_report t) (report_of t now id r)

abbrev pub list_replay_metrics_handler : String → MemoryRepository → Response
list_replay_metrics_handler id r =
    respond 200 metrics_body (of_existing id r (list_replay_metrics id r))

abbrev pub list_validation_errors_handler : String → MemoryRepository → Response
list_validation_errors_handler id r =
    respond 200 errors_body (of_existing id r (list_validation_errors id r))

abbrev pub list_validation_error_summary_handler : Texts → MemoryRepository → Response
list_validation_error_summary_handler t r =
    respond 200 error_summary_body (build_validation_error_summary t.day r)

abbrev pub cancel_replay_job_handler : String → ℤ → MemoryRepository → Served
cancel_replay_job_handler id now r = served 200 replay_job_body (cancel_replay_job id now r)

-- The router: each request to its handler.
module _ (u : Unicode) (t : Texts)
    (submit : String → ℤ → CreateReplayJobParams → MemoryRepository → Submitted) where
  unfoldable pub handle : String → ℤ → ℤ → Request → MemoryRepository → Served
  handle id now now' healthz_request r = (r, healthz)
  handle id now now' (create_dataset_request req) r = create_dataset_handler u id now req r
  handle id now now' list_datasets_request r = (r, list_datasets_handler r)
  handle id now now' (dataset_lineage_request wanted) r =
      (r, get_dataset_lineage_handler now' wanted r)
  handle id now now' (create_event_file_request req) r = create_event_file_handler u id now req r
  handle id now now' (create_replay_job_request req) r =
      create_replay_job_handler u (submit id now) req r
  handle id now now' (report_request wanted) r =
      (r, get_replay_quality_report_handler t now' wanted r)
  handle id now now' (report_csv_request wanted) r =
      (r, get_replay_quality_report_csv_handler t now' wanted r)
  handle id now now' (replay_job_request wanted) r = (r, get_replay_job_handler wanted r)
  handle id now now' (metrics_request wanted) r = (r, list_replay_metrics_handler wanted r)
  handle id now now' (errors_request wanted) r = (r, list_validation_errors_handler wanted r)
  handle id now now' (cancel_request wanted) r = cancel_replay_job_handler wanted now r
  handle id now now' error_summary_request r = (r, list_validation_error_summary_handler t r)

-- The server without a queue.
abbrev pub direct : String → ℤ → CreateReplayJobParams → MemoryRepository → Submitted
direct id now params r = from_store (create_replay_job id now params r)
