-- ===== src/Api.antt =====
-- internal/api/server.go: requests, responses and errors of the HTTP server.
-- A request is what the router has matched; a body that is no JSON for its type is `none`.
pub mod Handlers
pub mod Errors
pub mod Routes
pub mod Queued
pub mod Refusals
use market_replay.Prelude.{ℕ, String, List, Option}
use market_replay.Prelude.Int.{ℤ}
use market_replay.Store.{
  Dataset, EventFile, ReplayJob, ReplayMetric, ValidationError, StoreError, not_found,
  already_exists, CreateDatasetParams, CreateEventFileParams, CreateReplayJobParams,
}
use market_replay.Store.Reports.{ValidationErrorSummary, ReplayQualityReport}
use market_replay.Store.Lineage.{DatasetLineage}

-- The routes of NewRouterWithOptions, a path parameter `:id` as the constructor's text.
pub data Request : Type 0 where
  healthz_request : Request
  create_dataset_request : Option CreateDatasetParams → Request
  list_datasets_request : Request
  dataset_lineage_request : String → Request
  create_event_file_request : Option CreateEventFileParams → Request
  create_replay_job_request : Option CreateReplayJobParams → Request
  report_request report_csv_request replay_job_request metrics_request errors_request
        cancel_request :
      String → Request
  error_summary_request : Request

pub record ErrorResponse : Type 0 where
  pub error : String
  pub message : String

-- What a response carries: the value that c.JSON encodes, or the rows that the CSV writer is given.
pub data Body : Type 0 where
  health_body : String → Body
  error_body : ErrorResponse → Body
  dataset_body : Dataset → Body
  datasets_body : List Dataset → Body
  lineage_body : DatasetLineage → Body
  event_file_body : EventFile → Body
  replay_job_body : ReplayJob → Body
  report_body : ReplayQualityReport → Body
  csv_body : (disposition : String) → List (List String) → Body
  metrics_body : List ReplayMetric → Body
  errors_body : List ValidationError → Body
  error_summary_body : List ValidationErrorSummary → Body

pub record Response : Type 0 where
  pub status : ℕ
  pub body : Body

-- What submitting a job fails with: an error of the store, or another one.
pub data SubmitFailure : Type 0 where
  store_failure : StoreError → SubmitFailure
  other_failure : SubmitFailure

abbrev pub json : ℕ → Body → Response
json status body = record { status = status; body = body }

unfoldable pub write_error : ℕ → String → String → Response
write_error status error message =
    json status (error_body (record { error = error; message = message }))

-- `ShouldBindJSON` failed.
unfoldable pub bad_json : Response
unfolding write_error
bad_json = write_error 400 "invalid_json" "request body must be valid JSON"

unfoldable pub write_failure : SubmitFailure → Response
unfolding write_error
write_failure (store_failure not_found) =
    write_error 404 "not_found" "requested resource was not found"
write_failure (store_failure (already_exists job)) =
    write_error 409 "already_exists" "resource already exists"
write_failure other_failure = write_error 500 "internal_error" "internal server error"

abbrev pub write_store_error : StoreError → Response
write_store_error e = write_failure (store_failure e)
