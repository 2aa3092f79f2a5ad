-- ===== src/Store.antt =====
-- internal/store/store.go: datasets, event files, replay jobs and what is recorded about them.
-- A `time.Time` is an integer that counts from its zero value, a float64 its bits, an absent `*time.Time` none.
pub mod Memory
pub mod Calls
pub mod Integrity
pub mod Preserve
pub mod Creation
pub mod Completion
pub mod History
pub mod Growth
pub mod Reachable
pub mod Records
pub mod Listing
pub mod Reports
pub mod Lineage
pub mod ErrorTypes
pub mod LineageRows
pub mod Distinct
pub mod FileKeys
pub mod FileListing
pub mod ErrorSummary
pub mod Totals
pub mod Summaries
pub mod Abstract
pub mod SameRows
pub mod Refinement
use market_replay.Prelude.{ℕ, String, Bool, true, false, List, [], Option, none}
use market_replay.Prelude.Int.{ℤ, pos}
use market_replay.Event.{Message}

pub record Dataset : Type 0 where
  pub id : String
  pub name : String
  pub description : String
  pub created_at : ℤ

pub record EventFile : Type 0 where
  pub id : String
  pub dataset_id : String
  pub path : String
  pub format : String
  pub symbol : String
  pub bytes : ℤ
  pub sha256 : String
  pub rows : ℤ
  pub created_at : ℤ

-- `unset` is the empty text, the status of a zero ReplayJob.
pub data JobStatus : Type 0 where
  queued running completed failed canceled dlq unset : JobStatus

pub record ReplayManifest : Type 0 where
  pub input_path : String
  pub input_format : String
  pub input_symbol : String
  pub input_file_sha256 : String
  pub input_bytes : ℤ
  pub input_rows : ℤ
  pub app_version : String
  pub started_at : ℤ
  pub completed_at : ℤ
  pub duration : ℤ
  pub checkpoint_line : ℤ
  pub resume_from_line : ℤ
  pub error_count : ℤ
  pub malformed_events : ℤ
  pub sequence_gaps : ℤ

pub record ReplayJob : Type 0 where
  pub id : String
  pub dataset_id : String
  pub event_file_id : String
  pub idempotency_key : String
  pub symbol : String
  pub speed : String
  pub status : JobStatus
  pub attempts : ℤ
  pub last_error : String
  pub checkpoint_line : ℤ
  pub created_at : ℤ
  pub started_at : Option ℤ
  pub completed_at : Option ℤ
  pub canceled_at : Option ℤ
  pub manifest : ReplayManifest

pub record ValidationError : Type 0 where
  pub id : String
  pub job_id : String
  pub line : ℤ
  pub symbol : String
  pub type : String
  pub message : Message
  pub created_at : ℤ

pub record ReplayMetric : Type 0 where
  pub id : String
  pub job_id : String
  pub rows : ℤ
  pub events : ℤ
  pub malformed_events : ℤ
  pub sequence_gaps : ℤ
  pub duration : ℤ
  pub rows_per_second : ℕ
  pub events_per_second : ℕ
  pub p95_latency : ℤ
  pub peak_alloc_bytes : ℕ
  pub allocs_per_event : ℕ
  pub created_at : ℤ

pub record CreateDatasetParams : Type 0 where
  pub name : String
  pub description : String

pub record CreateEventFileParams : Type 0 where
  pub dataset_id : String
  pub path : String
  pub format : String
  pub symbol : String
  pub bytes : ℤ
  pub sha256 : String
  pub rows : ℤ

pub record CreateReplayJobParams : Type 0 where
  pub dataset_id : String
  pub event_file_id : String
  pub idempotency_key : String
  pub symbol : String
  pub speed : String

pub record CompleteReplayJobParams : Type 0 where
  pub metric : ReplayMetric
  pub errors : List ValidationError

pub record UpdateEventFileStatsParams : Type 0 where
  pub sha256 : String
  pub rows : ℤ
  pub bytes : ℤ

-- `already_exists` has the job that CreateReplayJob returns beside ErrAlreadyExists.
pub data StoreError : Type 0 where
  not_found : StoreError
  already_exists : ReplayJob → StoreError

abbrev pub zero_manifest : ReplayManifest
zero_manifest = record {
  input_path = "";
  input_format = "";
  input_symbol = "";
  input_file_sha256 = "";
  input_bytes = pos 0;
  input_rows = pos 0;
  app_version = "";
  started_at = pos 0;
  completed_at = pos 0;
  duration = pos 0;
  checkpoint_line = pos 0;
  resume_from_line = pos 0;
  error_count = pos 0;
  malformed_events = pos 0;
  sequence_gaps = pos 0;
}

-- `ReplayJob{}`
abbrev pub zero_job : ReplayJob
zero_job = record {
  id = "";
  dataset_id = "";
  event_file_id = "";
  idempotency_key = "";
  symbol = "";
  speed = "";
  status = unset;
  attempts = pos 0;
  last_error = "";
  checkpoint_line = pos 0;
  created_at = pos 0;
  started_at = none;
  completed_at = none;
  canceled_at = none;
  manifest = zero_manifest;
}
