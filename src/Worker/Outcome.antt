-- ===== src/Worker/Outcome.antt =====
-- internal/worker/handler.go: what a replay gives, and what its end says to the task queue.
use market_replay.Prelude.{String, List, [], ◌∷◌, Option, none, some, if◌then◌else◌, length}
use market_replay.Prelude.Int.{ℤ, pos, leb_ℤ, ltb_ℤ, ◌-ℤ◌, tally}
use market_replay.Event.{ValidationFailure}
use market_replay.Validate.{Validator}
use market_replay.Store
use market_replay.Store.{JobStatus, dlq, EventFile, ReplayMetric, ReplayManifest, ValidationError}
use market_replay.Queue.{PayloadError}
use market_replay.Worker.{Failure, context_failed, context_canceled, OpenFile, Meter}

pub record ProcessedFileStats : Type 0 where
  pub sha256 : String
  pub rows : ℤ
  pub bytes : ℤ

-- What asynq.GetRetryCount and asynq.GetMaxRetry give.
pub record Attempt : Type 0 where
  pub retried : Option ℤ
  pub max_retry : Option ℤ

-- Why a task is given up.
pub data Drop : Type 0 where
  unsupported_type : String → Drop
  invalid_payload : PayloadError → Drop
  dropped : Failure → Drop

-- What ProcessTask returns: nil, an error, or an error that wraps asynq.SkipRetry.
pub data Reply : Type 0 where
  success : Reply
  failure : Failure → Reply
  no_retry : Drop → Reply

unfoldable pub final_status : Attempt → JobStatus
final_status a = elim a.retried [
  | none ↦ Store.failed
  | some retried ↦ elim a.max_retry [
    | none ↦ Store.failed
    | some most ↦ if leb_ℤ most retried then dlq else Store.failed
  ]
]

unfoldable pub failure_reply : JobStatus → Failure → Reply
failure_reply dlq cause = no_retry (dropped cause)
failure_reply status (context_failed context_canceled) =
    no_retry (dropped (context_failed context_canceled))
failure_reply status cause = failure cause

unfoldable pub validation_errors : String → List ValidationFailure → List ValidationError
validation_errors job_id [] = []
validation_errors job_id (f ∷ fs) =
    record {
      id = "";
      job_id = job_id;
      line = f.line;
      symbol = f.symbol;
      type = f.type;
      message = f.message;
      created_at = pos 0;
    }
    ∷ validation_errors job_id fs

abbrev pub Replayed : Type 0
Replayed = ReplayMetric × List ValidationFailure × ProcessedFileStats

-- `processFile` at the end of the input; `last` is the line of the last record.
unfoldable pub replayed : Meter → OpenFile → Validator → ℤ → Replayed
replayed meter file v last =
    let rows = if ltb_ℤ v.result.rows last then last else v.result.rows in
    let duration = if leb_ℤ meter.elapsed (pos 0) then pos 1 else meter.elapsed in
    (
      record {
        id = "";
        job_id = "";
        rows = rows;
        events = v.result.events;
        malformed_events = v.result.malformed_events;
        sequence_gaps = v.result.sequence_gaps;
        duration = duration;
        rows_per_second = meter.rate rows duration;
        events_per_second = meter.rate v.result.events duration;
        p95_latency = pos 0;
        peak_alloc_bytes = meter.peak_alloc;
        allocs_per_event = meter.allocs_per_event v.result.events;
        created_at = meter.ended;
      },
      v.result.failures,
      record { sha256 = file.sha256; rows = rows; bytes = file.size },
    )

unfoldable pub new_manifest :
    EventFile
    → String
    → String
    → ProcessedFileStats
    → ReplayMetric
    → ℤ
    → List ValidationFailure
    → ReplayManifest
new_manifest file format symbol stats metric resume_from failures = record {
  input_path = file.path;
  input_format = format;
  input_symbol = symbol;
  input_file_sha256 = stats.sha256;
  input_bytes = stats.bytes;
  input_rows = stats.rows;
  app_version = "dev";
  started_at = metric.created_at -ℤ metric.duration;
  completed_at = metric.created_at;
  duration = metric.duration;
  checkpoint_line = metric.rows;
  resume_from_line = resume_from;
  error_count = tally (length failures);
  malformed_events = metric.malformed_events;
  sequence_gaps = metric.sequence_gaps;
}
