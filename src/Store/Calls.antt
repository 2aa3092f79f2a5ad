-- ===== src/Store/Calls.antt =====
-- internal/store/memory.go: the calls that change a repository, and sequences of them.
use market_replay.Prelude.{ℕ, String, none, ◌≡◌}
use market_replay.Prelude.Int.{ℤ}
use market_replay.Prelude.Dict.{lookup}
use market_replay.Store.{
  JobStatus, ReplayManifest, CreateDatasetParams, CreateEventFileParams, CreateReplayJobParams,
  CompleteReplayJobParams, UpdateEventFileStatsParams,
}
use market_replay.Store.Memory.{
  MemoryRepository, create_dataset, create_event_file, update_event_file_stats, create_replay_job,
  update_replay_job_status, update_replay_checkpoint, update_replay_manifest, complete_replay_job,
  cancel_replay_job,
}

-- The identifiers and the times that a call draws are among its arguments.
pub data Call : Type 0 where
  create_dataset_call : String → ℤ → CreateDatasetParams → Call
  create_event_file_call : String → ℤ → CreateEventFileParams → Call
  update_event_file_stats_call : String → UpdateEventFileStatsParams → Call
  create_replay_job_call : String → ℤ → CreateReplayJobParams → Call
  update_replay_job_status_call : String → JobStatus → String → ℤ → Call
  update_replay_checkpoint_call : String → ℤ → Call
  update_replay_manifest_call : String → ReplayManifest → Call
  complete_replay_job_call : (ℕ → String) → ℤ → String → CompleteReplayJobParams → Call
  cancel_replay_job_call : String → ℤ → Call

unfoldable pub run_call : Call → MemoryRepository → MemoryRepository
run_call (create_dataset_call id now params) r = (create_dataset id now params r).0
run_call (create_event_file_call id now params) r = (create_event_file id now params r).0
run_call (update_event_file_stats_call id params) r = (update_event_file_stats id params r).0
run_call (create_replay_job_call id now params) r = (create_replay_job id now params r).0
run_call (update_replay_job_status_call id status last_error now) r =
    (update_replay_job_status id status last_error now r).0
run_call (update_replay_checkpoint_call id line) r = (update_replay_checkpoint id line r).0
run_call (update_replay_manifest_call id manifest) r = (update_replay_manifest id manifest r).0
run_call (complete_replay_job_call new_id now id params) r =
    (complete_replay_job new_id now id params r).0
run_call (cancel_replay_job_call id now) r = (cancel_replay_job id now r).0

-- A random identifier that is new: no job has it.
abbrev pub IsFresh : Call → MemoryRepository → Type 0
IsFresh (create_replay_job_call id now params) r = lookup id r.jobs ≡ none
IsFresh call r = Unit {0}

-- The calls of any number of clients, in the order in which they take the lock.
pub data Run : MemoryRepository → MemoryRepository → Type 0 where
  stop : {r : MemoryRepository} → Run r r
  call_first : {r s : MemoryRepository} (c : Call) → IsFresh c r → Run (run_call c r) s → Run r s
