-- ===== src/Tests/Storing.antt =====
-- internal/store/memory.go: a dataset, a file and a job, and what is recorded for the job.
use market_replay.Prelude.{ℕ, zero, suc, String, List, [], ◌∷◌, none, some, ◌≡◌, refl, ◌≢◌, eq_iff}
use market_replay.Prelude.Int.{pos}
use market_replay.Prelude.Dict.{lookup, insert, get_or}
use market_replay.Prelude.Result.{ok, err}
use market_replay.Event.{text}
use market_replay.Store.{
  ReplayJob, ReplayMetric, ValidationError, already_exists, CreateDatasetParams,
  CreateEventFileParams, CreateReplayJobParams, CompleteReplayJobParams,
}
use market_replay.Store.Memory.{
  MemoryRepository, new_memory_repository, create_dataset, create_event_file, create_replay_job,
  new_job, add_job, update_replay_checkpoint, with_checkpoint, get_replay_job_by_idempotency_key,
}
use market_replay.Store.Calls.{
  Call, create_dataset_call, create_event_file_call, create_replay_job_call,
  update_replay_checkpoint_call, run_call, Run, stop, call_first,
}
use market_replay.Store.Integrity.{IsConsistent}
use market_replay.Store.Abstract.{promised}
use market_replay.Store.Listing.{list_event_files}
use market_replay.Store.FileListing.{Listed, list_event_files-Listed}
use market_replay.Store.Refinement.{contract_of, performed, performed-promised}
use market_replay.Store.Reports.{
  ReplayQualityReport, build_replay_quality_report, build_replay_quality_report_lem,
  summarize_validation_errors,
}
use market_replay.Store.History.{IsLater, Grows}
use market_replay.Store.Reachable.{Run-IsConsistent, Run-Grows, create_replay_job_again}

abbrev dataset_params : CreateDatasetParams
dataset_params = record { name = "btc"; description = "" }

abbrev pub file_params : CreateEventFileParams
file_params = record {
  dataset_id = "d1";
  path = "a.jsonl";
  format = "jsonl";
  symbol = "";
  bytes = pos 10;
  sha256 = "";
  rows = pos 2;
}

abbrev pub job_params : CreateReplayJobParams
job_params = record {
  dataset_id = "d1";
  event_file_id = "f1";
  idempotency_key = "k1";
  symbol = "";
  speed = "max";
}

abbrev the_calls : List Call
the_calls =
    create_dataset_call "d1" (pos 1) dataset_params
    ∷ create_event_file_call "f1" (pos 2) file_params
    ∷ []

abbrev pub with_file : MemoryRepository
with_file =
    run_call (create_event_file_call "f1" (pos 2) file_params)
      (run_call (create_dataset_call "d1" (pos 1) dataset_params) new_memory_repository)

abbrev pub with_job : MemoryRepository
with_job = run_call (create_replay_job_call "j1" (pos 3) job_params) with_file

pub file_run : Run new_memory_repository with_file
file_run = call_first _ tt (call_first _ tt stop)

pub job_fresh : lookup "j1" with_file.jobs ≡ none
unfolding run_call create_dataset create_event_file new_memory_repository lookup insert
job_fresh = refl

pub job_run : Run new_memory_repository with_job
job_run = call_first _ tt (call_first _ tt (call_first _ job_fresh stop))

Run-IsConsistent_example : IsConsistent with_job
Run-IsConsistent_example = Run-IsConsistent with_job job_run

abbrev pub checkpointed : MemoryRepository
checkpointed =
    run_call (update_replay_checkpoint_call "j1" (pos 4))
      (run_call (update_replay_checkpoint_call "j1" (pos 5)) with_job)

pub later_calls : Run with_job checkpointed
later_calls = call_first _ tt (call_first _ tt stop)

checkpoint_stays :
    (job' : ReplayJob) × (lookup "j1" checkpointed.jobs ≡ some job')
    × (job'.checkpoint_line ≡ pos 5)
unfolding run_call create_dataset create_event_file create_replay_job add_job
    update_replay_checkpoint with_checkpoint new_memory_repository lookup insert
checkpoint_stays = (_, refl, refl)

Run-Grows_example : Grows with_job checkpointed
Run-Grows_example = Run-Grows later_calls

pub job_created :
    create_replay_job "j1" (pos 3) job_params with_file
    ≡ (with_job, ok (new_job "j1" (pos 3) job_params))
unfolding run_call create_dataset create_event_file create_replay_job add_job new_memory_repository
    lookup insert
job_created = refl

pub key_given : job_params.idempotency_key ≢ ""
key_given h = let wrong = (eq_iff "k1" "").1 h in cc

create_replay_job_again_example :
    (job' : ReplayJob) × (create_replay_job "j2" (pos 9) job_params checkpointed
      ≡ (checkpointed, err (already_exists job')))
    × (get_replay_job_by_idempotency_key "k1" checkpointed ≡ ok job')
    × IsLater (new_job "j1" (pos 3) job_params) job'
create_replay_job_again_example =
    create_replay_job_again "j1" "j2" (pos 3) (pos 9) job_params with_file with_job checkpointed
      (new_job "j1" (pos 3) job_params) (Run-IsConsistent with_file file_run) job_fresh key_given
      job_created later_calls

abbrev a_metric : ReplayMetric
a_metric = record {
  id = "";
  job_id = "";
  rows = pos 2;
  events = pos 1;
  malformed_events = pos 1;
  sequence_gaps = pos 0;
  duration = pos 7;
  rows_per_second = 0;
  events_per_second = 0;
  p95_latency = pos 0;
  peak_alloc_bytes = 0;
  allocs_per_event = 0;
  created_at = pos 0;
}

abbrev an_error : ValidationError
an_error = record {
  id = "";
  job_id = "";
  line = pos 2;
  symbol = "";
  type = "malformed_event";
  message = text "bad";
  created_at = pos 0;
}

abbrev completion_params : CompleteReplayJobParams
completion_params = record { metric = a_metric; errors = an_error ∷ [] }

abbrev two_ids : ℕ → String
two_ids zero = "m1"
two_ids (suc k) = "e1"

list_event_files-Listed_example : Listed "d1" with_file (list_event_files "d1" with_file)
list_event_files-Listed_example = list_event_files-Listed "d1" file_run

job_there : lookup "j1" with_job.jobs ≡ some (new_job "j1" (pos 3) job_params)
unfolding run_call create_dataset create_event_file create_replay_job add_job new_memory_repository
    lookup insert
job_there = refl

build_replay_quality_report_lem_example :
    (report : ReplayQualityReport) × (build_replay_quality_report
        (λ t. "")
        (λ rows. rows)
        (pos 9)
        "j1"
        with_job
      ≡ ok report)
    × (report.job ≡ new_job "j1" (pos 3) job_params)
    × (lookup "d1" with_job.datasets ≡ some report.dataset)
    × (lookup "f1" with_job.event_files ≡ some report.event_file)
    × (report.metrics ≡ get_or "j1" [] with_job.metrics)
    × (report.errors ≡ get_or "j1" [] with_job.errors)
    × (report.error_summary
        ≡ summarize_validation_errors
            (λ t. "")
            (λ rows. rows)
            report.dataset
            report.event_file
            report.errors)
build_replay_quality_report_lem_example =
    build_replay_quality_report_lem (λ t. "") (λ rows. rows) (pos 9) "j1"
      (new_job "j1" (pos 3) job_params) with_job (Run-IsConsistent with_job job_run) job_there

performed-promised_example :
    (performed (create_replay_job_call "j1" (pos 3) job_params) with_file
      ≡ promised (create_replay_job_call "j1" (pos 3) job_params) (contract_of with_file))
    × (contract_of with_job
        ≡ (promised (create_replay_job_call "j1" (pos 3) job_params) (contract_of with_file)).0)
performed-promised_example =
    performed-promised (create_replay_job_call "j1" (pos 3) job_params) with_file
