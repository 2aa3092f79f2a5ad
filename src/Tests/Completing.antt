-- ===== src/Tests/Completing.antt =====
-- internal/worker/handler.go: a queued job whose file is empty is completed.
use market_replay.Prelude.{[], some, ◌≡◌, refl, arith}
use market_replay.Prelude.Int.{pos}
use market_replay.Prelude.Dict.{lookup, insert}
use market_replay.Prelude.Result.{ok}
use market_replay.Parser.Stream.{resolve_format}
use market_replay.Store.Memory.{
  new_job, new_event_file, create_dataset, create_event_file, create_replay_job, add_job,
  new_memory_repository,
}
use market_replay.Store.Calls.{run_call}
use market_replay.Store.Reachable.{Run-IsConsistent}
use market_replay.Queue.{decode_replay_payload}
use market_replay.Worker.Handler.{process_task}
use market_replay.Worker.Triples.{IsQuiet}
use market_replay.Worker.Finishing.{IsReadable}
use market_replay.Worker.Liveness.{Completed, is_queued, process_task_completes}
use market_replay.Tests.Storing.{with_job, file_params, job_params, job_run}
use market_replay.Tests.Working.{
  here, plain, no_json, the_task, first_attempt, the_world, empty_file, empty_stream, empty_opens,
  empty_Contents,
}

here-IsQuiet : IsQuiet here
here-IsQuiet = record { alone = λ k r. refl; never_done = λ k. refl }

jsonl_resolved : resolve_format plain no_json ".jsonl" "jsonl" ≡ ok "jsonl"
unfolding resolve_format
jsonl_resolved = refl

file_known : lookup "f1" with_job.event_files ≡ some (new_event_file "f1" (pos 2) file_params)
unfolding run_call create_dataset create_event_file create_replay_job add_job new_memory_repository
    lookup insert
file_known = refl

job_known : lookup "j1" with_job.jobs ≡ some (new_job "j1" (pos 3) job_params)
unfolding run_call create_dataset create_event_file create_replay_job add_job new_memory_repository
    lookup insert
job_known = refl

file-IsReadable : IsReadable here with_job (new_job "j1" (pos 3) job_params)
file-IsReadable = record {
  file = new_event_file "f1" (pos 2) file_params;
  format = "jsonl";
  opened = empty_file;
  stream = empty_stream;
  records = [];
  known = file_known;
  resolved = jsonl_resolved;
  opens = refl;
  streams = empty_opens;
  contents = empty_Contents;
  enough_fuel = omega arith;
}

task_decoded : decode_replay_payload plain (λ s. ok s) "j1" ≡ ok (record { job_id = "j1" })
unfolding decode_replay_payload
task_decoded = refl

process_task_completes_example :
    Completed here with_job "j1"
      (new_job "j1" (pos 3) job_params)
      file-IsReadable
      (process_task here first_attempt the_task the_world)
process_task_completes_example =
    process_task_completes here here-IsQuiet first_attempt the_task "j1"
      (new_job "j1" (pos 3) job_params) the_world (Run-IsConsistent with_job job_run) job_known
      file-IsReadable refl task_decoded is_queued
