-- ===== src/Tests/Working.antt =====
-- internal/queue and internal/worker: a job that is submitted, replayed and failed.
use market_replay.Prelude.{
  ℕ, ◌^◌, ◌*◌, ◌-◌, String, List, [], none, some, ◌≡◌, refl, arith, if◌then◌else◌, ltb,
}
use market_replay.Prelude.Int.{pos}
use market_replay.Prelude.Result.{Result, ok, err}
use market_replay.Error.{Error}
use market_replay.Parser.Text.{Unicode}
use market_replay.Parser.Jsonl.{JsonEvent}
use market_replay.Parser.Stream.{
  Stream, Contents, next, at_eof, new_stream, jsonl_stream, next_jsonl,
}
use market_replay.Store.{ReplayJob}
use market_replay.Store.Memory.{new_job}
use market_replay.Store.History.{IsLater}
use market_replay.Store.Reachable.{Run-IsConsistent}
use market_replay.Queue.{
  Task, TaskOption, ClientError, ReplayEnqueueConfig, with_defaults, type_replay_job,
}
use market_replay.Queue.Submit.{submit_replay, submit_replay_again, enqueue_replay_job, enqueued}
use market_replay.Worker.{Setting, OpenFile, World}
use market_replay.Worker.Outcome.{Attempt}
use market_replay.Worker.Server.{retry_delay, retry_delay_lem, five_minutes}
use market_replay.Tests.Storing.{
  with_job, with_file, checkpointed, job_params, file_run, later_calls, job_fresh, key_given,
  job_created,
}

abbrev pub plain : Unicode
plain = record { to_lower = λ s. s; to_upper = λ s. s; trim_space = λ s. s }

abbrev pub no_json : String → Result String JsonEvent
no_json s = err "no JSON"

abbrev pub empty_file : OpenFile
empty_file = record {
  input = record { lines = []; scan_error = none; csv_rows = [] };
  size = pos 0;
  sha256 = "e3b0";
}

abbrev pub here : Setting
here = record {
  unicode = plain;
  decode = no_json;
  unmarshal = λ s. ok s;
  ext = λ path. ".jsonl";
  files = λ path. ok empty_file;
  error_text = λ f. "failed";
  meter = record {
    started = pos 1;
    ended = pos 2;
    elapsed = pos 1;
    peak_alloc = 0;
    rate = λ n d. 0;
    allocs_per_event = λ n. 0;
  };
  every = 256;
  fuel = 1;
  others = λ k r. r;
  clock = λ k. pos 9;
  ctx = λ k. none;
  new_id = λ k i. "id";
}

abbrev pub the_task : Task
the_task = record { type = type_replay_job; payload = "j1" }

abbrev pub first_attempt : Attempt
first_attempt = record { retried = some (pos 0); max_retry = some (pos 3) }

abbrev pub the_world : World
the_world = record { repo = with_job; step = 0 }

abbrev pub empty_stream : Stream
empty_stream = jsonl_stream plain no_json (record { lines = []; scan_error = none; csv_rows = [] })

pub empty_opens :
    new_stream plain no_json (record { lines = []; scan_error = none; csv_rows = [] }) "jsonl"
    ≡ ok empty_stream
unfolding new_stream
empty_opens = refl

pub empty_Contents : Contents plain no_json empty_stream [] none
unfolding next next_jsonl
empty_Contents = at_eof refl

retry_delay_lem_example : retry_delay (pos 15000000000) 3 ≡ (
    if ltb five_minutes (15000000000 * 2 ^ (3 - 1))
    then pos five_minutes
    else pos (15000000000 * 2 ^ (3 - 1)))
retry_delay_lem_example = retry_delay_lem 15000000000 3 (omega arith) (omega arith)

abbrev pub defaults : ReplayEnqueueConfig
defaults = with_defaults (record {
  queue = "";
  max_retry = pos 0;
  timeout = pos 0;
  unique_ttl = pos 0;
  task_id_prefix = "";
  retry_backoff = pos 0;
  dead_letter_name = "";
})

abbrev pub accepting : Task → List TaskOption → Result ClientError ℕ
accepting task options = ok 7

abbrev the_job : ReplayJob
the_job = new_job "j1" (pos 3) job_params

submit_replay_again_example :
    (submit_replay plain (λ s. ok s) (λ s. s) accepting defaults "j1" (pos 3) job_params with_file
      ≡ record {
        repo = with_job;
        sent = (enqueue_replay_job plain (λ s. ok s) (λ s. s) accepting defaults the_job).0;
        out =
            enqueued plain
              (λ s. ok s)
              (λ s. s)
              accepting
              defaults
              the_job
              (enqueue_replay_job plain (λ s. ok s) (λ s. s) accepting defaults the_job).1;
      })
    × ((job' : ReplayJob) × IsLater the_job job'
        × (submit_replay plain
              (λ s. ok s)
              (λ s. s)
              accepting
              defaults
              "j2"
              (pos 9)
              job_params
              checkpointed
            ≡ record { repo = checkpointed; sent = []; out = ok (job', none) }))
submit_replay_again_example =
    submit_replay_again plain (λ s. ok s) (λ s. s) accepting defaults "j1" "j2" (pos 3) (pos 9)
      job_params with_file with_job checkpointed the_job (Run-IsConsistent with_file file_run)
      job_fresh key_given job_created later_calls
