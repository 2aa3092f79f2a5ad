-- ===== src/Tests/Serving.antt =====
-- internal/api and internal/store/reports.go: a session with the server, and what it reports.
use market_replay.Prelude.{ℕ, ◌<◌, ◌^◌, List, [], ◌∷◌, none, some, All, ◌≡◌, ◌⊎◌, refl, arith}
use market_replay.Prelude.Int.{pos, ◌<ℤ◌, negsuc}
use market_replay.Prelude.Dict.{lookup, insert}
use market_replay.Prelude.Result.{Result, ok, err}
use market_replay.Parser.Text.{parse_int}
use market_replay.Parser.Decimal.{format_int, parse_int-format_int}
use market_replay.Store.{ReplayJob, not_found}
use market_replay.Store.Memory.{
  new_memory_repository, new_job, create_dataset, create_event_file, create_replay_job, add_job,
}
use market_replay.Store.Calls.{run_call, stop}
use market_replay.Store.History.{IsLater}
use market_replay.Store.Reachable.{Run-IsConsistent}
use market_replay.Store.Listing.{list_replay_jobs}
use market_replay.Store.Lineage.{DatasetLineage, build_dataset_lineage}
use market_replay.Store.LineageRows.{IsLineage, build_dataset_lineage-IsLineage}
use market_replay.Store.Reports.{ValidationErrorSummary}
use market_replay.Store.ErrorSummary.{build_validation_error_summary}
use market_replay.Store.Totals.{total_count, CountsFall}
use market_replay.Store.Summaries.{errors_in, build_validation_error_summary-total_count}
use market_replay.Queue.Submit.{submit_replay}
use market_replay.Api.{create_replay_job_request, replay_job_body, json}
use market_replay.Api.Handlers.{Texts, handle, direct, trimmed_job, replay_job_fault}
use market_replay.Api.Refusals.{FineOr, LeftBy, handle-Refusals}
use market_replay.Queue.{Task, TaskOption, ClientError, client_failed}
use market_replay.Api.Routes.{Session, closed, post_replay_job_again}
use market_replay.Api.Queued.{queued, queued_post_again, Accepted}
use market_replay.Tests.Storing.{
  with_file, with_job, job_params, file_run, job_run, job_fresh, key_given, job_created,
}
use market_replay.Tests.Working.{plain, accepting, defaults}

abbrev texts : Texts
texts = record {
  day = λ time. "2024-01-02";
  rfc3339 = λ time. "2024-01-02T00:00:00Z";
  message_text = λ m. "";
}

abbrev the_job : ReplayJob
the_job = new_job "j1" (pos 3) job_params

fine_params : replay_job_fault (trimmed_job plain job_params) ≡ none
unfolding replay_job_fault
fine_params = refl

abbrev unread : Session plain texts with_job with_job
unread = closed

post_replay_job_again_example :
    (handle plain texts direct "j1"
        (pos 3)
        (pos 3)
        (create_replay_job_request (some job_params))
        with_file
      ≡ (with_job, json 201 (replay_job_body the_job)))
    × ((job' : ReplayJob) × IsLater the_job job'
        × (handle plain texts direct "j2"
              (pos 9)
              (pos 9)
              (create_replay_job_request (some job_params))
              with_job
            ≡ (with_job, json 200 (replay_job_body job'))))
post_replay_job_again_example =
    post_replay_job_again plain texts "j1" "j2" (pos 3) (pos 3) (pos 9) (pos 9) job_params with_file
      with_job with_job the_job (Run-IsConsistent with_file file_run) job_fresh key_given
      fine_params job_created unread

queued_post_again_example :
    ((handle plain texts
        (queued plain (λ s. ok s) (λ s. s) accepting defaults)
        "j1"
        (pos 3)
        (pos 3)
        (create_replay_job_request (some job_params))
        with_file).0
      ≡ with_job)
    × Accepted the_job
        (handle plain texts
          (queued plain (λ s. ok s) (λ s. s) accepting defaults)
          "j1"
          (pos 3)
          (pos 3)
          (create_replay_job_request (some job_params))
          with_file).1
    × ((job' : ReplayJob) × IsLater the_job job'
        × ((submit_replay plain
              (λ s. ok s)
              (λ s. s)
              accepting
              defaults
              "j2"
              (pos 9)
              (trimmed_job plain job_params)
              with_job).sent
            ≡ [])
        × (handle plain texts
              (queued plain (λ s. ok s) (λ s. s) accepting defaults)
              "j2"
              (pos 9)
              (pos 9)
              (create_replay_job_request (some job_params))
              with_job
            ≡ (with_job, json 201 (replay_job_body job'))))
queued_post_again_example =
    queued_post_again plain (λ s. ok s) (λ s. s) accepting defaults texts "j1" "j2" (pos 3) (pos 3)
      (pos 9) (pos 9) job_params with_file with_job with_job the_job
      (Run-IsConsistent with_file file_run) job_fresh key_given fine_params job_created stop

-- A client that is not there.
abbrev refusing : Task → List TaskOption → Result ClientError ℕ
refusing task options = err (client_failed "no connection")

-- The job is created and cannot be sent.
handle-Refusals_example :
    FineOr
      ((handle plain texts direct "j1"
          (pos 3)
          (pos 3)
          (create_replay_job_request (some job_params))
          with_file).0
        ≡ with_file)
      (handle plain texts direct "j1"
        (pos 3)
        (pos 3)
        (create_replay_job_request (some job_params))
        with_file)
    × LeftBy plain
        (λ s. ok s)
        (λ s. s)
        refusing
        defaults
        texts
        "j1"
        (pos 3)
        (create_replay_job_request (some job_params))
        with_file
        (handle plain texts
          (queued plain (λ s. ok s) (λ s. s) refusing defaults)
          "j1"
          (pos 3)
          (pos 3)
          (create_replay_job_request (some job_params))
          with_file)
handle-Refusals_example =
    handle-Refusals plain (λ s. ok s) (λ s. s) refusing defaults texts "j1" (pos 3) (pos 3)
      (create_replay_job_request (some job_params)) with_file

build_dataset_lineage-IsLineage_example :
    ((lookup "d1" with_job.datasets ≡ none)
      × (build_dataset_lineage (pos 9) "d1" with_job ≡ err not_found))
    ⊎ ((lineage : DatasetLineage) × (build_dataset_lineage (pos 9) "d1" with_job ≡ ok lineage)
        × IsLineage with_job "d1" lineage)
build_dataset_lineage-IsLineage_example = build_dataset_lineage-IsLineage (pos 9) "d1" with_job

with_job_listed : list_replay_jobs with_job ≡ ok (the_job ∷ [])
unfolding list_replay_jobs run_call create_dataset create_event_file create_replay_job add_job
    new_memory_repository lookup insert
with_job_listed = refl

few_errors : errors_in with_job (the_job ∷ []) < 2 ^ 63
unfolding run_call create_dataset create_event_file create_replay_job add_job new_memory_repository
    lookup insert
few_errors = omega arith

build_validation_error_summary-total_count_example :
    (rows : List ValidationErrorSummary) × (build_validation_error_summary texts.day with_job
      ≡ ok rows)
    × All (λ row. pos 0 <ℤ row.count) rows
    × CountsFall rows
    × (total_count rows ≡ errors_in with_job (the_job ∷ []))
build_validation_error_summary-total_count_example =
    build_validation_error_summary-total_count texts.day with_job (the_job ∷ []) job_run
      with_job_listed few_errors

parse_int-format_int_example : parse_int (format_int (negsuc 41)) ≡ ok (negsuc 41)
parse_int-format_int_example = parse_int-format_int (negsuc 41) (omega arith, omega arith)
