-- ===== src/Queue/Submit.antt =====
-- internal/queue/replay.go: EnqueueReplayJob and SubmitReplay over the repository in memory.
-- `client` is `EnqueueContext`; what it is called with is collected in `sent`.
use market_replay.Prelude.{
  String, List, [], ◌∷◌, Option, none, some, if◌then◌else◌, ◌==◌, ◌≡◌, ap, ◌∙◌, ◌≢◌, eq_iff, arith,
}
use market_replay.Prelude.Int.{ℤ}
use market_replay.Prelude.Dict.{lookup}
use market_replay.Prelude.Result.{Result, ok, err}
use market_replay.Parser.Text.{Unicode}
use market_replay.Store.{ReplayJob, StoreError, not_found, already_exists, CreateReplayJobParams}
use market_replay.Store.Memory.{
  MemoryRepository, create_replay_job, get_replay_job_by_idempotency_key,
}
use market_replay.Store.Calls.{Run}
use market_replay.Store.Integrity.{IsConsistent}
use market_replay.Store.History.{IsLater}
use market_replay.Store.Reachable.{create_replay_job_again}
use market_replay.Queue.{
  Task, TaskOption, PayloadError, ClientError, duplicate_task, task_id_conflict, client_failed,
  ReplayEnqueueConfig, encode_replay_payload, options_for_job, type_replay_job,
}

pub data SubmitError : Type 0 where
  store_failed : StoreError → SubmitError
  payload_failed : PayloadError → SubmitError
  enqueue_failed : ClientError → SubmitError

-- What a submission leaves: the repository, the calls of the client, and its result.
pub record Submission (I : Type 0) : Type 0 where
  pub repo : MemoryRepository
  pub sent : List (Task × List TaskOption)
  pub out : Result SubmitError (ReplayJob × Option I)

module _ {I : Type 0} (u : Unicode) (marshal : String → Result String String)
    (sha256_hex : String → String) (client : Task → List TaskOption → Result ClientError I)
    (cfg : ReplayEnqueueConfig) where
  -- The task for a job, with the options for it.
  unfoldable pub job_task : ReplayJob → Result PayloadError (Task × List TaskOption)
  job_task job = elim (encode_replay_payload u marshal (record { job_id = job.id })) [
    | err e ↦ err e
    | ok payload ↦
        ok
          (record { type = type_replay_job; payload = payload }, options_for_job sha256_hex cfg job)
  ]

  -- The calls of the client, and the result.
  unfoldable pub enqueue_replay_job :
      ReplayJob → List (Task × List TaskOption) × Result SubmitError I
  enqueue_replay_job job = elim (job_task job) [
    | err e ↦ ([], err (payload_failed e))
    | ok call ↦ (
      call ∷ [],
      elim (client call.0 call.1) [ err e ↦ err (enqueue_failed e) | ok info ↦ ok info ],
    )
  ]

  -- `SubmitReplay` after the call of EnqueueReplayJob.
  unfoldable pub enqueued :
      ReplayJob → Result SubmitError I → Result SubmitError (ReplayJob × Option I)
  enqueued job (ok info) = ok (job, some info)
  enqueued job (err (store_failed e)) = err (store_failed e)
  enqueued job (err (payload_failed e)) = err (payload_failed e)
  enqueued job (err (enqueue_failed duplicate_task)) = ok (job, none)
  enqueued job (err (enqueue_failed task_id_conflict)) = ok (job, none)
  enqueued job (err (enqueue_failed (client_failed e))) = err (enqueue_failed (client_failed e))

  -- `SubmitReplay` after a CreateReplayJob that failed.
  unfoldable pub existing :
      String → StoreError → MemoryRepository → Result SubmitError (ReplayJob × Option I)
  existing key not_found r = err (store_failed not_found)
  existing key (already_exists job) r =
      if key == ""
      then err (store_failed (already_exists job))
      else elim (get_replay_job_by_idempotency_key key r) [
        | err e ↦ err (store_failed e)
        | ok found ↦ ok (found, none)
      ]

  -- `SubmitReplay` after CreateReplayJob.
  unfoldable pub submitted : String → MemoryRepository × Result StoreError ReplayJob → Submission I
  unfolding existing
  submitted key (s, err e) = record { repo = s; sent = []; out = existing key e s }
  submitted key (s, ok job) = record {
    repo = s;
    sent = (enqueue_replay_job job).0;
    out = enqueued job (enqueue_replay_job job).1;
  }

  unfoldable pub submit_replay :
      String → ℤ → CreateReplayJobParams → MemoryRepository → Submission I
  unfolding submitted
  submit_replay id now params r =
      submitted params.idempotency_key (create_replay_job id now params r)

  taken_existing :
      (key : String) (job : ReplayJob) (t : MemoryRepository)
      → key ≢ ""
      → get_replay_job_by_idempotency_key key t ≡ ok job
      → submitted key (t, err (already_exists job))
        ≡ record { repo = t; sent = []; out = ok (job, none) }
  unfolding submitted existing
  taken_existing key job t given found = ground (arith, given, found, eq_iff key "")

  -- A job that was created under a key, on a consistent repository: submitting it the first time
  -- calls the client for that job; submitting it again, after any calls and whatever the client
  -- answered, changes nothing, returns the job in its later state and calls the client no more.
  pub submit_replay_again :
      (id id' : String) (now now' : ℤ) (params : CreateReplayJobParams) (r s t : MemoryRepository)
      (job : ReplayJob)
      → IsConsistent r
      → lookup id r.jobs ≡ none
      → params.idempotency_key ≢ ""
      → create_replay_job id now params r ≡ (s, ok job)
      → Run s t
      → (submit_replay id now params r ≡ record {
        repo = s;
        sent = (enqueue_replay_job job).0;
        out = enqueued job (enqueue_replay_job job).1;
      })
        × ((job' : ReplayJob) × IsLater job job'
            × (submit_replay id' now' params t
                ≡ record { repo = t; sent = []; out = ok (job', none) }))
  unfolding submit_replay
  submit_replay_again id id' now now' params r s t job c fresh given made run =
      let (job', refused, found, later) =
        create_replay_job_again id id' now now' params r s t job c fresh given made run in
      (
        ap (submitted params.idempotency_key) made,
        (
          job',
          later,
          ap (submitted params.idempotency_key) refused
              ∙ taken_existing params.idempotency_key job' t given found,
        ),
      )
