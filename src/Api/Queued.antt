-- ===== src/Api/Queued.antt =====
-- cmd/server/main.go: the server whose jobs go to the task queue, and submitting a job to it again.
use market_replay.Prelude.{
  String, List, [], ◌∷◌, Option, none, some, ◌≡◌, ◌≢◌, ◌⊎◌, inl, inr, refl, sym, ap, subst,
}
use market_replay.Prelude.Int.{ℤ}
use market_replay.Prelude.Dict.{lookup}
use market_replay.Prelude.Result.{Result, ok, err, Result-elim}
use market_replay.Parser.Text.{Unicode}
use market_replay.Store.{ReplayJob, CreateReplayJobParams, zero_job}
use market_replay.Store.Memory.{MemoryRepository, create_replay_job}
use market_replay.Store.Calls.{Run}
use market_replay.Store.Integrity.{IsConsistent}
use market_replay.Store.History.{IsLater}
use market_replay.Queue.{
  Task, TaskOption, ClientError, duplicate_task, task_id_conflict, client_failed,
  ReplayEnqueueConfig,
}
use market_replay.Queue.Submit.{
  SubmitError, store_failed, payload_failed, enqueue_failed, Submission, job_task,
  enqueue_replay_job, enqueued, submit_replay, submit_replay_again,
}
use market_replay.Api.{
  create_replay_job_request, Response, replay_job_body, json, SubmitFailure, store_failure,
  other_failure, write_failure, write_error,
}
use market_replay.Api.Handlers.{
  Texts, Served, Submitted, trimmed_job, replay_job_fault, job_response, create_replay_job_handler,
  handle,
}

unfoldable pub submit_failure : SubmitError → SubmitFailure
submit_failure (store_failed e) = store_failure e
submit_failure (payload_failed e) = other_failure
submit_failure (enqueue_failed e) = other_failure

-- The job, or an error that is none of the store's.
abbrev pub Accepted : ReplayJob → Response → Type 0
Accepted job out = (out ≡ json 201 (replay_job_body job)) ⊎ (out ≡ write_failure other_failure)

module _ {I : Type 0} (u : Unicode) (marshal : String → Result String String)
    (sha256_hex : String → String) (client : Task → List TaskOption → Result ClientError I)
    (cfg : ReplayEnqueueConfig) where
  -- `job, _, err := enqueuer.SubmitReplay(ctx, params); return job, err`
  unfoldable pub after_submit : Submission I → Submitted
  after_submit submission = record {
    repo = submission.repo;
    job = elim (submission.out) [ ok found ↦ found.0 | err e ↦ zero_job ];
    failure = elim (submission.out) [ ok found ↦ none | err e ↦ some (submit_failure e) ];
  }

  unfoldable pub queued : String → ℤ → CreateReplayJobParams → MemoryRepository → Submitted
  queued id now params r =
      after_submit (submit_replay u marshal sha256_hex client cfg id now params r)

  -- What the handler answers.
  abbrev pub answer : Submission I → Served
  answer submission = (
    (after_submit submission).repo,
    job_response (after_submit submission).job (after_submit submission).failure,
  )

  not_sent :
      (r : MemoryRepository) (sent : List (Task × List TaskOption)) (job : ReplayJob)
      (e : ClientError)
      → Accepted job
          (answer (record {
            repo = r;
            sent = sent;
            out = enqueued u marshal sha256_hex client cfg job (err (enqueue_failed e));
          })).1
  unfolding enqueued job_response after_submit submit_failure
  not_sent r sent job duplicate_task = inl refl
  not_sent r sent job task_id_conflict = inl refl
  not_sent r sent job (client_failed m) = inr refl

  pub queue_answer :
      (r : MemoryRepository) (sent : List (Task × List TaskOption)) (job : ReplayJob)
      → Accepted job
          (answer (record {
            repo = r;
            sent = sent;
            out =
                enqueued u marshal sha256_hex client cfg job
                  (enqueue_replay_job u marshal sha256_hex client cfg job).1;
          })).1
  unfolding enqueue_replay_job enqueued job_response after_submit submit_failure
  queue_answer r sent job =
      let P = λ (calls : List (Task × List TaskOption) × Result SubmitError I).
        Accepted job
          (answer (record {
            repo = r;
            sent = sent;
            out = enqueued u marshal sha256_hex client cfg job calls.1;
          })).1 in
      Result-elim P (job_task u marshal sha256_hex client cfg job) (λ e _. inr refl)
        (λ call _.
          Result-elim (λ (out : Result SubmitError I). P (call ∷ [], out)) (client call.0 call.1)
            (λ e _. not_sent r sent job e) (λ info _. inl refl))

  posted :
      (t : Texts) (id : String) (now now' : ℤ) (req : CreateReplayJobParams) (r : MemoryRepository)
      (submission : Submission I)
      → replay_job_fault (trimmed_job u req) ≡ none
      → submit_replay u marshal sha256_hex client cfg id now (trimmed_job u req) r ≡ submission
      → handle u t queued id now now' (create_replay_job_request (some req)) r ≡ answer submission
  unfolding handle create_replay_job_handler queued
  posted t id now now' req r submission fine made =
      subst
        (λ (o : Option String).
          elim o [
            | some fault ↦ (r, write_error 400 "invalid_request" fault)
            | none ↦
                answer (submit_replay u marshal sha256_hex client cfg id now (trimmed_job u req) r)
          ]
          ≡ answer submission)
        (sym fine) (ap answer made)

  -- A job that is posted under a key to a consistent repository by way of the queue, without a fault in the
  -- request and accepted by the repository, is created, and the response is 201 with the job, or an internal error
  -- when its task could not be sent. When it is posted again, after any calls, the response is 201 with that
  -- job in its later state, not 200 as without a queue; nothing is sent and the repository does not change.
  pub queued_post_again :
      (t : Texts) (id id' : String) (now now' later later' : ℤ) (req : CreateReplayJobParams)
      (r s v : MemoryRepository) (job : ReplayJob)
      → IsConsistent r
      → lookup id r.jobs ≡ none
      → u.trim_space req.idempotency_key ≢ ""
      → replay_job_fault (trimmed_job u req) ≡ none
      → create_replay_job id now (trimmed_job u req) r ≡ (s, ok job)
      → Run s v
      → ((handle u t queued id now now' (create_replay_job_request (some req)) r).0 ≡ s)
        × Accepted job (handle u t queued id now now' (create_replay_job_request (some req)) r).1
        × ((job' : ReplayJob) × IsLater job job'
            × ((submit_replay u marshal sha256_hex client cfg id' later (trimmed_job u req) v).sent
                ≡ [])
            × (handle u t queued id' later later' (create_replay_job_request (some req)) v
                ≡ (v, json 201 (replay_job_body job'))))
  unfolding after_submit job_response
  queued_post_again t id id' now now' later later' req r s v job c fresh given fine made run =
      let (first, (job', is_later, again)) =
        submit_replay_again u marshal sha256_hex client cfg id id' now later (trimmed_job u req) r s
          v job c fresh given made run in
      let response = posted t id now now' req r _ fine first in
      (
        ap (λ out. out.0) response,
        subst (λ (out : Served). Accepted job out.1) (sym response)
            (queue_answer s (enqueue_replay_job u marshal sha256_hex client cfg job).0 job),
        (
          job',
          is_later,
          ap (λ submission. submission.sent) again,
          posted t id' later later' req v _ fine again,
        ),
      )
