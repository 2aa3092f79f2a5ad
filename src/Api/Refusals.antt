-- ===== src/Api/Refusals.antt =====
-- internal/api/server.go and cmd/server/main.go: what an error status means, without and with a queue.
use market_replay.Prelude.{
  ◌≤◌, String, List, [], Option, none, some, leb, ◌≡◌, refl, sym, ap, ◌∙◌, ◌⊎◌, inl, inr, arith,
  Bool-cases, Option-elim,
}
use market_replay.Prelude.Int.{ℤ}
use market_replay.Prelude.Result.{Result, ok, err}
use market_replay.Parser.Text.{Unicode}
use market_replay.Store.{ReplayJob, not_found, already_exists, CreateReplayJobParams}
use market_replay.Store.Memory.{MemoryRepository, Returns, create_replay_job}
use market_replay.Queue.{Task, TaskOption, ClientError, ReplayEnqueueConfig}
use market_replay.Queue.Submit.{
  SubmitError, store_failed, payload_failed, enqueue_failed, Submission, submit_replay, submitted,
  existing, enqueued, enqueue_replay_job,
}
use market_replay.Api.{
  Request, healthz_request, create_dataset_request, list_datasets_request, dataset_lineage_request,
  create_event_file_request, create_replay_job_request, report_request, report_csv_request,
  replay_job_request, metrics_request, errors_request, cancel_request, error_summary_request,
  ErrorResponse, error_body, Response, store_failure, other_failure, write_failure, write_error,
}
use market_replay.Api.Handlers.{
  Texts, Served, handle, direct, trimmed_job, replay_job_fault, create_replay_job_handler,
  job_response,
}
use market_replay.Api.Errors.{
  RefusalKeeps, handle-RefusalKeeps, create_replay_job-FailureKeeps, store_error_body,
}
use market_replay.Api.Queued.{after_submit, submit_failure, queued, answer, queue_answer}

-- The body says what the error is.
abbrev pub IsError : Response → Type 0
IsError out = (e : ErrorResponse) × (out.body ≡ error_body e)

-- No error, or an error that comes with `P`.
abbrev pub FineOr : Type 0 → Served → Type 0
FineOr P out = (out.1.status ≤ 399) ⊎ (IsError out.1 × P)

-- The request asked for a job that was created, and then the response is the internal error.
abbrev pub IsOrphaned : Unicode → String → ℤ → Request → MemoryRepository → Served → Type 0
IsOrphaned u id now req r out =
    (params : CreateReplayJobParams) × (job : ReplayJob) × (req
      ≡ create_replay_job_request (some params))
    × (out.1.status ≡ 500)
    × (create_replay_job id now (trimmed_job u params) r ≡ (out.0, ok job))

RefusalKeeps-FineOr :
    (r : MemoryRepository) (out : Served) → RefusalKeeps r out → FineOr (out.0 ≡ r) out
RefusalKeeps-FineOr r out keeps = elim (Bool-cases (leb 400 out.1.status)) [
  | inl h ↦ let (same, body) = keeps (ground (arith, h)) in inr (body, same)
  | inr h ↦ inl (ground (arith, h))
]

module _ {I : Type 0} (u : Unicode) (marshal : String → Result String String)
    (sha256_hex : String → String) (client : Task → List TaskOption → Result ClientError I)
    (cfg : ReplayEnqueueConfig) (t : Texts) where
  abbrev answered : Submission I → Served
  answered = answer u marshal sha256_hex client cfg

  refused_answer :
      (s : MemoryRepository) (out : Result SubmitError (ReplayJob × Option I))
      → FineOr (s ≡ s) (answered (record { repo = s; sent = []; out = out }))
  unfolding after_submit job_response submit_failure
  refused_answer s (ok (job, info)) = inl (omega arith)
  refused_answer s (err (store_failed not_found)) =
      inr (store_error_body (store_failure not_found), refl)
  refused_answer s (err (store_failed (already_exists job))) = inl (omega arith)
  refused_answer s (err (payload_failed e)) = inr (store_error_body other_failure, refl)
  refused_answer s (err (enqueue_failed e)) = inr (store_error_body other_failure, refl)

  -- A submission on `r`, after CreateReplayJob gave `made`.
  abbrev Left : String → ℤ → CreateReplayJobParams → MemoryRepository → Served → Type 0
  Left id now req r out =
      FineOr ((out.0 ≡ r) ⊎ IsOrphaned u id now (create_replay_job_request (some req)) r out) out

  submitted-Left :
      (id : String) (now : ℤ) (req : CreateReplayJobParams) (r : MemoryRepository)
      (made : Returns ReplayJob)
      → create_replay_job id now (trimmed_job u req) r ≡ made
      → Left id now req r (
          answered
            (submitted u marshal sha256_hex client cfg (trimmed_job u req).idempotency_key made))
  unfolding submitted after_submit write_failure
  submitted-Left id now req r (s, err e) made =
      let same : s ≡ r =
        ap (λ (out : Returns ReplayJob). out.0) (sym made)
        ∙ create_replay_job-FailureKeeps id now (trimmed_job u req) r e
            (ap (λ (out : Returns ReplayJob). out.1) made) in
      elim (refused_answer s
        (existing u marshal sha256_hex client cfg (trimmed_job u req).idempotency_key e s)) [
          | inl fine ↦ inl fine
          | inr (body, _) ↦ inr (body, inl same)
        ]
  submitted-Left id now req r (s, ok job) made =
      let sent = (enqueue_replay_job u marshal sha256_hex client cfg job).0 in
      let out = answered (record {
        repo = s;
        sent = sent;
        out =
            enqueued u marshal sha256_hex client cfg job
              (enqueue_replay_job u marshal sha256_hex client cfg job).1;
      }) in
      elim (queue_answer u marshal sha256_hex client cfg s sent job) [
        | inl created ↦ inl (rw created (omega arith))
        | inr failed ↦
            inr (
              rw failed (store_error_body other_failure),
              inr (req, job, refl, rw failed refl, made),
            )
      ]

  -- For a request that is not to create a job, the two servers are the same.
  abbrev pub LeftBy : String → ℤ → Request → MemoryRepository → Served → Type 0
  LeftBy id now req r out = FineOr ((out.0 ≡ r) ⊎ IsOrphaned u id now req r out) out

  unqueued-LeftBy :
      (id : String) (now now' : ℤ) (req : Request) (r : MemoryRepository)
      → LeftBy id now req r (handle u t direct id now now' req r)
  unqueued-LeftBy id now now' req r =
      let out = handle u t direct id now now' req r in
      elim (RefusalKeeps-FineOr r out (handle-RefusalKeeps u t id now now' req r)) [
        | inl fine ↦ inl fine
        | inr (body, same) ↦ inr (body, inl same)
      ]

  queued-LeftBy :
      (id : String) (now now' : ℤ) (req : Request) (r : MemoryRepository)
      → LeftBy id now req r (handle u t (queued u marshal sha256_hex client cfg) id now now' req r)
  unfolding handle create_replay_job_handler queued submit_replay write_error
  queued-LeftBy id now now' (create_replay_job_request (some req)) r =
      Option-elim (LeftBy id now (create_replay_job_request (some req)) r)
        (replay_job_fault (trimmed_job u req)) (λ _. submitted-Left id now req r _ refl)
        (λ fault _. inr ((_, refl), inl refl))
  queued-LeftBy id now now' (create_replay_job_request none) r =
      unqueued-LeftBy id now now' (create_replay_job_request none) r
  queued-LeftBy id now now' healthz_request r = unqueued-LeftBy id now now' healthz_request r
  queued-LeftBy id now now' (create_dataset_request req) r =
      unqueued-LeftBy id now now' (create_dataset_request req) r
  queued-LeftBy id now now' list_datasets_request r =
      unqueued-LeftBy id now now' list_datasets_request r
  queued-LeftBy id now now' (dataset_lineage_request wanted) r =
      unqueued-LeftBy id now now' (dataset_lineage_request wanted) r
  queued-LeftBy id now now' (create_event_file_request req) r =
      unqueued-LeftBy id now now' (create_event_file_request req) r
  queued-LeftBy id now now' (report_request wanted) r =
      unqueued-LeftBy id now now' (report_request wanted) r
  queued-LeftBy id now now' (report_csv_request wanted) r =
      unqueued-LeftBy id now now' (report_csv_request wanted) r
  queued-LeftBy id now now' (replay_job_request wanted) r =
      unqueued-LeftBy id now now' (replay_job_request wanted) r
  queued-LeftBy id now now' (metrics_request wanted) r =
      unqueued-LeftBy id now now' (metrics_request wanted) r
  queued-LeftBy id now now' (errors_request wanted) r =
      unqueued-LeftBy id now now' (errors_request wanted) r
  queued-LeftBy id now now' (cancel_request wanted) r =
      unqueued-LeftBy id now now' (cancel_request wanted) r
  queued-LeftBy id now now' error_summary_request r =
      unqueued-LeftBy id now now' error_summary_request r

  -- Every response has a status below 400 or carries an error. With an error, the repository is as it
  -- was on a server without a queue. On a server with a queue it is as it was too, or the request was
  -- to create a job, the job was created, and the status is 500.
  pub handle-Refusals :
      (id : String) (now now' : ℤ) (req : Request) (r : MemoryRepository)
      → FineOr ((handle u t direct id now now' req r).0 ≡ r) (handle u t direct id now now' req r)
        × LeftBy id now req r
            (handle u t (queued u marshal sha256_hex client cfg) id now now' req r)
  handle-Refusals id now now' req r = (
    RefusalKeeps-FineOr r _ (handle-RefusalKeeps u t id now now' req r),
    queued-LeftBy id now now' req r,
  )
