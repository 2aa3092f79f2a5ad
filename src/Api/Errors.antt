-- ===== src/Api/Errors.antt =====
-- internal/api/server.go: what a response with an error status means.
use market_replay.Prelude.{
  ℕ, ◌≤◌, String, Bool, true, false, none, some, ◌==◌, ◌≡◌, refl, arith, if-elim, Option-elim,
}
use market_replay.Prelude.Int.{ℤ}
use market_replay.Prelude.Dict.{lookup}
use market_replay.Prelude.Result.{Result, ok, err}
use market_replay.Parser.Text.{Unicode}
use market_replay.Store.{
  ReplayJob, StoreError, not_found, already_exists, CreateDatasetParams, CreateEventFileParams,
  CreateReplayJobParams,
}
use market_replay.Store.Memory.{
  MemoryRepository, Returns, create_dataset, create_event_file, create_replay_job,
  update_replay_job_status, cancel_replay_job, idempotent_id,
}
use market_replay.Api.{
  Request, healthz_request, create_dataset_request, list_datasets_request, dataset_lineage_request,
  create_event_file_request, create_replay_job_request, report_request, report_csv_request,
  replay_job_request, metrics_request, errors_request, cancel_request, error_summary_request,
  ErrorResponse, Body, error_body, dataset_body, event_file_body, replay_job_body, SubmitFailure,
  store_failure, other_failure, write_error, bad_json, write_failure,
}
use market_replay.Api.Handlers.{
  Texts, Served, respond, served, from_store, healthz, create_dataset_handler, event_file_fault,
  create_event_file_handler, trimmed_file, trimmed_job, replay_job_fault, job_response,
  create_replay_job_handler, handle, direct,
}

-- An error status comes with an error, and nothing has changed.
abbrev pub RefusalKeeps : MemoryRepository → Served → Type 0
RefusalKeeps r out =
    400 ≤ out.1.status → (out.0 ≡ r) × ((e : ErrorResponse) × (out.1.body ≡ error_body e))

-- An operation that fails has changed nothing.
abbrev pub FailureKeeps : {A : Type 0} → MemoryRepository → Returns A → Type 0
FailureKeeps r out = (e : StoreError) → out.1 ≡ err e → out.0 ≡ r

pub store_error_body :
    (f : SubmitFailure) → (e : ErrorResponse) × ((write_failure f).body ≡ error_body e)
unfolding write_failure write_error
store_error_body (store_failure not_found) = (_, refl)
store_error_body (store_failure (already_exists job)) = (_, refl)
store_error_body other_failure = (_, refl)

refused-RefusalKeeps :
    (status : ℕ) (error message : String) (r : MemoryRepository)
    → RefusalKeeps r (r, write_error status error message)
unfolding write_error
refused-RefusalKeeps status error message r h = (refl, (_, refl))

served-RefusalKeeps :
    {A : Type 0} (status : ℕ) (body : A → Body) (r : MemoryRepository) (out : Returns A)
    → status ≤ 399
    → FailureKeeps r out
    → RefusalKeeps r (served status body out)
served-RefusalKeeps status body r (s, err e) fine keeps h =
    (keeps e refl, store_error_body (store_failure e))
served-RefusalKeeps status body r (s, ok a) fine keeps h =
    let wrong : ◌≡◌ {A = Bool} true false = ground (arith, fine, h) in cc

respond-RefusalKeeps :
    {A : Type 0} (body : A → Body) (r : MemoryRepository) (out : Result StoreError A)
    → RefusalKeeps r (r, respond 200 body out)
respond-RefusalKeeps body r out =
    served-RefusalKeeps 200 body r (r, out) (omega arith) (λ e h. refl)

create_dataset-FailureKeeps :
    (id : String) (now : ℤ) (params : CreateDatasetParams) (r : MemoryRepository)
    → FailureKeeps r (create_dataset id now params r)
unfolding create_dataset
create_dataset-FailureKeeps id now params r e h = cc

create_event_file-FailureKeeps :
    (id : String) (now : ℤ) (params : CreateEventFileParams) (r : MemoryRepository)
    → FailureKeeps r (create_event_file id now params r)
unfolding create_event_file
create_event_file-FailureKeeps id now params r =
    Option-elim (FailureKeeps r) (lookup params.dataset_id r.datasets) (λ _ e h. refl)
      (λ d _ e h. cc)

pub create_replay_job-FailureKeeps :
    (id : String) (now : ℤ) (params : CreateReplayJobParams) (r : MemoryRepository)
    → FailureKeeps r (create_replay_job id now params r)
unfolding create_replay_job
create_replay_job-FailureKeeps id now params r =
    Option-elim (FailureKeeps r) (lookup params.dataset_id r.datasets) (λ _ e h. refl)
      (λ d _.
        Option-elim (FailureKeeps r) (lookup params.event_file_id r.event_files) (λ _ e h. refl)
          (λ f _.
            Option-elim (FailureKeeps r) (idempotent_id params.idempotency_key r) (λ _ e h. cc)
              (λ old _ e h. refl)))

cancel_replay_job-FailureKeeps :
    (id : String) (now : ℤ) (r : MemoryRepository) → FailureKeeps r (cancel_replay_job id now r)
unfolding cancel_replay_job update_replay_job_status
cancel_replay_job-FailureKeeps id now r =
    Option-elim (FailureKeeps r) (lookup id r.jobs) (λ _ e h. refl) (λ job _ e h. cc)

from_store-RefusalKeeps :
    (r : MemoryRepository) (out : Returns ReplayJob)
    → FailureKeeps r out
    → RefusalKeeps r
        ((from_store out).repo, job_response (from_store out).job (from_store out).failure)
unfolding from_store job_response
from_store-RefusalKeeps r (s, ok job) keeps h =
    let wrong : ◌≡◌ {A = Bool} true false = ground (arith, h) in cc
from_store-RefusalKeeps r (s, err not_found) keeps h =
    (keeps not_found refl, store_error_body (store_failure not_found))
from_store-RefusalKeeps r (s, err (already_exists job)) keeps h =
    let wrong : ◌≡◌ {A = Bool} true false = ground (arith, h) in cc

module _ (u : Unicode) (t : Texts) where
  pub handle-RefusalKeeps :
      (id : String) (now now' : ℤ) (req : Request) (r : MemoryRepository)
      → RefusalKeeps r (handle u t direct id now now' req r)
  unfolding handle healthz create_dataset_handler create_dataset create_event_file_handler
      create_replay_job_handler bad_json
  handle-RefusalKeeps id now now' healthz_request r =
      λ h. let wrong : ◌≡◌ {A = Bool} true false = ground (arith, h) in cc
  handle-RefusalKeeps id now now' (create_dataset_request none) r = refused-RefusalKeeps 400 _ _ r
  handle-RefusalKeeps id now now' (create_dataset_request (some req)) r =
      if-elim (RefusalKeeps r) (u.trim_space req.name == "") (refused-RefusalKeeps 400 _ _ r) (
        served-RefusalKeeps 201 dataset_body r _ (omega arith)
          (create_dataset-FailureKeeps id now _ r))
  handle-RefusalKeeps id now now' list_datasets_request r = respond-RefusalKeeps _ r _
  handle-RefusalKeeps id now now' (dataset_lineage_request wanted) r = respond-RefusalKeeps _ r _
  handle-RefusalKeeps id now now' (create_event_file_request none) r =
      refused-RefusalKeeps 400 _ _ r
  handle-RefusalKeeps id now now' (create_event_file_request (some req)) r =
      Option-elim (RefusalKeeps r) (event_file_fault (trimmed_file u req))
        (λ _.
          served-RefusalKeeps 201 event_file_body r _ (omega arith)
            (create_event_file-FailureKeeps id now (trimmed_file u req) r))
        (λ fault _. refused-RefusalKeeps 400 _ fault r)
  handle-RefusalKeeps id now now' (create_replay_job_request none) r =
      refused-RefusalKeeps 400 _ _ r
  handle-RefusalKeeps id now now' (create_replay_job_request (some req)) r =
      Option-elim (RefusalKeeps r) (replay_job_fault (trimmed_job u req))
        (λ _.
          from_store-RefusalKeeps r _ (create_replay_job-FailureKeeps id now (trimmed_job u req) r))
        (λ fault _. refused-RefusalKeeps 400 _ fault r)
  handle-RefusalKeeps id now now' (report_request wanted) r = respond-RefusalKeeps _ r _
  handle-RefusalKeeps id now now' (report_csv_request wanted) r = respond-RefusalKeeps _ r _
  handle-RefusalKeeps id now now' (replay_job_request wanted) r = respond-RefusalKeeps _ r _
  handle-RefusalKeeps id now now' (metrics_request wanted) r = respond-RefusalKeeps _ r _
  handle-RefusalKeeps id now now' (errors_request wanted) r = respond-RefusalKeeps _ r _
  handle-RefusalKeeps id now now' (cancel_request wanted) r =
      served-RefusalKeeps 200 replay_job_body r _ (omega arith)
        (cancel_replay_job-FailureKeeps wanted now r)
  handle-RefusalKeeps id now now' error_summary_request r = respond-RefusalKeeps _ r _
