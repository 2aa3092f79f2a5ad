-- ===== src/Api/Routes.antt =====
-- internal/api/server.go: submitting a job again, after any sequence of requests.
use market_replay.Prelude.{
  String, Option, none, some, if◌then◌else◌, ◌==◌, ◌≡◌, ◌≢◌, refl, subst, arith, if-elim,
  Option-elim, if-elim₂, Option-elim₂,
}
use market_replay.Prelude.Int.{ℤ}
use market_replay.Prelude.Dict.{lookup}
use market_replay.Prelude.Result.{ok, err}
use market_replay.Parser.Text.{Unicode}
use market_replay.Store.{ReplayJob, not_found, already_exists, CreateReplayJobParams}
use market_replay.Store.Memory.{MemoryRepository, Returns, create_replay_job}
use market_replay.Store.Calls.{
  Call, create_dataset_call, create_event_file_call, create_replay_job_call, cancel_replay_job_call,
  IsFresh, run_call, Run, stop, call_first,
}
use market_replay.Store.Integrity.{IsConsistent}
use market_replay.Store.History.{IsLater}
use market_replay.Store.Reachable.{create_replay_job_again}
use market_replay.Api.{
  Request, healthz_request, create_dataset_request, list_datasets_request, dataset_lineage_request,
  create_event_file_request, create_replay_job_request, report_request, report_csv_request,
  replay_job_request, metrics_request, errors_request, cancel_request, error_summary_request,
  replay_job_body, json,
}
use market_replay.Api.Handlers.{
  Texts, Served, from_store, create_dataset_handler, event_file_fault, create_event_file_handler,
  trimmed_file, trimmed_job, replay_job_fault, job_response, create_replay_job_handler, handle,
  direct,
}

module _ (u : Unicode) (t : Texts) where
  -- What a request calls of the repository to change it.
  abbrev call_of : String → ℤ → Request → Option Call
  call_of id now (create_dataset_request (some req)) =
      if u.trim_space req.name == ""
      then none
      else some (
          create_dataset_call id now
            (record { name = u.trim_space req.name; description = u.trim_space req.description }))
  call_of id now (create_event_file_request (some req)) =
      elim (event_file_fault (trimmed_file u req)) [
        | some fault ↦ none
        | none ↦ some (create_event_file_call id now (trimmed_file u req))
      ]
  call_of id now (create_replay_job_request (some req)) =
      elim (replay_job_fault (trimmed_job u req)) [
        | some fault ↦ none
        | none ↦ some (create_replay_job_call id now (trimmed_job u req))
      ]
  call_of id now (cancel_request wanted) = some (cancel_replay_job_call wanted now)
  call_of id now _ = none

  abbrev after : Option Call → MemoryRepository → MemoryRepository
  after none r = r
  after (some c) r = run_call c r

  from_store-repo : (out : Returns ReplayJob) → (from_store out).repo ≡ out.0
  unfolding from_store
  from_store-repo (s, ok job) = refl
  from_store-repo (s, err not_found) = refl
  from_store-repo (s, err (already_exists job)) = refl

  handle-after :
      (id : String) (now now' : ℤ) (req : Request) (r : MemoryRepository)
      → (handle u t direct id now now' req r).0 ≡ after (call_of id now req) r
  unfolding handle run_call create_dataset_handler create_event_file_handler
      create_replay_job_handler
  handle-after id now now' healthz_request r = refl
  handle-after id now now' (create_dataset_request none) r = refl
  handle-after id now now' (create_dataset_request (some req)) r =
      if-elim₂ (λ (out : Served) (c : Option Call). out.0 ≡ after c r) (u.trim_space req.name == "")
        refl refl
  handle-after id now now' list_datasets_request r = refl
  handle-after id now now' (dataset_lineage_request wanted) r = refl
  handle-after id now now' (create_event_file_request none) r = refl
  handle-after id now now' (create_event_file_request (some req)) r =
      Option-elim₂ (λ (out : Served) (c : Option Call). out.0 ≡ after c r)
        (event_file_fault (trimmed_file u req)) refl (λ fault. refl)
  handle-after id now now' (create_replay_job_request none) r = refl
  handle-after id now now' (create_replay_job_request (some req)) r =
      Option-elim₂ (λ (out : Served) (c : Option Call). out.0 ≡ after c r)
        (replay_job_fault (trimmed_job u req))
        (from_store-repo (create_replay_job id now (trimmed_job u req) r)) (λ fault. refl)
  handle-after id now now' (report_request wanted) r = refl
  handle-after id now now' (report_csv_request wanted) r = refl
  handle-after id now now' (replay_job_request wanted) r = refl
  handle-after id now now' (metrics_request wanted) r = refl
  handle-after id now now' (errors_request wanted) r = refl
  handle-after id now now' (cancel_request wanted) r = refl
  handle-after id now now' error_summary_request r = refl

  -- Requests that are served one after the other, by a server that submits jobs to the repository directly,
  -- each with an identifier that no job has.
  pub data Session : MemoryRepository → MemoryRepository → Type 0 where
    closed : {r : MemoryRepository} → Session r r
    request_first :
        {r s : MemoryRepository} (id : String) (now now' : ℤ) (req : Request)
        → lookup id r.jobs ≡ none
        → Session (handle u t direct id now now' req r).0 s
        → Session r s

  abbrev AllFresh : Option Call → MemoryRepository → Type 0
  AllFresh none r = Unit
  AllFresh (some c) r = IsFresh c r

  call_fresh :
      (id : String) (now : ℤ) (req : Request) (r : MemoryRepository)
      → lookup id r.jobs ≡ none
      → AllFresh (call_of id now req) r
  call_fresh id now healthz_request r fresh = tt
  call_fresh id now (create_dataset_request none) r fresh = tt
  call_fresh id now (create_dataset_request (some req)) r fresh =
      if-elim (λ c. AllFresh c r) (u.trim_space req.name == "") tt tt
  call_fresh id now list_datasets_request r fresh = tt
  call_fresh id now (dataset_lineage_request wanted) r fresh = tt
  call_fresh id now (create_event_file_request none) r fresh = tt
  call_fresh id now (create_event_file_request (some req)) r fresh =
      Option-elim (λ c. AllFresh c r) (event_file_fault (trimmed_file u req)) (λ _. tt) (λ _ _. tt)
  call_fresh id now (create_replay_job_request none) r fresh = tt
  call_fresh id now (create_replay_job_request (some req)) r fresh =
      Option-elim (λ c. AllFresh c r) (replay_job_fault (trimmed_job u req)) (λ _. fresh)
        (λ _ _. tt)
  call_fresh id now (report_request wanted) r fresh = tt
  call_fresh id now (report_csv_request wanted) r fresh = tt
  call_fresh id now (replay_job_request wanted) r fresh = tt
  call_fresh id now (metrics_request wanted) r fresh = tt
  call_fresh id now (errors_request wanted) r fresh = tt
  call_fresh id now (cancel_request wanted) r fresh = tt
  call_fresh id now error_summary_request r fresh = tt

  called_first :
      {s : MemoryRepository} (c : Option Call) (r : MemoryRepository)
      → AllFresh c r
      → Run (after c r) s
      → Run r s
  called_first none r fresh rest = rest
  called_first (some c) r fresh rest = call_first c fresh rest

  Session-Run : {r s : MemoryRepository} → Session r s → Run r s
  Session-Run closed = stop
  Session-Run {r} {s} (request_first id now now' req fresh rest) =
      called_first (call_of id now req) r (call_fresh id now req r fresh)
        (subst (λ q. Run q s) (handle-after id now now' req r) (Session-Run rest))

  -- The response to a job that the repository takes, and to one whose key is taken.
  job_posted :
      (id : String) (now now' : ℤ) (req : CreateReplayJobParams) (r s : MemoryRepository)
      (job : ReplayJob)
      → replay_job_fault (trimmed_job u req) ≡ none
      → create_replay_job id now (trimmed_job u req) r ≡ (s, ok job)
      → handle u t direct id now now' (create_replay_job_request (some req)) r
        ≡ (s, json 201 (replay_job_body job))
  unfolding handle create_replay_job_handler from_store job_response
  job_posted id now now' req r s job fine made = ground (arith, fine, made)

  job_posted_again :
      (id : String) (now now' : ℤ) (req : CreateReplayJobParams) (r : MemoryRepository)
      (job : ReplayJob)
      → replay_job_fault (trimmed_job u req) ≡ none
      → create_replay_job id now (trimmed_job u req) r ≡ (r, err (already_exists job))
      → handle u t direct id now now' (create_replay_job_request (some req)) r
        ≡ (r, json 200 (replay_job_body job))
  unfolding handle create_replay_job_handler from_store job_response
  job_posted_again id now now' req r job fine refused = ground (arith, fine, refused)

  -- A job that is posted under a key to a consistent repository, without a fault in the request and accepted by
  -- the repository, gives 201 with the job. When it is posted again, after any requests, the response is 200 with
  -- that job in its later state, and the repository does not change.
  pub post_replay_job_again :
      (id id' : String) (now now' later later' : ℤ) (req : CreateReplayJobParams)
      (r s v : MemoryRepository) (job : ReplayJob)
      → IsConsistent r
      → lookup id r.jobs ≡ none
      → u.trim_space req.idempotency_key ≢ ""
      → replay_job_fault (trimmed_job u req) ≡ none
      → create_replay_job id now (trimmed_job u req) r ≡ (s, ok job)
      → Session s v
      → (handle u t direct id now now' (create_replay_job_request (some req)) r
          ≡ (s, json 201 (replay_job_body job)))
        × ((job' : ReplayJob) × IsLater job job'
            × (handle u t direct id' later later' (create_replay_job_request (some req)) v
                ≡ (v, json 200 (replay_job_body job'))))
  post_replay_job_again id id' now now' later later' req r s v job c fresh given fine made session =
      let (job', refused, found, is_later) =
        create_replay_job_again id id' now later (trimmed_job u req) r s v job c fresh given made
          (Session-Run session) in
      (
        job_posted id now now' req r s job fine made,
        (job', is_later, job_posted_again id' later later' req v job' fine refused),
      )
