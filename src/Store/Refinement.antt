-- ===== src/Store/Refinement.antt =====
-- internal/store/memory.go: the repository in memory implements the specification of Store/Abstract.antt.
use market_replay.Prelude.{
  ℕ, String, List, [], ◌∷◌, ◌++◌, Option, some, if◌then◌else◌, ◌==◌, ◌≡◌, refl, ap, ap₂, ◌∙◌,
  Option-elim₂, if-elim₂, arith, eq_iff,
}
use market_replay.Prelude.Int.{ℤ}
use market_replay.Prelude.Dict.{Dict, lookup, insert, get_or, lookup-insert}
use market_replay.Prelude.Result.{ok, err}
use mathlib.Core.Path.{fun_ext}
use market_replay.Store.{
  Dataset, EventFile, ReplayJob, ReplayMetric, ValidationError, StoreError, not_found,
  already_exists, zero_job, CreateReplayJobParams, JobStatus, CompleteReplayJobParams,
}
use market_replay.Store
use market_replay.Store.Memory.{
  MemoryRepository, Returns, create_dataset, create_event_file, update_event_file_stats,
  create_replay_job, add_job, idempotent_id, update_replay_job_status, update_replay_checkpoint,
  update_replay_manifest, complete_replay_job, cancel_replay_job, change_job, with_stats,
  new_event_file, new_job, with_status, with_checkpoint, completed_job, stamped_metric,
  stamped_errors, append_errors,
}
use market_replay.Store.SameRows.{
  with_stats-measured, with_status-entered, with_checkpoint-later_line, stamped_metric-filed_metric,
  stamped_errors-filed_errors,
}
use market_replay.Store.Completion.{append_errors_lem}
use market_replay.Store.Calls.{
  Call, create_dataset_call, create_event_file_call, update_event_file_stats_call,
  create_replay_job_call, update_replay_job_status_call, update_replay_checkpoint_call,
  update_replay_manifest_call, complete_replay_job_call, cancel_replay_job_call, run_call,
}
use market_replay.Store.Abstract.{
  Contract, at_key, Answer, dataset_answer, file_answer, job_answer, no_answer, refused, at_job,
  entered, promised,
}

-- What a client sees of a repository.
abbrev pub contract_of : MemoryRepository → Contract
contract_of r = record {
  dataset_at = λ id. lookup id r.datasets;
  file_at = λ id. lookup id r.event_files;
  job_at = λ id. lookup id r.jobs;
  id_of_key = λ key. lookup key r.idempotency_map;
  metrics_of = λ id. get_or id [] r.metrics;
  errors_of = λ id. get_or id [] r.errors;
}

-- What a client sees of the end of an operation.
abbrev pub seen : {A : Type 0} → (A → Answer) → Returns A → Contract × Answer
seen answer out = (contract_of out.0, elim out.1 [ ok a ↦ answer a | err e ↦ refused e ])

abbrev SeenAs : Returns ReplayJob → Contract × Answer → Type 0
SeenAs out s = seen job_answer out ≡ s

-- What a client sees of a call.
unfoldable pub performed : Call → MemoryRepository → Contract × Answer
performed (create_dataset_call id now params) r =
    seen dataset_answer (create_dataset id now params r)
performed (create_event_file_call id now params) r =
    seen file_answer (create_event_file id now params r)
performed (update_event_file_stats_call id params) r =
    seen file_answer (update_event_file_stats id params r)
performed (create_replay_job_call id now params) r =
    seen job_answer (create_replay_job id now params r)
performed (update_replay_job_status_call id status e now) r =
    seen job_answer (update_replay_job_status id status e now r)
performed (update_replay_checkpoint_call id line) r =
    seen (λ _. no_answer) (update_replay_checkpoint id line r)
performed (update_replay_manifest_call id manifest) r =
    seen job_answer (update_replay_manifest id manifest r)
performed (complete_replay_job_call new_id now id params) r =
    seen job_answer (complete_replay_job new_id now id params r)
performed (cancel_replay_job_call id now) r = seen job_answer (cancel_replay_job id now r)

lookups-insert {ℓ} :
    {A : Type ℓ} (key : String) (new : A) (m : Dict A)
    → (λ wanted. lookup wanted (insert key new m))
      ≡ at_key key (some new) (λ wanted. lookup wanted m)
lookups-insert key new m = fun_ext λ wanted. lookup-insert key wanted new m

rows-insert {ℓ} :
    {A : Type ℓ} (key : String) (new : List A) (m : Dict (List A))
    → (λ wanted. get_or wanted [] (insert key new m))
      ≡ at_key key new (λ wanted. get_or wanted [] m)
rows-insert key new m = fun_ext λ wanted. ground (arith, lookup-insert key wanted new m)

rows-append_errors :
    (key : String) (es : List ValidationError) (m : Dict (List ValidationError))
    → (λ wanted. get_or wanted [] (append_errors key es m))
      ≡ at_key key (get_or key [] m ++ es) (λ wanted. get_or wanted [] m)
rows-append_errors key es m =
    fun_ext λ wanted. ground (arith, append_errors_lem key wanted es m, eq_iff key wanted)

change_job-promised :
    (change : ReplayJob → ReplayJob) (id : String) (r : MemoryRepository)
    → seen job_answer (change_job change id r) ≡ at_job change job_answer id (contract_of r)
change_job-promised change id r = Option-elim₂ SeenAs (lookup id r.jobs) refl (λ job.
    ap (λ f. (record (contract_of r) { job_at = f }, job_answer (change job)))
      (lookups-insert id (change job) r.jobs))

keys-insert :
    (key id : String) (m : Dict String)
    → (λ wanted. lookup wanted (if key == "" then m else insert key id m)) ≡ (
        if key == ""
        then (λ wanted. lookup wanted m)
        else at_key key (some id) (λ wanted. lookup wanted m))
keys-insert key id m =
    if-elim₂
      (λ (keys : Dict String) (f : String → Option String). (λ wanted. lookup wanted keys) ≡ f)
      (key == "") refl (lookups-insert key id m)

add_job-promised :
    (id : String) (now : ℤ) (params : CreateReplayJobParams) (r : MemoryRepository)
    → contract_of (add_job id now params r) ≡ record (contract_of r) {
      job_at = at_key id (some (new_job id now params)) (λ wanted. lookup wanted r.jobs);
      id_of_key =
          if params.idempotency_key == ""
          then (λ key. lookup key r.idempotency_map)
          else at_key params.idempotency_key (some id) (λ key. lookup key r.idempotency_map);
    }
unfolding add_job
add_job-promised id now params r =
    ap₂ (λ f g. record (contract_of r) { job_at = f; id_of_key = g })
      (lookups-insert id (new_job id now params) r.jobs)
      (keys-insert params.idempotency_key id r.idempotency_map)

create_replay_job-promised :
    (id : String) (now : ℤ) (params : CreateReplayJobParams) (r : MemoryRepository)
    → performed (create_replay_job_call id now params) r
      ≡ promised (create_replay_job_call id now params) (contract_of r)
unfolding create_replay_job promised performed
create_replay_job-promised id now params r =
    Option-elim₂ SeenAs (lookup params.dataset_id r.datasets) refl λ dataset.
      Option-elim₂ SeenAs (lookup params.event_file_id r.event_files) refl λ file.
        Option-elim₂ SeenAs (idempotent_id params.idempotency_key r)
          (ap (λ s. (s, job_answer (new_job id now params))) (add_job-promised id now params r))
          (λ old. refl)

complete_replay_job-promised :
    (new_id : ℕ → String) (now : ℤ) (id : String) (params : CompleteReplayJobParams)
    (r : MemoryRepository)
    → performed (complete_replay_job_call new_id now id params) r
      ≡ promised (complete_replay_job_call new_id now id params) (contract_of r)
unfolding complete_replay_job promised performed
complete_replay_job-promised new_id now id params r =
    let stamps = stamped_errors new_id 1 id now params.errors in
    let metric = stamped_metric (new_id 0) id now params.metric in
    Option-elim₂ SeenAs (lookup id r.jobs) refl λ job.
      ap₂
        (λ f (g, h). (
          record (contract_of r) { job_at = f; metrics_of = g; errors_of = h },
          job_answer (completed_job now job),
        ))
        (lookups-insert id (completed_job now job) r.jobs)
        (ap₂ (λ g h. (g, h))
          (rows-insert id (get_or id [] r.metrics ++ (metric ∷ [])) r.metrics
            ∙ ap
                (λ m.
                  at_key id (get_or id [] r.metrics ++ (m ∷ []))
                    (λ wanted. get_or wanted [] r.metrics))
                (stamped_metric-filed_metric (new_id 0) id now params.metric))
          (rows-append_errors id stamps r.errors
            ∙ ap
                (λ es.
                  at_key id (get_or id [] r.errors ++ es) (λ wanted. get_or wanted [] r.errors))
                (stamped_errors-filed_errors new_id 1 id now params.errors)))

-- Setting a status is entering it.
change_status-promised :
    (status : JobStatus) (last_error : String) (now : ℤ) (id : String) (r : MemoryRepository)
    → seen job_answer (change_job (with_status status last_error now) id r)
      ≡ at_job (entered status last_error now) job_answer id (contract_of r)
change_status-promised status last_error now id r =
    change_job-promised (with_status status last_error now) id r
    ∙ ap (λ f. at_job f job_answer id (contract_of r))
        (fun_ext (with_status-entered status last_error now))

-- Each case of the theorem below.
answers-promised : (c : Call) (r : MemoryRepository) → performed c r ≡ promised c (contract_of r)
unfolding performed promised create_dataset create_event_file update_event_file_stats
    update_replay_job_status update_replay_checkpoint update_replay_manifest cancel_replay_job
answers-promised (create_dataset_call id now params) r =
    let dataset : Dataset = record {
      id = id;
      name = params.name;
      description = params.description;
      created_at = now;
    } in
    ap (λ f. (record (contract_of r) { dataset_at = f }, dataset_answer dataset))
      (lookups-insert id dataset r.datasets)
answers-promised (create_event_file_call id now params) r =
    Option-elim₂ (λ (out : Returns EventFile) (s : Contract × Answer). seen file_answer out ≡ s)
      (lookup params.dataset_id r.datasets) refl
      (λ dataset.
        ap
          (λ f.
            (record (contract_of r) { file_at = f }, file_answer (new_event_file id now params)))
          (lookups-insert id (new_event_file id now params) r.event_files))
answers-promised (update_event_file_stats_call id params) r =
    Option-elim₂ (λ (out : Returns EventFile) (s : Contract × Answer). seen file_answer out ≡ s)
      (lookup id r.event_files) refl
      (λ file.
        ap (λ f. (record (contract_of r) { file_at = f }, file_answer (with_stats params file)))
          (lookups-insert id (with_stats params file) r.event_files)
        ∙ ap
            (λ new. (
              record (contract_of r) {
                file_at = at_key id (some new) (λ wanted. lookup wanted r.event_files);
              },
              file_answer new,
            ))
            (with_stats-measured params file))
answers-promised (create_replay_job_call id now params) r =
    create_replay_job-promised id now params r
answers-promised (update_replay_job_status_call id status last_error now) r =
    change_status-promised status last_error now id r
answers-promised (update_replay_checkpoint_call id line) r =
    Option-elim₂
      (λ (out : Returns (Unit {0})) (s : Contract × Answer). seen (λ _. no_answer) out ≡ s)
      (lookup id r.jobs) refl
      (λ job.
        ap (λ f. (record (contract_of r) { job_at = f }, no_answer))
          (lookups-insert id (with_checkpoint line job) r.jobs)
        ∙ ap
            (λ new. (
              record (contract_of r) {
                job_at = at_key id (some new) (λ wanted. lookup wanted r.jobs);
              },
              no_answer,
            ))
            (with_checkpoint-later_line line job))
answers-promised (update_replay_manifest_call id manifest) r =
    change_job-promised (λ job. record job { manifest = manifest }) id r
answers-promised (complete_replay_job_call new_id now id params) r =
    complete_replay_job-promised new_id now id params r
answers-promised (cancel_replay_job_call id now) r =
    change_status-promised Store.canceled "" now id r

-- What a client can read after the call.
contract-run_call :
    (c : Call) (r : MemoryRepository) → contract_of (run_call c r) ≡ (performed c r).0
unfolding performed run_call
contract-run_call (create_dataset_call id now params) r = refl
contract-run_call (create_event_file_call id now params) r = refl
contract-run_call (update_event_file_stats_call id params) r = refl
contract-run_call (create_replay_job_call id now params) r = refl
contract-run_call (update_replay_job_status_call id status last_error now) r = refl
contract-run_call (update_replay_checkpoint_call id line) r = refl
contract-run_call (update_replay_manifest_call id manifest) r = refl
contract-run_call (complete_replay_job_call new_id now id params) r = refl
contract-run_call (cancel_replay_job_call id now) r = refl

-- The repository in memory refines a specification on maps as functions, written field by field: what
-- a client sees of a call, the answer and every row that can be read afterwards, is what the
-- specification answers and keeps, for every call that changes rows, on all its branches. There a
-- status sets the error and the times that go with it and adds an attempt, a checkpoint becomes the
-- later of two lines, a completed job has that status and the time, and a metric and errors are
-- appended with the job's id and the ids and times that they lacked.
pub performed-promised :
    (c : Call) (r : MemoryRepository)
    → performed c r ≡ promised c (contract_of r)
      × contract_of (run_call c r) ≡ (promised c (contract_of r)).0
performed-promised c r =
    (answers-promised c r, contract-run_call c r ∙ ap (λ out. out.0) (answers-promised c r))
