-- ===== src/Store/Reachable.antt =====
-- internal/store/memory.go: what holds of a repository after any sequence of calls.
use market_replay.Prelude.{String, none, some, ◌≡◌, sym, ap, ap₂, subst, ◌∙◌, ◌≢◌, eq_iff, arith}
use market_replay.Prelude.Int.{ℤ}
use market_replay.Prelude.Dict.{lookup, HasKey, lookup-insert_self}
use market_replay.Prelude.Result.{ok, err}
use market_replay.Store.{ReplayJob, already_exists, CreateReplayJobParams}
use market_replay.Store.Memory.{
  MemoryRepository, new_memory_repository, create_replay_job, get_replay_job_by_idempotency_key,
  add_job, new_job,
}
use market_replay.Store.Integrity.{IsConsistent, JobIsLinked, new_memory_repository-IsConsistent}
use market_replay.Store.Creation.{create_replay_job-IsConsistent}
use market_replay.Store.Calls.{run_call, Run, stop, call_first}
use market_replay.Store.History.{IsLater, Grows, Grows-refl, Grows-trans}
use market_replay.Store.Growth.{run_call-IsConsistent, run_call-Grows}

pub run_on-IsConsistent : {r s : MemoryRepository} → Run r s → IsConsistent r → IsConsistent s
run_on-IsConsistent stop c = c
run_on-IsConsistent {r} (call_first call fresh rest) c =
    run_on-IsConsistent rest (run_call-IsConsistent call r fresh c)

-- After any sequence of calls on a new repository whose new job ids are fresh, every file and job
-- stands under its own id, its dataset and its file are there, a job's key leads to that job alone,
-- and metrics and errors are recorded only under an existing job and carry its id.
pub Run-IsConsistent : (s : MemoryRepository) → Run new_memory_repository s → IsConsistent s
Run-IsConsistent s run = run_on-IsConsistent run new_memory_repository-IsConsistent

-- Over any sequence of calls with fresh job ids, no job is lost or changes what it was created with,
-- no checkpoint falls, no idempotency key is lost or moved, and the metrics and the errors of each
-- job are only appended to.
pub Run-Grows : {r s : MemoryRepository} → Run r s → Grows r s
Run-Grows {r} stop = Grows-refl r
Run-Grows {r} {s} (call_first call fresh rest) =
    Grows-trans r (run_call call r) s (run_call-Grows call r fresh) (Run-Grows rest)

-- A creation that succeeds has added its job.
created :
    (id : String) (now : ℤ) (params : CreateReplayJobParams) (r s : MemoryRepository)
    (job : ReplayJob)
    → create_replay_job id now params r ≡ (s, ok job)
    → (s ≡ add_job id now params r) × (job ≡ new_job id now params)
unfolding create_replay_job
created id now params r s job h = ground arith

add_job_there :
    (id : String) (now : ℤ) (params : CreateReplayJobParams) (r : MemoryRepository)
    → lookup id (add_job id now params r).jobs ≡ some (new_job id now params)
unfolding add_job
add_job_there id now params r = lookup-insert_self id (new_job id now params) r.jobs

-- A creation under a key that is taken.
key_taken :
    (id id' : String) (now : ℤ) (params : CreateReplayJobParams) (t : MemoryRepository)
    (job : ReplayJob)
    → HasKey params.dataset_id t.datasets
    → HasKey params.event_file_id t.event_files
    → params.idempotency_key ≢ ""
    → lookup params.idempotency_key t.idempotency_map ≡ some id
    → lookup id t.jobs ≡ some job
    → (create_replay_job id' now params t ≡ (t, err (already_exists job)))
      × (get_replay_job_by_idempotency_key params.idempotency_key t ≡ ok job)
unfolding create_replay_job get_replay_job_by_idempotency_key HasKey
key_taken id id' now params t job (dataset, d) (file, f) given taken there = (
  ground (arith, d, f, given, taken, there, eq_iff params.idempotency_key ""),
  ground (arith, taken, there),
)

-- A job that was created under a key, on a consistent repository: whatever calls follow, creating it
-- again changes nothing and returns ErrAlreadyExists with that job, in its later state.
pub create_replay_job_again :
    (id id' : String) (now now' : ℤ) (params : CreateReplayJobParams) (r s t : MemoryRepository)
    (job : ReplayJob)
    → IsConsistent r
    → lookup id r.jobs ≡ none
    → params.idempotency_key ≢ ""
    → create_replay_job id now params r ≡ (s, ok job)
    → Run s t
    → (job' : ReplayJob) × (create_replay_job id' now' params t ≡ (t, err (already_exists job')))
      × (get_replay_job_by_idempotency_key params.idempotency_key t ≡ ok job')
      × IsLater job job'
unfolding JobIsLinked
create_replay_job_again id id' now now' params r s t job c fresh given made run =
    let (s_added, job_new) = created id now params r s job made in
    let t_consistent : IsConsistent t = run_on-IsConsistent run (
      subst IsConsistent (ap (λ out. out.0) made)
        (create_replay_job-IsConsistent id now params r fresh c)) in
    let in_s : lookup id s.jobs ≡ some job =
      subst (λ (q : MemoryRepository × ReplayJob). lookup id q.0.jobs ≡ some q.1)
        (sym (ap₂ (λ a b. (a, b)) s_added job_new)) (add_job_there id now params r) in
    let (job', in_t, later) = (Run-Grows run).jobs_grow id job in_s in
    let (named, dataset, file, linked) = t_consistent.jobs_linked id job' in_t in
    let key : job'.idempotency_key ≡ params.idempotency_key =
      later.same_key ∙ ap (λ j. j.idempotency_key) job_new in
    let in_data : job'.dataset_id ≡ params.dataset_id =
      later.same_dataset ∙ ap (λ j. j.dataset_id) job_new in
    let rows : job'.event_file_id ≡ params.event_file_id =
      later.same_file ∙ ap (λ j. j.event_file_id) job_new in
    let (refused, found) =
      key_taken id id' now' params t job' (subst (λ d. HasKey d t.datasets) in_data dataset)
        (subst (λ f. HasKey f t.event_files) rows file) given
        (subst (λ k. k ≢ "" → lookup k t.idempotency_map ≡ some id) key linked given) in_t in
    (job', refused, found, later)
