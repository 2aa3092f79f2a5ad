-- ===== src/Store/Integrity.antt =====
-- internal/store/memory.go: what the maps of a repository have to do with each other.
use market_replay.Prelude.{
  String, List, some, ◌≡◌, subst, sym, ◌≢◌, All, eq_iff, ◌==◌, Bool-cases, inl, inr, arith,
}
use market_replay.Prelude.Dict.{
  lookup, insert, HasKey, HasKey-insert, Every, Every-nil, Every-insert, lookup-insert,
}
use market_replay.Store.{EventFile, ReplayJob, ReplayMetric, ValidationError}
use market_replay.Store.Memory.{MemoryRepository, new_memory_repository}

unfoldable pub FileIsLinked : MemoryRepository → String → EventFile → Type 0
FileIsLinked r id file = (file.id ≡ id) × HasKey file.dataset_id r.datasets

unfoldable pub JobIsLinked : MemoryRepository → String → ReplayJob → Type 0
JobIsLinked r id job =
    (job.id ≡ id)
    × HasKey job.dataset_id r.datasets
    × HasKey job.event_file_id r.event_files
    × (job.idempotency_key ≢ "" → lookup job.idempotency_key r.idempotency_map ≡ some id)

unfoldable pub KeyIsLinked : MemoryRepository → String → String → Type 0
KeyIsLinked r key id =
    (job : ReplayJob) × (lookup id r.jobs ≡ some job) × (job.idempotency_key ≡ key) × (key ≢ "")

unfoldable pub MetricsAreLinked : MemoryRepository → String → List ReplayMetric → Type 0
MetricsAreLinked r id ms = HasKey id r.jobs × All (λ m. m.job_id ≡ id) ms

unfoldable pub ErrorsAreLinked : MemoryRepository → String → List ValidationError → Type 0
ErrorsAreLinked r id es = HasKey id r.jobs × All (λ e. e.job_id ≡ id) es

-- Each entry stands under its own id, and what an entry refers to is there.
pub record IsConsistent (r : MemoryRepository) : Type 0 where
  pub files_linked : Every (FileIsLinked r) r.event_files
  pub jobs_linked : Every (JobIsLinked r) r.jobs
  pub keys_linked : Every (KeyIsLinked r) r.idempotency_map
  pub metrics_linked : Every (MetricsAreLinked r) r.metrics
  pub errors_linked : Every (ErrorsAreLinked r) r.errors

pub new_memory_repository-IsConsistent : IsConsistent new_memory_repository
unfolding new_memory_repository
new_memory_repository-IsConsistent = record {
  files_linked = Every-nil _;
  jobs_linked = Every-nil _;
  keys_linked = Every-nil _;
  metrics_linked = Every-nil _;
  errors_linked = Every-nil _;
}

-- What no call changes in a job.
unfoldable pub SameLinks : ReplayJob → ReplayJob → Type 0
SameLinks job job' =
    (job'.id ≡ job.id)
    × (job'.dataset_id ≡ job.dataset_id)
    × (job'.event_file_id ≡ job.event_file_id)
    × (job'.idempotency_key ≡ job.idempotency_key)

JobIsLinked-same :
    (r : MemoryRepository) (id : String) (job job' : ReplayJob)
    → SameLinks job job'
    → JobIsLinked r id job
    → JobIsLinked r id job'
unfolding JobIsLinked SameLinks
JobIsLinked-same r id job job' (same_id, same_dataset, same_file, same_key)
      (named, dataset, file, key) =
    (
      cc,
      subst (λ d. HasKey d r.datasets) (sym same_dataset) dataset,
      subst (λ f. HasKey f r.event_files) (sym same_file) file,
      subst (λ k. k ≢ "" → lookup k r.idempotency_map ≡ some id) (sym same_key) key,
    )

module _ (r : MemoryRepository) (id : String) (job job' : ReplayJob)
    (here : lookup id r.jobs ≡ some job) (same : SameLinks job job') where
  KeyIsLinked-changed :
      (key wanted : String)
      → KeyIsLinked r key wanted
      → KeyIsLinked (record r { jobs = insert id job' r.jobs }) key wanted
  unfolding KeyIsLinked SameLinks
  KeyIsLinked-changed key wanted (found, there, keyed, given) = elim (Bool-cases (id == wanted)) [
    | inl hit ↦ (
      job',
      ground (arith, hit, lookup-insert id wanted job' r.jobs),
      ground (arith, hit, here, there, same, keyed, eq_iff id wanted),
      given,
    )
    | inr miss ↦
        (found, ground (arith, miss, there, lookup-insert id wanted job' r.jobs), keyed, given)
  ]

  pub changed_job-IsConsistent :
      IsConsistent r → IsConsistent (record r { jobs = insert id job' r.jobs })
  unfolding MetricsAreLinked ErrorsAreLinked FileIsLinked JobIsLinked
  changed_job-IsConsistent c = record {
    files_linked = c.files_linked;
    jobs_linked =
        Every-insert (JobIsLinked r) id job' r.jobs
          (JobIsLinked-same r id job job' same (c.jobs_linked id job here)) c.jobs_linked;
    keys_linked = λ key wanted h. KeyIsLinked-changed key wanted (c.keys_linked key wanted h);
    metrics_linked = λ key ms h.
        let (there, all) = c.metrics_linked key ms h in
        (HasKey-insert key id job' r.jobs there, all);
    errors_linked = λ key es h.
        let (there, all) = c.errors_linked key es h in
        (HasKey-insert key id job' r.jobs there, all);
  }
