-- ===== src/Store/Preserve.antt =====
-- internal/store/memory.go: every call keeps the repository consistent.
use market_replay.Prelude.{String, ◌≡◌, refl, if-elim, Option-elim}
use market_replay.Prelude.Int.{ℤ, ltb_ℤ}
use market_replay.Prelude.Dict.{lookup, insert, HasKey, HasKey-insert, Every-insert}
use market_replay.Store.{
  EventFile, ReplayJob, ReplayManifest, JobStatus, running, completed, failed, dlq, canceled,
  queued, unset, CreateEventFileParams, CreateDatasetParams, UpdateEventFileStatsParams,
}
use market_replay.Store.Memory.{
  MemoryRepository, Returns, create_dataset, create_event_file, update_event_file_stats,
  update_replay_job_status, update_replay_checkpoint, update_replay_manifest, change_job, stamped,
  with_status, with_checkpoint, new_event_file, with_stats,
}
use market_replay.Store.Integrity.{
  IsConsistent, FileIsLinked, JobIsLinked, KeyIsLinked, MetricsAreLinked, ErrorsAreLinked,
  SameLinks, changed_job-IsConsistent,
}

pub create_dataset-IsConsistent :
    (id : String) (now : ℤ) (params : CreateDatasetParams) (r : MemoryRepository)
    → IsConsistent r
    → IsConsistent (create_dataset id now params r).0
unfolding create_dataset FileIsLinked JobIsLinked KeyIsLinked MetricsAreLinked ErrorsAreLinked
create_dataset-IsConsistent id now params r c = record {
  files_linked = λ key file h.
      let (named, there) = c.files_linked key file h in
      (named, HasKey-insert file.dataset_id id _ r.datasets there);
  jobs_linked = λ key job h.
      let (named, dataset, file, linked) = c.jobs_linked key job h in
      (named, HasKey-insert job.dataset_id id _ r.datasets dataset, file, linked);
  keys_linked = c.keys_linked;
  metrics_linked = c.metrics_linked;
  errors_linked = c.errors_linked;
}

-- A file is put in the map.
put_file-IsConsistent :
    (id : String) (file : EventFile) (r : MemoryRepository)
    → file.id ≡ id
    → HasKey file.dataset_id r.datasets
    → IsConsistent r
    → IsConsistent (record r { event_files = insert id file r.event_files })
unfolding FileIsLinked JobIsLinked KeyIsLinked MetricsAreLinked ErrorsAreLinked
put_file-IsConsistent id file r named there c = record {
  files_linked = Every-insert (FileIsLinked r) id file r.event_files (named, there) c.files_linked;
  jobs_linked = λ key job h.
      let (same, dataset, of_job, linked) = c.jobs_linked key job h in
      (same, dataset, HasKey-insert job.event_file_id id file r.event_files of_job, linked);
  keys_linked = c.keys_linked;
  metrics_linked = c.metrics_linked;
  errors_linked = c.errors_linked;
}

pub create_event_file-IsConsistent :
    (id : String) (now : ℤ) (params : CreateEventFileParams) (r : MemoryRepository)
    → IsConsistent r
    → IsConsistent (create_event_file id now params r).0
unfolding create_event_file HasKey
create_event_file-IsConsistent id now params r c =
    Option-elim (λ (out : Returns EventFile). IsConsistent out.0)
      (lookup params.dataset_id r.datasets) (λ _. c)
      (λ dataset there.
        put_file-IsConsistent id (new_event_file id now params) r refl (dataset, there) c)

pub update_event_file_stats-IsConsistent :
    (id : String) (params : UpdateEventFileStatsParams) (r : MemoryRepository)
    → IsConsistent r
    → IsConsistent (update_event_file_stats id params r).0
unfolding update_event_file_stats FileIsLinked
update_event_file_stats-IsConsistent id params r c =
    Option-elim (λ (out : Returns EventFile). IsConsistent out.0) (lookup id r.event_files) (λ _. c)
      (λ file there.
        let (named, dataset) = c.files_linked id file there in
        put_file-IsConsistent id (with_stats params file) r named dataset c)

with_status-SameLinks :
    (status : JobStatus) (last_error : String) (now : ℤ) (job : ReplayJob)
    → SameLinks job (with_status status last_error now job)
unfolding with_status stamped SameLinks
with_status-SameLinks running last_error now job = (refl, refl, refl, refl)
with_status-SameLinks completed last_error now job = (refl, refl, refl, refl)
with_status-SameLinks failed last_error now job = (refl, refl, refl, refl)
with_status-SameLinks dlq last_error now job = (refl, refl, refl, refl)
with_status-SameLinks canceled last_error now job = (refl, refl, refl, refl)
with_status-SameLinks queued last_error now job = (refl, refl, refl, refl)
with_status-SameLinks unset last_error now job = (refl, refl, refl, refl)

-- A call that changes one job.
change_job-IsConsistent :
    (change : ReplayJob → ReplayJob)
    → ((job : ReplayJob) → SameLinks job (change job))
    → (id : String) (r : MemoryRepository) → IsConsistent r
    → IsConsistent (change_job change id r).0
change_job-IsConsistent change same id r c =
    Option-elim (λ (out : Returns ReplayJob). IsConsistent out.0) (lookup id r.jobs) (λ _. c)
      (λ job there. changed_job-IsConsistent r id job (change job) there (same job) c)

pub update_replay_job_status-IsConsistent :
    (id : String) (status : JobStatus) (last_error : String) (now : ℤ) (r : MemoryRepository)
    → IsConsistent r
    → IsConsistent (update_replay_job_status id status last_error now r).0
unfolding update_replay_job_status
update_replay_job_status-IsConsistent id status last_error now =
    change_job-IsConsistent (with_status status last_error now)
      (with_status-SameLinks status last_error now) id

with_checkpoint-SameLinks : (line : ℤ) (job : ReplayJob) → SameLinks job (with_checkpoint line job)
unfolding with_checkpoint SameLinks
with_checkpoint-SameLinks line job =
    if-elim (SameLinks job) (ltb_ℤ job.checkpoint_line line) (refl, refl, refl, refl)
      (refl, refl, refl, refl)

pub update_replay_checkpoint-IsConsistent :
    (id : String) (line : ℤ) (r : MemoryRepository)
    → IsConsistent r
    → IsConsistent (update_replay_checkpoint id line r).0
unfolding update_replay_checkpoint
update_replay_checkpoint-IsConsistent id line r c =
    Option-elim (λ (out : Returns (Unit {0})). IsConsistent out.0) (lookup id r.jobs) (λ _. c)
      (λ job there.
        changed_job-IsConsistent r id job (with_checkpoint line job) there
          (with_checkpoint-SameLinks line job) c)

pub update_replay_manifest-IsConsistent :
    (id : String) (manifest : ReplayManifest) (r : MemoryRepository)
    → IsConsistent r
    → IsConsistent (update_replay_manifest id manifest r).0
unfolding update_replay_manifest SameLinks
update_replay_manifest-IsConsistent id manifest =
    change_job-IsConsistent (λ job. record job { manifest = manifest })
      (λ job. (refl, refl, refl, refl)) id
