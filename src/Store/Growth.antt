-- ===== src/Store/Growth.antt =====
-- internal/store/memory.go: every call only adds to what the repository has recorded.
use market_replay.Prelude.{
  ℕ, String, List, [], ◌∷◌, ◌++◌, none, ◌≡◌, refl, sym, subst, ◌==◌, eq_iff, if-elim, Option-elim,
  arith, append-nil, Bool-cases, inl, inr,
}
use market_replay.Prelude.Int.{ℤ}
use market_replay.Prelude.Dict.{Dict, lookup, insert, get_or, lookup-insert}
use market_replay.Store.{
  Dataset, EventFile, JobStatus, running, completed, failed, dlq, canceled, queued, unset,
  ReplayJob, ReplayManifest, CreateReplayJobParams, CompleteReplayJobParams, CreateEventFileParams,
  UpdateEventFileStatsParams,
}
use market_replay.Store.Memory.{
  MemoryRepository, Returns, create_dataset, create_event_file, update_event_file_stats,
  create_replay_job, update_replay_job_status, update_replay_checkpoint, update_replay_manifest,
  complete_replay_job, cancel_replay_job, change_job, stamped, with_status, with_checkpoint,
  add_job, new_job, idempotent_id, stamped_metric, stamped_errors, completed_job,
}
use market_replay.Store.Completion.{append_errors_lem, complete_replay_job-IsConsistent}
use market_replay.Store.Creation.{create_replay_job-IsConsistent}
use market_replay.Store.Preserve.{
  create_dataset-IsConsistent, create_event_file-IsConsistent, update_event_file_stats-IsConsistent,
  update_replay_job_status-IsConsistent, update_replay_checkpoint-IsConsistent,
  update_replay_manifest-IsConsistent,
}
use market_replay.Store.Integrity.{IsConsistent}
use market_replay.Store.Calls.{
  Call, create_dataset_call, create_event_file_call, update_event_file_stats_call,
  create_replay_job_call, update_replay_job_status_call, update_replay_checkpoint_call,
  update_replay_manifest_call, complete_replay_job_call, cancel_replay_job_call, run_call, IsFresh,
}
use market_replay.Store.History.{
  IsLater, IsLater-refl, StartsWith, JobsGrow, Grows, Grows-refl, StartsWith-itself,
  changed_job-Grow, new_job-Grow,
}

pub with_status-IsLater :
    (status : JobStatus) (last_error : String) (now : ℤ) (job : ReplayJob)
    → IsLater job (with_status status last_error now job)
unfolding with_status stamped
with_status-IsLater running e now job = ground arith
with_status-IsLater completed e now job = ground arith
with_status-IsLater failed e now job = ground arith
with_status-IsLater dlq e now job = ground arith
with_status-IsLater canceled e now job = ground arith
with_status-IsLater queued e now job = ground arith
with_status-IsLater unset e now job = ground arith

pub with_checkpoint-IsLater : (line : ℤ) (job : ReplayJob) → IsLater job (with_checkpoint line job)
unfolding with_checkpoint
with_checkpoint-IsLater line job = ground arith

pub completed_job-IsLater : (now : ℤ) (job : ReplayJob) → IsLater job (completed_job now job)
completed_job-IsLater now job = ground arith

pub manifest-IsLater :
    (manifest : ReplayManifest) (job : ReplayJob) → IsLater job (record job { manifest = manifest })
manifest-IsLater manifest job = ground arith

appended-StartsWith {ℓ} :
    {A : Type ℓ} (key other : String) (more : List A) (m : Dict (List A))
    → StartsWith (get_or other [] m) (get_or other [] (insert key (get_or key [] m ++ more) m))
appended-StartsWith key other more m = elim (Bool-cases (key == other)) [
  | inl hit ↦ (
    more,
    ground (arith, hit, eq_iff key other, lookup-insert key other (get_or key [] m ++ more) m),
  )
  | inr miss ↦ (
    [],
    ground (
      arith,
      miss,
      lookup-insert key other (get_or key [] m ++ more) m,
      append-nil (get_or other [] m),
    ),
  )
]

-- A call that touches the jobs only.
jobs-Grows :
    (r : MemoryRepository) (jobs : Dict ReplayJob)
    → JobsGrow r.jobs jobs
    → Grows r (record r { jobs = jobs })
jobs-Grows r jobs grow = record {
  jobs_grow = grow;
  keys_kept = λ key id h. h;
  metrics_grow = λ id. StartsWith-itself (get_or id [] r.metrics);
  errors_grow = λ id. StartsWith-itself (get_or id [] r.errors);
}

change_job-Grows :
    (change : ReplayJob → ReplayJob)
    → ((job : ReplayJob) → IsLater job (change job))
    → (id : String) (r : MemoryRepository) → Grows r (change_job change id r).0
change_job-Grows change later id r =
    Option-elim (λ (out : Returns ReplayJob). Grows r out.0) (lookup id r.jobs) (λ _. Grows-refl r)
      (λ job there. jobs-Grows r _ (changed_job-Grow r.jobs id job (change job) there (later job)))

update_replay_checkpoint-Grows :
    (id : String) (line : ℤ) (r : MemoryRepository) → Grows r (update_replay_checkpoint id line r).0
unfolding update_replay_checkpoint
update_replay_checkpoint-Grows id line r =
    Option-elim (λ (out : Returns (Unit {0})). Grows r out.0) (lookup id r.jobs) (λ _. Grows-refl r)
      (λ job there. jobs-Grows r _ (
        changed_job-Grow r.jobs id job (with_checkpoint line job) there
          (with_checkpoint-IsLater line job)))

-- A call that touches the files or the datasets only.
data_sets-Grows :
    (r : MemoryRepository) (datasets : Dict Dataset) (files : Dict EventFile)
    → Grows r (record r { datasets = datasets; event_files = files })
data_sets-Grows r datasets files = record {
  jobs_grow = λ id job h. (job, h, IsLater-refl job);
  keys_kept = λ key id h. h;
  metrics_grow = λ id. StartsWith-itself (get_or id [] r.metrics);
  errors_grow = λ id. StartsWith-itself (get_or id [] r.errors);
}

create_event_file-Grows :
    (id : String) (now : ℤ) (params : CreateEventFileParams) (r : MemoryRepository)
    → Grows r (create_event_file id now params r).0
unfolding create_event_file
create_event_file-Grows id now params r =
    Option-elim (λ (out : Returns EventFile). Grows r out.0) (lookup params.dataset_id r.datasets)
      (λ _. Grows-refl r) (λ _ _. data_sets-Grows r r.datasets _)

update_event_file_stats-Grows :
    (id : String) (params : UpdateEventFileStatsParams) (r : MemoryRepository)
    → Grows r (update_event_file_stats id params r).0
unfolding update_event_file_stats
update_event_file_stats-Grows id params r =
    Option-elim (λ (out : Returns EventFile). Grows r out.0) (lookup id r.event_files)
      (λ _. Grows-refl r) (λ _ _. data_sets-Grows r r.datasets _)

add_job-Grows :
    (id : String) (now : ℤ) (params : CreateReplayJobParams) (r : MemoryRepository)
    → lookup id r.jobs ≡ none
    → idempotent_id params.idempotency_key r ≡ none
    → Grows r (add_job id now params r)
unfolding add_job
add_job-Grows id now params r fresh unused = record {
  jobs_grow = new_job-Grow r.jobs id (new_job id now params) fresh;
  keys_kept = λ key old h. ground (
    arith,
    unused,
    h,
    eq_iff params.idempotency_key "",
    eq_iff params.idempotency_key key,
    lookup-insert params.idempotency_key key id r.idempotency_map,
  );
  metrics_grow = λ job_id. StartsWith-itself (get_or job_id [] r.metrics);
  errors_grow = λ job_id. StartsWith-itself (get_or job_id [] r.errors);
}

create_replay_job-Grows :
    (id : String) (now : ℤ) (params : CreateReplayJobParams) (r : MemoryRepository)
    → lookup id r.jobs ≡ none
    → Grows r (create_replay_job id now params r).0
unfolding create_replay_job
create_replay_job-Grows id now params r fresh =
    let P : Returns ReplayJob → Type 0 = λ out. Grows r out.0 in
    Option-elim P (lookup params.dataset_id r.datasets) (λ _. Grows-refl r)
      (λ _ _.
        Option-elim P (lookup params.event_file_id r.event_files) (λ _. Grows-refl r)
          (λ _ _.
            Option-elim P (idempotent_id params.idempotency_key r)
              (λ unused. add_job-Grows id now params r fresh unused) (λ _ _. Grows-refl r)))

complete_replay_job-Grows :
    (new_id : ℕ → String) (now : ℤ) (id : String) (params : CompleteReplayJobParams)
    (r : MemoryRepository)
    → Grows r (complete_replay_job new_id now id params r).0
unfolding complete_replay_job
complete_replay_job-Grows new_id now id params r =
    Option-elim (λ (out : Returns ReplayJob). Grows r out.0) (lookup id r.jobs) (λ _. Grows-refl r)
      (λ job there. record {
        jobs_grow =
            changed_job-Grow r.jobs id job (completed_job now job) there
              (completed_job-IsLater now job);
        keys_kept = λ key old h. h;
        metrics_grow = λ other.
            appended-StartsWith id other (stamped_metric (new_id 0) id now params.metric ∷ [])
              r.metrics;
        errors_grow = λ other.
            subst (StartsWith (get_or other [] r.errors))
              (sym (
                append_errors_lem id other (stamped_errors new_id 1 id now params.errors) r.errors))
              (if-elim (StartsWith (get_or other [] r.errors)) (id == other)
                (stamped_errors new_id 1 id now params.errors, refl)
                (StartsWith-itself (get_or other [] r.errors)));
      })

pub run_call-IsConsistent :
    (c : Call) (r : MemoryRepository) → IsFresh c r → IsConsistent r → IsConsistent (run_call c r)
unfolding run_call cancel_replay_job
run_call-IsConsistent (create_dataset_call id now params) r fresh =
    create_dataset-IsConsistent id now params r
run_call-IsConsistent (create_event_file_call id now params) r fresh =
    create_event_file-IsConsistent id now params r
run_call-IsConsistent (update_event_file_stats_call id params) r fresh =
    update_event_file_stats-IsConsistent id params r
run_call-IsConsistent (create_replay_job_call id now params) r fresh =
    create_replay_job-IsConsistent id now params r fresh
run_call-IsConsistent (update_replay_job_status_call id status e now) r fresh =
    update_replay_job_status-IsConsistent id status e now r
run_call-IsConsistent (update_replay_checkpoint_call id line) r fresh =
    update_replay_checkpoint-IsConsistent id line r
run_call-IsConsistent (update_replay_manifest_call id manifest) r fresh =
    update_replay_manifest-IsConsistent id manifest r
run_call-IsConsistent (complete_replay_job_call new_id now id params) r fresh =
    complete_replay_job-IsConsistent new_id now id params r
run_call-IsConsistent (cancel_replay_job_call id now) r fresh =
    update_replay_job_status-IsConsistent id canceled "" now r

pub run_call-Grows : (c : Call) (r : MemoryRepository) → IsFresh c r → Grows r (run_call c r)
unfolding run_call cancel_replay_job create_dataset update_replay_job_status update_replay_manifest
run_call-Grows (create_dataset_call id now params) r fresh = data_sets-Grows r _ r.event_files
run_call-Grows (create_event_file_call id now params) r fresh =
    create_event_file-Grows id now params r
run_call-Grows (update_event_file_stats_call id params) r fresh =
    update_event_file_stats-Grows id params r
run_call-Grows (create_replay_job_call id now params) r fresh =
    create_replay_job-Grows id now params r fresh
run_call-Grows (update_replay_job_status_call id status e now) r fresh =
    change_job-Grows (with_status status e now) (with_status-IsLater status e now) id r
run_call-Grows (update_replay_checkpoint_call id line) r fresh =
    update_replay_checkpoint-Grows id line r
run_call-Grows (update_replay_manifest_call id manifest) r fresh =
    change_job-Grows (λ job. record job { manifest = manifest }) (manifest-IsLater manifest) id r
run_call-Grows (complete_replay_job_call new_id now id params) r fresh =
    complete_replay_job-Grows new_id now id params r
run_call-Grows (cancel_replay_job_call id now) r fresh =
    change_job-Grows (with_status canceled "" now) (with_status-IsLater canceled "" now) id r
