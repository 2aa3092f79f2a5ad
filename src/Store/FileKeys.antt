-- ===== src/Store/FileKeys.antt =====
-- internal/store/memory.go: each event file is kept under one key only.
use market_replay.Prelude.{String, ◌≡◌, refl, sym, subst, Option-elim}
use market_replay.Prelude.Dict.{lookup, insert}
use market_replay.Store.{EventFile, ReplayJob}
use market_replay.Store.Memory.{
  MemoryRepository, Returns, create_dataset, create_event_file, update_event_file_stats,
  create_replay_job, add_job, update_replay_job_status, update_replay_checkpoint,
  update_replay_manifest, complete_replay_job, cancel_replay_job, change_job, idempotent_id,
}
use market_replay.Store.Calls.{
  Call, create_dataset_call, create_event_file_call, update_event_file_stats_call,
  create_replay_job_call, update_replay_job_status_call, update_replay_checkpoint_call,
  update_replay_manifest_call, complete_replay_job_call, cancel_replay_job_call, run_call, Run,
  stop, call_first,
}
use market_replay.Store.Distinct.{HasDistinctKeys, insert-HasDistinctKeys}

-- The files after a call.
data KeepsFiles (r s : MemoryRepository) : Type 0 where
  same_files : s.event_files ≡ r.event_files → KeepsFiles r s
  put_file :
      (id : String) (file : EventFile)
      → s.event_files ≡ insert id file r.event_files
      → KeepsFiles r s

change_job-KeepsFiles :
    (change : ReplayJob → ReplayJob) (id : String) (r : MemoryRepository)
    → KeepsFiles r (change_job change id r).0
change_job-KeepsFiles change id r =
    Option-elim (λ (out : Returns ReplayJob). KeepsFiles r out.0) (lookup id r.jobs)
      (λ _. same_files refl) (λ _ _. same_files refl)

run_call-KeepsFiles : (c : Call) (r : MemoryRepository) → KeepsFiles r (run_call c r)
unfolding run_call create_dataset create_event_file update_event_file_stats create_replay_job
    add_job update_replay_job_status update_replay_checkpoint update_replay_manifest
    complete_replay_job cancel_replay_job
run_call-KeepsFiles (create_dataset_call id now params) r = same_files refl
run_call-KeepsFiles (create_event_file_call id now params) r =
    Option-elim (λ (out : Returns _). KeepsFiles r out.0) (lookup params.dataset_id r.datasets)
      (λ _. same_files refl) (λ _ _. put_file id _ refl)
run_call-KeepsFiles (update_event_file_stats_call id params) r =
    Option-elim (λ (out : Returns _). KeepsFiles r out.0) (lookup id r.event_files)
      (λ _. same_files refl) (λ _ _. put_file id _ refl)
run_call-KeepsFiles (create_replay_job_call id now params) r =
    let P = λ (out : Returns ReplayJob). KeepsFiles r out.0 in
    Option-elim P (lookup params.dataset_id r.datasets) (λ _. same_files refl)
      (λ _ _.
        Option-elim P (lookup params.event_file_id r.event_files) (λ _. same_files refl)
          (λ _ _.
            Option-elim P (idempotent_id params.idempotency_key r) (λ _. same_files refl)
              (λ _ _. same_files refl)))
run_call-KeepsFiles (update_replay_job_status_call id status last_error now) r =
    change_job-KeepsFiles _ id r
run_call-KeepsFiles (update_replay_checkpoint_call id line) r =
    Option-elim (λ (out : Returns (Unit {0})). KeepsFiles r out.0) (lookup id r.jobs)
      (λ _. same_files refl) (λ _ _. same_files refl)
run_call-KeepsFiles (update_replay_manifest_call id manifest) r = change_job-KeepsFiles _ id r
run_call-KeepsFiles (complete_replay_job_call new_id now id params) r =
    Option-elim (λ (out : Returns ReplayJob). KeepsFiles r out.0) (lookup id r.jobs)
      (λ _. same_files refl) (λ _ _. same_files refl)
run_call-KeepsFiles (cancel_replay_job_call id now) r = change_job-KeepsFiles _ id r

kept-HasDistinctKeys :
    (r s : MemoryRepository)
    → KeepsFiles r s
    → HasDistinctKeys r.event_files
    → HasDistinctKeys s.event_files
kept-HasDistinctKeys r s (same_files h) d = subst HasDistinctKeys (sym h) d
kept-HasDistinctKeys r s (put_file id file h) d =
    subst HasDistinctKeys (sym h) (insert-HasDistinctKeys id file r.event_files d)

-- Over any calls.
pub run_files-HasDistinctKeys :
    {r s : MemoryRepository}
    → Run r s
    → HasDistinctKeys r.event_files
    → HasDistinctKeys s.event_files
run_files-HasDistinctKeys stop d = d
run_files-HasDistinctKeys {r} (call_first c fresh rest) d =
    run_files-HasDistinctKeys rest
      (kept-HasDistinctKeys r (run_call c r) (run_call-KeepsFiles c r) d)
