-- ===== src/Store/Distinct.antt =====
-- internal/store/memory.go: a map has each key once, so the list of its values has nothing that cannot be looked up.
use market_replay.Prelude.{
  String, [], ◌∷◌, none, ◌==◌, ◌≡◌, refl, sym, subst, All, inl, inr, Option-elim, Bool-cases, arith,
  eq_iff,
}
use market_replay.Prelude.Dict.{Dict, lookup, insert, Every, lookup-insert}
use market_replay.Store.{ReplayJob}
use market_replay.Store.Memory.{
  MemoryRepository, new_memory_repository, Returns, create_dataset, create_event_file,
  update_event_file_stats, create_replay_job, add_job, update_replay_job_status,
  update_replay_checkpoint, update_replay_manifest, complete_replay_job, cancel_replay_job,
  change_job, idempotent_id,
}
use market_replay.Store.Calls.{
  Call, create_dataset_call, create_event_file_call, update_event_file_stats_call,
  create_replay_job_call, update_replay_job_status_call, update_replay_checkpoint_call,
  update_replay_manifest_call, complete_replay_job_call, cancel_replay_job_call, run_call, Run,
  stop, call_first,
}
use market_replay.Store.Listing.{values}

module _ {A : Type 0} where
  unfoldable pub HasDistinctKeys : Dict A → Type 0
  HasDistinctKeys [] = Unit
  HasDistinctKeys ((key, value) ∷ rest) = (lookup key rest ≡ none) × HasDistinctKeys rest

  pub insert-HasDistinctKeys :
      (key : String) (new : A) (m : Dict A) → HasDistinctKeys m → HasDistinctKeys (insert key new m)
  unfolding HasDistinctKeys insert lookup
  insert-HasDistinctKeys key new [] d = (refl, tt)
  insert-HasDistinctKeys key new ((old_key, old) ∷ rest) (alone, d) =
      elim (Bool-cases (old_key == key)) [
        | inl same ↦ rw same (alone, d)
        | inr other ↦ rw other (
          ground (
            arith,
            alone,
            other,
            lookup-insert key old_key new rest,
            eq_iff old_key key,
            eq_iff key old_key,
          ),
          insert-HasDistinctKeys key new rest d,
        )
      ]

  -- What holds of every entry holds of every value.
  pub values-All :
      (P : A → Type 0) (m : Dict A) → HasDistinctKeys m → Every (λ _ a. P a) m → All P (values m)
  unfolding HasDistinctKeys lookup
  values-All P [] d all = tt
  values-All P ((key, value) ∷ rest) (alone, d) all = (
    all key value (ground (arith, eq_iff key key)),
    values-All P rest d (λ wanted a h. all wanted a (ground (arith, h, alone, eq_iff key wanted))),
  )

-- The jobs after a call.
data Keeps (r s : MemoryRepository) : Type 0 where
  same_jobs : s.jobs ≡ r.jobs → Keeps r s
  put_job : (id : String) (job : ReplayJob) → s.jobs ≡ insert id job r.jobs → Keeps r s

change_job-Keeps :
    (change : ReplayJob → ReplayJob) (id : String) (r : MemoryRepository)
    → Keeps r (change_job change id r).0
change_job-Keeps change id r =
    Option-elim (λ (out : Returns ReplayJob). Keeps r out.0) (lookup id r.jobs)
      (λ _. same_jobs refl) (λ job _. put_job id (change job) refl)

run_call-Keeps : (c : Call) (r : MemoryRepository) → Keeps r (run_call c r)
unfolding run_call create_dataset create_event_file update_event_file_stats create_replay_job
    add_job update_replay_job_status update_replay_checkpoint update_replay_manifest
    complete_replay_job cancel_replay_job
run_call-Keeps (create_dataset_call id now params) r = same_jobs refl
run_call-Keeps (create_event_file_call id now params) r =
    Option-elim (λ (out : Returns _). Keeps r out.0) (lookup params.dataset_id r.datasets)
      (λ _. same_jobs refl) (λ _ _. same_jobs refl)
run_call-Keeps (update_event_file_stats_call id params) r =
    Option-elim (λ (out : Returns _). Keeps r out.0) (lookup id r.event_files) (λ _. same_jobs refl)
      (λ _ _. same_jobs refl)
run_call-Keeps (create_replay_job_call id now params) r =
    let P = λ (out : Returns ReplayJob). Keeps r out.0 in
    Option-elim P (lookup params.dataset_id r.datasets) (λ _. same_jobs refl)
      (λ _ _.
        Option-elim P (lookup params.event_file_id r.event_files) (λ _. same_jobs refl)
          (λ _ _.
            Option-elim P (idempotent_id params.idempotency_key r) (λ _. put_job id _ refl)
              (λ _ _. same_jobs refl)))
run_call-Keeps (update_replay_job_status_call id status last_error now) r = change_job-Keeps _ id r
run_call-Keeps (update_replay_checkpoint_call id line) r =
    Option-elim (λ (out : Returns (Unit {0})). Keeps r out.0) (lookup id r.jobs)
      (λ _. same_jobs refl) (λ _ _. put_job id _ refl)
run_call-Keeps (update_replay_manifest_call id manifest) r = change_job-Keeps _ id r
run_call-Keeps (complete_replay_job_call new_id now id params) r =
    Option-elim (λ (out : Returns ReplayJob). Keeps r out.0) (lookup id r.jobs)
      (λ _. same_jobs refl) (λ _ _. put_job id _ refl)
run_call-Keeps (cancel_replay_job_call id now) r = change_job-Keeps _ id r

kept-HasDistinctKeys :
    (r s : MemoryRepository) → Keeps r s → HasDistinctKeys r.jobs → HasDistinctKeys s.jobs
kept-HasDistinctKeys r s (same_jobs h) d = subst HasDistinctKeys (sym h) d
kept-HasDistinctKeys r s (put_job id job h) d =
    subst HasDistinctKeys (sym h) (insert-HasDistinctKeys id job r.jobs d)

-- Over any calls a repository keeps each job under one key only.
pub run_on-HasDistinctKeys :
    {r s : MemoryRepository} → Run r s → HasDistinctKeys r.jobs → HasDistinctKeys s.jobs
run_on-HasDistinctKeys stop d = d
run_on-HasDistinctKeys {r} (call_first c fresh rest) d =
    run_on-HasDistinctKeys rest (kept-HasDistinctKeys r (run_call c r) (run_call-Keeps c r) d)

pub Run-HasDistinctKeys :
    {s : MemoryRepository} → Run new_memory_repository s → HasDistinctKeys s.jobs
unfolding new_memory_repository HasDistinctKeys
Run-HasDistinctKeys run = run_on-HasDistinctKeys run tt
