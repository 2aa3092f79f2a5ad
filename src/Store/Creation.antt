-- ===== src/Store/Creation.antt =====
-- internal/store/memory.go: what CreateReplayJob does to the maps, and that it keeps them consistent.
use market_replay.Prelude.{
  String, none, some, if◌then◌else◌, ◌≡◌, refl, ◌≢◌, ◌⊎◌, ◌==◌, eq_iff, Option-elim, inl, inr,
  arith,
}
use market_replay.Prelude.Int.{ℤ}
use market_replay.Prelude.Dict.{
  Dict, lookup, insert, HasKey, HasKey-insert, Every, Every-insert, lookup-insert,
  lookup-insert_self,
}
use market_replay.Store.{ReplayJob, CreateReplayJobParams}
use market_replay.Store.Memory.{
  MemoryRepository, Returns, create_replay_job, add_job, new_job, idempotent_id,
}
use market_replay.Store.Integrity.{
  IsConsistent, FileIsLinked, JobIsLinked, KeyIsLinked, MetricsAreLinked, ErrorsAreLinked,
}

-- `keys` is the map of keys after the job `id` got its own.
record HasNewKey (r : MemoryRepository) (id key : String) (keys : Dict String) : Type 0 where
  own : key ≢ "" → lookup key keys ≡ some id
  kept : (k old : String) → lookup k r.idempotency_map ≡ some old → lookup k keys ≡ some old
  no_other :
      Every
        (λ k v. ((k ≡ key) × (key ≢ "") × (v ≡ id)) ⊎ (lookup k r.idempotency_map ≡ some v))
        keys

new_keys : String → String → MemoryRepository → Dict String
new_keys id key r = if key == "" then r.idempotency_map else insert key id r.idempotency_map

new_keys-HasNewKey :
    (id key : String) (r : MemoryRepository)
    → idempotent_id key r ≡ none
    → HasNewKey r id key (new_keys id key r)
unfolding new_keys
new_keys-HasNewKey id key r unused = record {
  own = λ given. ground (arith, given, eq_iff key "", lookup-insert_self key id r.idempotency_map);
  kept = λ k old h.
      ground
        (arith, unused, h, eq_iff key "", eq_iff key k, lookup-insert key k id r.idempotency_map);
  no_other = λ k v h.
      ground
        (arith, unused, h, eq_iff key "", eq_iff key k, lookup-insert key k id r.idempotency_map);
}

module _ (r : MemoryRepository) (id : String) (job : ReplayJob) (keys : Dict String)
    (fresh : lookup id r.jobs ≡ none) (new : HasNewKey r id job.idempotency_key keys) where
  old_job_there :
      (wanted : String) (old : ReplayJob)
      → lookup wanted r.jobs ≡ some old
      → lookup wanted (insert id job r.jobs) ≡ some old
  old_job_there wanted old h =
      ground (arith, fresh, h, eq_iff id wanted, lookup-insert id wanted job r.jobs)

  put_job-IsConsistent :
      job.id ≡ id
      → HasKey job.dataset_id r.datasets
      → HasKey job.event_file_id r.event_files
      → IsConsistent r
      → IsConsistent (record r { jobs = insert id job r.jobs; idempotency_map = keys })
  unfolding FileIsLinked JobIsLinked KeyIsLinked MetricsAreLinked ErrorsAreLinked
  put_job-IsConsistent named dataset file c = record {
    files_linked = c.files_linked;
    jobs_linked =
        Every-insert _ id job r.jobs (named, dataset, file, new.own)
          (λ k old h.
            let (same, there, its_file, linked) = c.jobs_linked k old h in
            (same, there, its_file, λ given. new.kept old.idempotency_key k (linked given)));
    keys_linked = λ k v h. elim (new.no_other k v h) [
      | inl (same, given, own) ↦ (
        job,
        ground (arith, own, lookup-insert_self id job r.jobs),
        ground (arith, same),
        ground (arith, same, given),
      )
      | inr old ↦
          let (its_job, there, keyed, given) = c.keys_linked k v old in
          (its_job, old_job_there v its_job there, keyed, given)
    ];
    metrics_linked = λ k ms h.
        let (there, all) = c.metrics_linked k ms h in (HasKey-insert k id job r.jobs there, all);
    errors_linked = λ k es h.
        let (there, all) = c.errors_linked k es h in (HasKey-insert k id job r.jobs there, all);
  }

pub create_replay_job-IsConsistent :
    (id : String) (now : ℤ) (params : CreateReplayJobParams) (r : MemoryRepository)
    → lookup id r.jobs ≡ none
    → IsConsistent r
    → IsConsistent (create_replay_job id now params r).0
unfolding create_replay_job add_job HasKey new_keys
create_replay_job-IsConsistent id now params r fresh c =
    let P : Returns ReplayJob → Type 0 = λ out. IsConsistent out.0 in
    Option-elim P (lookup params.dataset_id r.datasets) (λ _. c)
      (λ dataset there.
        Option-elim P (lookup params.event_file_id r.event_files) (λ _. c)
          (λ file its_file.
            Option-elim P (idempotent_id params.idempotency_key r)
              (λ unused.
                put_job-IsConsistent r id (new_job id now params)
                  (new_keys id params.idempotency_key r) fresh
                  (new_keys-HasNewKey id params.idempotency_key r unused) refl (dataset, there)
                  (file, its_file) c)
              (λ old _. c)))
