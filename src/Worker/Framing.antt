-- ===== src/Worker/Framing.antt =====
-- internal/worker/handler.go: the actions of a handler that has the repository for itself, and whose records
-- they leave alone.
use market_replay.Prelude.{
  ℕ, String, [], ◌∷◌, ◌++◌, some, ◌≡◌, ◌≢◌, refl, subst, sym, arith, eq_iff, ◌+◌, Option-elim, ◌∙◌,
}
use market_replay.Prelude.Int.{ℤ}
use market_replay.Prelude.Dict.{lookup, get_or, insert, lookup-insert}
use market_replay.Prelude.Result.{Result, ok, err, Result-elim}
use market_replay.Store.{
  EventFile, JobStatus, running, completed, failed, canceled, dlq, queued, unset, ReplayJob,
  ReplayManifest, StoreError, CompleteReplayJobParams, UpdateEventFileStatsParams,
}
use market_replay.Store.Memory.{
  MemoryRepository, Returns, found, get_replay_job, get_event_file, update_event_file_stats,
  update_replay_job_status, update_replay_checkpoint, update_replay_manifest, complete_replay_job,
  change_job, with_status, stamped, with_checkpoint, completed_job, stamped_metric, stamped_errors,
}
use market_replay.Store.Completion.{append_errors_lem}
use market_replay.Worker.{Failure, store_failed, Setting, World, Work, ◌>>=◌, pure, fail}
use market_replay.Worker.Actions.{
  perform, poll, read_job, read_file, set_status, set_checkpoint, set_stats, set_manifest, complete,
}
use market_replay.Worker.Triples.{IsQuiet}

-- The job that is stored under an id has that id.
abbrev pub IsNamed : String → MemoryRepository → Type 0
IsNamed own r = (job : ReplayJob) → lookup own r.jobs ≡ some job → job.id ≡ own

-- From `r` to `s` nothing changed but the files, and what is kept of the job `own`.
pub record OthersStay (own : String) (r s : MemoryRepository) : Type 0 where
  pub same_datasets : s.datasets ≡ r.datasets
  pub same_keys : s.idempotency_map ≡ r.idempotency_map
  pub same_jobs : (id : String) → own ≢ id → lookup id s.jobs ≡ lookup id r.jobs
  pub same_metrics : (id : String) → own ≢ id → get_or id [] s.metrics ≡ get_or id [] r.metrics
  pub same_errors : (id : String) → own ≢ id → get_or id [] s.errors ≡ get_or id [] r.errors

abbrev pub Stays : String → MemoryRepository → MemoryRepository → Type 0
Stays own r s = IsNamed own r → IsNamed own s × OthersStay own r s

pub Stays-refl : (own : String) (r : MemoryRepository) → Stays own r r
Stays-refl own r n = (
  n,
  record {
    same_datasets = refl;
    same_keys = refl;
    same_jobs = λ id h. refl;
    same_metrics = λ id h. refl;
    same_errors = λ id h. refl;
  },
)

pub Stays-trans :
    (own : String) (r s t : MemoryRepository) → Stays own r s → Stays own s t → Stays own r t
Stays-trans own r s t p q n =
    let (n', a) = p n in
    let (n'', b) = q n' in
    (
      n'',
      record {
        same_datasets = b.same_datasets ∙ a.same_datasets;
        same_keys = b.same_keys ∙ a.same_keys;
        same_jobs = λ id h. b.same_jobs id h ∙ a.same_jobs id h;
        same_metrics = λ id h. b.same_metrics id h ∙ a.same_metrics id h;
        same_errors = λ id h. b.same_errors id h ∙ a.same_errors id h;
      },
    )

insert-Stays :
    (own : String) (job : ReplayJob) (r : MemoryRepository)
    → (IsNamed own r → job.id ≡ own)
    → Stays own r (record r { jobs = insert own job r.jobs })
insert-Stays own job r named n = (
  λ found h. ground (arith, named n, eq_iff own own, lookup-insert own own job r.jobs),
  record {
    same_datasets = refl;
    same_keys = refl;
    same_jobs = λ id h. ground (arith, eq_iff own id, lookup-insert own id job r.jobs);
    same_metrics = λ id h. refl;
    same_errors = λ id h. refl;
  },
)

change_job-Stays :
    (own : String) (change : ReplayJob → ReplayJob) (r : MemoryRepository)
    → ((job : ReplayJob) → (change job).id ≡ job.id)
    → Stays own r (change_job change own r).0
change_job-Stays own change r same =
    Option-elim (λ (out : Returns ReplayJob). Stays own r out.0) (lookup own r.jobs)
      (λ _. Stays-refl own r)
      (λ job there. insert-Stays own (change job) r (λ n. same job ∙ n job there))

with_status-id :
    (status : JobStatus) (e : String) (now : ℤ) (job : ReplayJob)
    → (with_status status e now job).id ≡ job.id
unfolding with_status stamped
with_status-id running e now job = refl
with_status-id completed e now job = refl
with_status-id failed e now job = refl
with_status-id canceled e now job = refl
with_status-id dlq e now job = refl
with_status-id queued e now job = refl
with_status-id unset e now job = refl

update_replay_checkpoint-Stays :
    (own : String) (line : ℤ) (r : MemoryRepository)
    → Stays own r (update_replay_checkpoint own line r).0
unfolding update_replay_checkpoint with_checkpoint
update_replay_checkpoint-Stays own line r =
    Option-elim (λ (out : Returns (Unit {0})). Stays own r out.0) (lookup own r.jobs)
      (λ _. Stays-refl own r)
      (λ job there.
        insert-Stays own (with_checkpoint line job) r
          (λ n. let named = n job there in ground (arith, named)))

complete_replay_job-Stays :
    (new_id : ℕ → String) (now : ℤ) (own : String) (params : CompleteReplayJobParams)
    (r : MemoryRepository)
    → Stays own r (complete_replay_job new_id now own params r).0
unfolding complete_replay_job
complete_replay_job-Stays new_id now own params r =
    let es = stamped_errors new_id 1 own now params.errors in
    Option-elim (λ (out : Returns ReplayJob). Stays own r out.0) (lookup own r.jobs)
      (λ _. Stays-refl own r)
      (λ job there n.
        let (n', stay) = insert-Stays own (completed_job now job) r (λ n. n job there) n in
        (
          n',
          record {
            same_datasets = refl;
            same_keys = refl;
            same_jobs = stay.same_jobs;
            same_metrics = λ id h. ground (
              arith,
              eq_iff own id,
              lookup-insert own id
                  (get_or own [] r.metrics
                    ++ (stamped_metric (new_id 0) own now params.metric ∷ []))
                  r.metrics,
            );
            same_errors =
                λ id h. ground (arith, eq_iff own id, append_errors_lem own id es r.errors);
          },
        ))

module _ (g : Setting) (own : String) where
  -- However the action ends, it leaves what is not the job's alone.
  pub record KeepsOthers {A : Type 0} (m : Work A) : Type 0 where
    pub stays : (w : World) → Stays own w.repo (m w).0.repo

  pub pure-KeepsOthers : {A : Type 0} (a : A) → KeepsOthers (pure a)
  unfolding pure
  pure-KeepsOthers a = record { stays = λ w. Stays-refl own w.repo }

  pub fail-KeepsOthers : (A : Type 0) (e : Failure) → KeepsOthers (fail {A = A} e)
  unfolding fail
  fail-KeepsOthers A e = record { stays = λ w. Stays-refl own w.repo }

  pub >>=-KeepsOthers :
      {A B : Type 0} (m : Work A) (f : A → Work B)
      → KeepsOthers m
      → ((a : A) → KeepsOthers (f a))
      → KeepsOthers (m >>= f)
  unfolding ◌>>=◌
  >>=-KeepsOthers {A} {B} m f p q = record {
    stays = λ w.
        Result-elim (λ (out : World × Result Failure B). Stays own w.repo out.0.repo) (m w).1
          (λ e _. p.stays w)
          (λ a _.
            Stays-trans own w.repo (m w).0.repo (f a (m w).0).0.repo (p.stays w)
              ((q a).stays (m w).0));
  }

  pub poll-KeepsOthers : KeepsOthers (poll g)
  unfolding poll
  poll-KeepsOthers = record { stays = λ w. Stays-refl own w.repo }

  module _ (quiet : IsQuiet g) where
    perform-KeepsOthers :
        {A : Type 0} (call : ℕ → MemoryRepository → Returns A)
        → ((k : ℕ) (r : MemoryRepository) → Stays own r (call k r).0)
        → KeepsOthers (perform g call)
    unfolding perform
    perform-KeepsOthers call p = record {
      stays = λ w.
          subst (λ r. Stays own w.repo (call w.step r).0) (sym (quiet.alone w.step w.repo))
            (p w.step w.repo);
    }

    pub read_job-KeepsOthers : (id : String) → KeepsOthers (read_job g id)
    unfolding read_job
    read_job-KeepsOthers id =
        perform-KeepsOthers (λ k r. (r, get_replay_job id r)) (λ k r. Stays-refl own r)

    pub read_file-KeepsOthers : (id : String) → KeepsOthers (read_file g id)
    unfolding read_file
    read_file-KeepsOthers id =
        perform-KeepsOthers (λ k r. (r, get_event_file id r)) (λ k r. Stays-refl own r)

    pub set_status-KeepsOthers :
        (status : JobStatus) (e : String) → KeepsOthers (set_status g own status e)
    unfolding set_status update_replay_job_status
    set_status-KeepsOthers status e =
        perform-KeepsOthers (λ k r. update_replay_job_status own status e (g.clock k) r)
          (λ k r.
            change_job-Stays own (with_status status e (g.clock k)) r
              (with_status-id status e (g.clock k)))

    pub set_checkpoint-KeepsOthers : (line : ℤ) → KeepsOthers (set_checkpoint g own line)
    unfolding set_checkpoint
    set_checkpoint-KeepsOthers line =
        perform-KeepsOthers (λ k r. update_replay_checkpoint own line r)
          (λ k r. update_replay_checkpoint-Stays own line r)

    pub set_stats-KeepsOthers :
        (id : String) (params : UpdateEventFileStatsParams) → KeepsOthers (set_stats g id params)
    unfolding set_stats update_event_file_stats
    set_stats-KeepsOthers id params =
        perform-KeepsOthers (λ k r. update_event_file_stats id params r)
          (λ k r.
            Option-elim (λ (out : Returns EventFile). Stays own r out.0) (lookup id r.event_files)
              (λ _. Stays-refl own r)
              (λ file _ n. (
                n,
                record {
                  same_datasets = refl;
                  same_keys = refl;
                  same_jobs = λ id h. refl;
                  same_metrics = λ id h. refl;
                  same_errors = λ id h. refl;
                },
              )))

    pub set_manifest-KeepsOthers :
        (manifest : ReplayManifest) → KeepsOthers (set_manifest g own manifest)
    unfolding set_manifest update_replay_manifest
    set_manifest-KeepsOthers manifest =
        perform-KeepsOthers (λ k r. update_replay_manifest own manifest r)
          (λ k r. change_job-Stays own (λ job. record job { manifest = manifest }) r (λ job. refl))

    pub complete-KeepsOthers :
        (params : CompleteReplayJobParams) → KeepsOthers (complete g own params)
    unfolding complete
    complete-KeepsOthers params =
        perform-KeepsOthers (λ k r. complete_replay_job (g.new_id k) (g.clock k) own params r)
          (λ k r. complete_replay_job-Stays (g.new_id k) (g.clock k) own params r)

    -- The job that is read is the one that is asked for.
    pub read_own-KeepsOthers :
        {A : Type 0} (f : ReplayJob → Work A)
        → ((job : ReplayJob) → job.id ≡ own → KeepsOthers (f job))
        → KeepsOthers (read_job g own >>= f)
    unfolding ◌>>=◌ read_job perform get_replay_job
    read_own-KeepsOthers {A} f p = record {
      stays = λ w.
          let Q : MemoryRepository → Type 0 = λ r.
            let out : World × Result Failure ReplayJob = (
              record { repo = r; step = w.step + 1 },
              elim (found (lookup own r.jobs)) [ ok a ↦ ok a | err e ↦ err (store_failed e) ],
            ) in
            let next : World × Result Failure A = elim out.1 [
              | err e ↦ (out.0, err e)
              | ok a ↦ f a out.0
            ] in
            Stays own w.repo next.0.repo in
          subst Q (sym (quiet.alone w.step w.repo)) (
            Option-elim
              (λ (o : Result StoreError ReplayJob).
                let out : World × Result Failure ReplayJob = (
                  record { repo = w.repo; step = w.step + 1 },
                  elim o [ ok a ↦ ok a | err e ↦ err (store_failed e) ],
                ) in
                let next : World × Result Failure A = elim out.1 [
                  | err e ↦ (out.0, err e)
                  | ok a ↦ f a out.0
                ] in
                Stays own w.repo next.0.repo)
              (lookup own w.repo.jobs) (λ _. Stays-refl own w.repo)
              (λ job there n.
                (p job (n job there)).stays (record { repo = w.repo; step = w.step + 1 }) n));
    }
