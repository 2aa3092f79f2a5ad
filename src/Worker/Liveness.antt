-- ===== src/Worker/Liveness.antt =====
-- internal/worker/handler.go: a task that is left alone completes its job.
use market_replay.Prelude.{◌+◌, String, some, ◌≡◌, refl, sym, ap, ◌∙◌, subst, arith, eq_iff}
use market_replay.Prelude.Dict.{lookup, insert, lookup-insert_self}
use market_replay.Prelude.Result.{Result, ok, err}
use market_replay.Store
use market_replay.Store.{JobStatus, queued, running, ReplayJob, EventFile, ReplayManifest}
use market_replay.Store.Memory.{
  MemoryRepository, Returns, get_replay_job, update_replay_job_status, with_status, stamped,
  change_job,
}
use market_replay.Store.History.{IsLater-trans}
use market_replay.Store.Integrity.{IsConsistent, JobIsLinked, FileIsLinked}
use market_replay.Store.Growth.{with_status-IsLater}
use market_replay.Queue.{Task, decode_replay_payload, type_replay_job}
use market_replay.Worker.{Setting, Failure, store_failed, World}
use market_replay.Worker.Outcome.{Attempt, Reply, success, failure}
use market_replay.Worker.Actions.{perform, read_job, set_status}
use market_replay.Worker.Handler.{run, start, fail_job, unless_terminal, process_task}
use market_replay.Worker.Triples.{IsQuiet}
use market_replay.Worker.Completes.{Finished, change_job_found}
use market_replay.Worker.Finishing.{IsReadable, symbol_of, replay_of, run-Does}

-- The job waits, or was interrupted or failed before.
pub data IsRunnable : JobStatus → Type 0 where
  is_queued : IsRunnable queued
  is_running : IsRunnable running
  has_failed : IsRunnable Store.failed

-- What the task leaves: success, and the completed job.
abbrev pub Completed :
    (g : Setting) (r : MemoryRepository) (id : String) (job : ReplayJob)
    → IsReadable g r job
    → World × Reply
    → Type 0
Completed g r id job i out =
    (out.1 ≡ success)
    × Finished g r id job i.file i.format (symbol_of job i.file) (replay_of g r job i) out.0.repo

module _ (g : Setting) (quiet : IsQuiet g) (attempt : Attempt) (id : String) (job : ReplayJob)
    (w : World) (c : IsConsistent w.repo) (there : lookup id w.repo.jobs ≡ some job)
    (i : IsReadable g w.repo job) where
  abbrev marked_job : ReplayJob
  marked_job = with_status running "" (g.clock w.step) job

  abbrev marked_world : World
  marked_world = record {
    repo = record (w.repo) { jobs = insert id marked_job w.repo.jobs };
    step = w.step + 1;
  }

  job_named : job.id ≡ id
  unfolding JobIsLinked
  job_named = (c.jobs_linked id job there).0

  marks : set_status g job.id running "" w ≡ (marked_world, ok marked_job)
  unfolding set_status perform update_replay_job_status
  marks =
      let act : Returns ReplayJob → World × Result Failure ReplayJob = λ out. (
        record { repo = out.0; step = w.step + 1 },
        elim out.1 [ ok a ↦ ok a | err e ↦ err (store_failed e) ],
      ) in
      let change = with_status running "" (g.clock w.step) in
      ap (λ r. act (change_job change job.id r)) (quiet.alone w.step w.repo)
      ∙ ap (λ key. act (change_job change key w.repo)) job_named
      ∙ ap act (change_job_found change id w.repo job there)

  readable : IsReadable g marked_world.repo job
  readable = record {
    file = i.file;
    format = i.format;
    opened = i.opened;
    stream = i.stream;
    records = i.records;
    known = i.known;
    resolved = i.resolved;
    opens = i.opens;
    streams = i.streams;
    contents = i.contents;
    enough_fuel = i.enough_fuel;
  }

  known_again : lookup i.file.id w.repo.event_files ≡ some i.file
  unfolding FileIsLinked
  known_again =
      ap (λ key. lookup key w.repo.event_files) (c.files_linked job.event_file_id i.file i.known).0
      ∙ i.known

  start-completes : Completed g w.repo id job i (start g attempt job w)
  unfolding start with_status stamped readable
  start-completes =
      let (done, ran, d) =
        (run-Does g quiet marked_world.repo id job (g.clock w.step) job_named readable known_again
            (lookup-insert_self id marked_job w.repo.jobs)).outcome
          marked_world refl in
      subst
        (λ (m : World × Result Failure ReplayJob). Completed g w.repo id job i (elim m.1 [
          | err e ↦ (m.0, failure e)
          | ok _ ↦
              let out = run g job m.0 in
              elim out.1 [
                | ok _ ↦ (out.0, success)
                | err cause ↦ fail_job g attempt job.id cause out.0
              ]
        ]))
        (sym marks)
        (subst
          (λ (o : Result Failure (Unit {0})). Completed g w.repo id job i (elim o [
            | ok _ ↦ ((run g job marked_world).0, success)
            | err cause ↦ fail_job g attempt job.id cause (run g job marked_world).0
          ]))
          (sym ran)
          (
            refl,
            record {
              step = d.step;
              job_after = d.job_after;
              there = d.there;
              is_completed = d.is_completed;
              at_time = d.at_time;
              has_manifest = d.has_manifest;
              later =
                  IsLater-trans job marked_job d.job_after
                    (with_status-IsLater running "" (g.clock w.step) job) d.later;
              metrics_after = d.metrics_after;
              errors_after = d.errors_after;
            },
          ))

runs :
    (g : Setting) {status : JobStatus} (attempt : Attempt) (job : ReplayJob) (w : World)
    → IsRunnable status
    → unless_terminal g status attempt job w ≡ start g attempt job w
unfolding unless_terminal
runs g attempt job w is_queued = refl
runs g attempt job w is_running = refl
runs g attempt job w has_failed = refl

process_task-start :
    (g : Setting)
    → IsQuiet g
    → (attempt : Attempt) (task : Task) (id : String) (job : ReplayJob) (w : World)
    → lookup id w.repo.jobs ≡ some job
    → task.type ≡ type_replay_job
    → decode_replay_payload g.unicode g.unmarshal task.payload ≡ ok (record { job_id = id })
    → IsRunnable job.status
    → process_task g attempt task w
      ≡ start g attempt job (record { repo = w.repo; step = w.step + 1 })
unfolding process_task read_job perform get_replay_job
process_task-start g quiet attempt task id job w there typed decoded runnable = ground (
  arith,
  typed,
  decoded,
  there,
  quiet.alone w.step w.repo,
  eq_iff task.type type_replay_job,
  runs g attempt job (record { repo = w.repo; step = w.step + 1 }) runnable,
)

-- A task for a job that is queued, running or failed, on a consistent repository that no one else
-- changes, with a context that is never done, a file that opens as a stream without an error and
-- more fuel than it has records: the task succeeds and the job is completed, with the manifest,
-- the metric and the failures of replaying its file from its checkpoint on appended to what was
-- recorded for it.
pub process_task_completes :
    (g : Setting)
    → IsQuiet g
    → (attempt : Attempt) (task : Task) (id : String) (job : ReplayJob) (w : World)
    → IsConsistent w.repo
    → lookup id w.repo.jobs ≡ some job
    → (i : IsReadable g w.repo job) → task.type ≡ type_replay_job
    → decode_replay_payload g.unicode g.unmarshal task.payload ≡ ok (record { job_id = id })
    → IsRunnable job.status
    → Completed g w.repo id job i (process_task g attempt task w)
process_task_completes g quiet attempt task id job w c there i typed decoded runnable =
    subst (Completed g w.repo id job i)
      (sym (process_task-start g quiet attempt task id job w there typed decoded runnable))
      (start-completes g quiet attempt id job (record { repo = w.repo; step = w.step + 1 }) c there
        i)
