-- ===== src/Worker/Touching.antt =====
-- internal/worker/handler.go: which tasks change the repository, and what they change.
use market_replay.Prelude.{◌+◌, String, some, ◌≡◌, ◌⊎◌}
use market_replay.Prelude.Dict.{lookup}
use market_replay.Prelude.Result.{Result, ok, err}
use market_replay.Store
use market_replay.Store.{JobStatus, completed, canceled, dlq, ReplayJob, EventFile}
use market_replay.Store.Memory.{MemoryRepository}
use market_replay.Store.Integrity.{IsConsistent}
use market_replay.Queue.{Task, decode_replay_payload, type_replay_job}
use market_replay.Worker.{Setting, Failure, World}
use market_replay.Worker.Outcome.{Attempt, Drop, Reply, success, no_retry, dropped}
use market_replay.Worker.Triples.{IsQuiet}
use market_replay.Worker.Framing.{OthersStay}
use market_replay.Worker.Handler.{start, unless_terminal}

-- The job of a task is done with: canceled, completed or dead-lettered.
pub data IsTerminal : JobStatus → Type 0 where
  is_canceled : IsTerminal canceled
  is_completed : IsTerminal completed
  is_dlq : IsTerminal dlq

-- The task is for a job that is there and not done with, and only what is kept of that job changed.
pub record IsReplayOf (g : Setting) (task : Task) (r s : MemoryRepository) : Type 0 where
  pub own : String
  pub job : ReplayJob
  pub typed : task.type ≡ type_replay_job
  pub decoded :
      decode_replay_payload g.unicode g.unmarshal task.payload ≡ ok (record { job_id = own })
  pub there : lookup own r.jobs ≡ some job
  pub unfinished : ¬ IsTerminal job.status
  pub stays : OthersStay own r s

-- The task is given up, or its job is done with.
abbrev pub IsIdle : Setting → Task → MemoryRepository → Reply → Type 0
IsIdle g task r reply =
    ((why : Drop) × (reply ≡ no_retry why))
    ⊎ ((own : String) × (job : ReplayJob) × (decode_replay_payload g.unicode g.unmarshal
            task.payload
          ≡ ok (record { job_id = own }))
        × (lookup own r.jobs ≡ some job)
        × IsTerminal job.status
        × (reply ≡ success))

-- The repository is as it was and the task is idle, or the task replays its job.
abbrev pub Touched : Setting → Task → World → World × Reply → Type 0
Touched g task w out =
    ((out.0.repo ≡ w.repo) × IsIdle g task w.repo out.1) ⊎ IsReplayOf g task w.repo out.0.repo

-- What is done with a job depends on its status only.
data Way (g : Setting) (status : JobStatus) : Type 0 where
  left :
      IsTerminal status
      → ((attempt : Attempt) (job : ReplayJob) (w : World)
          → unless_terminal g status attempt job w ≡ (w, success))
      → Way g status
  started :
      ¬ IsTerminal status
      → ((attempt : Attempt) (job : ReplayJob) (w : World)
          → unless_terminal g status attempt job w ≡ start g attempt job w)
      → Way g status

module _ (g : Setting) (quiet : IsQuiet g) (attempt : Attempt) (task : Task) (w : World)
    (c : IsConsistent w.repo) where
  abbrev read_world : World
  read_world = record { repo = w.repo; step = w.step + 1 }

  -- What `process_task` does with the job that it reads.
  abbrev with_job_read : World × Result Failure ReplayJob → World × Reply
  with_job_read out = elim out.1 [
    | err e ↦ (out.0, no_retry (dropped e))
    | ok job ↦ unless_terminal g job.status attempt job out.0
  ]
