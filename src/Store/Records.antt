-- ===== src/Store/Records.antt =====
-- internal/store/memory.go: what is read back after a job's status changed.
use market_replay.Prelude.{String, none, some, if◌then◌else◌, ◌≡◌, ◌==◌, arith, ◌⊎◌}
use market_replay.Prelude.Int.{ℤ, inc64}
use market_replay.Prelude.Dict.{lookup}
use market_replay.Prelude.Result.{ok, err}
use market_replay.Store.{
  JobStatus, running, completed, failed, canceled, dlq, queued, unset, ReplayJob, not_found,
}
use market_replay.Store.Memory.{MemoryRepository, Returns, get_replay_job, with_status, stamped}

-- What `update_replay_job_status` makes of a job: the fields it sets, and the rest as they were.
pub record IsMarked (status : JobStatus) (last_error : String) (now : ℤ) (job job' : ReplayJob)
    : Type 0 where
  pub has_status : job'.status ≡ status
  pub has_error : job'.last_error ≡ last_error
  pub one_more : job'.attempts ≡ inc64 job.attempts
  pub started : job'.started_at ≡ (elim status [ running ↦ some now | _ ↦ job.started_at ])
  pub ended : job'.completed_at ≡ (elim status [
    | completed ↦ some now
    | failed ↦ some now
    | dlq ↦ some now
    | _ ↦ job.completed_at
  ])
  pub stopped : job'.canceled_at ≡ (elim status [ canceled ↦ some now | _ ↦ job.canceled_at ])
  pub same_checkpoint : job'.checkpoint_line ≡ job.checkpoint_line
  pub same_manifest : job'.manifest ≡ job.manifest

pub with_status-IsMarked :
    (status : JobStatus) (last_error : String) (now : ℤ) (job : ReplayJob)
    → IsMarked status last_error now job (with_status status last_error now job)
unfolding with_status stamped
with_status-IsMarked running e now job = ground arith
with_status-IsMarked completed e now job = ground arith
with_status-IsMarked failed e now job = ground arith
with_status-IsMarked dlq e now job = ground arith
with_status-IsMarked canceled e now job = ground arith
with_status-IsMarked queued e now job = ground arith
with_status-IsMarked unset e now job = ground arith

abbrev pub Marking : JobStatus → String → ℤ → String → MemoryRepository → Returns ReplayJob → Type 0
Marking status last_error now id r out =
    ((lookup id r.jobs ≡ none) × (out ≡ (r, err not_found)))
    ⊎ ((job job' : ReplayJob) × (lookup id r.jobs ≡ some job)
        × (out.1 ≡ ok job')
        × IsMarked status last_error now job job'
        × ((other : String)
            → get_replay_job other out.0
              ≡ (if id == other then ok job' else get_replay_job other r)))
