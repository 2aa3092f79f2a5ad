-- ===== src/Store/SameRows.antt =====
-- internal/store/memory.go: the changes of a row that the code makes are those of the specification.
use market_replay.Prelude.{ℕ, suc, String, List, [], ◌∷◌, if◌then◌else◌, ◌≡◌, refl, arith}
use market_replay.Prelude.Int.{ℤ, ltb_ℤ}
use market_replay.Store
use market_replay.Store.{
  EventFile, JobStatus, queued, running, completed, canceled, dlq, unset, ReplayJob, ReplayMetric,
  ValidationError, UpdateEventFileStatsParams,
}
use market_replay.Store.Memory.{
  with_stats, with_status, stamped, with_checkpoint, stamped_metric, stamped_errors,
}
use market_replay.Store.Abstract.{measured, entered, later_line, filed_metric, filed_errors}

pub with_stats-measured :
    (params : UpdateEventFileStatsParams) (file : EventFile)
    → with_stats params file ≡ measured params file
with_stats-measured params file = ground arith

pub with_status-entered :
    (status : JobStatus) (e : String) (now : ℤ) (job : ReplayJob)
    → with_status status e now job ≡ entered status e now job
unfolding with_status stamped
with_status-entered running e now job = refl
with_status-entered completed e now job = refl
with_status-entered Store.failed e now job = refl
with_status-entered dlq e now job = refl
with_status-entered canceled e now job = refl
with_status-entered queued e now job = refl
with_status-entered unset e now job = refl

later_line-is : (a b : ℤ) → later_line a b ≡ (if ltb_ℤ a b then b else a)
later_line-is a b = ground arith

pub with_checkpoint-later_line :
    (line : ℤ) (job : ReplayJob)
    → with_checkpoint line job
      ≡ record job { checkpoint_line = later_line job.checkpoint_line line }
unfolding with_checkpoint
with_checkpoint-later_line line job = ground (arith, later_line-is job.checkpoint_line line)

pub stamped_metric-filed_metric :
    (new id : String) (now : ℤ) (m : ReplayMetric)
    → stamped_metric new id now m ≡ filed_metric new id now m
unfolding stamped_metric
stamped_metric-filed_metric new id now m = refl

pub stamped_errors-filed_errors :
    (new_id : ℕ → String) (k : ℕ) (id : String) (now : ℤ) (es : List ValidationError)
    → stamped_errors new_id k id now es ≡ filed_errors new_id k id now es
unfolding stamped_errors
stamped_errors-filed_errors new_id k id now [] = refl
stamped_errors-filed_errors new_id k id now (e ∷ es) =
    rw (stamped_errors-filed_errors new_id (suc k) id now es) refl
