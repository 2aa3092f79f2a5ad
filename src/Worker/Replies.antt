-- ===== src/Worker/Replies.antt =====
-- internal/worker/handler.go: how a failure is recorded, and what is said of it to the task queue.
use market_replay.Prelude.{String, none, some, ◌≡◌, ◌≢◌, ◌⊎◌}
use market_replay.Prelude.Int.{ℤ, ◌≤ℤ◌}
use market_replay.Prelude.Dict.{lookup, insert}
use market_replay.Prelude.Result.{Result}
use market_replay.Store
use market_replay.Store.{JobStatus, dlq, ReplayJob, not_found}
use market_replay.Store.Records.{IsMarked}
use market_replay.Worker.{Setting, Failure, context_failed, context_canceled, store_failed, World}
use market_replay.Worker.Outcome.{Attempt, Reply, failure, no_retry, dropped}

-- The retries of the task are known, and used up.
abbrev pub IsLastAttempt : Attempt → Type 0
IsLastAttempt a =
    (retried : ℤ) × (most : ℤ) × (a.retried ≡ some retried)
    × (a.max_retry ≡ some most)
    × (most ≤ℤ retried)

-- A failure that is not the last: a cancellation is not retried, another cause is returned.
abbrev pub Answered : Failure → Reply → Type 0
Answered cause reply =
    ((cause ≡ context_failed context_canceled) × (reply ≡ no_retry (dropped cause)))
    ⊎ ((cause ≢ context_failed context_canceled) × (reply ≡ failure cause))

module _ (g : Setting) where
  -- What is stored for the job and replied, at the last attempt and before it.
  abbrev pub Recorded : Attempt → Failure → String → ℤ → ReplayJob → ReplayJob → Reply → Type 0
  Recorded attempt cause text now job job' reply =
      (IsLastAttempt attempt × IsMarked dlq text now job job' × (reply ≡ no_retry (dropped cause)))
      ⊎ ((¬ IsLastAttempt attempt) × IsMarked Store.failed text now job job' × Answered cause reply)

  abbrev pub Failing : Attempt → String → Failure → World → World × Reply → Type 0
  Failing attempt id cause w out =
      let before = g.others w.step w.repo in
      ((lookup id before.jobs ≡ none)
        × (out.0.repo ≡ before)
        × (out.1 ≡ failure (store_failed not_found)))
      ⊎ ((job : ReplayJob) × (job' : ReplayJob) × (lookup id before.jobs ≡ some job)
          × (out.0.repo ≡ record before { jobs = insert id job' before.jobs })
          × Recorded attempt cause (g.error_text cause) (g.clock w.step) job job' out.1)
