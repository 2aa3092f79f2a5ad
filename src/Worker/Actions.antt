-- ===== src/Worker/Actions.antt =====
-- internal/worker/handler.go: one action of the handler on what it shares with others.
use market_replay.Prelude.{ℕ, ◌+◌, String, none, some}
use market_replay.Prelude.Int.{ℤ}
use market_replay.Prelude.Result.{ok, err}
use market_replay.Store.{
  ReplayJob, EventFile, JobStatus, ReplayManifest, CompleteReplayJobParams,
  UpdateEventFileStatsParams,
}
use market_replay.Store.Memory.{
  MemoryRepository, Returns, get_replay_job, get_event_file, update_event_file_stats,
  update_replay_job_status, update_replay_checkpoint, update_replay_manifest, complete_replay_job,
}
use market_replay.Worker.{context_failed, store_failed, Setting, Work}

module _ (g : Setting) where
  -- A call of the repository: the other clients have acted before it.
  unfoldable pub perform : {A : Type 0} → (ℕ → MemoryRepository → Returns A) → Work A
  perform call w =
      let out = call w.step (g.others w.step w.repo) in
      (
        record { repo = out.0; step = w.step + 1 },
        elim out.1 [ ok a ↦ ok a | err e ↦ err (store_failed e) ],
      )

  -- `if err := ctx.Err(); err != nil { return err }`
  unfoldable pub poll : Work (Unit {0})
  poll w = (
    record { repo = w.repo; step = w.step + 1 },
    elim (g.ctx w.step) [ none ↦ ok tt | some e ↦ err (context_failed e) ],
  )

  unfoldable pub read_job : String → Work ReplayJob
  unfolding perform
  read_job id = perform (λ k r. (r, get_replay_job id r))

  unfoldable pub read_file : String → Work EventFile
  unfolding perform
  read_file id = perform (λ k r. (r, get_event_file id r))

  unfoldable pub set_status : String → JobStatus → String → Work ReplayJob
  unfolding perform
  set_status id status last_error =
      perform (λ k r. update_replay_job_status id status last_error (g.clock k) r)

  unfoldable pub set_checkpoint : String → ℤ → Work (Unit {0})
  unfolding perform
  set_checkpoint id line = perform (λ k r. update_replay_checkpoint id line r)

  unfoldable pub set_stats : String → UpdateEventFileStatsParams → Work EventFile
  unfolding perform
  set_stats id params = perform (λ k r. update_event_file_stats id params r)

  unfoldable pub set_manifest : String → ReplayManifest → Work ReplayJob
  unfolding perform
  set_manifest id manifest = perform (λ k r. update_replay_manifest id manifest r)

  unfoldable pub complete : String → CompleteReplayJobParams → Work ReplayJob
  unfolding perform
  complete id params = perform (λ k r. complete_replay_job (g.new_id k) (g.clock k) id params r)
