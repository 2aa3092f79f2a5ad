-- ===== src/Worker/Undisturbed.antt =====
-- internal/worker/handler.go: reading a file when the handler has the repository for itself.
use market_replay.Prelude.{
  ℕ, zero, suc, ◌<◌, length, List, if-elim₂, String, none, some, ◌≡◌, refl, sym, ◌∙◌, subst,
  if-elim, arith,
}
use market_replay.Prelude.Int.{ℤ, leb_ℤ}
use market_replay.Prelude.Dict.{lookup, insert, lookup-insert_self}
use market_replay.Prelude.Result.{ok}
use market_replay.Store.{running, ReplayJob}
use market_replay.Store.Memory.{
  MemoryRepository, Returns, get_replay_job, update_replay_checkpoint, with_checkpoint,
}
use market_replay.Store.History.{IsLater, IsLater-trans}
use market_replay.Store.Growth.{with_checkpoint-IsLater}
use market_replay.Parser.Record.{Record}
use market_replay.Parser.Stream.{Stream, Contents, at_eof, more}
use market_replay.Validate.{Validator, process, prime}
use market_replay.Worker.Handler.{stop_if_canceled, at_checkpoint, file_round, file_loop, divides}
use market_replay.Worker.Reading.{feed_all, last_line}
use market_replay.Worker.{Setting, Work, pure}
use market_replay.Worker.Actions.{poll, read_job, set_checkpoint}
use market_replay.Worker.Triples.{IsQuiet, Does, >>=-Does, pure-Does, perform-Does, poll-Does}

-- The repository while the job `id` is replayed: the job is running and is `job` up to its checkpoint,
-- and files, metrics and errors are those of `r0`.
pub record IsDuring (r0 : MemoryRepository) (id : String) (job : ReplayJob) (r : MemoryRepository)
    : Type 0 where
  pub same_files : r.event_files ≡ r0.event_files
  pub same_metrics : r.metrics ≡ r0.metrics
  pub same_errors : r.errors ≡ r0.errors
  pub current : ReplayJob
  pub there : lookup id r.jobs ≡ some current
  pub is_running : current.status ≡ running
  pub later : IsLater job current

with_checkpoint-status :
    (line : ℤ) (job : ReplayJob) → (with_checkpoint line job).status ≡ job.status
unfolding with_checkpoint
with_checkpoint-status line job = ground arith

update_replay_checkpoint_found :
    (id : String) (line : ℤ) (r : MemoryRepository) (job : ReplayJob)
    → lookup id r.jobs ≡ some job
    → update_replay_checkpoint id line r
      ≡ (record r { jobs = insert id (with_checkpoint line job) r.jobs }, ok tt)
unfolding update_replay_checkpoint
update_replay_checkpoint_found id line r job h = ground (arith, h)

module _ (g : Setting) (quiet : IsQuiet g) (r0 : MemoryRepository) (id : String)
    (job : ReplayJob) where
  pub set_checkpoint-Does :
      (line : ℤ)
      → Does (IsDuring r0 id job) (λ _ r. IsDuring r0 id job r) (set_checkpoint g id line)
  unfolding set_checkpoint
  set_checkpoint-Does line =
      perform-Does g quiet (λ k r. update_replay_checkpoint id line r)
        (λ k r d.
          subst
            (λ (out : Returns (Unit {0})).
              (a : Unit {0}) × (out.1 ≡ ok a) × IsDuring r0 id job out.0)
            (sym (update_replay_checkpoint_found id line r d.current d.there))
            (
              tt,
              refl,
              record {
                same_files = d.same_files;
                same_metrics = d.same_metrics;
                same_errors = d.same_errors;
                current = with_checkpoint line d.current;
                there = lookup-insert_self id (with_checkpoint line d.current) r.jobs;
                is_running = with_checkpoint-status line d.current ∙ d.is_running;
                later =
                    IsLater-trans job d.current (with_checkpoint line d.current) d.later
                      (with_checkpoint-IsLater line d.current);
              },
            ))

  pub read_job-Does :
      Does (IsDuring r0 id job) (λ j r. (j.status ≡ running) × IsDuring r0 id job r) (read_job g id)
  unfolding read_job get_replay_job
  read_job-Does =
      perform-Does g quiet (λ k r. (r, get_replay_job id r))
        (λ k r d. (d.current, ground (arith, d.there), (d.is_running, d)))

  at_checkpoint-Does :
      (line : ℤ) → Does (IsDuring r0 id job) (λ _ r. IsDuring r0 id job r) (at_checkpoint g id line)
  unfolding at_checkpoint pure
  at_checkpoint-Does line =
      if-elim (Does (IsDuring r0 id job) (λ _ r. IsDuring r0 id job r)) (divides g.every line)
        (>>=-Does (set_checkpoint g id line) _ (set_checkpoint-Does line) (λ _.
          >>=-Does (read_job g id) _ read_job-Does (λ j. record {
            outcome = λ w p.
                subst
                  (λ status.
                    (a : Unit {0}) × ((stop_if_canceled g status w).1 ≡ ok a)
                    × IsDuring r0 id job (stop_if_canceled g status w).0.repo)
                  (sym p.0) (tt, refl, p.1);
          })))
        (pure-Does tt (λ r d. d))

  -- The loop over a stream that ends without an error comes to its end.
  pub file_loop-Does :
      {s : Stream} {rs : List Record}
      → Contents g.unicode g.decode s rs none
      → (n : ℕ) (checkpoint : ℤ) (v : Validator) (last : ℤ) → length rs < n
      → Does
          (IsDuring r0 id job)
          (λ done r. (done ≡ (feed_all checkpoint v rs, last_line last rs)) × IsDuring r0 id job r)
          (file_loop g n id checkpoint v last s)
  unfolding file_loop file_round feed_all last_line
  file_loop-Does c zero checkpoint v last h = elim h [ ]
  file_loop-Does (at_eof p) (suc n) checkpoint v last h =
      >>=-Does (poll g) _ (poll-Does g quiet) (λ _. rw p (pure-Does (v, last) (λ r d. (refl, d))))
  file_loop-Does {rs} (more {t} {r} {rs = rest} p c) (suc n) checkpoint v last h =
      >>=-Does (poll g) _ (poll-Does g quiet) (λ _. rw p (
        if-elim₂
          (λ v' (m : Work (Validator × ℤ)).
            Does (IsDuring r0 id job)
              (λ done x.
                (done ≡ (feed_all checkpoint v' rest, last_line r.line rest))
                × IsDuring r0 id job x)
              m)
          (leb_ℤ r.line checkpoint) (file_loop-Does c n checkpoint (prime v r) r.line (omega arith))
          (>>=-Does (at_checkpoint g id r.line) _ (at_checkpoint-Does r.line)
            (λ _. file_loop-Does c n checkpoint (process v r) r.line (omega arith)))))
