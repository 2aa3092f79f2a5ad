-- ===== src/Store/Abstract.antt =====
-- internal/store/store.go and memory.go: the calls of `Repository` that change rows, specified on maps as
-- functions from keys to rows, field by field. Nothing here says how a repository stores its rows, and
-- nothing here uses the code's own changes of a row.
use market_replay.Prelude.{
  String, List, [], ◌∷◌, ◌++◌, Option, none, some, if◌then◌else◌, ◌==◌, ℕ, suc, Bool, true, false,
}
use market_replay.Prelude.Int.{ℤ, pos, inc64, ltb_ℤ, leb_ℤ, eqb_ℤ}
use market_replay.Store.{
  Dataset, EventFile, ReplayJob, ReplayMetric, ValidationError, StoreError, not_found,
  already_exists, zero_job, UpdateEventFileStatsParams, CreateReplayJobParams,
  CreateEventFileParams, JobStatus, queued, running, completed, failed, canceled, dlq,
  zero_manifest,
}
use market_replay.Store.Calls.{
  Call, create_dataset_call, create_event_file_call, update_event_file_stats_call,
  create_replay_job_call, update_replay_job_status_call, update_replay_checkpoint_call,
  update_replay_manifest_call, complete_replay_job_call, cancel_replay_job_call,
}

pub record Contract : Type 0 where
  pub dataset_at : String → Option Dataset
  pub file_at : String → Option EventFile
  pub job_at : String → Option ReplayJob
  pub id_of_key : String → Option String
  pub metrics_of : String → List ReplayMetric
  pub errors_of : String → List ValidationError

-- A function, changed at one key.
abbrev pub at_key {ℓ} : {A : Type ℓ} → String → A → (String → A) → String → A
at_key key new f wanted = if key == wanted then new else f wanted

-- What a call answers.
pub data Answer : Type 0 where
  dataset_answer : Dataset → Answer
  file_answer : EventFile → Answer
  job_answer : ReplayJob → Answer
  no_answer : Answer
  refused : StoreError → Answer

abbrev pub job_or_zero : Option ReplayJob → ReplayJob
job_or_zero found = elim found [ none ↦ zero_job | some job ↦ job ]

-- The change of a job that is there.
abbrev pub at_job :
    (ReplayJob → ReplayJob) → (ReplayJob → Answer) → String → Contract → Contract × Answer
at_job change answer id s = elim (s.job_at id) [
  | none ↦ (s, refused not_found)
  | some job ↦ (record s { job_at = at_key id (some (change job)) s.job_at }, answer (change job))
]

-- The job that a key names, where keys are used.
abbrev pub keyed_id : String → Contract → Option String
keyed_id key s = if key == "" then none else s.id_of_key key

-- A file, with the statistics that are given: a hash that is not empty, counts that are not negative.
abbrev pub measured : UpdateEventFileStatsParams → EventFile → EventFile
measured params file = record {
  id = file.id;
  dataset_id = file.dataset_id;
  path = file.path;
  format = file.format;
  symbol = file.symbol;
  bytes = if ltb_ℤ params.bytes (pos 0) then file.bytes else params.bytes;
  sha256 = if params.sha256 == "" then file.sha256 else params.sha256;
  rows = if ltb_ℤ params.rows (pos 0) then file.rows else params.rows;
  created_at = file.created_at;
}

abbrev pub registered : String → ℤ → CreateEventFileParams → EventFile
registered id now params = record {
  id = id;
  dataset_id = params.dataset_id;
  path = params.path;
  format = params.format;
  symbol = params.symbol;
  bytes = params.bytes;
  sha256 = params.sha256;
  rows = params.rows;
  created_at = now;
}

-- A job that waits, from line 0.
abbrev pub waiting : String → ℤ → CreateReplayJobParams → ReplayJob
waiting id now params = record {
  id = id;
  dataset_id = params.dataset_id;
  event_file_id = params.event_file_id;
  idempotency_key = params.idempotency_key;
  symbol = params.symbol;
  speed = params.speed;
  status = queued;
  attempts = pos 0;
  last_error = "";
  checkpoint_line = pos 0;
  created_at = now;
  started_at = none;
  completed_at = none;
  canceled_at = none;
  manifest = zero_manifest;
}

-- The time that a status sets: `now` for the statuses that have it, and else the old one.
abbrev starts : JobStatus → Bool
starts running = true
starts _ = false

abbrev ends : JobStatus → Bool
ends completed = true
ends failed = true
ends dlq = true
ends _ = false

abbrev cancels : JobStatus → Bool
cancels canceled = true
cancels _ = false

abbrev pub entered : JobStatus → String → ℤ → ReplayJob → ReplayJob
entered status last_error now job = record {
  id = job.id;
  dataset_id = job.dataset_id;
  event_file_id = job.event_file_id;
  idempotency_key = job.idempotency_key;
  symbol = job.symbol;
  speed = job.speed;
  status = status;
  attempts = inc64 job.attempts;
  last_error = last_error;
  checkpoint_line = job.checkpoint_line;
  created_at = job.created_at;
  started_at = if starts status then some now else job.started_at;
  completed_at = if ends status then some now else job.completed_at;
  canceled_at = if cancels status then some now else job.canceled_at;
  manifest = job.manifest;
}

-- The later of two lines.
abbrev pub later_line : ℤ → ℤ → ℤ
later_line a b = if leb_ℤ a b then b else a

-- A metric of the job, with its id and time or, where it has none, new ones.
abbrev pub filed_metric : String → String → ℤ → ReplayMetric → ReplayMetric
filed_metric new id now m = record {
  id = if m.id == "" then new else m.id;
  job_id = id;
  rows = m.rows;
  events = m.events;
  malformed_events = m.malformed_events;
  sequence_gaps = m.sequence_gaps;
  duration = m.duration;
  rows_per_second = m.rows_per_second;
  events_per_second = m.events_per_second;
  p95_latency = m.p95_latency;
  peak_alloc_bytes = m.peak_alloc_bytes;
  allocs_per_event = m.allocs_per_event;
  created_at = if eqb_ℤ m.created_at (pos 0) then now else m.created_at;
}

-- The same for the errors, where the `k`-th draws the identifier `k`.
abbrev pub filed_errors :
    (ℕ → String) → ℕ → String → ℤ → List ValidationError → List ValidationError
filed_errors new_id k id now [] = []
filed_errors new_id k id now (e ∷ es) =
    record {
      id = if e.id == "" then new_id k else e.id;
      job_id = id;
      line = e.line;
      symbol = e.symbol;
      type = e.type;
      message = e.message;
      created_at = if eqb_ℤ e.created_at (pos 0) then now else e.created_at;
    }
    ∷ filed_errors new_id (suc k) id now es

abbrev pub job_created : String → ℤ → CreateReplayJobParams → Contract → Contract × Answer
job_created id now params s = elim (keyed_id params.idempotency_key s) [
  | some old ↦ (s, refused (already_exists (job_or_zero (s.job_at old))))
  | none ↦ (
    record s {
      job_at = at_key id (some (waiting id now params)) s.job_at;
      id_of_key =
          if params.idempotency_key == ""
          then s.id_of_key
          else at_key params.idempotency_key (some id) s.id_of_key;
    },
    job_answer (waiting id now params),
  )
]

unfoldable pub promised : Call → Contract → Contract × Answer
promised (create_dataset_call id now params) s =
    let dataset : Dataset = record {
      id = id;
      name = params.name;
      description = params.description;
      created_at = now;
    } in
    (record s { dataset_at = at_key id (some dataset) s.dataset_at }, dataset_answer dataset)
promised (create_event_file_call id now params) s = elim (s.dataset_at params.dataset_id) [
  | none ↦ (s, refused not_found)
  | some dataset ↦ (
    record s { file_at = at_key id (some (registered id now params)) s.file_at },
    file_answer (registered id now params),
  )
]
promised (update_event_file_stats_call id params) s = elim (s.file_at id) [
  | none ↦ (s, refused not_found)
  | some file ↦ (
    record s { file_at = at_key id (some (measured params file)) s.file_at },
    file_answer (measured params file),
  )
]
promised (create_replay_job_call id now params) s = elim (s.dataset_at params.dataset_id) [
  | none ↦ (s, refused not_found)
  | some dataset ↦ elim (s.file_at params.event_file_id) [
    | none ↦ (s, refused not_found)
    | some file ↦ job_created id now params s
  ]
]
promised (update_replay_job_status_call id status last_error now) s =
    at_job (entered status last_error now) job_answer id s
promised (update_replay_checkpoint_call id line) s =
    at_job (λ job. record job { checkpoint_line = later_line job.checkpoint_line line })
      (λ _. no_answer) id s
promised (update_replay_manifest_call id manifest) s =
    at_job (λ job. record job { manifest = manifest }) job_answer id s
promised (complete_replay_job_call new_id now id params) s = elim (s.job_at id) [
  | none ↦ (s, refused not_found)
  | some job ↦ (
    record s {
      job_at =
          at_key id (some (record job { status = completed; completed_at = some now })) s.job_at;
      metrics_of =
          at_key id (s.metrics_of id ++ (filed_metric (new_id 0) id now params.metric ∷ []))
            s.metrics_of;
      errors_of =
          at_key id (s.errors_of id ++ filed_errors new_id 1 id now params.errors) s.errors_of;
    },
    job_answer (record job { status = completed; completed_at = some now }),
  )
]
promised (cancel_replay_job_call id now) s = at_job (entered canceled "" now) job_answer id s
