-- ===== src/Queue.antt =====
-- internal/queue/replay.go: submitting replay jobs to the task queue.
-- The queue's client, JSON and SHA-256 are parameters of the operations that call them.
pub mod Submit
use Prim.Native.String.{len, ◌++◌}
use market_replay.Prelude.{
  ℕ, ◌*◌, String, Bool, true, false, not, ◌&&◌, List, [], ◌∷◌, Option, none, some, if◌then◌else◌,
  ◌==◌, ltb,
}
use market_replay.Prelude.Int.{ℤ, pos, leb_ℤ, eqb_ℤ}
use market_replay.Prelude.Result.{Result, ok, err, ◌>>=◌}
use market_replay.Parser.Text.{Unicode}
use market_replay.Store.{ReplayJob}

abbrev pub type_replay_job : String
type_replay_job = "replay:run"

abbrev pub default_queue : String
default_queue = "replay"

-- Nanoseconds, as in `time.Duration`.
abbrev pub second : ℕ
second = 1000000000

pub record ReplayPayload : Type 0 where
  pub job_id : String

pub record ReplayEnqueueConfig : Type 0 where
  pub queue : String
  pub max_retry : ℤ
  pub timeout : ℤ
  pub unique_ttl : ℤ
  pub task_id_prefix : String
  pub retry_backoff : ℤ
  pub dead_letter_name : String

-- `asynq.NewTask`
pub record Task : Type 0 where
  pub type : String
  pub payload : String

pub data TaskOption : Type 0 where
  queue_option task_id_option : String → TaskOption
  max_retry_option timeout_option unique_option : ℤ → TaskOption

pub data PayloadError : Type 0 where
  job_id_missing : PayloadError
  json_failed : String → PayloadError

-- What `EnqueueContext` fails with.
pub data ClientError : Type 0 where
  duplicate_task task_id_conflict : ClientError
  client_failed : String → ClientError

unfoldable pub with_defaults : ReplayEnqueueConfig → ReplayEnqueueConfig
with_defaults c = record {
  queue = if c.queue == "" then default_queue else c.queue;
  max_retry = if eqb_ℤ c.max_retry (pos 0) then pos 3 else c.max_retry;
  timeout = if eqb_ℤ c.timeout (pos 0) then pos (1800 * second) else c.timeout;
  unique_ttl = if eqb_ℤ c.unique_ttl (pos 0) then pos (86400 * second) else c.unique_ttl;
  task_id_prefix = if c.task_id_prefix == "" then "replay-job:" else c.task_id_prefix;
  retry_backoff = if eqb_ℤ c.retry_backoff (pos 0) then pos (15 * second) else c.retry_backoff;
  dead_letter_name = if c.dead_letter_name == "" then "asynq-archive" else c.dead_letter_name;
}

unfoldable pub encode_replay_payload :
    Unicode → (String → Result String String) → ReplayPayload → Result PayloadError String
encode_replay_payload u marshal payload =
    if u.trim_space payload.job_id == ""
    then err job_id_missing
    else elim (marshal payload.job_id) [ ok data_text ↦ ok data_text | err e ↦ err (json_failed e) ]

-- `unmarshal` gives the `job_id` of the text, empty where it has none.
unfoldable pub decode_replay_payload :
    Unicode → (String → Result String String) → String → Result PayloadError ReplayPayload
decode_replay_payload u unmarshal data_text = elim (unmarshal data_text) [
  | err e ↦ err (json_failed e)
  | ok job_id ↦
      if u.trim_space job_id == "" then err job_id_missing else ok (record { job_id = job_id })
]

unfoldable pub task_id : (String → String) → ReplayEnqueueConfig → ReplayJob → String
task_id sha256_hex cfg job =
    if job.idempotency_key == ""
    then cfg.task_id_prefix ++ job.id
    else cfg.task_id_prefix
      ++ (if ltb 96 (len job.idempotency_key)
          then sha256_hex job.idempotency_key
          else job.idempotency_key)

abbrev pub append_if {ℓ} : {A : Type ℓ} → Bool → A → List A → List A
append_if true x rest = x ∷ rest
append_if false x rest = rest

unfoldable pub options_for_job :
    (String → String) → ReplayEnqueueConfig → ReplayJob → List TaskOption
options_for_job sha256_hex cfg job =
    queue_option cfg.queue
    ∷ max_retry_option cfg.max_retry
    ∷ timeout_option cfg.timeout
    ∷ append_if (not (task_id sha256_hex cfg job == ""))
        (task_id_option (task_id sha256_hex cfg job))
        (append_if (not (job.idempotency_key == "") && leb_ℤ (pos second) cfg.unique_ttl)
          (unique_option cfg.unique_ttl) [])
