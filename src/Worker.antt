-- ===== src/Worker.antt =====
-- internal/worker/handler.go: the handler that replays a job, and the steps that it is made of.
-- The handler shares the repository with other clients: `others k` is what they do to it before the
-- handler's action number `k`, `ctx k` what `ctx.Err()` returns there, `clock k` the time there.
pub mod Outcome
pub mod Actions
pub mod Handler
pub mod Framing
pub mod Running
pub mod Touching
pub mod Reading
pub mod Replies
pub mod Triples
pub mod Undisturbed
pub mod Completes
pub mod Recording
pub mod Finishing
pub mod Liveness
pub mod Server
use market_replay.Prelude.{
  ℕ, ◌+◌, ◌*◌, ◌-◌, ◌/◌, ◌^◌, max, String, Bool, true, false, ◌&&◌, List, Option, none, some,
  if◌then◌else◌, ◌==◌, ltb, ◌≡◌, refl,
}
use market_replay.Prelude.Int.{ℤ, pos, leb_ℤ}
use market_replay.Prelude.Result.{Result, ok, err}
use market_replay.Error.{Error}
use market_replay.Parser.Text.{Unicode}
use market_replay.Parser.Jsonl.{JsonEvent}
use market_replay.Parser.Stream.{Input}
use market_replay.Store.{StoreError}
use market_replay.Store.Memory.{MemoryRepository, Returns}
use market_replay.Queue.{default_queue}

pub record ReplayHandlerConfig : Type 0 where
  pub dead_letter_name : String
  pub checkpoint_every : ℤ
  pub queue : String

-- The defaults of `NewReplayHandler`.
unfoldable pub new_replay_handler : ReplayHandlerConfig → ReplayHandlerConfig
new_replay_handler cfg = record {
  dead_letter_name = if cfg.dead_letter_name == "" then "asynq-archive" else cfg.dead_letter_name;
  checkpoint_every = if leb_ℤ cfg.checkpoint_every (pos 0) then pos 256 else cfg.checkpoint_every;
  queue = if cfg.queue == "" then default_queue else cfg.queue;
}

-- `ctx.Err()`
pub data ContextError : Type 0 where
  context_canceled deadline_exceeded : ContextError

-- What stops a replay; a handler that finds its job canceled returns `context.Canceled`.
-- `out_of_fuel` is the model's: the loop over the stream had no fuel left.
pub data Failure : Type 0 where
  store_failed : StoreError → Failure
  parser_failed : Error → Failure
  os_failed : String → Failure
  context_failed : ContextError → Failure
  out_of_fuel : Failure

-- What the operating system gives for a path: the contents, the size, and the SHA-256 of the contents.
pub record OpenFile : Type 0 where
  pub input : Input
  pub size : ℤ
  pub sha256 : String

-- What is measured of time and memory.
pub record Meter : Type 0 where
  pub started : ℤ
  pub ended : ℤ
  pub elapsed : ℤ
  pub peak_alloc : ℕ
  -- `float64(n) / duration.Seconds()`
  pub rate : ℤ → ℤ → ℕ
  pub allocs_per_event : ℤ → ℕ

-- What the handler meets: libraries, files, the clock, its context and the other clients.
-- `every` is the positive CheckpointEvery, `fuel` the rounds that the loop over a file may take, and
-- `new_id k i` the identifier number `i` that is drawn at the action `k`.
pub record Setting : Type 0 where
  pub unicode : Unicode
  pub decode : String → Result String JsonEvent
  pub unmarshal : String → Result String String
  pub ext : String → String
  pub files : String → Result String OpenFile
  pub error_text : Failure → String
  pub meter : Meter
  pub every : ℕ
  pub fuel : ℕ
  pub others : ℕ → MemoryRepository → MemoryRepository
  pub clock : ℕ → ℤ
  pub ctx : ℕ → Option ContextError
  pub new_id : ℕ → ℕ → String

pub record World : Type 0 where
  pub repo : MemoryRepository
  pub step : ℕ

abbrev pub Work : Type 0 → Type 0
Work A = World → World × Result Failure A

infixl 5 ◌>>=◌
unfoldable pub ◌>>=◌ : {A B : Type 0} → Work A → (A → Work B) → Work B
◌>>=◌ m f w = elim ((m w).1) [ err e ↦ ((m w).0, err e) | ok a ↦ f a (m w).0 ]

unfoldable pub pure : {A : Type 0} → A → Work A
pure a w = (w, ok a)

unfoldable pub fail : {A : Type 0} → Failure → Work A
fail e w = (w, err e)
