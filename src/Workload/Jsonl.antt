-- ===== src/Workload/Jsonl.antt =====
-- internal/workload/generator.go: workloads of JSON lines. A decoded object is a parameter, as are its fields, which
-- come by way of a float64, and its encoding.
use Prim.Native.String.{◌++◌, len}
use market_replay.Prelude.{
  ◌==◌, ℕ, String, Bool, true, false, not, ◌||◌, List, [], ◌∷◌, Option, none, some, if◌then◌else◌,
  map,
}
use market_replay.Prelude.Int.{ℤ, pos, leb_ℤ, add64, sub64, inc64}
use market_replay.Prelude.Result.{Result, ok, err}
use market_replay.Workload.{GenerateOptions, new_result, mul64, quot64, Progress, write_passes}

-- `json.Unmarshal` into a map, its fields by jsonInt, and json.Marshal of the map with three fields set.
pub record JsonObjects (O : Type 0) : Type 0 where
  pub unmarshal : String → Option O
  pub event_type : O → Option String
  pub int_field : String → O → Option ℤ
  pub marshal_with : (first final time : ℤ) → O → Option String

-- `obj["event_type"] == "depth"`
abbrev pub is_depth : Option String → Bool
is_depth none = false
is_depth (some type) = type == "depth"

pub record JsonlNormalizer : Type 0 where
  pub enabled : Bool
  pub base_first_id : ℤ
  pub last_final_id : ℤ
  pub base_time : ℤ
  pub last_event_time : ℤ
  pub row_count : ℤ

-- `jsonlNormalizer{}`
abbrev pub no_jsonl_normalizer : JsonlNormalizer
no_jsonl_normalizer = record {
  enabled = false;
  base_first_id = pos 0;
  last_final_id = pos 0;
  base_time = pos 0;
  last_event_time = pos 0;
  row_count = pos 0;
}

module _ {O : Type 0} (json : JsonObjects O) where
  -- The three numbers of an object, where all are there.
  abbrev pub depth_numbers : O → Option (ℤ × ℤ × ℤ)
  depth_numbers obj = elim (json.int_field "first_update_id" obj) [
    | none ↦ none
    | some first ↦ elim (json.int_field "final_update_id" obj) [
      | none ↦ none
      | some final ↦ elim (json.int_field "event_time" obj) [
        | none ↦ none
        | some time ↦ some (first, final, time)
      ]
    ]
  ]

  -- From `if !normalizer.enabled` on.
  unfoldable pub note_depth : ℤ × ℤ × ℤ → JsonlNormalizer → JsonlNormalizer
  note_depth (first, final, time) n =
      record (if n.enabled
        then n
        else record n { enabled = true; base_first_id = first; base_time = time }) {
          last_final_id = final;
          last_event_time = time;
          row_count = inc64 n.row_count;
        }

  unfoldable pub note_lines : List String → JsonlNormalizer → JsonlNormalizer
  note_lines [] n = n
  note_lines (line ∷ lines) n = elim (json.unmarshal line) [
    | none ↦ no_jsonl_normalizer
    | some obj ↦
        if not (is_depth (json.event_type obj))
        then no_jsonl_normalizer
        else elim (depth_numbers obj) [
          | none ↦ no_jsonl_normalizer
          | some numbers ↦ note_lines lines (note_depth numbers n)
        ]
  ]

  unfoldable pub new_jsonl_normalizer : List String → JsonlNormalizer
  new_jsonl_normalizer lines = note_lines lines no_jsonl_normalizer

  -- From `sequenceSpan :=` on.
  unfoldable pub shift_depth : JsonlNormalizer → String → ℤ → O → ℤ × ℤ × ℤ → String
  shift_depth n line row obj (first, final, time) =
      let sequence_span = add64 (sub64 n.last_final_id n.base_first_id) (pos 1) in
      let time_span = add64 (sub64 n.last_event_time n.base_time) (pos 1) in
      let cycle = quot64 row n.row_count in
      if leb_ℤ sequence_span (pos 0) || leb_ℤ time_span (pos 0)
      then line
      else elim (json.marshal_with (add64 first (mul64 cycle sequence_span))
          (add64 final (mul64 cycle sequence_span)) (add64 time (mul64 cycle time_span)) obj) [
            | none ↦ line
            | some encoded ↦ encoded ++ "\n"
          ]

  unfoldable pub normalize_jsonl : JsonlNormalizer → String → ℤ → String
  normalize_jsonl n line row = if not n.enabled then line else elim (json.unmarshal line) [
    | none ↦ line
    | some obj ↦ elim (depth_numbers obj) [
      | none ↦ line
      | some numbers ↦ shift_depth n line row obj numbers
    ]
  ]

  -- What generateJSONL fails with.
  pub data JsonlError : Type 0 where
    scan_failed : String → JsonlError
    no_lines : JsonlError

  -- `readLines`, of what the scanner delivers.
  unfoldable pub read_lines : List String → Option String → Result String (List String)
  read_lines lines (some e) = err e
  read_lines lines none = ok (map (λ line. line ++ "\n") lines)

  unfoldable pub generate_jsonl :
      ℕ
      → GenerateOptions
      → Result String (List String)
      → Result JsonlError (Option (Progress String))
  generate_jsonl fuel opts (err e) = err (scan_failed e)
  generate_jsonl fuel opts (ok []) = err no_lines
  generate_jsonl fuel opts (ok (line ∷ lines)) = ok (
      write_passes (normalize_jsonl (new_jsonl_normalizer (line ∷ lines))) len fuel (line ∷ lines)
        (record { written = []; result = new_result opts }))
