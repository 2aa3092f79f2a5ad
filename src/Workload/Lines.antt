-- ===== src/Workload/Lines.antt =====
-- internal/workload/generator.go: what generateJSONL writes.
use Prim.Native.String.{len}
use market_replay.Prelude.{
  ℕ, ◌+◌, ◌<◌, ◌≤◌, ◌^◌, String, List, [], ◌∷◌, some, ◌≡◌, refl, ap, get_elem?,
}
use market_replay.Prelude.Int.{pos}
use market_replay.Prelude.Result.{ok}
use market_replay.Workload.{GenerateOptions, new_result, Progress}
use market_replay.Workload.Jsonl.{
  JsonObjects, new_jsonl_normalizer, normalize_jsonl, generate_jsonl,
}
use market_replay.Workload.Written.{total_size}
use market_replay.Workload.Loop.{IsProgress, write_passes-IsProgress}

-- Generating JSON lines from a source that has lines, none of which is normalized to an empty line or to more
-- than `most` bytes: with more fuel than bytes are asked for it ends, and has written at least the bytes
-- asked for, counted exactly, and less than the longest line too many. Line k that was written is line i of
-- the source in cycle c, normalized at k, where k is c times the lines of the source and i.
pub generate_jsonl-IsProgress :
    {O : Type 0} (json : JsonObjects O) (fuel target most : ℕ) (opts : GenerateOptions)
    (line : String) (lines : List String)
    → opts.target_bytes ≡ pos target
    → target + most < 2 ^ 63
    → 0 < target + most
    → ((i k : ℕ) (source : String)
        → get_elem? (line ∷ lines) i ≡ some source
        → (1 ≤ len (normalize_jsonl json (new_jsonl_normalizer json (line ∷ lines)) source (pos k)))
          × (len (normalize_jsonl json (new_jsonl_normalizer json (line ∷ lines)) source (pos k))
              ≤ most))
    → target < fuel
    → (q : Progress String) × (generate_jsonl json fuel opts (ok (line ∷ lines)) ≡ ok (some q))
      × IsProgress
          (normalize_jsonl json (new_jsonl_normalizer json (line ∷ lines)))
          len
          0
          target
          most
          (line ∷ lines)
          q
      × (target ≤ 0 + total_size len q.written)
unfolding generate_jsonl
generate_jsonl-IsProgress json fuel target most opts line lines aim fits room sized fuelled =
    let (q, ran, progress, enough) =
      write_passes-IsProgress (normalize_jsonl json (new_jsonl_normalizer json (line ∷ lines))) len
        0 target most (line ∷ lines) fits sized fuel line lines
        (record { written = []; result = new_result opts }) refl refl aim refl refl room fuelled in
    (q, ap (λ p. ok p) ran, progress, enough)
