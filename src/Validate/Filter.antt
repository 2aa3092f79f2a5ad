-- ===== src/Validate/Filter.antt =====
-- The symbol filter of a validator against a filter on its input.
use market_replay.Prelude.{String, Bool, true, not, List, [], ◌∷◌, none, some, ◌≡◌, if◌then◌else◌}
use market_replay.Parser.Record.{Record}
use market_replay.Validate.{Validator, filtered_out}

-- The rows that a filter for `wanted` lets through: the malformed ones too.
abbrev pub kept : String → Record → Bool
kept wanted r = elim r.err [ some e ↦ true | none ↦ not (filtered_out wanted r.event) ]

abbrev pub keep : String → List Record → List Record
keep wanted [] = []
keep wanted (r ∷ rs) = if kept wanted r then r ∷ keep wanted rs else keep wanted rs

-- Equal marks, whatever the filters.
abbrev EqualMarks : Validator → Validator → Type 0
EqualMarks v w =
    (v.last_time_ms ≡ w.last_time_ms)
    × (v.last_depth ≡ w.last_depth)
    × (v.last_trade ≡ w.last_trade)
