-- ===== src/Store/ErrorTypes.antt =====
-- internal/store/reports.go: validationErrorTypes lists each kind once.
use market_replay.Prelude.{
  ℕ, String, Bool, false, not, ◌||◌, ◌&&◌, List, [], ◌∷◌, none, some, if◌then◌else◌, ◌==◌, ◌≡◌,
  refl, ◌∙◌, count, count-append, arith, eq_iff,
}
use market_replay.Prelude.Dict.{Dict, lookup, lookup-insert, lookup-nil}
use market_replay.Store.{ValidationError}
use market_replay.Store.Lineage.{
  note_type, note_types, sorted_text, sort_strings, validation_error_types,
}

-- Some error has the kind.
abbrev pub has_type : String → List ValidationError → Bool
has_type type [] = false
has_type type (e ∷ es) = e.type == type || has_type type es

-- How often a text is listed.
abbrev pub times : String → List String → ℕ
times type = count (λ s. s == type)

-- How often a kind is listed in the end, from what was seen and what is to come.
abbrev listed : String → Dict (Unit {0}) → List ValidationError → ℕ
listed type seen es = elim (lookup type seen) [
  | some _ ↦ 1
  | none ↦ if not (type == "") && has_type type es then 1 else 0
]

abbrev seen_times : String → Dict (Unit {0}) → ℕ
seen_times type seen = elim (lookup type seen) [ some _ ↦ 1 | none ↦ 0 ]

times-sorted_text :
    (type s : String) (ss : List String) → times type (sorted_text s ss) ≡ times type (s ∷ ss)
times-sorted_text type s [] = refl
times-sorted_text type s (t ∷ ts) = ground (arith, times-sorted_text type s ts)

times-sort_strings :
    (type : String) (ss : List String) → times type (sort_strings ss) ≡ times type ss
times-sort_strings type [] = refl
times-sort_strings type (s ∷ ss) =
    ground (arith, times-sorted_text type s (sort_strings ss), times-sort_strings type ss)

-- One round keeps the count of what was seen.
note_type-times :
    (type new : String) (seen : Dict (Unit {0})) (types : List String)
    → times type types ≡ seen_times type seen
    → times type (note_type new (seen, types)).1 ≡ seen_times type (note_type new (seen, types)).0
unfolding note_type
note_type-times type new seen types h = ground (
  arith,
  h,
  lookup-insert new type tt seen,
  count-append (λ s. s == type) types (new ∷ []),
  eq_iff new type,
)

note_type-listed :
    (type : String) (e : ValidationError) (es : List ValidationError) (seen : Dict (Unit {0}))
    (types : List String)
    → listed type (note_type e.type (seen, types)).0 es ≡ listed type seen (e ∷ es)
unfolding note_type
note_type-listed type e es seen types =
    ground (
      arith,
      lookup-insert e.type type tt seen,
      eq_iff e.type type,
      eq_iff e.type "",
      eq_iff type "",
    )

note_types-times :
    (type : String) (es : List ValidationError) (seen : Dict (Unit {0})) (types : List String)
    → times type types ≡ seen_times type seen
    → times type (note_types es (seen, types)) ≡ listed type seen es
unfolding note_types
note_types-times type [] seen types h = ground (arith, h)
note_types-times type (e ∷ es) seen types h =
    note_types-times type es (note_type e.type (seen, types)).0 (note_type e.type (seen, types)).1
      (note_type-times type e.type seen types h)
    ∙ note_type-listed type e es seen types

-- A kind that is not empty and that some error has is listed once, any other text is not listed.
pub times-validation_error_types :
    (type : String) (es : List ValidationError)
    → times type (validation_error_types es)
      ≡ (if not (type == "") && has_type type es then 1 else 0)
unfolding validation_error_types
times-validation_error_types type es =
    times-sort_strings type (note_types es ([], []))
    ∙ (note_types-times type es [] [] (ground (arith, lookup-nil {V = Unit {0}} type))
        ∙ ground (arith, lookup-nil {V = Unit {0}} type))
