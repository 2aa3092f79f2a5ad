-- ===== src/Prelude/Dict.antt =====
-- A Go map with string keys, as an association list with one entry for each key.
use market_replay.Prelude.Tests.{if◌then◌else◌, if-elim, Bool-cases}
use Prim.Native.String.{String}
use mathlib.Core.Path.{◌≡◌, refl, sym, subst}
use mathlib.Core.Logic.{inl, inr}
use mathlib.Core.List.{List, [], ◌∷◌}
use mathlib.Core.Option.{Option, none, some}
use native.Mathlib.Omega.{arith}
use text.Mathlib.Text.{◌==◌}
use text.Mathlib.TextEquality.{eq_iff}
use text.Mathlib.TextPositions.{eq_refl}

abbrev pub Dict {ℓ} : Type ℓ → Type ℓ
Dict V = List (String × V)

module _ {ℓ} {V : Type ℓ} where
  -- `m[key]`, with the test of the comma-ok form.
  unfoldable pub lookup : String → Dict V → Option V
  lookup wanted [] = none
  lookup wanted ((key, value) ∷ rest) = if key == wanted then some value else lookup wanted rest

  pub lookup-nil : (key : String) → lookup key [] ≡ none
  unfolding lookup
  lookup-nil key = refl

  -- `m[key]`, with the zero value `zero_value` for a missing key.
  abbrev pub get_or : String → V → Dict V → V
  get_or key zero_value m = elim (lookup key m) [ some value ↦ value | none ↦ zero_value ]

  -- `m[key] = new`
  unfoldable pub insert : String → V → Dict V → Dict V
  insert key new [] = (key, new) ∷ []
  insert key new ((old_key, old) ∷ rest) =
      if old_key == key then (old_key, new) ∷ rest else (old_key, old) ∷ insert key new rest

  pub lookup-insert :
      (key wanted : String) (new : V) (m : Dict V)
      → lookup wanted (insert key new m) ≡ (if key == wanted then some new else lookup wanted m)
  unfolding lookup insert
  lookup-insert key wanted new [] = refl
  lookup-insert key wanted new ((old_key, old) ∷ rest) = ground (
    arith,
    lookup-insert key wanted new rest,
    eq_iff old_key key,
    eq_iff old_key wanted,
    eq_iff key wanted,
  )

  pub lookup-insert_self :
      (key : String) (new : V) (m : Dict V) → lookup key (insert key new m) ≡ some new
  lookup-insert_self key new m = rw (lookup-insert key key new m, eq_refl key)

  unfoldable pub HasKey : String → Dict V → Type ℓ
  HasKey key m = (value : V) × (lookup key m ≡ some value)

  pub HasKey-insert :
      (wanted key : String) (new : V) (m : Dict V)
      → HasKey wanted m
      → HasKey wanted (insert key new m)
  unfolding HasKey
  HasKey-insert wanted key new m (value, h) =
      subst (λ o. (v : V) × (o ≡ some v)) (sym (lookup-insert key wanted new m))
        (if-elim (λ o. (v : V) × (o ≡ some v)) (key == wanted) (new, refl) (value, h))

  -- Every entry of the map has the property.
  abbrev pub Every {κ} : (String → V → Type κ) → Dict V → Type (ℓ ⊔ κ)
  Every P m = (key : String) (value : V) → lookup key m ≡ some value → P key value

  pub Every-nil {κ} : (P : String → V → Type κ) → Every P []
  unfolding lookup
  Every-nil P key value h = cc

  pub Every-insert {κ} :
      (P : String → V → Type κ) (key : String) (new : V) (m : Dict V)
      → P key new
      → Every P m
      → Every P (insert key new m)
  Every-insert P key new m p all wanted value h = elim (Bool-cases (key == wanted)) [
    | inl same ↦
        let same_key : key ≡ wanted = (eq_iff key wanted).0 same in
        let same_value : new ≡ value = ground (arith, same, lookup-insert key wanted new m) in
        subst (λ k. P k value) same_key (subst (P key) same_value p)
    | inr other ↦ all wanted value (ground (arith, other, lookup-insert key wanted new m))
  ]
