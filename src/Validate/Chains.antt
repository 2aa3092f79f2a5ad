-- ===== src/Validate/Chains.antt =====
-- Runs of events of one symbol, each linked to the one before it, and the marks that carry a run
-- across the rows of other symbols.
use market_replay.Prelude.{
  String, Bool, true, ◌&&◌, List, [], ◌∷◌, Option, none, some, ◌≡◌, refl, sym, subst, ap, ◌∙◌,
  arith, if◌then◌else◌, ◌==◌, eq_iff, eq_refl, Bool-cases, Option-cases, inl, inr,
}
use market_replay.Prelude.Int.{ℤ, ◌≤ℤ◌, eq_of_parts}
use market_replay.Prelude.Dict.{Dict, lookup, lookup-insert}
use market_replay.Event.{MarketEvent}
use market_replay.Parser.Record.{Record}
use market_replay.Validate.Effects.{raise}

-- The events of symbol `s` among the rows that `p` picks.
abbrev pub select : (Record → Bool) → String → List Record → List MarketEvent
select p s [] = []
select p s (r ∷ rs) =
    if p r && (r.event.symbol == s) then r.event ∷ select p s rs else select p s rs

-- Each event is linked to the one before it.
abbrev pub Consecutive : (MarketEvent → MarketEvent → Type 0) → List MarketEvent → Type 0
Consecutive R [] = Unit
Consecutive R (a ∷ []) = Unit
Consecutive R (a ∷ b ∷ es) = R a b × Consecutive R (b ∷ es)

pub lookup-raise :
    (k s : String) (x : ℤ) (m : Dict ℤ)
    → ((last : ℤ) → lookup k m ≡ some last → last ≤ℤ x)
    → lookup s (raise k x m) ≡ (if k == s then some x else lookup s m)
lookup-raise k s x m h = elim (Option-cases (lookup k m)) [
  | inl e ↦ rw e (lookup-insert k s x m)
  | inr (l, e) ↦ ground (arith, h l e, lookup-insert k s x m, eq_iff k s, eq_of_parts l x)
]

picked_here : (b : Bool) (k s : String) → (b && (k == s)) ≡ true → (b ≡ true) × (k ≡ s)
picked_here b k s e = ground (arith, eq_iff k s)

abbrev pub From : (ℤ → MarketEvent → Type 0) → Option ℤ → MarketEvent → Type 0
From Link none e = Unit
From Link (some last) e = Link last e

module _ (Link : ℤ → MarketEvent → Type 0) (key : MarketEvent → ℤ) (p : Record → Bool) where
  abbrev pub ChainFrom : Option ℤ → List MarketEvent → Type 0
  ChainFrom o [] = Unit
  ChainFrom o (e ∷ es) = From Link o e × ChainFrom (some (key e)) es

  abbrev pub ChainsFrom : Dict ℤ → List Record → Type 0
  ChainsFrom m rs = (s : String) → ChainFrom (lookup s m) (select p s rs)

  -- `n` is `m` after the event of `r`.
  abbrev pub Moved : Dict ℤ → Dict ℤ → Record → Type 0
  Moved m n r =
      (s : String)
      → lookup s n ≡ (if p r && (r.event.symbol == s) then some (key r.event) else lookup s m)

  Moved-here :
      (m n : Dict ℤ) (r : Record) (s : String) {b : Bool}
      → Moved m n r
      → (p r && (r.event.symbol == s)) ≡ b
      → lookup s n ≡ (if b then some (key r.event) else lookup s m)
  Moved-here m n r s moved e =
      moved s ∙ ap (λ (c : Bool). if c then some (key r.event) else lookup s m) e

  pub chains_add :
      (m n : Dict ℤ) (r : Record) (rs : List Record)
      → (p r ≡ true → From Link (lookup r.event.symbol m) r.event)
      → Moved m n r
      → ChainsFrom n rs
      → ChainsFrom m (r ∷ rs)
  chains_add m n r rs f moved c s = elim (Bool-cases (p r && (r.event.symbol == s))) [
    | inl e ↦
        let (picked, here) = picked_here (p r) r.event.symbol s e in
        rw e (
          subst (λ k. From Link (lookup k m) r.event) here (f picked),
          subst (λ o. ChainFrom o (select p s rs)) (Moved-here m n r s moved e) (c s),
        )
    | inr e ↦ rw e (subst (λ o. ChainFrom o (select p s rs)) (Moved-here m n r s moved e) (c s))
  ]

  pub chains_head :
      (m : Dict ℤ) (r : Record) (rs : List Record)
      → ChainsFrom m (r ∷ rs)
      → p r ≡ true
      → From Link (lookup r.event.symbol m) r.event
  chains_head m r rs c e =
      let chosen : (p r && (r.event.symbol == r.event.symbol)) ≡ true =
        rw (e, eq_refl r.event.symbol) refl in
      (rw chosen at (c r.event.symbol)).0

  pub chains_tail :
      (m n : Dict ℤ) (r : Record) (rs : List Record)
      → ChainsFrom m (r ∷ rs)
      → Moved m n r
      → ChainsFrom n rs
  chains_tail m n r rs c moved s = elim (Bool-cases (p r && (r.event.symbol == s))) [
    | inl e ↦
        subst (λ o. ChainFrom o (select p s rs)) (sym (Moved-here m n r s moved e))
          (rw e at (c s)).1
    | inr e ↦
        subst (λ o. ChainFrom o (select p s rs)) (sym (Moved-here m n r s moved e)) (rw e at (c s))
  ]

  pub ChainFrom-Consecutive :
      (es : List MarketEvent) → ChainFrom none es → Consecutive (λ a b. Link (key a) b) es
  ChainFrom-Consecutive [] c = tt
  ChainFrom-Consecutive (a ∷ []) c = tt
  ChainFrom-Consecutive (a ∷ b ∷ es) c = (c.1.0, ChainFrom-Consecutive (b ∷ es) (tt, c.1.1))

  pub Consecutive-ChainFrom :
      (es : List MarketEvent) → Consecutive (λ a b. Link (key a) b) es → ChainFrom none es
  Consecutive-ChainFrom [] c = tt
  Consecutive-ChainFrom (a ∷ []) c = (tt, tt)
  Consecutive-ChainFrom (a ∷ b ∷ es) c = (tt, (c.0, (Consecutive-ChainFrom (b ∷ es) c.1).1))
