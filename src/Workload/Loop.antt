-- ===== src/Workload/Loop.antt =====
-- internal/workload/generator.go: the loops end, with the bytes that were asked for, and repeat the source in order.
use market_replay.Prelude.{
  ℕ, zero, suc, ◌+◌, ◌*◌, ◌-◌, ◌<◌, ◌≤◌, ◌^◌, Bool, true, false, List, [], ◌∷◌, ◌++◌, some, ◌≡◌,
  sym, ap, ◌∙◌, ◌⊎◌, inl, inr, Bool-cases, arith, length, length-append, get_elem?, append_assoc,
  append-nil,
}
use market_replay.Prelude.Int.{ℤ, pos, ltb_ℤ, leb_ℤ, add64, inc64, pos-add64, pos-inc64}
use market_replay.Workload.{Progress, write_row, write_rows, write_passes}
use market_replay.Workload.Written.{get_elem?-append_length, get_elem?-snoc, total_size, total-snoc}

suc_times : (c n : ℕ) → c * n + n ≡ suc c * n
suc_times c n = omega arith

module _ {A B : Type 0} (normalize : A → ℤ → B) (size : B → ℕ) (start target most : ℕ)
    (all : List A) where
  -- Each row that was written is the row of the source at its place, in its cycle, as normalized there.
  abbrev pub IsRepeated : List B → Type 0
  IsRepeated written =
      (k : ℕ) (b : B)
      → get_elem? written k ≡ some b
      → (cycle i : ℕ) × (row : A) × (k ≡ cycle * length all + i)
        × (get_elem? all i ≡ some row)
        × (b ≡ normalize row (pos k))

  pub record IsProgress (p : Progress B) : Type 0 where
    pub aim : (p.result).target_bytes ≡ pos target
    pub bytes : (p.result).bytes_written ≡ pos (start + total_size size p.written)
    pub rows : (p.result).rows_written ≡ pos (length p.written)
    pub each : length p.written ≤ total_size size p.written
    pub below : start + total_size size p.written < target + most
    pub repeated : IsRepeated p.written

  module _ (fits : target + most < 2 ^ 63)
      (sized : (i k : ℕ) (row : A)
        → get_elem? all i ≡ some row
        → (1 ≤ size (normalize row (pos k))) × (size (normalize row (pos k)) ≤ most)) where
    write_row-IsProgress :
        (cycle : ℕ) (before : List A) (row : A) (behind : List A) (p : Progress B)
        → all ≡ before ++ (row ∷ behind)
        → length p.written ≡ cycle * length all + length before
        → start + total_size size p.written < target
        → IsProgress p
        → IsProgress (write_row normalize size row p)
          × (length (write_row normalize size row p).written ≡ suc (length p.written))
          × (suc (total_size size p.written)
              ≤ total_size size (write_row normalize size row p).written)
    unfolding write_row
    write_row-IsProgress cycle before row behind p split at short i =
        let n = length p.written in
        let next = normalize row (p.result).rows_written in
        let same : next ≡ normalize row (pos n) = ap (normalize row) i.rows in
        let weight : size next ≡ size (normalize row (pos n)) = ap size same in
        let here : get_elem? all (length before) ≡ some row =
          ap (λ l. get_elem? l (length before)) split ∙ get_elem?-append_length before behind row in
        let (low, high) = sized (length before) n row here in
        let grown = total-snoc size p.written next in
        (
          record {
            aim = i.aim;
            bytes =
                ap (λ a. add64 a (pos (size next))) i.bytes
                ∙ (pos-add64 (start + total_size size p.written) (size next)
                      (omega (arith, fits, short, high, weight))
                    ∙ ap pos (omega (arith, grown)));
            rows =
                ap inc64 i.rows
                ∙ (pos-inc64 n (omega (arith, fits, short, i.each))
                    ∙ ap pos (omega (arith, length-append p.written (next ∷ []))));
            each = omega (arith, i.each, low, weight, grown, length-append p.written (next ∷ []));
            below = omega (arith, short, high, weight, grown);
            repeated = λ k b found. elim (get_elem?-snoc p.written next b k found) [
              | inl old ↦ i.repeated k b old
              | inr (last, is_next) ↦ (
                cycle,
                length before,
                row,
                last ∙ at,
                here,
                is_next ∙ (same ∙ ap (λ m. normalize row (pos m)) (sym last)),
              )
            ];
          },
          omega (arith, length-append p.written (next ∷ [])),
          omega (arith, low, weight, grown),
        )

    enough_lem :
        (q : Progress B)
        → IsProgress q
        → leb_ℤ (q.result).target_bytes (q.result).bytes_written ≡ true
        → target ≤ start + total_size size q.written
    enough_lem q j h = ground (arith, h, j.aim, j.bytes)

    missing_lem :
        (q : Progress B)
        → IsProgress q
        → leb_ℤ (q.result).target_bytes (q.result).bytes_written ≡ false
        → start + total_size size q.written < target
    missing_lem q j h = ground (arith, h, j.aim, j.bytes)

    short_lem :
        (q : Progress B)
        → IsProgress q
        → ltb_ℤ (q.result).bytes_written (q.result).target_bytes ≡ true
        → start + total_size size q.written < target
    short_lem q j h = ground (arith, h, j.aim, j.bytes)

    done_lem :
        (q : Progress B)
        → IsProgress q
        → ltb_ℤ (q.result).bytes_written (q.result).target_bytes ≡ false
        → target ≤ start + total_size size q.written
    done_lem q j h = ground (arith, h, j.aim, j.bytes)

    abbrev some_row : List A → ℕ
    some_row [] = 0
    some_row (row ∷ rows) = 1

    -- What a pass over the rows from `behind` on leaves.
    record Passed (cycle least : ℕ) (p q : Progress B) : Type 0 where
      progress : IsProgress q
      ended :
          (target ≤ start + total_size size q.written) ⊎ (length q.written ≡ suc cycle * length all)
      more_written : least + total_size size p.written ≤ total_size size q.written

    write_rows-Passed :
        (cycle : ℕ) (before behind : List A) (p : Progress B)
        → all ≡ before ++ behind
        → length p.written ≡ cycle * length all + length before
        → start + total_size size p.written < target
        → IsProgress p
        → Passed cycle (some_row behind) p (write_rows normalize size behind p)
    unfolding write_rows
    write_rows-Passed cycle before [] p split at short i = record {
      progress = i;
      ended = inr (
          at
          ∙ (ap (λ n. cycle * length all + n)
                (sym (ap length split ∙ ap length (append-nil before)))
              ∙ suc_times cycle (length all)));
      more_written = omega arith;
    }
    write_rows-Passed cycle before (row ∷ behind) p split at short i =
        let q = write_row normalize size row p in
        let (j, longer, larger) = write_row-IsProgress cycle before row behind p split at short i in
        elim (Bool-cases (leb_ℤ (q.result).target_bytes (q.result).bytes_written)) [
          | inl enough ↦ rw enough (record {
            progress = j;
            ended = inl (enough_lem q j enough);
            more_written = omega (arith, larger);
          })
          | inr missing ↦ rw missing (
              let rest : Passed cycle (some_row behind) q (write_rows normalize size behind q) =
                write_rows-Passed cycle (before ++ (row ∷ [])) behind q
                  (split ∙ sym (append_assoc before (row ∷ []) behind))
                  (longer ∙ (ap suc at ∙ omega (arith, length-append before (row ∷ []))))
                  (missing_lem q j missing) j in
              record {
                progress = rest.progress;
                ended = rest.ended;
                more_written = omega (arith, larger, rest.more_written);
              })
        ]

    passes_lem :
        (fuel cycle : ℕ) (row : A) (rows : List A) (p : Progress B)
        → all ≡ row ∷ rows
        → IsProgress p
        → (target ≤ start + total_size size p.written) ⊎ (length p.written ≡ cycle * length all)
        → target - (start + total_size size p.written) < fuel
        → (q : Progress B) × (write_passes normalize size fuel (row ∷ rows) p ≡ some q)
          × IsProgress q
          × (target ≤ start + total_size size q.written)
    unfolding write_passes
    passes_lem zero cycle row rows p split i place fuelled =
        let wrong : ◌≡◌ {A = Bool} true false = ground (arith, fuelled) in cc
    passes_lem (suc fuel) cycle row rows p split i place fuelled =
        elim (Bool-cases (ltb_ℤ (p.result).bytes_written (p.result).target_bytes)) [
          | inr done ↦ (p, ground (arith, done), i, done_lem p i done)
          | inl short ↦
              let left = short_lem p i short in
              let at : length p.written ≡ cycle * length all + 0 = elim place [
                | inl reached ↦
                    let wrong : ◌≡◌ {A = Bool} true false = ground (arith, left, reached) in cc
                | inr h ↦ h ∙ omega arith
              ] in
              let pass = write_rows-Passed cycle [] (row ∷ rows) p split at left i in
              let (q, ran, j, enough) =
                passes_lem fuel (suc cycle) row rows (write_rows normalize size (row ∷ rows) p)
                  split pass.progress pass.ended
                  (omega (arith, left, fuelled, pass.more_written)) in
              (q, ground (arith, short, ran), j, enough)
        ]

    -- Repeating a source that has rows, from a start below the target and the longest row: with more passes of
    -- fuel than bytes are asked for the loops end, and have written at least the bytes asked for, counted
    -- exactly, and less than the longest row too many. Row k that was written is row i of the source in cycle
    -- c, normalized at k, where k is c times the rows of the source and i.
    pub write_passes-IsProgress :
        (fuel : ℕ) (row : A) (rows : List A) (p : Progress B)
        → all ≡ row ∷ rows
        → p.written ≡ []
        → (p.result).target_bytes ≡ pos target
        → (p.result).bytes_written ≡ pos start
        → (p.result).rows_written ≡ pos 0
        → start < target + most
        → target < fuel
        → (q : Progress B) × (write_passes normalize size fuel (row ∷ rows) p ≡ some q)
          × IsProgress q
          × (target ≤ start + total_size size q.written)
    write_passes-IsProgress fuel row rows p split empty aim begun none_yet low fuelled =
        let no_bytes : total_size size p.written ≡ 0 = ap (total_size size) empty in
        let no_rows : length p.written ≡ 0 = ap length empty in
        passes_lem fuel 0 row rows p split
          (record {
            aim = aim;
            bytes = begun ∙ ap pos (omega (arith, no_bytes));
            rows = none_yet ∙ ap pos (sym no_rows);
            each = omega (arith, no_bytes, no_rows);
            below = omega (arith, low, no_bytes);
            repeated = λ k b found.
                let wrong : ◌≡◌ {A = Bool} true false = ground (arith, found, empty) in cc;
          })
          (inr (no_rows ∙ omega arith)) (omega (arith, fuelled))
