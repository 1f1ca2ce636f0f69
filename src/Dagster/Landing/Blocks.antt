-- ===== src/Dagster/Landing/Blocks.antt =====
-- The blocks of `_insert_arrow` in assets/landing.py.
use bluesky_trends.Prelude.{
  ℕ, zero, suc, ◌+◌, ◌-◌, ◌≤◌, ◌<◌, ◌≡◌, refl, ap, ◌∙◌, Option, some, List, [], ◌∷◌, ◌++◌, arith,
  length, length-append, All,
}
use mathlib.Core.List.{append-nil, append_assoc}
use bluesky_trends.Dagster.Landing.{take, drop, blocks, add_total, insert_blocks, insert_arrow}

module _ {Row : Type 0} where
  take-drop : (n : ℕ) (l : List Row) → take n l ++ drop n l ≡ l
  unfolding take drop
  take-drop zero l = refl
  take-drop (suc n) [] = refl
  take-drop (suc n) (x ∷ l) = ap (λ (t : List Row). x ∷ t) (take-drop n l)

  length-drop : (n : ℕ) (l : List Row) → length (drop n l) ≡ length l - n
  unfolding drop
  length-drop zero l = omega arith
  length-drop (suc n) [] = omega arith
  length-drop (suc n) (x ∷ l) = omega (arith, length-drop n l)

  length-take : (n : ℕ) (l : List Row) → length (take n l) ≤ n
  unfolding take
  length-take zero l = omega arith
  length-take (suc n) [] = omega arith
  length-take (suc n) (x ∷ l) = omega (arith, length-take n l)

  unfoldable pub join : List (List Row) → List Row
  join [] = []
  join (b ∷ bs) = b ++ join bs

  join-blocks : (n b : ℕ) (rows : List Row) → length rows ≤ n → join (blocks n (suc b) rows) ≡ rows
  unfolding blocks join
  join-blocks zero b [] h = refl
  join-blocks zero b (r ∷ rows) h = absurd (omega arith)
  join-blocks (suc n) b [] h = refl
  join-blocks (suc n) b (r ∷ rows) h =
      let rest = drop (suc b) (r ∷ rows) in
      ap (λ (t : List Row). take (suc b) (r ∷ rows) ++ t)
        (join-blocks n b rest (omega (arith, length-drop (suc b) (r ∷ rows))))
      ∙ take-drop (suc b) (r ∷ rows)

  pub length-blocks : (n b : ℕ) (rows : List Row) → length (blocks n b rows) ≤ n
  unfolding blocks
  length-blocks zero b rows = omega arith
  length-blocks (suc n) b [] = omega arith
  length-blocks (suc n) b (r ∷ rows) = omega (arith, length-blocks n b (drop b (r ∷ rows)))

  length-take-pos : (n : ℕ) (r : Row) (l : List Row) → 0 < length (take (suc n) (r ∷ l))
  unfolding take
  length-take-pos n r l = omega arith

  blocks-bounded :
      (n b : ℕ) (rows : List Row)
      → All
          (λ (block : List Row). (0 < length block) × (length block ≤ suc b))
          (blocks n (suc b) rows)
  unfolding blocks
  blocks-bounded zero b rows = tt
  blocks-bounded (suc n) b [] = tt
  blocks-bounded (suc n) b (r ∷ rows) = (
    (length-take-pos b r rows, length-take (suc b) (r ∷ rows)),
    blocks-bounded n b (drop (suc b) (r ∷ rows)),
  )

  -- The loop of `_insert_arrow` over the blocks ends within as many turns as there are rows, if a
  -- block has a row at least: by then the blocks have taken every row, once and in order, and none
  -- of them is empty or larger than the block size.
  pub blocks-All :
      (n batch_rows : ℕ) (rows : List Row)
      → 0 < batch_rows
      → length rows ≤ n
      → (join (blocks n batch_rows rows) ≡ rows)
        × All
            (λ (block : List Row). (0 < length block) × (length block ≤ batch_rows))
            (blocks n batch_rows rows)
  blocks-All n zero rows h enough = absurd (omega arith)
  blocks-All n (suc b) rows h enough = (join-blocks n b rows enough, blocks-bounded n b rows)

  add_total-some :
      (n k : ℕ) (l : List Row) (p : Option ℕ × List Row)
      → p ≡ (some k, l)
      → add_total n p ≡ (some (n + k), l)
  add_total-some n k l p e = rw e refl

  insert_blocks-all :
      (calls : ℕ) (bs : List (List Row)) (landed : List Row)
      → length bs ≤ calls
      → insert_blocks calls bs landed ≡ (some (length (join bs)), landed ++ join bs)
  unfolding insert_blocks join
  insert_blocks-all calls [] landed h = rw append-nil refl
  insert_blocks-all calls ([] ∷ rest) landed h = insert_blocks-all calls rest landed (omega arith)
  insert_blocks-all zero ((r ∷ block) ∷ rest) landed h = absurd (omega arith)
  insert_blocks-all (suc calls) ((r ∷ block) ∷ rest) landed h =
      add_total-some (length (r ∷ block)) (length (join rest)) _ _
        (insert_blocks-all calls rest (landed ++ r ∷ block) (omega arith))
      ∙ rw (length-append, append_assoc) refl

  -- If ClickHouse takes as many inserts as there are rows, every row is inserted once, in order,
  -- and the rows are counted.
  pub insert_arrow-all :
      (calls batch_rows : ℕ) (rows landed : List Row)
      → 0 < batch_rows
      → length rows ≤ calls
      → insert_arrow calls batch_rows rows landed ≡ (some (length rows), landed ++ rows)
  unfolding insert_arrow
  insert_arrow-all calls zero rows landed h enough = absurd (omega arith)
  insert_arrow-all calls (suc b) rows landed h enough = ground (
    arith,
    insert_blocks-all calls (blocks (length rows) (suc b) rows) landed
        (omega (arith, length-blocks (length rows) (suc b) rows)),
    (blocks-All (length rows) (suc b) rows h (omega arith)).0,
  )
