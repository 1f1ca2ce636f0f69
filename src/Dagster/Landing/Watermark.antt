-- ===== src/Dagster/Landing/Watermark.antt =====
-- The watermark of assets/landing.py: what a run loads, and what later runs load.
use bluesky_trends.Prelude.{
  ℕ, suc, ◌+◌, ◌≤◌, ◌<◌, ◌≡◌, refl, ap, ◌∙◌, Option, none, some, List, [], ◌∷◌, ◌++◌, arith, length,
  length-append, All, ◌==◌, max, if◌then◌else◌,
}
use mathlib.Core.List.{append-nil}
use bluesky_trends.Dagster.Landing.{
  take, drop, blocks, insert_blocks, insert_arrow, newest, watermark, scan, land,
}
use bluesky_trends.Dagster.Landing.Blocks.{insert_arrow-all}

module _ {Row : Type 0} (ingest_ts : Row → ℕ) where
  abbrev ts : Row → ℕ
  ts = ingest_ts

  newest-append : (l k : List Row) → newest ts (l ++ k) ≡ max (newest ts l) (newest ts k)
  unfolding newest
  newest-append [] k = omega arith
  newest-append (r ∷ l) k = omega (arith, newest-append l k)

  abbrev at_least : Option ℕ → ℕ
  at_least none = 0
  at_least (some w) = w

  -- What the scan leaves out is not newer than the watermark.
  newest-scan :
      (w : Option ℕ) (rows : List Row)
      → newest ts rows ≤ max (newest ts (scan ts w rows)) (at_least w)
  unfolding newest scan
  newest-scan none [] = omega arith
  newest-scan none (r ∷ rows) = omega (arith, newest-scan none rows)
  newest-scan (some w) [] = omega arith
  newest-scan (some w) (r ∷ rows) = ground (arith, newest-scan (some w) rows)

  scan-old : (w : ℕ) (rows : List Row) → newest ts rows ≤ w → scan ts (some w) rows ≡ []
  unfolding newest scan
  scan-old w [] h = refl
  scan-old w (r ∷ rows) h = ground (arith, scan-old w rows (omega arith))

  scan-all : (rows : List Row) → scan ts none rows ≡ rows
  unfolding scan
  scan-all [] = refl
  scan-all (r ∷ rows) = ap (λ (l : List Row). r ∷ l) (scan-all rows)

  -- Every row is newer than `w`.
  abbrev pub Newer : ℕ → List Row → Type 0
  Newer w rows = All (λ (r : Row). w < ingest_ts r) rows

  scan-Newer : (w : ℕ) (rows : List Row) → Newer w rows → scan ts (some w) rows ≡ rows
  unfolding scan
  scan-Newer w [] h = refl
  scan-Newer w (r ∷ rows) h = ground (arith, h.0, scan-Newer w rows h.1)

  scan-append : (w : Option ℕ) (l k : List Row) → scan ts w (l ++ k) ≡ scan ts w l ++ scan ts w k
  unfolding scan
  scan-append w [] k = refl
  scan-append w (r ∷ l) k = ground (arith, scan-append w l k)

  watermark-some : (r : Row) (l : List Row) → watermark ts (r ∷ l) ≡ some (newest ts (r ∷ l))
  unfolding watermark
  watermark-some r l = ground arith

  scan-after :
      (landed bronze : List Row)
      → scan ts (watermark ts (landed ++ scan ts (watermark ts landed) bronze)) bronze ≡ []
  scan-after [] [] = unfold scan in refl
  scan-after [] (r ∷ bronze) =
      let all : scan ts (watermark ts []) (r ∷ bronze) ≡ r ∷ bronze =
        unfold watermark in scan-all (r ∷ bronze) in
      rw (all, watermark-some) (scan-old (newest ts (r ∷ bronze)) (r ∷ bronze) (omega arith))
  scan-after (q ∷ landed) bronze =
      let w = watermark ts (q ∷ landed) in
      let new = scan ts w bronze in
      let grown : newest ts (q ∷ (landed ++ new)) ≡ max (newest ts (q ∷ landed)) (newest ts new) =
        newest-append (q ∷ landed) new in
      let is : at_least w ≡ newest ts (q ∷ landed) = ap at_least (watermark-some q landed) in
      rw (watermark-some q (landed ++ new)) (
        scan-old (newest ts (q ∷ (landed ++ new))) bronze
          (omega (arith, grown, is, newest-scan w bronze)))

  land-nothing :
      (calls batch_rows : ℕ) (bronze landed : List Row)
      → scan ts (watermark ts landed) bronze ≡ []
      → land ts calls batch_rows bronze landed ≡ (some 0, landed)
  unfolding land
  land-nothing calls batch_rows bronze landed e = rw e refl

  length-nil : (l : List Row) → length l ≡ 0 → l ≡ []
  length-nil [] e = refl
  length-nil (r ∷ l) e = absurd (omega arith)

  if-land :
      (rows landed : List Row) (p : Option ℕ × List Row)
      → p ≡ (some (length rows), landed ++ rows)
      → (if length rows == 0 then (some 0, landed) else p) ≡ (some (length rows), landed ++ rows)
  if-land [] landed p e = rw append-nil refl
  if-land (r ∷ rows) landed p e = ground (arith, e)

  land-all :
      (calls batch_rows : ℕ) (bronze landed : List Row)
      → 0 < batch_rows
      → length (scan ts (watermark ts landed) bronze) ≤ calls
      → land ts calls batch_rows bronze landed ≡ (
        some (length (scan ts (watermark ts landed) bronze)),
        landed ++ scan ts (watermark ts landed) bronze,
      )
  unfolding land
  land-all calls batch_rows bronze landed h enough =
      let new = scan ts (watermark ts landed) bronze in
      if-land new landed _ (insert_arrow-all calls batch_rows new landed h enough)

  -- A run of a landing asset with a block size above 0, whose inserts all return, appends exactly
  -- the bronze rows that are newer than the watermark, all of them if nothing had landed, each once
  -- and in order, and counts them. The next run over the same bronze rows loads nothing, whatever
  -- its block size.
  pub land_rerun :
      (calls batch_rows : ℕ) (bronze landed : List Row)
      → 0 < batch_rows
      → length (scan ts (watermark ts landed) bronze) ≤ calls
      → let new = scan ts (watermark ts landed) bronze in
        (land ts calls batch_rows bronze landed ≡ (some (length new), landed ++ new))
        × ((again size : ℕ) → land ts again size bronze (landed ++ new) ≡ (some 0, landed ++ new))
  land_rerun calls batch_rows bronze landed h enough = (
    land-all calls batch_rows bronze landed h enough,
    λ again size. land-nothing again size bronze _ (scan-after landed bronze),
  )

  follows :
      (bronze new : List Row)
      → Newer (newest ts bronze) new
      → scan ts (watermark ts bronze) (bronze ++ new) ≡ new
  follows [] new h = unfold watermark in scan-all new
  follows (r ∷ bronze) new h =
      rw (watermark-some, scan-append)
        (rw (scan-old (newest ts (r ∷ bronze)) (r ∷ bronze) (omega arith)) (scan-Newer _ new h))

  -- Where all bronze rows have landed and rows newer than all of them are archived, a run with a
  -- block size above 0, whose inserts all return, makes the landing table the bronze table again.
  pub land-follows_bronze :
      (calls batch_rows : ℕ) (bronze new : List Row)
      → 0 < batch_rows
      → length new ≤ calls
      → Newer (newest ts bronze) new
      → land ts calls batch_rows (bronze ++ new) bronze ≡ (some (length new), bronze ++ new)
  land-follows_bronze calls batch_rows bronze new h enough newer =
      let e = follows bronze new newer in
      land-all calls batch_rows (bronze ++ new) bronze h (rw e enough) ∙ rw e refl

  take-append : (l k : List Row) → take (length l) (l ++ k) ≡ l
  unfolding take
  take-append [] k = refl
  take-append (r ∷ l) k = ap (λ (t : List Row). r ∷ t) (take-append l k)

  drop-append : (l k : List Row) → drop (length l) (l ++ k) ≡ k
  unfolding drop
  drop-append [] k = refl
  drop-append (r ∷ l) k = drop-append l k

  insert_blocks-second_raises :
      (q : Row) (block : List Row) (r : Row) (rest : List Row) (n : ℕ)
      → insert_blocks 1
          (take (length (q ∷ block)) ((q ∷ block) ++ r ∷ rest)
            ∷ blocks
                (suc n)
                (length (q ∷ block))
                (drop (length (q ∷ block)) ((q ∷ block) ++ r ∷ rest)))
          []
        ≡ (none, q ∷ block)
  insert_blocks-second_raises q block r rest n =
      rw (take-append (q ∷ block) (r ∷ rest), drop-append (q ∷ block) (r ∷ rest))
        (unfold insert_blocks blocks take in refl)

  insert_arrow-second_raises :
      (q : Row) (block : List Row) (r : Row) (rest : List Row)
      → insert_arrow 1 (length (q ∷ block)) ((q ∷ block) ++ r ∷ rest) [] ≡ (none, q ∷ block)
  unfolding insert_arrow
  insert_arrow-second_raises q block r rest =
      let n : length (block ++ r ∷ rest) ≡ suc (length block + length rest) =
        omega (arith, length-append block (r ∷ rest)) in
      rw n (
        unfold blocks in
        ground (arith, insert_blocks-second_raises q block r rest (length block + length rest)))

  -- A load that fails can leave rows behind for good. Let nothing have landed, and let the second
  -- insert raise, after a full first block. Where no row after that block is newer than the newest
  -- row of the block, no later run over the same bronze rows loads any of them.
  pub failed_load_skips :
      (q : Row) (block : List Row) (r : Row) (rest : List Row)
      → newest ts (r ∷ rest) ≤ newest ts (q ∷ block)
      → let bronze = (q ∷ block) ++ r ∷ rest in
        (land ts 1 (length (q ∷ block)) bronze [] ≡ (none, q ∷ block))
        × ((again size : ℕ) → land ts again size bronze (q ∷ block) ≡ (some 0, q ∷ block))
  failed_load_skips q block r rest old = (
    (unfold land watermark in
        rw scan-all (ground (arith, insert_arrow-second_raises q block r rest))),
    λ again size. land-nothing again size _ (q ∷ block) (
        rw watermark-some (
          scan-old (newest ts (q ∷ block)) ((q ∷ block) ++ r ∷ rest)
            (omega (arith, newest-append (q ∷ block) (r ∷ rest))))),
  )
