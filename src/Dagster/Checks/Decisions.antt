-- ===== src/Dagster/Checks/Decisions.antt =====
-- What the asset checks decide.
use bluesky_trends.Prelude.{
  ℕ, ◌+◌, ◌*◌, ◌≡◌, refl, Bool, true, false, ◌||◌, none, some, List, [], ◌∷◌, arith, leb, max,
}
use bluesky_trends.Ingest.Config.{Ratio}
use bluesky_trends.Dagster.Checks.{newest_of, bronze_freshness, nan, average, enough, mart_volume}

-- Some event is not older than a day, of 86 400 million microseconds.
unfoldable pub has_recent : ℕ → List ℕ → Bool
has_recent now [] = false
has_recent now (t ∷ ts) = leb now (t + 86_400_000_000) || has_recent now ts

newest_of-recent :
    (now t : ℕ) (ts : List ℕ) → leb now (newest_of t ts + 86_400_000_000) ≡ has_recent now (t ∷ ts)
unfolding newest_of has_recent
newest_of-recent now t [] = ground arith
newest_of-recent now t (u ∷ us) = ground (arith, newest_of-recent now (max t u) us)

-- The freshness check passes exactly when the table has an event that is not older than a day.
pub bronze_freshness-recent :
    (now : ℕ) (created : List ℕ) → (bronze_freshness now created).passed ≡ has_recent now created
unfolding bronze_freshness has_recent
bronze_freshness-recent now [] = refl
bronze_freshness-recent now (t ∷ ts) = newest_of-recent now t ts

-- The volume check passes without a baseline, whether the average is missing, NaN or 0. With the
-- average `num / den` of earlier days, it fails exactly when four times the latest day's rows are
-- fewer than that average.
pub mart_volume-enough :
    (latest : ℕ) (trailing : Ratio)
    → ((mart_volume (some latest) none).passed ≡ true)
      × ((mart_volume (some latest) (some nan)).passed ≡ true)
      × ((mart_volume (some latest) (some (average trailing))).passed
          ≡ leb trailing.num (4 * latest * trailing.den))
unfolding mart_volume enough
mart_volume-enough latest trailing = (refl, refl, ground arith)
