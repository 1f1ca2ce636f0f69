-- ===== src/Ingest/Checkpointer/Passes.antt =====
-- One pass of `_advance_watermark` where the smallest pending cursor may be the watermark itself, as
-- it is after Jetstream has replayed the event of a cursor that was folded.
use bluesky_trends.Prelude.{
  ℕ, ◌≡◌, refl, Bool, true, false, Option, none, some, List, [], ◌∷◌, arith, inl, ◌⊎◌, leb,
}
use bluesky_trends.Prelude.Dict.{lookup, is_some, lookup-erase}
use bluesky_trends.Prelude.Sorted.{mem, Above-mem}
use bluesky_trends.Ingest.Checkpointer.{Checkpointer, fold_cursor, advance_over}
use bluesky_trends.Ingest.Checkpointer.Advance.{above, Listed, fold_cursor-Listed}

-- The cursor does not lie below the watermark.
abbrev pub not_below : Option ℕ → ℕ → Bool
not_below none c = true
not_below (some s) c = leb s c

-- `ks` are the pending cursors in ascending order, and none lies below the watermark.
pub record Pass (ks : List ℕ) (cp : Checkpointer) : Type 0 where
  pub listed : Listed ks cp
  pub floor :
      (c : ℕ) → is_some (lookup c cp.pending_acks) ≡ true → not_below cp.safe_cursor c ≡ true

fold_cursor-Pass :
    (k : ℕ) (ks : List ℕ) (cp : Checkpointer) → Pass (k ∷ ks) cp → Pass ks (fold_cursor k cp)
unfolding mem
fold_cursor-Pass k ks cp h = record {
  listed = fold_cursor-Listed k ks cp h.listed;
  floor = λ c.
      rw lookup-erase (λ e. ground (arith, h.listed.keys c, Above-mem k c ks h.listed.ascending.0));
}

-- The pass moves the watermark forward, drops acked cursors up to it, and leaves the others; a
-- cursor above the old watermark that is not acked lies above the new one.
pub advance_over-Passes :
    (ks : List ℕ) (cp : Checkpointer) (c : ℕ)
    → Pass ks cp
    → (above (advance_over ks cp).safe_cursor c ≡ true → above cp.safe_cursor c ≡ true)
      × (is_some (lookup c (advance_over ks cp).pending_acks) ≡ true
          → not_below (advance_over ks cp).safe_cursor c ≡ true)
      × ((lookup c (advance_over ks cp).pending_acks ≡ lookup c cp.pending_acks)
          ⊎ ((lookup c cp.pending_acks ≡ some true)
              × (lookup c (advance_over ks cp).pending_acks ≡ none)
              × (above (advance_over ks cp).safe_cursor c ≡ false)))
unfolding advance_over mem
advance_over-Passes [] cp c h = (λ e. e, h.floor c, inl refl)
advance_over-Passes (k ∷ ks) cp c h = ground (
  arith,
  h.floor c,
  h.floor k,
  h.listed.keys k,
  lookup-erase c k cp.pending_acks,
  advance_over-Passes ks (fold_cursor k cp) c (fold_cursor-Pass k ks cp h),
  advance_over-Passes ks (fold_cursor k cp) k (fold_cursor-Pass k ks cp h),
)

pub advance_over-waiting :
    (ks : List ℕ) (cp : Checkpointer) (c : ℕ)
    → Pass ks cp
    → lookup c cp.pending_acks ≡ some false
    → above cp.safe_cursor c ≡ true
    → above (advance_over ks cp).safe_cursor c ≡ true
unfolding advance_over mem
advance_over-waiting [] cp c h e up = up
advance_over-waiting (k ∷ ks) cp c h e up = ground (
  arith,
  h.listed.keys c,
  Above-mem k c ks h.listed.ascending.0,
  lookup-erase c k cp.pending_acks,
  advance_over-waiting ks (fold_cursor k cp) c (fold_cursor-Pass k ks cp h),
)
