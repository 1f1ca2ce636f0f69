-- ===== src/Ingest/Checkpointer/Advance.antt =====
-- What one pass of `_advance_watermark` does, over any ascending list of the pending cursors.
use bluesky_trends.Prelude.{
  ℕ, ◌<◌, ◌≡◌, refl, Bool, true, false, Option, none, some, List, [], ◌∷◌, inl, inr, arith, ltb,
  ◌⊎◌, ◌∙◌, Bool-cases, if◌then◌else◌,
}
use bluesky_trends.Prelude.Dict.{
  lookup, is_some, lookup-erase, contains-eq-lookup, NodupKeys, erase-NodupKeys,
}
use bluesky_trends.Prelude.Sorted.{mem, Ascending, Above-mem, sorted, mem-sorted, sorted-Ascending}
use bluesky_trends.Ingest.Checkpointer.{Checkpointer, is_acked, fold_cursor, advance_over}

-- The cursor lies above the watermark.
abbrev pub above : Option ℕ → ℕ → Bool
above none c = true
above (some s) c = ltb s c

-- `ks` are the pending cursors in ascending order.
pub record Listed (ks : List ℕ) (cp : Checkpointer) : Type 0 where
  pub ascending : Ascending ks
  pub keys : (c : ℕ) → mem c ks ≡ is_some (lookup c cp.pending_acks)

pub fold_cursor-Listed :
    (k : ℕ) (ks : List ℕ) (cp : Checkpointer) → Listed (k ∷ ks) cp → Listed ks (fold_cursor k cp)
unfolding mem
fold_cursor-Listed k ks cp h = record {
  ascending = h.ascending.1;
  keys = λ c. rw lookup-erase (ground (arith, h.keys c, Above-mem k c ks h.ascending.0));
}

pub sorted-Listed :
    (cp : Checkpointer) → NodupKeys cp.pending_acks → Listed (sorted cp.pending_acks) cp
sorted-Listed cp nodup = record {
  ascending = sorted-Ascending cp.pending_acks nodup;
  keys = λ d. mem-sorted d cp.pending_acks ∙ contains-eq-lookup d cp.pending_acks;
}

-- And all lie above the watermark.
pub record Sweep (ks : List ℕ) (cp : Checkpointer) : Type 0 where
  pub listed : Listed ks cp
  pub floor : (c : ℕ) → is_some (lookup c cp.pending_acks) ≡ true → above cp.safe_cursor c ≡ true

fold_cursor-Sweep :
    (k : ℕ) (ks : List ℕ) (cp : Checkpointer) → Sweep (k ∷ ks) cp → Sweep ks (fold_cursor k cp)
unfolding mem
fold_cursor-Sweep k ks cp h = record {
  listed = fold_cursor-Listed k ks cp h.listed;
  floor = λ c.
      rw lookup-erase (λ e. ground (arith, h.listed.keys c, Above-mem k c ks h.listed.ascending.0));
}

-- The pass drops the cursors up to the new watermark and no other.
pub advance_over-lookup :
    (ks : List ℕ) (cp : Checkpointer) (c : ℕ)
    → Sweep ks cp
    → (above (advance_over ks cp).safe_cursor c ≡ true → above cp.safe_cursor c ≡ true)
      × (lookup c (advance_over ks cp).pending_acks
          ≡ (if above (advance_over ks cp).safe_cursor c then lookup c cp.pending_acks else none))
unfolding advance_over
advance_over-lookup [] cp c h = ground (arith, h.floor c)
advance_over-lookup (k ∷ ks) cp c h = ground (
  arith,
  h.floor c,
  h.floor k,
  h.listed.keys k,
  lookup-erase c k cp.pending_acks,
  advance_over-lookup ks (fold_cursor k cp) c (fold_cursor-Sweep k ks cp h),
  advance_over-lookup ks (fold_cursor k cp) k (fold_cursor-Sweep k ks cp h),
)

-- A cursor that is not acked stays above the watermark.
pub advance_over_unacked :
    (ks : List ℕ) (cp : Checkpointer) (c : ℕ)
    → Sweep ks cp
    → lookup c cp.pending_acks ≡ some false
    → above (advance_over ks cp).safe_cursor c ≡ true
unfolding advance_over
advance_over_unacked [] cp c h e = ground (arith, h.floor c)
advance_over_unacked (k ∷ ks) cp c h e = ground (
  arith,
  h.floor c,
  lookup-erase c k cp.pending_acks,
  advance_over_unacked ks (fold_cursor k cp) c (fold_cursor-Sweep k ks cp h),
)

-- The watermark stays, or moves to a cursor that was pending and acked.
pub advance_over-safe_cursor :
    (ks : List ℕ) (cp : Checkpointer)
    → ((advance_over ks cp).safe_cursor ≡ cp.safe_cursor)
      ⊎ ((s : ℕ) × ((advance_over ks cp).safe_cursor ≡ some s)
          × (lookup s cp.pending_acks ≡ some true))
unfolding advance_over
advance_over-safe_cursor [] cp = inl refl
advance_over-safe_cursor (k ∷ ks) cp = elim (Bool-cases (is_acked (lookup k cp.pending_acks))) [
  | inr gap ↦ rw gap (inl refl)
  | inl acked ↦ rw acked (elim (advance_over-safe_cursor ks (fold_cursor k cp)) [
    | inl same ↦ inr (k, same, ground arith)
    | inr (s, moved, was) ↦ inr (s, moved, ground (arith, lookup-erase s k cp.pending_acks))
  ])
]

-- What stays pending though acked waits behind a cursor that is not acked.
pub advance_over-gap :
    (ks : List ℕ) (cp : Checkpointer) (c : ℕ)
    → Listed ks cp
    → lookup c (advance_over ks cp).pending_acks ≡ some true
    → (g : ℕ) × (g < c) × (lookup g (advance_over ks cp).pending_acks ≡ some false)
unfolding advance_over mem
advance_over-gap [] cp c h e = absurd (ground (arith, h.keys c))
advance_over-gap (k ∷ ks) cp c h e = elim (Bool-cases (is_acked (lookup k cp.pending_acks))) [
  | inl acked ↦
      rw acked
        (advance_over-gap ks (fold_cursor k cp) c (fold_cursor-Listed k ks cp h) (rw acked at e))
  | inr gap ↦ rw gap (
    k,
    (let e' = rw gap at e in ground (arith, h.keys c, Above-mem k c ks h.ascending.0)),
    ground (arith, h.keys k),
  )
]

pub advance_over-NodupKeys :
    (ks : List ℕ) (cp : Checkpointer)
    → NodupKeys cp.pending_acks
    → NodupKeys (advance_over ks cp).pending_acks
unfolding advance_over
advance_over-NodupKeys [] cp h = h
advance_over-NodupKeys (k ∷ ks) cp h =
    ground
      (arith, h, advance_over-NodupKeys ks (fold_cursor k cp) (erase-NodupKeys k cp.pending_acks h))
