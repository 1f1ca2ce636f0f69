-- ===== src/Ingest/Checkpointer/Invariant.antt =====
-- The checkpointer's state against the history of its calls: what is pending, what was folded
-- into the watermark, and why an acked cursor may still be pending.
use bluesky_trends.Prelude.{
  ℕ, ◌<◌, ◌≡◌, refl, true, false, ◌&&◌, Option, none, some, List, [], ◌∷◌, arith, ◌==◌,
  if◌then◌else◌, inl, inr,
}
use bluesky_trends.Prelude.Dict.{
  lookup, lookup-insert, lookup-set_default, contains-eq-lookup, NodupKeys, insert-NodupKeys,
  set_default-NodupKeys,
}
use bluesky_trends.Prelude.Sorted.{sorted}
use bluesky_trends.Ingest.Config.{Settings}
use bluesky_trends.Ingest.CursorStore.{CursorStore}
use bluesky_trends.Ingest.Checkpointer.{
  Checkpointer, register, on_ack, mark_acked, advance_watermark, maybe_save, final_save,
}
use bluesky_trends.Ingest.Checkpointer.Advance.{
  above, Sweep, sorted-Listed, advance_over-lookup, advance_over_unacked, advance_over-safe_cursor,
  advance_over-gap, advance_over-NodupKeys,
}
use bluesky_trends.Ingest.Checkpointer.Trace.{
  Call, produced, delivered, checkpoint, shutdown, run, registered, acked, Newest, InOrder,
  Newest-registered, acked-registered,
}

pub record Tracks (h : List Call) (cp : Checkpointer) : Type 0 where
  pub nodup : NodupKeys cp.pending_acks
  pub pending :
      (c : ℕ)
      → lookup c cp.pending_acks
        ≡ (if registered c h && above cp.safe_cursor c then some (acked c h) else none)
  pub folded : (c : ℕ) → registered c h ≡ true → above cp.safe_cursor c ≡ false → acked c h ≡ true
  pub seen : (s : ℕ) → cp.safe_cursor ≡ some s → registered s h ≡ true
  pub gap :
      (c : ℕ)
      → lookup c cp.pending_acks ≡ some true
      → (g : ℕ) × (g < c) × (lookup g cp.pending_acks ≡ some false)

module _ (h : List Call) (cp : Checkpointer) (t : Tracks h cp) (c : ℕ) where
  fresh-above : Newest c h → (o : Option ℕ) → cp.safe_cursor ≡ o → above o c ≡ true
  fresh-above n none e = refl
  fresh-above n (some s) e = ground (arith, Newest-registered c s h n (t.seen s e))

  -- A cursor newer than all registered ones is not pending and lies above the watermark.
  fresh :
      Newest c h → (registered c h ≡ false) × (acked c h ≡ false) × (above cp.safe_cursor c ≡ true)
  fresh n = (
    ground (arith, Newest-registered c c h n),
    ground (arith, Newest-registered c c h n, acked-registered c h),
    fresh-above n cp.safe_cursor refl,
  )

  register-lookup :
      Newest c h
      → (d : ℕ)
      → lookup d (register c cp).pending_acks
        ≡ (if d == c then some false else lookup d cp.pending_acks)
  unfolding register
  register-lookup n d =
      rw lookup-set_default
        (ground (arith, fresh n, t.pending d, t.pending c, contains-eq-lookup c cp.pending_acks))

  register-gap :
      Newest c h
      → (d : ℕ) → lookup d (register c cp).pending_acks ≡ some true
      → (g : ℕ) × (g < d) × (lookup g (register c cp).pending_acks ≡ some false)
  register-gap n d e =
      let (g, lt, waiting) = t.gap d (ground (arith, register-lookup n d)) in
      (g, lt, ground (arith, register-lookup n g))

  register-Tracks : Newest c h → Tracks (produced c ∷ h) (register c cp)
  unfolding register registered acked
  register-Tracks n = record {
    nodup = set_default-NodupKeys c false cp.pending_acks t.nodup;
    pending = λ d. ground (arith, fresh n, t.pending d, register-lookup n d);
    folded = λ d. ground (arith, fresh n, t.folded d);
    seen = λ s. ground (arith, t.seen s);
    gap = register-gap n;
  }

  mark_acked-lookup :
      (d : ℕ)
      → lookup d (mark_acked c cp).pending_acks ≡ (
          if d == c && registered c h && above cp.safe_cursor c
          then some true
          else lookup d cp.pending_acks)
  unfolding mark_acked
  mark_acked-lookup d = ground (
    arith,
    contains-eq-lookup c cp.pending_acks,
    t.pending c,
    lookup-insert d c true cp.pending_acks,
  )

  pub mark_acked-safe_cursor : (mark_acked c cp).safe_cursor ≡ cp.safe_cursor
  unfolding mark_acked
  mark_acked-safe_cursor = ground arith

  mark_acked-NodupKeys : NodupKeys (mark_acked c cp).pending_acks
  unfolding mark_acked
  mark_acked-NodupKeys = ground (arith, t.nodup, insert-NodupKeys c true cp.pending_acks t.nodup)

  pub mark_acked-Sweep : Sweep (sorted (mark_acked c cp).pending_acks) (mark_acked c cp)
  mark_acked-Sweep = record {
    listed = sorted-Listed (mark_acked c cp) mark_acked-NodupKeys;
    floor = λ d. rw mark_acked-safe_cursor (ground (arith, mark_acked-lookup d, t.pending d));
  }

  on_ack-Tracks : Tracks (delivered true c ∷ h) (on_ack true c cp)
  unfolding on_ack advance_watermark registered acked
  on_ack-Tracks =
      let cp' = mark_acked c cp in
      let ks = sorted cp'.pending_acks in
      let w = mark_acked-Sweep in
      record {
        nodup = advance_over-NodupKeys ks cp' mark_acked-NodupKeys;
        pending = λ d. ground (
          arith,
          advance_over-lookup ks cp' d w,
          mark_acked-lookup d,
          mark_acked-safe_cursor,
          t.pending d,
        );
        folded = λ d. ground (
          arith,
          advance_over-lookup ks cp' d w,
          advance_over_unacked ks cp' d w,
          mark_acked-lookup d,
          mark_acked-safe_cursor,
          t.pending d,
          t.folded d,
        );
        seen = λ s e. elim (advance_over-safe_cursor ks cp') [
          | inl same ↦ t.seen s (ground (arith, mark_acked-safe_cursor))
          | inr (m, moved, was) ↦ ground (arith, mark_acked-lookup m, t.pending m)
        ];
        gap = λ d. advance_over-gap ks cp' d w.listed;
      }

-- A call that leaves the pending cursors, the watermark and the history's account alone.
keep-Tracks :
    (h h' : List Call) (cp cp' : Checkpointer)
    → ((c : ℕ) → registered c h' ≡ registered c h)
    → ((c : ℕ) → acked c h' ≡ acked c h)
    → cp'.pending_acks ≡ cp.pending_acks
    → cp'.safe_cursor ≡ cp.safe_cursor
    → Tracks h cp
    → Tracks h' cp'
keep-Tracks h h' cp cp' r a p s t = record {
  nodup = rw p t.nodup;
  pending = λ c. rw (p, s, r, a) (t.pending c);
  folded = λ c. rw (s, r, a) (t.folded c);
  seen = λ m. rw (s, r) (t.seen m);
  gap = rw p t.gap;
}

pub run-Tracks :
    (settings : Settings) (now : ℕ) (store : CursorStore) (h : List Call)
    → InOrder h
    → Tracks h (run settings now store h).0
unfolding run registered acked
run-Tracks settings now store [] o = record {
  nodup = tt;
  pending = λ c. unfold lookup in refl;
  folded = λ c r. ground arith;
  seen = λ s e. cc;
  gap = λ c e. unfold lookup in absurd (ground arith);
}
run-Tracks settings now store (produced c ∷ h) o =
    register-Tracks h (run settings now store h).0 (run-Tracks settings now store h o.1) c o.0
run-Tracks settings now store (delivered true c ∷ h) o =
    on_ack-Tracks h (run settings now store h).0 (run-Tracks settings now store h o) c
run-Tracks settings now store (delivered false c ∷ h) o =
    keep-Tracks h (delivered false c ∷ h) (run settings now store h).0 _ (λ d. refl) (λ d. refl)
      (unfold on_ack in refl) (unfold on_ack in refl) (run-Tracks settings now store h o)
run-Tracks settings now store (checkpoint n ∷ h) o =
    keep-Tracks h (checkpoint n ∷ h) (run settings now store h).0 _ (λ d. refl) (λ d. refl)
      (unfold maybe_save in ground arith) (unfold maybe_save in ground arith)
      (run-Tracks settings now store h o)
run-Tracks settings now store (shutdown ∷ h) o =
    keep-Tracks h (shutdown ∷ h) (run settings now store h).0 _ (λ d. refl) (λ d. refl)
      (unfold final_save in ground arith) (unfold final_save in ground arith)
      (run-Tracks settings now store h o)
