-- ===== src/Ingest/Checkpointer/Replay.antt =====
-- The checkpointer's state against a history in which a cursor may be registered again, as it is
-- when Jetstream replays its event: what is pending, and what was folded into the watermark.
use bluesky_trends.Prelude.{
  ℕ, ◌<◌, ◌≡◌, refl, true, false, ◌&&◌, Option, none, some, List, [], ◌∷◌, arith, ◌==◌,
  if◌then◌else◌, inl, inr, not,
}
use bluesky_trends.Prelude.Dict.{
  lookup, is_some, lookup-insert, lookup-set_default, contains-eq-lookup, NodupKeys,
  insert-NodupKeys, set_default-NodupKeys,
}
use bluesky_trends.Prelude.Sorted.{sorted}
use bluesky_trends.Ingest.Config.{Settings}
use bluesky_trends.Ingest.CursorStore.{CursorStore}
use bluesky_trends.Ingest.Checkpointer.{
  Checkpointer, register, on_ack, mark_acked, advance_watermark, maybe_save, final_save,
}
use bluesky_trends.Ingest.Checkpointer.Advance.{
  above, sorted-Listed, advance_over-safe_cursor, advance_over-gap, advance_over-NodupKeys,
}
use bluesky_trends.Ingest.Checkpointer.Trace.{
  Call, produced, delivered, checkpoint, shutdown, run, registered, acked, Latest, NeverFalls,
  Latest-registered,
}
use bluesky_trends.Ingest.Checkpointer.Passes.{
  not_below, Pass, advance_over-Passes, advance_over-waiting,
}

-- What holds of a cursor in every state: an entry of the pending cursors says whether it was acked,
-- none lies below the watermark, each registered cursor above the watermark has one, and those up
-- to it were acked.
pub record Covers (h : List Call) (cp : Checkpointer) : Type 0 where
  pub nodup : NodupKeys cp.pending_acks
  pub acks : (c : ℕ) → lookup c cp.pending_acks ≡ some true → acked c h ≡ true
  pub within : (c : ℕ) → is_some (lookup c cp.pending_acks) ≡ true → registered c h ≡ true
  pub floor :
      (c : ℕ) → is_some (lookup c cp.pending_acks) ≡ true → not_below cp.safe_cursor c ≡ true
  pub known :
      (c : ℕ)
      → registered c h ≡ true
      → above cp.safe_cursor c ≡ true
      → is_some (lookup c cp.pending_acks) ≡ true
  pub folded : (c : ℕ) → registered c h ≡ true → above cp.safe_cursor c ≡ false → acked c h ≡ true
  pub seen : (s : ℕ) → cp.safe_cursor ≡ some s → registered s h ≡ true
  pub gap :
      (c : ℕ)
      → lookup c cp.pending_acks ≡ some true
      → (g : ℕ) × (g < c) × (lookup g cp.pending_acks ≡ some false)

module _ (h : List Call) (cp : Checkpointer) (t : Covers h cp) (c : ℕ) where
  -- No registered cursor, and not the watermark, lies above the cursor.
  Latest-reaches : Latest c h → (o : Option ℕ) → cp.safe_cursor ≡ o → not_below o c ≡ true
  Latest-reaches n none e = refl
  Latest-reaches n (some s) e = ground (arith, Latest-registered c s h n (t.seen s e))

  Latest-folded :
      Latest c h → (o : Option ℕ) → cp.safe_cursor ≡ o → above o c ≡ false → acked c h ≡ true
  Latest-folded n none e low = absurd (cc)
  Latest-folded n (some s) e low =
      let le = Latest-registered c s h n (t.seen s e) in
      let r = t.seen s e in let same : s ≡ c = ground arith in t.folded c (rw same at r) (rw e low)

  register-lookup :
      (d : ℕ)
      → lookup d (register c cp).pending_acks ≡ (
          if d == c && not (is_some (lookup c cp.pending_acks))
          then some false
          else lookup d cp.pending_acks)
  unfolding register
  register-lookup d = rw lookup-set_default (ground (arith, contains-eq-lookup c cp.pending_acks))

  register-gap :
      (d : ℕ)
      → lookup d (register c cp).pending_acks ≡ some true
      → (g : ℕ) × (g < d) × (lookup g (register c cp).pending_acks ≡ some false)
  register-gap d e =
      let (g, lt, waiting) = t.gap d (ground (arith, register-lookup d)) in
      (g, lt, ground (arith, register-lookup g))

  register-Covers : Latest c h → Covers (produced c ∷ h) (register c cp)
  unfolding register registered acked
  register-Covers n = record {
    nodup = set_default-NodupKeys c false cp.pending_acks t.nodup;
    acks = λ d. ground (arith, register-lookup d, t.acks d);
    within = λ d. ground (arith, register-lookup d, t.within d);
    floor = λ d. ground (arith, register-lookup d, t.floor d, Latest-reaches n cp.safe_cursor refl);
    known = λ d. ground (arith, register-lookup d, t.known d);
    folded = λ d. ground (arith, t.folded d, Latest-folded n cp.safe_cursor refl);
    seen = λ s. ground (arith, t.seen s);
    gap = register-gap;
  }

  marked-lookup :
      (d : ℕ)
      → lookup d (mark_acked c cp).pending_acks ≡ (
          if d == c && is_some (lookup c cp.pending_acks)
          then some true
          else lookup d cp.pending_acks)
  unfolding mark_acked
  marked-lookup d =
      ground (arith, contains-eq-lookup c cp.pending_acks, lookup-insert d c true cp.pending_acks)

  pub marked-safe_cursor : (mark_acked c cp).safe_cursor ≡ cp.safe_cursor
  unfolding mark_acked
  marked-safe_cursor = ground arith

  marked-NodupKeys : NodupKeys (mark_acked c cp).pending_acks
  unfolding mark_acked
  marked-NodupKeys = ground (arith, t.nodup, insert-NodupKeys c true cp.pending_acks t.nodup)

  pub marked-Pass : Pass (sorted (mark_acked c cp).pending_acks) (mark_acked c cp)
  marked-Pass = record {
    listed = sorted-Listed (mark_acked c cp) marked-NodupKeys;
    floor = λ d. rw marked-safe_cursor (ground (arith, marked-lookup d, t.floor d));
  }

  on_ack-Covers : Covers (delivered true c ∷ h) (on_ack true c cp)
  unfolding on_ack advance_watermark registered acked
  on_ack-Covers =
      let cp' = mark_acked c cp in
      let ks = sorted cp'.pending_acks in
      let w = marked-Pass in
      record {
        nodup = advance_over-NodupKeys ks cp' marked-NodupKeys;
        acks = λ d.
            ground (arith, advance_over-Passes ks cp' d w, marked-lookup d, t.acks d, t.within d);
        within = λ d. ground (arith, advance_over-Passes ks cp' d w, marked-lookup d, t.within d);
        floor = λ d. ground (arith, advance_over-Passes ks cp' d w);
        known = λ d.
            ground (
              arith,
              advance_over-Passes ks cp' d w,
              marked-lookup d,
              marked-safe_cursor,
              t.known d,
            );
        folded = λ d. ground (
          arith,
          advance_over-Passes ks cp' d w,
          advance_over-waiting ks cp' d w,
          marked-lookup d,
          marked-safe_cursor,
          t.known d,
          t.acks d,
          t.within d,
          t.folded d,
        );
        seen = λ s e. elim (advance_over-safe_cursor ks cp') [
          | inl same ↦ t.seen s (ground (arith, marked-safe_cursor))
          | inr (m, moved, was) ↦ ground (arith, marked-lookup m, t.within m)
        ];
        gap = λ d. advance_over-gap ks cp' d w.listed;
      }

-- A call that leaves the pending cursors, the watermark and the history's account alone.
keep-Covers :
    (h h' : List Call) (cp cp' : Checkpointer)
    → ((c : ℕ) → registered c h' ≡ registered c h)
    → ((c : ℕ) → acked c h' ≡ acked c h)
    → cp'.pending_acks ≡ cp.pending_acks
    → cp'.safe_cursor ≡ cp.safe_cursor
    → Covers h cp
    → Covers h' cp'
keep-Covers h h' cp cp' r a p s t = record {
  nodup = rw p t.nodup;
  acks = λ c. rw (p, a) (t.acks c);
  within = λ c. rw (p, r) (t.within c);
  floor = λ c. rw (p, s) (t.floor c);
  known = λ c. rw (p, s, r) (t.known c);
  folded = λ c. rw (s, r, a) (t.folded c);
  seen = λ m. rw (s, r) (t.seen m);
  gap = rw p t.gap;
}

pub run-Covers :
    (settings : Settings) (now : ℕ) (store : CursorStore) (h : List Call)
    → NeverFalls h
    → Covers h (run settings now store h).0
unfolding run registered acked
run-Covers settings now store [] o = record {
  nodup = tt;
  acks = λ c. unfold lookup in λ e. absurd (ground arith);
  within = λ c. unfold lookup in λ e. absurd (ground arith);
  floor = λ c e. refl;
  known = λ c r. absurd (ground arith);
  folded = λ c r. absurd (ground arith);
  seen = λ s e. cc;
  gap = λ c e. unfold lookup in absurd (ground arith);
}
run-Covers settings now store (produced c ∷ h) o =
    register-Covers h (run settings now store h).0 (run-Covers settings now store h o.1) c o.0
run-Covers settings now store (delivered true c ∷ h) o =
    on_ack-Covers h (run settings now store h).0 (run-Covers settings now store h o) c
run-Covers settings now store (delivered false c ∷ h) o =
    keep-Covers h (delivered false c ∷ h) (run settings now store h).0 _ (λ d. refl) (λ d. refl)
      (unfold on_ack in refl) (unfold on_ack in refl) (run-Covers settings now store h o)
run-Covers settings now store (checkpoint n ∷ h) o =
    keep-Covers h (checkpoint n ∷ h) (run settings now store h).0 _ (λ d. refl) (λ d. refl)
      (unfold maybe_save in ground arith) (unfold maybe_save in ground arith)
      (run-Covers settings now store h o)
run-Covers settings now store (shutdown ∷ h) o =
    keep-Covers h (shutdown ∷ h) (run settings now store h).0 _ (λ d. refl) (λ d. refl)
      (unfold final_save in ground arith) (unfold final_save in ground arith)
      (run-Covers settings now store h o)
