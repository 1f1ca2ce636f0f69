-- ===== src/Ingest/Checkpointer/Ledger.antt =====
-- What `_CursorCheckpointer` of ingest/main.py promises, as a specification: a ledger of every
-- cursor that was produced, latest first, which forgets nothing, and a watermark read off it.
use bluesky_trends.Prelude.{
  ℕ, ◌≤◌, ◌<◌, ◌≡◌, ◌≢◌, refl, Bool, true, false, ◌&&◌, ◌||◌, Option, none, some, List, [], ◌∷◌,
  arith, ◌==◌, if◌then◌else◌, inl, inr, Bool-cases, Option-cases,
}
use bluesky_trends.Prelude.Dict.{Dict, lookup, is_some}
use bluesky_trends.Ingest.Config.{Settings}
use bluesky_trends.Ingest.CursorStore.{CursorStore}
use bluesky_trends.Ingest.Checkpointer.Advance.{above}
use bluesky_trends.Ingest.Checkpointer.Trace.{
  Call, produced, delivered, checkpoint, shutdown, run, registered, acked, InOrder,
  Newest-registered, acked-registered,
}
use bluesky_trends.Ingest.Checkpointer.Invariant.{run-Tracks}
use bluesky_trends.Ingest.Checkpointer.Watermark.{watermark_exact}

unfoldable pub mark : ℕ → Dict Bool → Dict Bool
mark c [] = []
mark c ((d, a) ∷ l) = (d, c == d || a) ∷ mark c l

unfoldable pub step : Call → Dict Bool → Dict Bool
step (produced c) l = (c, false) ∷ l
step (delivered true c) l = mark c l
step (delivered false c) l = l
step (checkpoint _) l = l
step shutdown l = l

unfoldable pub ledger : List Call → Dict Bool
ledger [] = []
ledger (k ∷ earlier) = step k (ledger earlier)

unfoldable pub all_acked : Dict Bool → Bool
all_acked [] = true
all_acked ((c, a) ∷ l) = a && all_acked l

-- The latest cursor that was acked with all the cursors before it.
unfoldable pub prefix_end : Dict Bool → Option ℕ
prefix_end [] = none
prefix_end ((c, a) ∷ l) = let earlier = prefix_end l in if a && all_acked l then some c else earlier

-- The cursors fall from the latest on.
abbrev Falling : Dict Bool → Type 0
Falling [] = Unit
Falling ((c, a) ∷ l) = ((d : ℕ) → is_some (lookup d l) ≡ true → d < c) × Falling l

lookup-mark :
    (c d : ℕ) (l : Dict Bool)
    → lookup c (mark d l) ≡ (if c == d && is_some (lookup c l) then some true else lookup c l)
unfolding mark lookup
lookup-mark c d [] = ground arith
lookup-mark c d ((e, a) ∷ l) = ground (arith, lookup-mark c d l)

-- The ledger says of a cursor what the history says.
pub lookup-ledger :
    (c : ℕ) (h : List Call)
    → InOrder h
    → lookup c (ledger h) ≡ (if registered c h then some (acked c h) else none)
unfolding ledger step lookup registered acked
lookup-ledger c [] o = refl
lookup-ledger c (produced d ∷ h) o =
    ground (arith, lookup-ledger c h o.1, Newest-registered d c h o.0, acked-registered c h)
lookup-ledger c (delivered true d ∷ h) o =
    ground (arith, lookup-mark c d (ledger h), lookup-ledger c h o)
lookup-ledger c (delivered false d ∷ h) o = lookup-ledger c h o
lookup-ledger c (checkpoint _ ∷ h) o = lookup-ledger c h o
lookup-ledger c (shutdown ∷ h) o = lookup-ledger c h o

mark-Falling : (c : ℕ) (l : Dict Bool) → Falling l → Falling (mark c l)
unfolding mark
mark-Falling c [] f = tt
mark-Falling c ((d, a) ∷ l) f =
    (λ e is. f.0 e (ground (arith, lookup-mark e c l)), mark-Falling c l f.1)

ledger-Falling : (h : List Call) → InOrder h → Falling (ledger h)
unfolding ledger step
ledger-Falling [] o = tt
ledger-Falling (produced c ∷ h) o = (
  λ d is. Newest-registered c d h o.0 (ground (arith, lookup-ledger d h o.1)),
  ledger-Falling h o.1,
)
ledger-Falling (delivered true c ∷ h) o = mark-Falling c (ledger h) (ledger-Falling h o)
ledger-Falling (delivered false c ∷ h) o = ledger-Falling h o
ledger-Falling (checkpoint _ ∷ h) o = ledger-Falling h o
ledger-Falling (shutdown ∷ h) o = ledger-Falling h o

all_acked-lookup : (c : ℕ) (l : Dict Bool) → all_acked l ≡ true → lookup c l ≢ some false
unfolding all_acked lookup
all_acked-lookup c [] a e = absurd (cc)
all_acked-lookup c ((d, b) ∷ l) a e = ground (arith, all_acked-lookup c l)

-- Where the ledger is not all acked, a cursor in it waits.
some_waits : (l : Dict Bool) → Falling l → all_acked l ≡ false → (g : ℕ) × (lookup g l ≡ some false)
unfolding all_acked lookup
some_waits [] f e = absurd (cc)
some_waits ((c, false) ∷ l) f e = (c, ground arith)
some_waits ((c, true) ∷ l) f e =
    let (g, waits) = some_waits l f.1 (ground arith) in (g, ground (arith, f.0 g))

prefix_end-lookup : (l : Dict Bool) (s : ℕ) → prefix_end l ≡ some s → is_some (lookup s l) ≡ true
unfolding prefix_end lookup
prefix_end-lookup [] s e = absurd (cc)
prefix_end-lookup ((c, a) ∷ l) s e = ground (arith, prefix_end-lookup l s)

-- A cursor later than all in the ledger lies above the end of the prefix.
later-above :
    (l : Dict Bool) (c : ℕ)
    → ((d : ℕ) → is_some (lookup d l) ≡ true → d < c)
    → above (prefix_end l) c ≡ true
later-above l c later = elim (Option-cases (prefix_end l)) [
  | inl nothing ↦ rw nothing refl
  | inr (s, ends) ↦ rw ends (ground (arith, later s (prefix_end-lookup l s ends)))
]

-- A cursor that waits lies above the end of the prefix.
waiting-above :
    (l : Dict Bool) (c : ℕ) → Falling l → lookup c l ≡ some false → above (prefix_end l) c ≡ true
unfolding prefix_end lookup
waiting-above [] c f e = absurd (cc)
waiting-above ((d, a) ∷ l) c f e =
    ground (arith, waiting-above l c f.1, all_acked-lookup c l, later-above l d f.0)

-- What lies above the end of the prefix waits, or waits behind a cursor that does.
above-waiting :
    (l : Dict Bool) (c : ℕ)
    → Falling l
    → is_some (lookup c l) ≡ true
    → above (prefix_end l) c ≡ true
    → (g : ℕ) × (g ≤ c) × (lookup g l ≡ some false)
unfolding prefix_end lookup
above-waiting [] c f is up = absurd (ground arith)
above-waiting ((d, a) ∷ l) c f is up = elim (Bool-cases (a && all_acked l)) [
  | inl all ↦ absurd (ground (arith, f.0 c))
  | inr gap ↦ elim (Bool-cases (c == d)) [
    | inr earlier ↦
        let (g, le, waits) = above-waiting l c f.1 (ground arith) (ground arith) in
        (g, le, ground (arith, f.0 g))
    | inl here ↦ elim (Bool-cases a) [
      | inr unacked ↦ (d, ground arith, ground arith)
      | inl acked_too ↦
          let (g, waits) = some_waits l f.1 (ground arith) in
          (g, ground (arith, f.0 g), ground (arith, f.0 g))
    ]
  ]
]

-- Two watermarks of which each reaches the other are the same.
same_end :
    (o w : Option ℕ)
    → ((s : ℕ) → o ≡ some s → above w s ≡ false)
    → ((s : ℕ) → w ≡ some s → above o s ≡ false)
    → o ≡ w
same_end none none x y = refl
same_end none (some b) x y = absurd (let e = y b refl in cc)
same_end (some a) none x y = absurd (let e = x a refl in cc)
same_end (some a) (some b) x y = ground (arith, x a refl, y b refl)

module _ (settings : Settings) (now : ℕ) (store : CursorStore) (h : List Call) (o : InOrder h) where
  reaches :
      (s : ℕ)
      → (run settings now store h).0.safe_cursor ≡ some s
      → above (prefix_end (ledger h)) s ≡ false
  reaches s e =
      let t = run-Tracks settings now store h o in
      elim (Bool-cases (above (prefix_end (ledger h)) s)) [
        | inr below ↦ below
        | inl over ↦
            let (g, le, waits) =
              above-waiting (ledger h) s (ledger-Falling h o)
                (ground (arith, lookup-ledger s h o, t.seen s e)) over in
            absurd (ground (arith, lookup-ledger g h o, t.folded g))
      ]

  reached :
      (s : ℕ)
      → prefix_end (ledger h) ≡ some s
      → above (run settings now store h).0.safe_cursor s ≡ false
  reached s e =
      let known : registered s h ≡ true =
        ground (arith, lookup-ledger s h o, prefix_end-lookup (ledger h) s e) in
      (watermark_exact settings now store h o s known).1 (λ d r le.
        ground (arith, lookup-ledger d h o, waiting-above (ledger h) d (ledger-Falling h o)))

-- The watermark of the checkpointer is the one that the ledger shows: the latest cursor that was
-- acked together with every cursor produced before it. This holds after every history in which
-- the cursors increase.
pub run-refines :
    (settings : Settings) (now : ℕ) (store : CursorStore) (h : List Call)
    → InOrder h
    → (run settings now store h).0.safe_cursor ≡ prefix_end (ledger h)
run-refines settings now store h o =
    same_end (run settings now store h).0.safe_cursor (prefix_end (ledger h))
      (reaches settings now store h o) (reached settings now store h o)
