-- ===== src/Ingest/Checkpointer.antt =====
-- `_CursorCheckpointer` of ingest/main.py: the gap-free cursor watermark. The store and the
-- settings that the object holds are arguments of its methods.
pub mod Advance
pub mod Trace
pub mod Invariant
pub mod Watermark
pub mod Passes
pub mod Replay
pub mod Resume
pub mod Shutdown
pub mod Ledger
use bluesky_trends.Prelude.{
  ℕ, ◌+◌, Bool, true, false, Option, none, some, List, [], ◌∷◌, ◌==◌, leb, if◌then◌else◌, not, ◌&&◌,
}
use bluesky_trends.Prelude.Dict.{Dict, lookup, contains, insert, erase, set_default}
use bluesky_trends.Prelude.Sorted.{sorted}
use bluesky_trends.Exceptions.{Result, ok, raised, postgres_error}
use bluesky_trends.Ingest.Config.{Settings}
use bluesky_trends.Ingest.CursorStore.{CursorStore, save}

pub record Checkpointer : Type 0 where
  pub pending_acks : Dict Bool
  pub safe_cursor : Option ℕ
  pub saved_cursor : Option ℕ
  pub acks_since_save : ℕ
  pub last_save_monotonic : ℕ

-- `__init__`, at the clock's reading `now`.
abbrev pub new_checkpointer : ℕ → Checkpointer
new_checkpointer now = record {
  pending_acks = [];
  safe_cursor = none;
  saved_cursor = none;
  acks_since_save = 0;
  last_save_monotonic = now;
}

unfoldable pub register : ℕ → Checkpointer → Checkpointer
register cursor cp = record cp { pending_acks = set_default cursor false cp.pending_acks }

abbrev pub is_acked : Option Bool → Bool
is_acked none = false
is_acked (some acked) = acked

abbrev pub fold_cursor : ℕ → Checkpointer → Checkpointer
fold_cursor cursor cp = record cp {
  safe_cursor = some cursor;
  pending_acks = erase cursor cp.pending_acks;
  acks_since_save = cp.acks_since_save + 1;
}

-- The body of the `for` over the sorted keys; a cursor that is not acked breaks out.
unfoldable pub advance_over : List ℕ → Checkpointer → Checkpointer
advance_over [] cp = cp
advance_over (cursor ∷ rest) cp =
    if is_acked (lookup cursor cp.pending_acks)
    then advance_over rest (fold_cursor cursor cp)
    else cp

unfoldable pub advance_watermark : Checkpointer → Checkpointer
advance_watermark cp = advance_over (sorted cp.pending_acks) cp

unfoldable pub mark_acked : ℕ → Checkpointer → Checkpointer
mark_acked cursor cp =
    if contains cursor cp.pending_acks
    then record cp { pending_acks = insert cursor true cp.pending_acks }
    else cp

unfoldable pub on_ack : Bool → ℕ → Checkpointer → Checkpointer
on_ack false cursor cp = cp
on_ack true cursor cp = advance_watermark (mark_acked cursor cp)

-- `safe_cursor == saved_cursor` on optional cursors.
abbrev pub same_cursor : Option ℕ → Option ℕ → Bool
same_cursor none none = true
same_cursor (some a) (some b) = a == b
same_cursor _ _ = false

abbrev pub is_none : Option ℕ → Bool
is_none none = true
is_none (some _) = false

unfoldable pub due : Settings → ℕ → Checkpointer → Bool
due settings now cp =
    if is_none cp.safe_cursor
    then false
    else if same_cursor cp.safe_cursor cp.saved_cursor
    then false
    else if leb settings.cursor_checkpoint_acks cp.acks_since_save
    then true
    else leb (cp.last_save_monotonic + settings.cursor_checkpoint_seconds) now

-- The store after the watermark, if there is one, is saved.
unfoldable pub save_watermark : Settings → Option ℕ → CursorStore → CursorStore
save_watermark settings none store = store
save_watermark settings (some cursor) store = save settings.stream_name cursor store

-- `maybe_save`, where Postgres takes the statement.
unfoldable pub maybe_save : Settings → ℕ → Checkpointer × CursorStore → Checkpointer × CursorStore
maybe_save settings now (cp, store) =
    if due settings now cp
    then (
      record cp { saved_cursor = cp.safe_cursor; acks_since_save = 0; last_save_monotonic = now },
      save_watermark settings cp.safe_cursor store,
    )
    else (cp, store)

-- `final_save`, where Postgres takes the statement.
unfoldable pub final_save : Settings → Checkpointer × CursorStore → Checkpointer × CursorStore
final_save settings (cp, store) =
    if is_none cp.safe_cursor
    then (cp, store)
    else if same_cursor cp.safe_cursor cp.saved_cursor
    then (cp, store)
    else (record cp { saved_cursor = cp.safe_cursor }, save_watermark settings cp.safe_cursor store)

-- The two methods, where `saves` is whether Postgres takes a statement now: if it does not, a save
-- that is called for raises before it has changed anything.
unfoldable pub maybe_save_or_raise :
    Settings
    → ℕ
    → Bool
    → Checkpointer × CursorStore
    → Result (Unit {0}) × (Checkpointer × CursorStore)
maybe_save_or_raise settings now saves (cp, store) =
    if due settings now cp && not saves
    then (raised postgres_error, (cp, store))
    else (ok tt, maybe_save settings now (cp, store))

abbrev pub unsaved : Checkpointer → Bool
unsaved cp = not (is_none cp.safe_cursor) && not (same_cursor cp.safe_cursor cp.saved_cursor)

unfoldable pub final_save_or_raise :
    Settings → Bool → Checkpointer × CursorStore → Result (Unit {0}) × (Checkpointer × CursorStore)
final_save_or_raise settings saves (cp, store) =
    if unsaved cp && not saves
    then (raised postgres_error, (cp, store))
    else (ok tt, final_save settings (cp, store))
