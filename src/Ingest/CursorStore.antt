-- ===== src/Ingest/CursorStore.antt =====
-- ingest/cursor_store.py: the table `ingest_cursors` as the rows by stream name. Postgres answers
-- every statement; a failing one raises out of the loop and ends the run.
use bluesky_trends.Prelude.{ℕ, String, ◌≡◌, Option, some, str_eq, if◌then◌else◌}
use bluesky_trends.Prelude.StrDict
use bluesky_trends.Prelude.StrDict.{StrDict, lookup-insert}

pub record CursorStore : Type 0 where
  pub rows : StrDict ℕ

-- The SELECT on `stream_name`.
unfoldable pub load : String → CursorStore → Option ℕ
load stream_name store = StrDict.lookup stream_name store.rows

-- The UPSERT: insert, or update the row of the same `stream_name`.
unfoldable pub save : String → ℕ → CursorStore → CursorStore
save stream_name cursor store = record store { rows = StrDict.insert stream_name cursor store.rows }

-- A saved cursor is what the same stream loads, and the other streams keep theirs.
pub load-save :
    (stream other : String) (cursor : ℕ) (store : CursorStore)
    → load other (save stream cursor store)
      ≡ (if str_eq other stream then some cursor else load other store)
unfolding load save
load-save stream other cursor store = lookup-insert other stream cursor store.rows
