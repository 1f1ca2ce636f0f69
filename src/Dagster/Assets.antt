-- ===== src/Dagster/Assets.antt =====
-- The assets posts_bronze, likes_bronze and follows_bronze of dagster/bsky_dagster/assets: what
-- each fills into the archiver, and a whole run of it over the table and the committed offsets
-- that it finds.
pub mod NoLoss
use bluesky_trends.Prelude.{ℕ, Option, List}
use bluesky_trends.Prelude.Dict.{Dict}
use bluesky_trends.Json.{Fields}
use bluesky_trends.Schemas.{Pydantic}
use bluesky_trends.Dagster.Config.{Settings}
use bluesky_trends.Dagster.Decode.{
  BronzeRow, LikeRow, FollowRow, Texts, decode_post, decode_like, decode_follow,
}
use bluesky_trends.Dagster.Bronze.{Poll, Vertical, Archive, Status, archive, new_archive}

-- The Avro deserializer of the schema registry; `none` is an exception or `None`.
abbrev pub Deserializer : Type 0
Deserializer = List ℕ → Option Fields

module _ (py : Pydantic) (texts : Texts) (deserialize : Deserializer) (settings : Settings) where
  abbrev pub posts_vertical : Vertical BronzeRow
  posts_vertical = record {
    topic = settings.topic_posts;
    deserialize = deserialize;
    decode = decode_post py texts;
    place = λ r. r.place;
  }

  abbrev pub likes_vertical : Vertical LikeRow
  likes_vertical = record {
    topic = settings.topic_likes;
    deserialize = deserialize;
    decode = decode_like py texts;
    place = λ r. r.place;
  }

  abbrev pub follows_vertical : Vertical FollowRow
  follows_vertical = record {
    topic = settings.topic_follows;
    deserialize = deserialize;
    decode = decode_follow py texts;
    place = λ r. r.place;
  }

  -- The state when the loop starts.
  abbrev pub started : {Row : Type 0} → ℕ → List Row → Dict ℕ → Archive Row
  started now table committed =
      new_archive settings.bronze_batch_max_rows settings.bronze_batch_max_seconds now table
        committed

  abbrev pub run_archiver :
      {Row : Type 0}
      → Vertical Row
      → ℕ
      → List Row
      → Dict ℕ
      → List Poll
      → Poll
      → Status × Archive Row
  run_archiver v now table committed polls last =
      archive v settings.bronze_max_rows_per_run polls last (started now table committed)

  unfoldable pub posts_bronze :
      ℕ → List BronzeRow → Dict ℕ → List Poll → Poll → Status × Archive BronzeRow
  posts_bronze now table committed polls last =
      run_archiver posts_vertical now table committed polls last

  unfoldable pub likes_bronze :
      ℕ → List LikeRow → Dict ℕ → List Poll → Poll → Status × Archive LikeRow
  likes_bronze now table committed polls last =
      run_archiver likes_vertical now table committed polls last

  unfoldable pub follows_bronze :
      ℕ → List FollowRow → Dict ℕ → List Poll → Poll → Status × Archive FollowRow
  follows_bronze now table committed polls last =
      run_archiver follows_vertical now table committed polls last
