-- ===== src/Tests/Dagster.antt =====
-- The theorems on the decoders, the batches, the tables, the landing assets and the asset checks at
-- concrete inputs.
use bluesky_trends.Prelude.{
  map, ℕ, ◌≤◌, ◌≡◌, ◌⊎◌, none, some, [], ◌∷◌, ◌++◌, arith, length, List, All, ◌<◌,
}
use bluesky_trends.Prelude.Dict.{lookup}
use bluesky_trends.Schemas.Dump.{dump_post, dump_like, dump_follow}
use bluesky_trends.Dagster.Config.{default_settings}
use bluesky_trends.Dagster.Decode.{
  BronzeRow, LikeRow, FollowRow, row, undecodable, decode_post, decode_like, decode_follow,
}
use bluesky_trends.Dagster.Decode.Laws.{decode-dump}
use bluesky_trends.Dagster.Batch.{new_batch}
use bluesky_trends.Dagster.Batch.Offsets.{add_all, highest, add_all-highest}
use bluesky_trends.Dagster.Landing.Blocks.{join, blocks-All}
use bluesky_trends.Dagster.Landing.{blocks, newest, watermark, scan, land}
use bluesky_trends.Dagster.Landing.Watermark.{land_rerun, failed_load_skips}
use bluesky_trends.Samples.{pydantic, texts, a_post, a_like, a_follow}
use bluesky_trends.Samples.Broker.{Queue, new_queue, broker}
use bluesky_trends.Dagster.Schema.{bronze_columns, bronze_columns_likes, bronze_columns_follows}
use bluesky_trends.Dagster.Schema.Table.{posts_to_arrow, likes_to_arrow, follows_to_arrow}
use bluesky_trends.Dagster.Schema.Table.Rows.{
  ReadsBack, post_columns, like_columns, follow_columns, post_values, like_values,
  to_arrow-ReadsBack,
}
use bluesky_trends.Dagster.Dlq.{dlq_message, send}
use bluesky_trends.Dagster.Dlq.Send.{send_once}
use bluesky_trends.Samples.Archiver.{a_place, a_row}

abbrev decoded_post : BronzeRow
decoded_post = record {
  did = "did:a";
  rkey = "r1";
  cid = "c1";
  created_at = 3;
  text = "hello";
  langs = "en" ∷ [];
  reply_parent = none;
  reply_root = some "at://q";
  place = a_place 1;
}

abbrev decoded_like : LikeRow
decoded_like = record {
  did = "did:a";
  rkey = "r1";
  cid = "c1";
  created_at = 3;
  subject_uri = "at://p";
  subject_cid = "c0";
  place = a_place 1;
}

abbrev decoded_follow : FollowRow
decoded_follow = record {
  did = "did:a";
  rkey = "r1";
  cid = "c1";
  created_at = 3;
  subject_did = "did:b";
  place = a_place 1;
}

decode-dump_example :
    (decode_post pydantic texts (some (dump_post a_post)) (a_place 1) ≡ row decoded_post)
    × (decode_like pydantic texts (some (dump_like a_like)) (a_place 1) ≡ row decoded_like)
    × (decode_follow pydantic texts (some (dump_follow a_follow)) (a_place 1) ≡ row decoded_follow)
decode-dump_example = decode-dump pydantic texts a_post a_like a_follow (a_place 1)

add_all-highest_example :
    ((add_all (λ r. r.place) (a_row 9 ∷ a_row 4 ∷ []) (new_batch 10 5000)).rows
      ≡ a_row 9 ∷ a_row 4 ∷ [])
    × (lookup 0 (add_all (λ r. r.place) (a_row 9 ∷ a_row 4 ∷ []) (new_batch 10 5000)).offsets
        ≡ highest (λ r. r.place) 0 (a_row 9 ∷ a_row 4 ∷ []))
add_all-highest_example = add_all-highest (λ r. r.place) 10 5000 (a_row 9 ∷ a_row 4 ∷ []) 0

-- Rows are their time stamps.
abbrev stamp : ℕ → ℕ
stamp n = n

land_rerun_example :
    let new = scan stamp (watermark stamp (3 ∷ [])) (3 ∷ 5 ∷ 9 ∷ []) in
    (land stamp 7 1 (3 ∷ 5 ∷ 9 ∷ []) (3 ∷ []) ≡ (some (length new), (3 ∷ []) ++ new))
    × ((again size : ℕ)
        → land stamp again size (3 ∷ 5 ∷ 9 ∷ []) ((3 ∷ []) ++ new) ≡ (some 0, (3 ∷ []) ++ new))
land_rerun_example = land_rerun stamp 7 1 (3 ∷ 5 ∷ 9 ∷ []) (3 ∷ []) (omega arith) few
  where
    few : length (scan stamp (watermark stamp (3 ∷ [])) (3 ∷ 5 ∷ 9 ∷ [])) ≤ 7
    few = unfold scan watermark newest in omega arith

failed_load_skips_example :
    (land stamp 1 2 ((5 ∷ 9 ∷ []) ++ 7 ∷ []) [] ≡ (none, 5 ∷ 9 ∷ []))
    × ((again size : ℕ)
        → land stamp again size ((5 ∷ 9 ∷ []) ++ 7 ∷ []) (5 ∷ 9 ∷ []) ≡ (some 0, 5 ∷ 9 ∷ []))
failed_load_skips_example = failed_load_skips stamp 5 (9 ∷ []) 7 [] (unfold newest in omega arith)

to_arrow-ReadsBack_example :
    ReadsBack bronze_columns
      (post_columns (a_row 4 ∷ a_row 5 ∷ []))
      (map post_values (a_row 4 ∷ a_row 5 ∷ []))
      (posts_to_arrow (a_row 4 ∷ a_row 5 ∷ []))
    × ReadsBack bronze_columns_likes
        (like_columns (decoded_like ∷ []))
        (map like_values (decoded_like ∷ []))
        (likes_to_arrow (decoded_like ∷ []))
    × ReadsBack bronze_columns_follows (follow_columns []) [] (follows_to_arrow [])
to_arrow-ReadsBack_example = to_arrow-ReadsBack (a_row 4 ∷ a_row 5 ∷ []) (decoded_like ∷ []) []

send_once_example :
    let m = dlq_message broker default_settings undecodable "bsky.posts.v1" 7 in
    ((q' : Queue) × (send broker default_settings undecodable "bsky.posts.v1" 7 new_queue ≡ some q')
      × (broker.taken q' ≡ m ∷ []))
    ⊎ ((send broker default_settings undecodable "bsky.posts.v1" 7 new_queue ≡ none)
        × (broker.offer m new_queue ≡ none))
send_once_example = send_once broker default_settings undecodable "bsky.posts.v1" 7 new_queue

abbrev three : List ℕ
three = 1 ∷ 2 ∷ 3 ∷ []

blocks-All_example :
    (join (blocks 5 2 three) ≡ three)
    × All (λ (block : List ℕ). (0 < length block) × (length block ≤ 2)) (blocks 5 2 three)
blocks-All_example = blocks-All 5 2 three (omega arith) (omega arith)
