-- ===== src/Dagster/Decode/Laws.antt =====
-- What the decoders make of the records that the ingest service writes, and where their rows stand.
use bluesky_trends.Prelude.{String, List, [], ◌≡◌, refl, Option, none, some, arith}
use bluesky_trends.Json.{Fields}
use bluesky_trends.Schemas.{Pydantic, BskyPost, BskyLike, BskyFollow}
use bluesky_trends.Schemas.Dump.{
  dump_post, dump_like, dump_follow, validate-dump_post, validate-dump_like, validate-dump_follow,
}
use bluesky_trends.Dagster.Decode.{
  Place, BronzeRow, LikeRow, FollowRow, row, Texts, decode_post, decode_like, decode_follow,
  or_empty,
}

-- The languages of a post, none of which is an empty list.
abbrev pub languages : Option (List String) → List String
languages none = []
languages (some l) = l

languages-or_empty : (o : Option (List String)) → or_empty o ≡ languages o
languages-or_empty none = refl
languages-or_empty (some l) = refl

module _ (py : Pydantic) (texts : Texts) where
  -- A post, a like and a follow that the ingest service dumped are decoded to the rows with the
  -- same fields, at the record's place; a post without languages has the empty list.
  pub decode-dump :
      (post : BskyPost) (like : BskyLike) (follow : BskyFollow) (p : Place)
      → (decode_post py texts (some (dump_post post)) p
          ≡ row (record {
            did = post.did;
            rkey = post.rkey;
            cid = post.cid;
            created_at = post.created_at;
            text = post.text;
            langs = languages post.langs;
            reply_parent = post.reply_parent;
            reply_root = post.reply_root;
            place = p;
          }))
        × (decode_like py texts (some (dump_like like)) p
            ≡ row (record {
              did = like.did;
              rkey = like.rkey;
              cid = like.cid;
              created_at = like.created_at;
              subject_uri = like.subject_uri;
              subject_cid = like.subject_cid;
              place = p;
            }))
        × (decode_follow py texts (some (dump_follow follow)) p
            ≡ row (record {
              did = follow.did;
              rkey = follow.rkey;
              cid = follow.cid;
              created_at = follow.created_at;
              subject_did = follow.subject_did;
              place = p;
            }))
  unfolding decode_post decode_like decode_follow
  decode-dump post like follow p = (
    rw (validate-dump_post, languages-or_empty) refl,
    simp (validate-dump_like),
    simp (validate-dump_follow),
  )

  -- A row stands where its record stood.
  pub decode_post-place :
      (d : Option Fields) (p : Place) (r : BronzeRow)
      → decode_post py texts d p ≡ row r
      → r.place ≡ p
  unfolding decode_post
  decode_post-place none p r e = cc
  decode_post-place (some d) p r e = ground arith

  pub decode_like-place :
      (d : Option Fields) (p : Place) (r : LikeRow) → decode_like py texts d p ≡ row r → r.place ≡ p
  unfolding decode_like
  decode_like-place none p r e = cc
  decode_like-place (some d) p r e = ground arith

  pub decode_follow-place :
      (d : Option Fields) (p : Place) (r : FollowRow)
      → decode_follow py texts d p ≡ row r
      → r.place ≡ p
  unfolding decode_follow
  decode_follow-place none p r e = cc
  decode_follow-place (some d) p r e = ground arith
