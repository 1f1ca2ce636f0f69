-- ===== src/Dagster/Decode.antt =====
-- dagster/bsky_dagster/transforms/decode.py, decode_likes.py and decode_follows.py: from a
-- deserialized Kafka record to a bronze row or a DLQ row.
pub mod Laws
use bluesky_trends.Prelude.{ℕ, String, Bool, Option, none, some, List, []}
use bluesky_trends.Json.{Fields}
use bluesky_trends.Exceptions.{Result, ok, raised, Exception, ◌>>=◌}
use bluesky_trends.Schemas.{
  Pydantic, BskyPost, BskyLike, BskyFollow, validate_post, validate_like, validate_follow,
}

-- Where a record stands in Kafka and when it was read: the keyword arguments of the decoders.
pub record Place : Type 0 where
  pub kafka_partition : ℕ
  pub kafka_offset : ℕ
  pub ingest_ts : ℕ

pub record BronzeRow : Type 0 where
  pub did : String
  pub rkey : String
  pub cid : String
  pub created_at : ℕ
  pub text : String
  pub langs : List String
  pub reply_parent : Option String
  pub reply_root : Option String
  pub place : Place
  pub open place use *

pub record LikeRow : Type 0 where
  pub did : String
  pub rkey : String
  pub cid : String
  pub created_at : ℕ
  pub subject_uri : String
  pub subject_cid : String
  pub place : Place
  pub open place use *

pub record FollowRow : Type 0 where
  pub did : String
  pub rkey : String
  pub cid : String
  pub created_at : ℕ
  pub subject_did : String
  pub place : Place
  pub open place use *

pub record DlqRow : Type 0 where
  pub raw_payload : String
  pub error : String

-- A decoder's result is a row or a `DlqRow`.
pub data Decoded (Row : Type 0) : Type 0 where
  row : Row → Decoded Row
  dlq : DlqRow → Decoded Row

-- The texts that Python makes: `json.dumps`, where `none` is a `TypeError` or a `ValueError`,
-- `repr`, and the name and message of an exception.
pub record Texts : Type 0 where
  pub dumps : Fields → Option String
  pub repr : Fields → String
  pub describe : Exception → String

abbrev pub or_repr : String → Option String → String
or_repr text none = text
or_repr text (some json) = json

-- `_safe_json`
unfoldable pub safe_json : Texts → Fields → String
safe_json texts d = or_repr (texts.repr d) (texts.dumps d)

-- What a decoder does with `None`, and with an exception of its `try`. The models raise nothing
-- but what the `except` catches.
abbrev pub undecodable : DlqRow
undecodable = record { raw_payload = "null"; error = "empty or undecodable Avro payload" }

abbrev pub or_dlq : {Row : Type 0} → Texts → Fields → Result Row → Decoded Row
or_dlq texts d (ok r) = row r
or_dlq texts d (raised e) =
    dlq (record { raw_payload = safe_json texts d; error = texts.describe e })

-- `list(post.langs) if post.langs else []`
abbrev pub or_empty : Option (List String) → List String
or_empty none = []
or_empty (some l) = l

module _ (py : Pydantic) (texts : Texts) where
  abbrev pub post_row : Place → BskyPost → BronzeRow
  post_row p post = record {
    did = post.did;
    rkey = post.rkey;
    cid = post.cid;
    created_at = post.created_at;
    text = post.text;
    langs = or_empty post.langs;
    reply_parent = post.reply_parent;
    reply_root = post.reply_root;
    place = p;
  }

  unfoldable pub decode_post : Option Fields → Place → Decoded BronzeRow
  unfolding safe_json
  decode_post none p = dlq undecodable
  decode_post (some d) p = or_dlq texts d (do post ← validate_post py d; ok (post_row p post))

  abbrev pub like_row : Place → BskyLike → LikeRow
  like_row p like = record {
    did = like.did;
    rkey = like.rkey;
    cid = like.cid;
    created_at = like.created_at;
    subject_uri = like.subject_uri;
    subject_cid = like.subject_cid;
    place = p;
  }

  unfoldable pub decode_like : Option Fields → Place → Decoded LikeRow
  unfolding safe_json
  decode_like none p = dlq undecodable
  decode_like (some d) p = or_dlq texts d (do like ← validate_like py d; ok (like_row p like))

  abbrev pub follow_row : Place → BskyFollow → FollowRow
  follow_row p follow = record {
    did = follow.did;
    rkey = follow.rkey;
    cid = follow.cid;
    created_at = follow.created_at;
    subject_did = follow.subject_did;
    place = p;
  }

  unfoldable pub decode_follow : Option Fields → Place → Decoded FollowRow
  unfolding safe_json
  decode_follow none p = dlq undecodable
  decode_follow (some d) p =
      or_dlq texts d (do follow ← validate_follow py d; ok (follow_row p follow))
