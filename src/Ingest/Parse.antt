-- ===== src/Ingest/Parse.antt =====
-- ingest/parse.py: from a Jetstream event to a typed model.
pub mod Routes
pub mod Errors
use bluesky_trends.Prelude.{String, Bool, true, false, not, Option, none, some, if◌then◌else◌}
use bluesky_trends.Json.{
  Value, null, str, bool, int, float, datetime, arr, obj, Fields, end, field, find, get, as_dict,
  as_str, is_text,
}
use bluesky_trends.Exceptions.{
  Result, ok, raised, Exception, value_error, key_error, type_error, Reason, not_a_commit,
  no_commit_object, unsupported_operation, no_record_object, unknown_collection, ◌>>=◌, ◌>>◌,
  raise_if,
}
use bluesky_trends.Schemas.Dump.{opt_str}
use bluesky_trends.Schemas.{
  Pydantic, BskyPost, BskyLike, BskyFollow, validate_post, validate_like, validate_follow,
}

pub data Event : Type 0 where
  post : BskyPost → Event
  like : BskyLike → Event
  follow : BskyFollow → Event

abbrev pub or_raise {ℓ} : {A : Type ℓ} → Exception → Option A → Result A
or_raise e none = raised e
or_raise e (some a) = ok a

-- `d[k]`
unfoldable pub item : String → Fields → Result Value
unfolding find
item k d = or_raise (key_error k) (find k d)

-- `v[k]` on any value: what is no dictionary takes no text as an index.
unfoldable pub subscript : String → Value → Result Value
unfolding item
subscript k (obj d) = item k d
subscript k _ = raised type_error

-- The keyword arguments that `_common` makes.
pub record Common : Type 0 where
  pub did : Value
  pub rkey : Value
  pub cid : Value
  pub created_at : Value

unfoldable pub common : Value → Fields → Fields → Result Common
unfolding item
common did commit record_ = do
  rkey ← item "rkey" commit
  cid ← item "cid" commit
  created_at ← item "createdAt" record_
  ok (record { did = did; rkey = rkey; cid = cid; created_at = created_at })

-- `**common` in front of further keyword arguments.
abbrev pub spread : Common → Fields → Fields
spread c rest =
    field "did" c.did
      (field "rkey" c.rkey (field "cid" c.cid (field "created_at" c.created_at rest)))

-- `_reply`
unfoldable pub reply : Fields → String → Option String
unfolding get
reply record_ side = elim (as_dict (get "reply" record_)) [
  | none ↦ none
  | some r ↦ elim (as_dict (get side r)) [ none ↦ none | some ref ↦ as_str (get "uri" ref) ]
]

module _ (py : Pydantic) where
  unfoldable pub to_post : Value → Fields → Fields → Result Event
  unfolding common validate_post
  to_post did commit record_ = do
    c ← common did commit record_
    text ← item "text" record_
    m ← validate_post py (
        spread c (
          field "text" text (
            field "langs" (get "langs" record_) (
              field "reply_parent" (opt_str (reply record_ "parent"))
                (field "reply_root" (opt_str (reply record_ "root")) end)))))
    ok (post m)

  unfoldable pub to_like : Value → Fields → Fields → Result Event
  unfolding common subscript validate_like
  to_like did commit record_ = do
    subject ← item "subject" record_
    c ← common did commit record_
    uri ← subscript "uri" subject
    cid ← subscript "cid" subject
    m ← validate_like py (spread c (field "subject_uri" uri (field "subject_cid" cid end)))
    ok (like m)

  unfoldable pub to_follow : Value → Fields → Fields → Result Event
  unfolding common validate_follow
  to_follow did commit record_ = do
    c ← common did commit record_
    subject ← item "subject" record_
    m ← validate_follow py (spread c (field "subject_did" subject end))
    ok (follow m)

  -- The branches on the collection.
  unfoldable pub by_collection : Value → Value → Fields → Fields → Result Event
  by_collection collection did commit record_ =
      if is_text "app.bsky.feed.post" collection
      then to_post did commit record_
      else if is_text "app.bsky.feed.like" collection
      then to_like did commit record_
      else if is_text "app.bsky.graph.follow" collection
      then to_follow did commit record_
      else raised (value_error unknown_collection)

  unfoldable pub to_model : Fields → Result Event
  unfolding item
  to_model event = do
    raise_if (not (is_text "commit" (get "kind" event))) (value_error not_a_commit)
    commit ← or_raise (value_error no_commit_object) (as_dict (get "commit" event))
    raise_if (not (is_text "create" (get "operation" commit))) (value_error unsupported_operation)
    record_ ← or_raise (value_error no_record_object) (as_dict (get "record" commit))
    did ← item "did" event
    by_collection (get "collection" commit) did commit record_
