-- ===== src/Schemas/Dump.antt =====
-- `model_dump()` of the models of schemas/models.py.
use bluesky_trends.Prelude.{String, ◌≡◌, Option, none, some, List}
use bluesky_trends.Json.{Value, null, str, datetime, arr, Fields, end, field}
use bluesky_trends.Exceptions.{ok}
use bluesky_trends.Schemas.{
  Pydantic, BskyPost, BskyLike, BskyFollow, DlqEnvelope, str_items, validate_post, validate_like,
  validate_follow,
}

abbrev pub opt_str : Option String → Value
opt_str none = null
opt_str (some s) = str s

abbrev pub opt_strs : Option (List String) → Value
opt_strs none = null
opt_strs (some ss) = arr (str_items ss)

abbrev pub dump_post : BskyPost → Fields
dump_post m = field "did" (str m.did) (
    field "rkey" (str m.rkey) (
      field "cid" (str m.cid) (
        field "created_at" (datetime m.created_at) (
          field "text" (str m.text) (
            field "langs" (opt_strs m.langs) (
              field "reply_parent" (opt_str m.reply_parent)
                (field "reply_root" (opt_str m.reply_root) end)))))))

abbrev pub dump_like : BskyLike → Fields
dump_like m = field "did" (str m.did) (
    field "rkey" (str m.rkey) (
      field "cid" (str m.cid) (
        field "created_at" (datetime m.created_at)
          (field "subject_uri" (str m.subject_uri) (field "subject_cid" (str m.subject_cid) end)))))

abbrev pub dump_follow : BskyFollow → Fields
dump_follow m = field "did" (str m.did) (
    field "rkey" (str m.rkey) (
      field "cid" (str m.cid)
        (field "created_at" (datetime m.created_at) (field "subject_did" (str m.subject_did) end))))

abbrev pub dump_dlq : DlqEnvelope → Fields
dump_dlq m = field "raw_payload" (str m.raw_payload) (
    field "error" (str m.error) (
      field "intended_topic" (str m.intended_topic)
        (field "received_at" (datetime m.received_at) end)))

module _ (py : Pydantic) where
  pub read_opt_str-opt_str : (o : Option String) → py.read_opt_str (opt_str o) ≡ some o
  read_opt_str-opt_str none = py.opt_str_null
  read_opt_str-opt_str (some s) = py.opt_str_str s

  read_opt_strs-opt_strs : (o : Option (List String)) → py.read_opt_strs (opt_strs o) ≡ some o
  read_opt_strs-opt_strs none = py.opt_strs_null
  read_opt_strs-opt_strs (some ss) = py.opt_strs_strs ss

  -- A post that was dumped is validated to the same post.
  pub validate-dump_post : (m : BskyPost) → validate_post py (dump_post m) ≡ ok m
  unfolding validate_post
  validate-dump_post m =
      simp (py.str_str, py.datetime_datetime, read_opt_strs-opt_strs, read_opt_str-opt_str)

  pub validate-dump_like : (m : BskyLike) → validate_like py (dump_like m) ≡ ok m
  unfolding validate_like
  validate-dump_like m = simp (py.str_str, py.datetime_datetime)

  pub validate-dump_follow : (m : BskyFollow) → validate_follow py (dump_follow m) ≡ ok m
  unfolding validate_follow
  validate-dump_follow m = simp (py.str_str, py.datetime_datetime)
