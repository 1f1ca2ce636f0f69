-- ===== src/Samples.antt =====
-- Concrete parameters and data for the tests: pydantic, the texts of Python, events of Jetstream,
-- and, in Broker, a queue in memory.
pub mod Catalog
pub mod Broker
pub mod Archiver
use bluesky_trends.Prelude.{
  ℕ, String, ◌≡◌, refl, ap, Bool, true, false, Option, none, some, List, [], ◌∷◌,
}
use bluesky_trends.Json.{
  Value, null, int, str, datetime, arr, obj, Items, nil, cons, Fields, end, field,
}
use bluesky_trends.Exceptions.{Exception}
use bluesky_trends.Schemas.{Pydantic, BskyPost, BskyLike, BskyFollow, str_items}
use bluesky_trends.Ingest.Consume.{Printing, Arrival}
use bluesky_trends.Ingest.CursorStore.{CursorStore}
use bluesky_trends.Dagster.Decode.{Texts}

abbrev read_datetime : Value → Option ℕ
read_datetime (datetime t) = some t
read_datetime (str _) = some 0
read_datetime _ = none

abbrev read_str : Value → Option String
read_str (str s) = some s
read_str _ = none

abbrev read_opt_str : Value → Option (Option String)
read_opt_str null = some none
read_opt_str (str s) = some (some s)
read_opt_str _ = none

abbrev with_head : Option String → Option (List String) → Option (List String)
with_head (some s) (some ss) = some (s ∷ ss)
with_head _ _ = none

abbrev texts_of : Items → Option (List String)
texts_of nil = some []
texts_of (cons v vs) = with_head (read_str v) (texts_of vs)

abbrev as_given : Option (List String) → Option (Option (List String))
as_given none = none
as_given (some ss) = some (some ss)

abbrev read_opt_strs : Value → Option (Option (List String))
read_opt_strs null = some none
read_opt_strs (arr vs) = as_given (texts_of vs)
read_opt_strs _ = none

pub texts_of-str_items : (ss : List String) → texts_of (str_items ss) ≡ some ss
texts_of-str_items [] = refl
texts_of-str_items (s ∷ ss) = ap (with_head (some s)) (texts_of-str_items ss)

abbrev pub pydantic : Pydantic
pydantic = record {
  read_str = read_str;
  read_datetime = read_datetime;
  read_opt_str = read_opt_str;
  read_opt_strs = read_opt_strs;
  str_str = λ s. refl;
  datetime_datetime = λ t. refl;
  opt_str_null = refl;
  opt_str_str = λ s. refl;
  opt_strs_null = refl;
  opt_strs_strs = λ ss. ap as_given (texts_of-str_items ss);
}

abbrev to_str : Value → String
to_str (str s) = s
to_str _ = "?"

abbrev pub printing : Printing
printing = record {
  dumps = λ d. "{}";
  repr = λ e. "error";
  to_str = to_str;
  to_str-str = λ s. refl;
}

abbrev pub texts : Texts
texts = record { dumps = λ d. some "{}"; repr = λ d. "{}"; describe = λ e. "error" }

abbrev pub post_record : Fields
post_record = field "text" (str "hello") (field "createdAt" (str "2026-06-01") end)

abbrev pub commit_of : String → Value → Fields
commit_of collection record_ = field "operation" (str "create") (
    field "collection" (str collection)
      (field "rkey" (str "r1") (field "cid" (str "c1") (field "record" record_ end))))

abbrev pub event_of : ℕ → Value → Fields
event_of time_us commit =
    field "did" (str "did:a")
      (field "time_us" (int time_us) (field "kind" (str "commit") (field "commit" commit end)))

abbrev pub post_commit : Fields
post_commit = commit_of "app.bsky.feed.post" (obj post_record)

abbrev pub post_event : ℕ → Fields
post_event time_us = event_of time_us (obj post_commit)

abbrev pub like_subject : Fields
like_subject = field "uri" (str "at://p") (field "cid" (str "c0") end)

abbrev pub like_record : Fields
like_record = field "subject" (obj like_subject) (field "createdAt" (str "2026-06-01") end)

abbrev pub like_commit : Fields
like_commit = commit_of "app.bsky.feed.like" (obj like_record)

abbrev pub follow_record : Fields
follow_record = field "subject" (str "did:b") (field "createdAt" (str "2026-06-01") end)

abbrev pub follow_commit : Fields
follow_commit = commit_of "app.bsky.graph.follow" (obj follow_record)

-- A post whose text is a number.
abbrev pub rejected_event : Fields
rejected_event = event_of 7 (
    obj (
      commit_of "app.bsky.feed.post"
        (obj (field "text" (int 3) (field "createdAt" (str "2026-06-01") end)))))

abbrev pub arrival : Fields → ℕ → Arrival
arrival event clock = record {
  event = event;
  stop = false;
  saves = true;
  monotonic = clock;
  wall = clock;
}

abbrev pub a_post : BskyPost
a_post = record {
  did = "did:a";
  rkey = "r1";
  cid = "c1";
  created_at = 3;
  text = "hello";
  langs = some ("en" ∷ []);
  reply_parent = none;
  reply_root = some "at://q";
}

abbrev pub a_like : BskyLike
a_like = record {
  did = "did:a";
  rkey = "r1";
  cid = "c1";
  created_at = 3;
  subject_uri = "at://p";
  subject_cid = "c0";
}

abbrev pub a_follow : BskyFollow
a_follow = record { did = "did:a"; rkey = "r1"; cid = "c1"; created_at = 3; subject_did = "did:b" }

abbrev pub empty_store : CursorStore
empty_store = record { rows = [] }
