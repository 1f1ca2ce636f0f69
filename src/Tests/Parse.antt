-- ===== src/Tests/Parse.antt =====
-- The theorems on the parser, the models and the metrics at concrete inputs.
use bluesky_trends.Prelude.{◌&&◌, ◌||◌, ◌≡◌, refl, true, not, none}
use bluesky_trends.Json.{Fields, obj, get, find, is_text}
use bluesky_trends.Exceptions.{ok}
use bluesky_trends.Ingest.Parse.{post, like, follow, reply, to_model}
use bluesky_trends.Ingest.Parse.Routes.{
  Creates, to_model-post, to_model-like, to_model-follow, to_model_sound,
}
use bluesky_trends.Ingest.Parse.Errors.{
  is_skip, creates_record, known_in, is_there, to_model-skips_iff,
}
use bluesky_trends.Samples.{
  pydantic, post_record, post_commit, post_event, like_subject, like_record, like_commit,
  follow_record, follow_commit, event_of,
}

to_model-post_example :
    to_model pydantic (post_event 5)
    ≡ ok (
        post (record {
          did = "did:a";
          rkey = "r1";
          cid = "c1";
          created_at = 0;
          text = "hello";
          langs = none;
          reply_parent = reply post_record "parent";
          reply_root = reply post_record "root";
        }))
to_model-post_example =
    to_model-post pydantic (post_event 5) post_commit post_record "did:a" "r1" "c1" "hello"
      "2026-06-01" 0 none (unfold get find in refl) (unfold get find in refl)
      (unfold get find in refl) (unfold get find in refl) (unfold get find in refl)
      (unfold find in refl) (unfold find in refl) (unfold find in refl) (unfold find in refl)
      (unfold find in refl) refl (unfold get find in refl)

to_model-like_example :
    to_model pydantic (event_of 5 (obj like_commit))
    ≡ ok (
        like (record {
          did = "did:a";
          rkey = "r1";
          cid = "c1";
          created_at = 0;
          subject_uri = "at://p";
          subject_cid = "c0";
        }))
to_model-like_example =
    to_model-like pydantic (event_of 5 (obj like_commit)) like_commit like_record like_subject
      "did:a" "r1" "c1" "2026-06-01" "at://p" "c0" 0 (unfold get find in refl)
      (unfold get find in refl) (unfold get find in refl) (unfold get find in refl)
      (unfold get find in refl) (unfold find in refl) (unfold find in refl) (unfold find in refl)
      (unfold find in refl) (unfold find in refl) (unfold find in refl) (unfold find in refl) refl

to_model-follow_example :
    to_model pydantic (event_of 5 (obj follow_commit))
    ≡ ok (
        follow (record {
          did = "did:a";
          rkey = "r1";
          cid = "c1";
          created_at = 0;
          subject_did = "did:b";
        }))
to_model-follow_example =
    to_model-follow pydantic (event_of 5 (obj follow_commit)) follow_commit follow_record "did:a"
      "r1" "c1" "2026-06-01" "did:b" 0 (unfold get find in refl) (unfold get find in refl)
      (unfold get find in refl) (unfold get find in refl) (unfold get find in refl)
      (unfold find in refl) (unfold find in refl) (unfold find in refl) (unfold find in refl)
      (unfold find in refl) refl

to_model_sound_example :
    (commit : Fields) × (record_ : Fields) × Creates pydantic (post_event 5) commit record_
    × (is_text "app.bsky.feed.post" (get "collection" commit) ≡ true)
to_model_sound_example = to_model_sound pydantic (post_event 5) (post _) to_model-post_example

to_model-skips_iff_example :
    is_skip (to_model pydantic (post_event 5))
    ≡ not (
        creates_record (post_event 5)
        && (known_in (get "commit" (post_event 5)) || not (is_there (find "did" (post_event 5)))))
to_model-skips_iff_example = to_model-skips_iff pydantic (post_event 5)
